-- ===== src/BasicWindowManager/Insertion/Places.antt =====
-- `place_new_surface` in miral/basic_window_manager.cpp: what it sets.
use miral.Prelude.{◌≡◌, Bool, true, false, Option, none, some, ◌⊎◌}
use miral.Types.{WindowState}
use miral.Geometry.{Geometry, Point, Size, Rectangle}
use miral.MruWindowList.{Window}
use miral.WindowSpecification.{WindowSpecification}
use miral.WindowInfo.{WindowInfo}
use miral.ApplicationInfo.{ApplicationInfo}
use miral.BasicWindowManager.Surfaces.{SurfaceApi}
use miral.BasicWindowManager.State.{Manager}
use miral.BasicWindowManager.StateChange.{DisplayLayout}
use miral.BasicWindowManager.Insertion.Rules.{replaced}
use miral.BasicWindowManager.Insertion.Goal

module _ {Surface : Type 0} (api : SurfaceApi Surface) (g : Geometry) (layout : DisplayLayout)
    (active_display : Rectangle) (m : Manager Surface) (app_info : ApplicationInfo)
    (parameters : WindowSpecification) (size : Size) where
  abbrev asked_state : WindowState
  asked_state = Goal.asked_state api g layout active_display m app_info parameters size

  abbrev parent : Option Window
  parent = Goal.parent api g layout active_display m app_info parameters size

  abbrev rect_of : Window → Rectangle
  rect_of = Goal.rect_of api g layout active_display m app_info parameters size

  abbrev middle : Rectangle → Size → Point
  middle = Goal.middle api g layout active_display m app_info parameters size

  abbrev cascade : Window → Rectangle
  cascade = Goal.cascade api g layout active_display m app_info parameters size

  abbrev on_screen : Window → Bool
  on_screen = Goal.on_screen api g layout active_display m app_info parameters size

  abbrev first : Option Window
  first = Goal.first api g layout active_display m app_info parameters size

  abbrev Starts : Option Point → Size → WindowState → Type 0
  Starts = Goal.Starts api g layout active_display m app_info parameters size

  abbrev Goes : Point → Size → WindowState → Type 0
  Goes = Goal.Goes api g layout active_display m app_info parameters size

  abbrev Placed : WindowSpecification → Type 0
  Placed = Goal.Placed api g layout active_display m app_info parameters size

  -- What the first step leaves to the next one.
  Begun : Bool × WindowSpecification → Type 0
  Begun (positioned, spec) =
      (p : Option Point) × (s : Size) × (now : WindowState) × (spec ≡ replaced parameters p s now)
      × (((positioned ≡ false) × Starts none s now)
          ⊎ ((positioned ≡ true) × (q : Point) × (p ≡ some q) × Starts (some q) s now))

  Halfway : Bool × WindowSpecification → Type 0
  Halfway (positioned, spec) =
      (p : Option Point) × (s : Size) × (now : WindowState) × (spec ≡ replaced parameters p s now)
      × (((positioned ≡ false) × (parent ≡ none) × Starts none s now)
          ⊎ ((positioned ≡ true) × (q : Point) × (p ≡ some q) × Goes q s now))

  abbrev asked : WindowSpecification
  asked = replaced parameters parameters.top_left size asked_state
