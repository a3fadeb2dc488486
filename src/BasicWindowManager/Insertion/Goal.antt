-- ===== src/BasicWindowManager/Insertion/Goal.antt =====
-- Where `place_new_surface` in miral/basic_window_manager.cpp is to put a window, whatever the steps that find it.
use miral.Prelude.{◌≡◌, ◌≢◌, Bool, true, false, ◌&&◌, Option, none, some}
use miral.Prelude.Int.{ℤ, pos, ◌+ℤ◌, ◌-ℤ◌, quotient}
use miral.Types.{WindowState, restored, fullscreen}
use miral.Geometry.{Geometry, Point, Size, Rectangle}
use miral.MruWindowList.{Window}
use miral.WindowSpecification.{WindowSpecification}
use miral.WindowInfo.{WindowInfo, value_or_default}
use miral.ApplicationInfo.{ApplicationInfo}
use miral.Placement.{place_relative}
use miral.BasicWindowManager.Surfaces.{SurfaceApi}
use miral.BasicWindowManager.State.{Manager, ok, info_for, handle, window_top_left, window_size}
use miral.BasicWindowManager.StateChange.{DisplayLayout}
use miral.BasicWindowManager.Insertion.{requested_parent, is_set, first_window}
use miral.BasicWindowManager.Insertion.Rules.{replaced, Unnamed, filling, lowered}

module _ {Surface : Type 0} (api : SurfaceApi Surface) (g : Geometry) (layout : DisplayLayout)
    (active_display : Rectangle) (m : Manager Surface) (app_info : ApplicationInfo)
    (parameters : WindowSpecification) (size : Size) where
  abbrev pub asked_state : WindowState
  asked_state = value_or_default parameters.state restored

  abbrev pub parent : Option Window
  parent = handle m (requested_parent parameters)

  abbrev pub rect_of : Window → Rectangle
  rect_of w = record { top_left = window_top_left api m w; size = window_size api m w }

  -- In the middle, and up by a sixth of the height that the size asked for leaves free.
  abbrev pub middle : Rectangle → Size → Point
  middle outer s = record {
    x = outer.top_left.x +ℤ g.half (outer.size.width -ℤ s.width);
    y =
        outer.top_left.y
        +ℤ g.half (outer.size.height -ℤ s.height)
        -ℤ quotient (outer.size.height -ℤ size.height) (pos 6);
  }

  -- Twelve to the right of a window, and twelve below it.
  abbrev pub cascade : Window → Rectangle
  cascade w = record {
    top_left = record {
      x = (rect_of w).top_left.x +ℤ pos 12;
      y = (rect_of w).top_left.y +ℤ pos 12;
    };
    size = size;
  }

  abbrev pub on_screen : Window → Bool
  on_screen w = g.overlaps (layout.size_to_output (rect_of w)) (cascade w)

  abbrev pub first : Option Window
  first = handle m (first_window app_info.windows)

  -- Where the window goes before its parent and the active display count: to the output that the client names, or near
  -- the first window of the application, where that is on the screen, or nowhere yet.
  pub data Starts : Option Point → Size → WindowState → Type 0 where
    on_output :
        (id : ℤ) (p : Point)
        → parameters.output_id ≡ some id
        → id ≢ pos 0
        → parameters.top_left ≡ some p
        → Starts
            (some (layout.place_in_output id (record { top_left = p; size = size })).1.top_left)
            (layout.place_in_output id (record { top_left = p; size = size })).1.size
            fullscreen
    cascaded :
        (w : Window)
        → Unnamed parameters.output_id
        → parent ≡ none
        → first ≡ some w
        → on_screen w ≡ true
        → Starts (some (cascade w).top_left) size asked_state
    with_parent :
        (p : Window) → Unnamed parameters.output_id → parent ≡ some p → Starts none size asked_state
    alone :
        Unnamed parameters.output_id → parent ≡ none → first ≡ none → Starts none size asked_state
    off_screen :
        (w : Window)
        → Unnamed parameters.output_id
        → parent ≡ none
        → first ≡ some w
        → on_screen w ≡ false
        → Starts none size asked_state

  -- Where it goes in the end.
  pub data Goes : Point → Size → WindowState → Type 0 where
    started :
        (q : Point) (s : Size) (now : WindowState)
        → parent ≡ none
        → Starts (some q) s now
        → Goes q s now
    in_parent :
        (w : Window) (info : WindowInfo) (o : Option Point) (s : Size) (now : WindowState)
        → parent ≡ some w
        → info_for m w ≡ ok info
        → is_set parameters.aux_rect && is_set parameters.placement_hints ≡ false
        → Starts o s now
        → Goes (middle (rect_of info.window) s) s now
    by_parent :
        (w : Window) (info : WindowInfo) (o : Option Point) (s : Size) (now : WindowState)
        (r : Rectangle)
        → parent ≡ some w
        → info_for m w ≡ ok info
        → is_set parameters.aux_rect && is_set parameters.placement_hints ≡ true
        → Starts o s now
        → place_relative g active_display
            (rect_of info.window)
            (record parameters { size = some s })
            s
          ≡ some r
        → Goes r.top_left r.size now
    on_display :
        (s : Size) (now : WindowState)
        → parent ≡ none
        → Starts none s now
        → Goes
            (lowered
              (layout.bounding_rectangle m.displays).top_left.y
              (filling now active_display (middle active_display s) s).top_left)
            (filling now active_display (middle active_display s) s).size
            now

  -- The result: the window goes where it is to go, and all else but its type is what was asked for.
  abbrev pub Placed : WindowSpecification → Type 0
  Placed placed =
      (p : Point) × (s : Size) × (now : WindowState) × (placed ≡ replaced parameters (some p) s now)
      × Goes p s now
