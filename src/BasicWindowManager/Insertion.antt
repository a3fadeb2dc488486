-- ===== src/BasicWindowManager/Insertion.antt =====
-- miral/basic_window_manager.cpp, `place_new_surface`: where a new window goes.
pub mod Rules
pub mod Goal
pub mod Places
use miral.Prelude.{
  ℕ, Bool, true, false, not, ◌&&◌, Option, none, some, List, [], ◌∷◌, ◌++◌, ◌==◌, if◌then◌else◌,
}
use miral.Prelude.Int.{ℤ, pos, ◌+ℤ◌, ◌-ℤ◌, ltb_ℤ, eqb_ℤ, quotient}
use miral.Types.{
  normal, WindowState, restored, maximized, vertmaximized, fullscreen, horizmaximized,
}
use miral.Geometry.{Geometry, Point, Size, Rectangle, translate, between, origin}
use miral.MruWindowList.{Window}
use miral.WindowSpecification.{WindowSpecification}
use miral.WindowSpecification.Conversion.{CreationParameters, of_creation_parameters, update}
use miral.WindowInfo.{WindowInfo, Defaults, create, value_or_default, add_child}
use miral.ApplicationInfo.{ApplicationInfo, add_window}
use miral.Placement.{place_relative}
use miral.BasicWindowManager.Surfaces.{SurfaceApi}
use miral.BasicWindowManager.State.{
  Manager, advise_new_window, placed_relative, Result, ok, ◌>>=◌, or_logic_error, find_info,
  set_info, tell, info_for, application_for, set_application, handle, window_top_left, window_size,
}
use miral.BasicWindowManager.StateChange.{DisplayLayout}
use miral.BasicWindowManager.Workspaces.{workspaces_containing, add_tree_to_workspace}
use miral.BasicWindowManager.Transition.{listed_fullscreen}

-- The type and the state that a window has unless the client asks for others.
abbrev pub with_defaults : WindowSpecification → WindowSpecification
with_defaults parameters = record parameters {
  type = some (value_or_default parameters.type normal);
  state = some (value_or_default parameters.state restored);
}

abbrev pub requested_parent : WindowSpecification → Option Window
requested_parent parameters = value_or_default parameters.parent none

abbrev pub is_set : {A : Type 0} → Option A → Bool
is_set none = false
is_set (some a) = true

abbrev pub moved_to : WindowSpecification → Point → WindowSpecification
moved_to parameters p = record parameters { top_left = some p }

abbrev pub with_place : WindowSpecification → Rectangle → WindowSpecification
with_place parameters r = record parameters { top_left = some r.top_left; size = some r.size }

-- A place in the middle, but for a sixth of the difference in height further up. `height` is what was asked for.
unfoldable pub centred_in : Geometry → Rectangle → Size → ℤ → Point
centred_in g outer size height = record {
  x = outer.top_left.x +ℤ g.half (outer.size.width -ℤ size.width);
  y =
      outer.top_left.y
      +ℤ g.half (outer.size.height -ℤ size.height)
      -ℤ quotient (outer.size.height -ℤ height) (pos 6);
}

-- The place on the active display of a window that nothing else has placed.
unfoldable pub default_place : WindowState → Rectangle → Point → Size → Rectangle
default_place fullscreen area centred size = area
default_place maximized area centred size = area
default_place vertmaximized area centred size = record {
  top_left = record centred { y = area.top_left.y };
  size = record size { height = area.size.height };
}
default_place horizmaximized area centred size = record {
  top_left = record centred { x = area.top_left.x };
  size = record size { width = area.size.width };
}
default_place _ area centred size = record { top_left = centred; size = size }

-- No window starts above the displays.
unfoldable pub not_above : Rectangle → Point → Point
not_above display_area p =
    if ltb_ℤ p.y display_area.top_left.y then record p { y = display_area.top_left.y } else p

abbrev pub first_window : List Window → Option Window
first_window [] = none
first_window (w ∷ windows) = some w

abbrev pub names_output : Option ℤ → Bool
names_output none = false
names_output (some id) = not (eqb_ℤ id (pos 0))

module _ {Surface : Type 0} (api : SurfaceApi Surface) (g : Geometry) (layout : DisplayLayout)
    (active_display : Rectangle) where
  -- Whether the window is positioned, with its specification.
  abbrev pub Placed : Type 0
  Placed = Bool × WindowSpecification

  -- The client names an output.
  unfoldable pub place_on_output : ℤ → Size → WindowSpecification → Result Placed
  place_on_output id size parameters = do
    top_left ← or_logic_error parameters.top_left
    let rect = (layout.place_in_output id (record { top_left = top_left; size = size })).1
    ok (true, record (with_place parameters rect) { state = some fullscreen })

  -- Next to the first window of the application, if it has one that is there.
  unfoldable pub place_by_default_window :
      Manager Surface → Option Window → Size → WindowSpecification → Placed
  place_by_default_window m none size parameters = (false, parameters)
  place_by_default_window m (some default_window) size parameters =
      let default_rect : Rectangle = record {
        top_left = window_top_left api m default_window;
        size = window_size api m default_window;
      } in
      let top_left = translate default_rect.top_left (record { dx = pos 12; dy = pos 12 }) in
      (
        g.overlaps (layout.size_to_output default_rect)
            (record { top_left = top_left; size = size }),
        moved_to parameters top_left,
      )

  -- A window with a parent is left to the next step.
  unfoldable pub place_unnamed :
      Manager Surface → ApplicationInfo → Option Window → Size → WindowSpecification → Placed
  place_unnamed m app_info (some parent) size parameters = (false, parameters)
  place_unnamed m app_info none size parameters =
      place_by_default_window m (handle m (first_window app_info.windows)) size parameters

  -- The first of the three steps.
  unfoldable pub place_first :
      Manager Surface → ApplicationInfo → Option Window → Size → WindowSpecification → Result Placed
  place_first m app_info parent size parameters =
      if names_output parameters.output_id
      then place_on_output (value_or_default parameters.output_id (pos 0)) size parameters
      else ok (place_unnamed m app_info parent size parameters)

  -- In the middle of its parent, or as the placement that the client asks for has it.
  unfoldable pub place_on_parent : Rectangle → Size → ℤ → WindowSpecification → Bool → Result Placed
  place_on_parent parent size height parameters true = do
    position ← or_logic_error (place_relative g active_display parent parameters size)
    ok (true, with_place parameters position)
  place_on_parent parent size height parameters false =
      ok (true, moved_to parameters (centred_in g parent size height))

  -- The second step, `if (has_parent)`.
  unfoldable pub place_by_parent : Manager Surface → Option Window → ℤ → Placed → Result Placed
  place_by_parent m none height placed = ok placed
  place_by_parent m (some w) height (positioned, parameters) = do
    info ← info_for m w
    size ← or_logic_error parameters.size
    place_on_parent
        (record {
          top_left = window_top_left api m info.window;
          size = window_size api m info.window;
        })
        size height parameters (is_set parameters.aux_rect && is_set parameters.placement_hints)

  -- The third step, `if (!positioned)`.
  unfoldable pub place_unpositioned : Manager Surface → ℤ → Placed → Result WindowSpecification
  place_unpositioned m height (true, parameters) = ok parameters
  place_unpositioned m height (false, parameters) = do
    size ← or_logic_error parameters.size
    state ← or_logic_error parameters.state
    let place = default_place state active_display (centred_in g active_display size height) size
    ok (
        moved_to (with_place parameters place)
          (not_above (layout.bounding_rectangle m.displays) place.top_left))

  -- The three steps, for the size that is asked for.
  unfoldable pub place_requested :
      Manager Surface → ApplicationInfo → WindowSpecification → Size → Result WindowSpecification
  place_requested m app_info requested size = do
    let parent = handle m (requested_parent requested)
    first ← place_first m app_info parent size requested
    second ← place_by_parent m parent size.height first
    place_unpositioned m size.height second

  unfoldable pub place_new_surface :
      Manager Surface → ApplicationInfo → WindowSpecification → Result WindowSpecification
  place_new_surface m app_info parameters =
      or_logic_error parameters.size >>= place_requested m app_info (with_defaults parameters)
