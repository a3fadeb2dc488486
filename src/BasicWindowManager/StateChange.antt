-- ===== src/BasicWindowManager/StateChange.antt =====
-- miral/basic_window_manager.cpp: where a window goes when its state changes (`place_and_size_for_state`), and
-- the rectangle that it is restored to later.
pub mod Restore
use miral.Prelude.{ℕ, Bool, true, false, not, Option, none, some, List, if◌then◌else◌}
use miral.Prelude.Int.{ℤ, eqb_ℤ}
use miral.Types.{
  WindowState, restored, minimized, maximized, vertmaximized, fullscreen, horizmaximized, hidden,
  state_eq,
}
use miral.Geometry.{Point, Size, Rectangle}
use miral.WindowSpecification.{WindowSpecification}
use miral.WindowInfo.{WindowInfo, value_or_default}

-- mir::shell::DisplayLayout, and the `bounding_rectangle` of mir::geometry::Rectangles. `place_in_output`
-- tells whether there is such an output.
pub record DisplayLayout : Type 0 where
  pub place_in_output : ℤ → Rectangle → Bool × Rectangle
  pub size_to_output : Rectangle → Rectangle
  pub bounding_rectangle : List Rectangle → Rectangle

-- What `place_and_size_for_state` reads besides the request and the record of the window: the displays, and
-- the top left corner and the size of the window.
pub record Surroundings : Type 0 where
  pub layout : DisplayLayout
  pub displays : List Rectangle
  pub window : Rectangle

abbrev placed_or_sized : DisplayLayout → Bool × Rectangle → Rectangle
placed_or_sized layout (true, r) = r
placed_or_sized layout (false, r) = layout.size_to_output r

unfoldable pub fullscreen_rect_for : DisplayLayout → Rectangle → Option ℤ → Rectangle
fullscreen_rect_for layout r none = layout.size_to_output r
fullscreen_rect_for layout r (some id) = placed_or_sized layout (layout.place_in_output id r)

-- The restore rectangle was cached on the last change of state; this brings it up to date. `modify_window`
-- caches the same rectangle before it changes the state.
unfoldable pub current_restore_rect : WindowState → Rectangle → Rectangle → Rectangle
current_restore_rect restored window cached = window
current_restore_rect hidden window cached = window
current_restore_rect vertmaximized window cached = record {
  top_left = record cached.top_left { x = window.top_left.x };
  size = record cached.size { width = window.size.width };
}
current_restore_rect horizmaximized window cached = record {
  top_left = record cached.top_left { y = window.top_left.y };
  size = record cached.size { height = window.size.height };
}
current_restore_rect _ window cached = cached

-- What the request itself sets overrides it.
abbrev pub override : WindowSpecification → Rectangle → Rectangle
override modifications r = record {
  top_left = value_or_default modifications.top_left r.top_left;
  size = value_or_default modifications.size r.size;
}

-- The rectangle for the new state, if that state has one.
unfoldable pub rect_for : WindowState → Rectangle → Rectangle → Rectangle → Option Rectangle
rect_for restored restore_rect display_area full = some restore_rect
rect_for maximized restore_rect display_area full = some display_area
rect_for horizmaximized restore_rect display_area full = some (record {
  top_left = record { x = display_area.top_left.x; y = restore_rect.top_left.y };
  size = record { width = display_area.size.width; height = restore_rect.size.height };
})
rect_for vertmaximized restore_rect display_area full = some (record {
  top_left = record { x = restore_rect.top_left.x; y = display_area.top_left.y };
  size = record { width = restore_rect.size.width; height = display_area.size.height };
})
rect_for fullscreen restore_rect display_area full = some full
rect_for _ restore_rect display_area full = none

-- `modifications.output_id().is_set() && (!window_info.has_output_id() || … != window_info.output_id())`
unfoldable pub other_output : Option ℤ → Option ℤ → Bool
other_output none present = false
other_output (some id) none = true
other_output (some id) (some present) = not (eqb_ℤ id present)

-- The state that a window has already changes nothing, but for fullscreen on another output.
unfoldable pub stays : WindowState → WindowSpecification → WindowInfo → Bool
stays fullscreen modifications info =
    if other_output modifications.output_id info.output_id
    then false
    else state_eq fullscreen info.state
stays new_state modifications info = state_eq new_state info.state

abbrev pub with_rect : Option Rectangle → WindowSpecification → WindowSpecification
with_rect none modifications = modifications
with_rect (some rect) modifications = record modifications {
  top_left = some rect.top_left;
  size = some rect.size;
}

unfoldable pub place_for :
    Surroundings → WindowState → WindowSpecification → WindowInfo → WindowSpecification
place_for s new_state modifications info =
    let restore_rect =
      override modifications (current_restore_rect info.state s.window info.restore_rect) in
    let rect =
      rect_for new_state restore_rect (s.layout.bounding_rectangle s.displays)
        (fullscreen_rect_for s.layout s.window info.output_id) in
    if stays new_state modifications info then modifications else with_rect rect modifications

unfoldable pub place_and_size_for_state :
    Surroundings → WindowSpecification → WindowInfo → WindowSpecification
unfolding place_for
place_and_size_for_state s modifications info = elim modifications.state [
  | none ↦ modifications
  | some new_state ↦ place_for s new_state modifications info
]
