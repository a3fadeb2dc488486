-- ===== src/BasicWindowManager/StateChange/Restore.antt =====
-- Two changes of state one after the other, by `place_and_size_for_state` of miral/basic_window_manager.cpp.
use miral.Prelude.{◌≡◌, ◌≢◌, Option, some, arith}
use miral.Prelude.Int.{ℤ}
use miral.Types.{WindowState, restored, fullscreen}
use miral.Geometry.{Rectangle}
use miral.WindowSpecification.{WindowSpecification, no_specification}
use miral.WindowInfo.{WindowInfo}
use miral.BasicWindowManager.StateChange.{
  Surroundings, current_restore_rect, override, rect_for, other_output, stays, place_for,
  place_and_size_for_state,
}

abbrev pub request : WindowState → WindowSpecification
request value = record no_specification { state = some value }

-- The record once the change of state has been carried out: the restore rectangle was cached before it.
abbrev pub changed_to : WindowState → Rectangle → WindowInfo → WindowInfo
changed_to value window info = record info {
  state = value;
  restore_rect = current_restore_rect info.state window info.restore_rect;
}

-- A restored window that changes to any other state, goes where `place_and_size_for_state` puts it, and is
-- restored, is put back exactly where it was.
pub place_and_size_for_state-restored :
    (s : Surroundings) (info : WindowInfo) (value : WindowState)
    → info.state ≡ restored
    → value ≢ restored
    → place_and_size_for_state
        (record s { window = override (place_and_size_for_state s (request value) info) s.window })
        (request restored)
        (changed_to value s.window info)
      ≡ record (request restored) { top_left = some s.window.top_left; size = some s.window.size }
unfolding place_and_size_for_state place_for stays rect_for current_restore_rect other_output
place_and_size_for_state-restored s info value h n = ground (arith, h)

-- The rectangle of a request for fullscreen does not depend on the output that the request names, unless the
-- window is fullscreen already.
pub place_and_size_for_state-output :
    (s : Surroundings) (info : WindowInfo) (modifications : WindowSpecification) (a b : Option ℤ)
    → modifications.state ≡ some fullscreen
    → info.state ≢ fullscreen
    → ((place_and_size_for_state s (record modifications { output_id = a }) info).top_left
        ≡ (place_and_size_for_state s (record modifications { output_id = b }) info).top_left)
      × ((place_and_size_for_state s (record modifications { output_id = a }) info).size
          ≡ (place_and_size_for_state s (record modifications { output_id = b }) info).size)
unfolding place_and_size_for_state place_for stays rect_for current_restore_rect other_output
place_and_size_for_state-output s info modifications a b h n =
    (ground (arith, h), ground (arith, h))
