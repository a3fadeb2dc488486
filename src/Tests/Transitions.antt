-- ===== src/Tests/Transitions.antt =====
-- Changes of the state of a window at concrete inputs.
use miral.Prelude.{◌≡◌, refl}
use miral.Types.{minimized}
use miral.BasicWindowManager.State.{Manager, ok, find_info, info_for}
use miral.BasicWindowManager.Transition.{set_state}
use miral.BasicWindowManager.Transition.Applied.{IsApplied, set_state-Applied}
use miral.Tests.Samples.{SampleSurface, surfaces}
use miral.Tests.Managers.{manager, manager-IsForest, depth, parent_window}
use miral.Tests.Removals.{lives}

set_state-Applied_example :
    (n : Manager SampleSurface) × (set_state surfaces 4 lives manager parent_window minimized
      ≡ ok n)
    × IsApplied surfaces manager n parent_window minimized
unfolding info_for find_info
set_state-Applied_example =
    set_state-Applied surfaces lives manager depth 1 parent_window minimized manager-IsForest refl
