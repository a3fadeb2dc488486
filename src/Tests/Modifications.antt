-- ===== src/Tests/Modifications.antt =====
-- The change of a window's parent in miral/basic_window_manager.cpp, at a concrete input.
use miral.Prelude.{◌≡◌, refl, none}
use miral.BasicWindowManager.State.{Manager, ok, info_for, find_info, alive}
use miral.BasicWindowManager.Family.{IsFamily}
use miral.WindowInfo.{WindowInfo}
use miral.BasicWindowManager.Modification.{reparent}
use miral.BasicWindowManager.Modification.Reparent.{reparent-IsFamily, Reparents}
use miral.Tests.Samples.{SampleSurface}
use miral.Tests.Managers.{manager, depth, child_window, no_handle}
use miral.Tests.Removals.{manager-IsFamily}

-- The dialog without its parent.
abbrev free_dialog : WindowInfo
free_dialog = record child_window { parent = none }

request : Reparents manager depth child_window free_dialog
unfolding info_for find_info alive
request = record {
  known = refl;
  window = refl;
  children = refl;
  above = λ p at. absurd (no_handle at);
}

reparent-IsFamily_example :
    (n : Manager SampleSurface) × (reparent manager child_window free_dialog ≡ ok n)
    × IsFamily n depth 1
    × (info_for n 2 ≡ ok free_dialog)
reparent-IsFamily_example =
    reparent-IsFamily manager depth 1 child_window free_dialog manager-IsFamily request
