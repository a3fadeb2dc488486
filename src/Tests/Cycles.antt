-- ===== src/Tests/Cycles.antt =====
-- The focus within an application of miral/basic_window_manager.cpp, at concrete inputs.
use miral.Prelude.{◌≡◌, refl, some, [], ◌∷◌, List, reverse}
use miral.Types.{hidden}
use miral.MruWindowList.{top}
use miral.WindowInfo.{WindowInfo, can_be_active, is_visible}
use miral.ApplicationInfo.{ApplicationInfo}
use miral.BasicWindowManager.State.{
  Manager, Call, ok, tell, find_info, info_for, application_for, alive, active_window, visible,
  info_visible,
}
use miral.BasicWindowManager.Focus.{
  select_active_window, try_hint, try_child, try_window, try_parent, visible_dialog, can_have_focus,
}
use miral.BasicWindowManager.Activation.{share_workspace}
use miral.BasicWindowManager.Workspaces.{workspaces_containing, workspaces_of}
use miral.BasicWindowManager.Cycling.{focus_next_within_application, focus_prev_within_application}
use miral.BasicWindowManager.Cycling.Cycled.{Cycled}
use miral.BasicWindowManager.Cycling.Within.{IsActive, focus_within_application-Cycled}
use miral.BasicWindowManager.Cycling.Stuck.{focus_next_within_application-stuck}
use miral.Tests.Samples.{SampleSurface, surfaces}
use miral.Tests.Infos.{terminal}
use miral.Tests.Managers.{manager, manager-IsForest, depth, parent_window, child_window}
use miral.Tests.Removals.{lives}

abbrev application : ApplicationInfo
application = record { application = 7; windows = 1 ∷ 2 ∷ [] }

is_active : IsActive surfaces manager 1 7 application
unfolding active_window visible top info_for find_info application_for
is_active = record {
  active = refl;
  owner = refl;
  recorded = refl;
  listed = refl;
  known = ((parent_window, refl), ((child_window, refl), tt));
}

focus_within_application-Cycled_example :
    ((n : Manager SampleSurface) × (focus_next_within_application surfaces 4 lives manager ≡ ok n)
      × Cycled surfaces manager depth 1 manager-IsForest 1 (1 ∷ 2 ∷ []) n)
    × ((n : Manager SampleSurface) × (focus_prev_within_application surfaces 4 lives manager ≡ ok n)
        × Cycled surfaces manager depth 1 manager-IsForest 1 (reverse (1 ∷ 2 ∷ [])) n)
focus_within_application-Cycled_example =
    focus_within_application-Cycled surfaces manager depth 1 manager-IsForest lives 1 7 application
      is_active

-- Three windows of an application in one workspace, the second of which is hidden.
abbrev hidden_window : WindowInfo
hidden_window = record terminal { window = 2; state = hidden }

abbrev third_window : WindowInfo
third_window = record terminal { window = 3 }

abbrev three_windows : ApplicationInfo
three_windows = record application { windows = 1 ∷ 2 ∷ 3 ∷ [] }

abbrev desk : Manager SampleSurface
desk = record manager {
  app_info = three_windows ∷ [];
  window_info = terminal ∷ hidden_window ∷ third_window ∷ [];
  workspaces_to_windows = (0, 1) ∷ (0, 2) ∷ (0, 3) ∷ [];
}

focus_next_within_application-stuck_example :
    (focus_next_within_application surfaces 4 lives desk ≡ ok desk)
    × ((calls : List Call) × (desk ≡ tell desk calls))
    × (active_window surfaces desk ≡ some 1)
unfolding active_window visible top info_for find_info application_for share_workspace
    workspaces_containing workspaces_of select_active_window try_hint try_child try_window
    try_parent visible_dialog can_have_focus info_visible is_visible can_be_active alive
focus_next_within_application-stuck_example =
    focus_next_within_application-stuck surfaces 4 lives desk desk 1 2 7 (3 ∷ []) three_windows refl
      refl refl refl refl refl
