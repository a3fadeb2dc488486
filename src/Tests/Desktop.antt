-- ===== src/Tests/Desktop.antt =====
-- Events, displays, changes of state and workspaces at concrete inputs.
use miral.Prelude.{
  ◌↔◌, ◌⊎◌, ◌≡◌, refl, Bool, true, false, not, ◌&&◌, ◌||◌, none, some, List, [], ◌∷◌, ◌==◌, arith,
  ℕ, Option, if◌then◌else◌,
}
use miral.Prelude.Int.{pos}
use miral.Types.{restored, vertmaximized, fullscreen}
use miral.Geometry.{Rectangle, Displacement, translate}
use miral.WindowInfo.{WindowInfo}
use miral.BasicWindowManager.Input.{button_down, other_action}
use miral.BasicWindowManager.State.{
  Manager, ok, tell, info_for, find_info, alive, handle_raise_window,
}
use miral.BasicWindowManager.Events.{
  handle_raise_surface, handle_keyboard_event, handle_pointer_event,
}
use miral.BasicWindowManager.Events.Timestamp.{
  Event, keyboard, pointer, after_events, handle_raise_surface-latest,
}
use miral.BasicWindowManager.Displays.{active_display}
use miral.BasicWindowManager.Displays.Active.{Largest, active_display-Largest}
use miral.BasicWindowManager.StateChange.{
  DisplayLayout, Surroundings, override, place_and_size_for_state,
}
use miral.BasicWindowManager.StateChange.Restore.{
  request, changed_to, place_and_size_for_state-restored, place_and_size_for_state-output,
}
use miral.BasicWindowManager.Forest.{Told}
use miral.BasicWindowManager.Raise.{raise_tree}
use miral.BasicWindowManager.Raise.Order.{Raised, raise_tree-Raised}
use miral.BasicWindowManager.Workspaces.{
  in_workspace, add_tree_to_workspace, remove_tree_from_workspace,
  move_workspace_content_to_workspace,
}
use miral.BasicWindowManager.Workspaces.Content.{move_workspace_content_to_workspace-in_workspace}
use miral.BasicWindowManager.State.{window_top_left, window_size}
use miral.MruWindowList.{Window}
use miral.BasicWindowManager.Movement.{drag_window}
use miral.BasicWindowManager.Workspaces.Membership.{
  add_tree_to_workspace-InTree, remove_tree_from_workspace-InTree,
}
use miral.BasicWindowManager.Workspaces.Descent.{InTree}
use miral.BasicWindowManager.Forest.{IsForest}
use miral.BasicWindowManager.Movement.Drag.{drag_window-allowed}
use miral.Tests.Samples.{surfaces, shown, geometry, rect, at, SampleSurface}
use miral.Tests.Infos.{terminal}
use miral.Tests.Managers.{manager, depth, manager-IsForest, parent_window, child_window}

-- The latest first: the pointer moves after a button was pressed.
abbrev events : List Event
events =
    pointer (record { event_time = 30; action = other_action; position = at (pos 5) (pos 5) })
    ∷ pointer (record { event_time = 20; action = button_down; position = at (pos 4) (pos 5) })
    ∷ keyboard (record { event_time = 10 })
    ∷ []

abbrev ignored : Event → Bool
ignored e = false

handle_raise_surface-latest_example :
    handle_raise_surface (after_events ignored manager events) 1 25
    ≡ ok (tell (after_events ignored manager events) (handle_raise_window 1 ∷ []))
unfolding info_for find_info handle_keyboard_event handle_pointer_event
handle_raise_surface-latest_example =
    handle_raise_surface-latest ignored manager events 1 25 {info = parent_window} refl

abbrev two_displays : List Rectangle
two_displays =
    rect (pos 0) (pos 0) (pos 640) (pos 480) ∷ rect (pos 640) (pos 0) (pos 640) (pos 480) ∷ []

active_display-Largest_example :
    Largest geometry (rect (pos 600) (pos 10) (pos 100) (pos 80)) two_displays (
      active_display geometry
        (some (rect (pos 600) (pos 10) (pos 100) (pos 80)))
        two_displays
        (at (pos 1) (pos 1)))
active_display-Largest_example =
    active_display-Largest geometry (rect (pos 600) (pos 10) (pos 100) (pos 80)) two_displays
      (at (pos 1) (pos 1)) (λ e. cc)

abbrev pub layout : DisplayLayout
layout = record {
  place_in_output = λ id r. (true, rect (pos 0) (pos 0) (pos 640) (pos 480));
  size_to_output = λ r. rect (pos 0) (pos 0) (pos 640) (pos 480);
  bounding_rectangle = λ displays. rect (pos 0) (pos 0) (pos 1280) (pos 480);
}

abbrev surroundings : Surroundings
surroundings = record {
  layout = layout;
  displays = two_displays;
  window = rect (pos 50) (pos 60) (pos 80) (pos 48);
}

place_and_size_for_state-restored_example :
    place_and_size_for_state
      (record surroundings {
        window =
            override
              (place_and_size_for_state surroundings (request vertmaximized) terminal)
              surroundings.window;
      })
      (request restored)
      (changed_to vertmaximized surroundings.window terminal)
    ≡ record (request restored) {
      top_left = some surroundings.window.top_left;
      size = some surroundings.window.size;
    }
place_and_size_for_state-restored_example =
    place_and_size_for_state-restored surroundings terminal vertmaximized refl (λ e. ground arith)

place_and_size_for_state-output_example :
    ((place_and_size_for_state surroundings
        (record (request fullscreen) { output_id = some (pos 1) })
        terminal).top_left
      ≡ (place_and_size_for_state surroundings
          (record (request fullscreen) { output_id = some (pos 2) })
          terminal).top_left)
    × ((place_and_size_for_state surroundings
          (record (request fullscreen) { output_id = some (pos 1) })
          terminal).size
        ≡ (place_and_size_for_state surroundings
            (record (request fullscreen) { output_id = some (pos 2) })
            terminal).size)
place_and_size_for_state-output_example =
    place_and_size_for_state-output surroundings terminal (request fullscreen) (some (pos 1))
      (some (pos 2)) refl (λ e. ground arith)

abbrev placed : Manager SampleSurface
placed = record manager { workspaces_to_windows = (9, 1) ∷ (8, 1) ∷ (9, 2) ∷ [] }

abbrev seven : ℕ
seven = 7

abbrev nine : ℕ
nine = 9

placed-IsForest : IsForest placed depth 1
unfolding info_for alive
placed-IsForest = record {
  children = manager-IsForest.children;
  parent = manager-IsForest.parent;
  bounded = manager-IsForest.bounded;
  active = manager-IsForest.active;
}

add_tree_to_workspace-InTree_example :
    (m : Manager SampleSurface) × (add_tree_to_workspace 2 placed (some 2) 7 ≡ ok m)
    × ((in_workspace 7 1 m.workspaces_to_windows ≡ true) ↔ (
        (in_workspace 7 1 placed.workspaces_to_windows ≡ true)
        ⊎ ((seven ≡ seven) × InTree placed 2 1)))
unfolding info_for find_info alive
add_tree_to_workspace-InTree_example =
    add_tree_to_workspace-InTree placed depth 1 placed-IsForest 2 refl (child_window, refl) 7 7 1

remove_tree_from_workspace-InTree_example :
    (m : Manager SampleSurface) × (remove_tree_from_workspace 2 placed (some 2) 9 ≡ ok m)
    × ((in_workspace 9 1 m.workspaces_to_windows ≡ true) ↔ (
        (in_workspace 9 1 placed.workspaces_to_windows ≡ true)
        × ¬ ((nine ≡ nine) × InTree placed 2 1)))
unfolding info_for find_info alive
remove_tree_from_workspace-InTree_example =
    remove_tree_from_workspace-InTree placed depth 1 placed-IsForest 2 refl (child_window, refl) 9 9
      1

move_workspace_content_to_workspace-in_workspace_example :
    in_workspace 8 2 (move_workspace_content_to_workspace placed 8 9).workspaces_to_windows
    ≡ (in_workspace 8 2 placed.workspaces_to_windows && not (8 == 9))
      || 8 == 8 && in_workspace 9 2 placed.workspaces_to_windows
move_workspace_content_to_workspace-in_workspace_example =
    move_workspace_content_to_workspace-in_workspace placed 8 9 8 2

-- A policy that lets the windows below follow.
abbrev pub follows : Manager SampleSurface → WindowInfo → Displacement → Rectangle
follows m info movement = record {
  top_left = translate (window_top_left surfaces m info.window) movement;
  size = window_size surfaces m info.window;
}

abbrev moved_by : Displacement
moved_by = record { dx = pos 30; dy = pos 0 }

drag_window-allowed_example :
    (m : Manager SampleSurface) × (drag_window surfaces follows 2 manager (some 1) moved_by
      ≡ ok (moved_by, m))
    × (window_top_left surfaces m 1 ≡ translate shown.top_left moved_by)
    × (window_size surfaces m 1 ≡ shown.size)
    × (m.surfaces 4 ≡ manager.surfaces 4)
unfolding info_for find_info
drag_window-allowed_example =
    drag_window-allowed surfaces follows manager depth 1 manager-IsForest 1 4 shown
      {info = parent_window} moved_by refl refl (λ e. ground arith) (omega arith)

-- The surface of the window goes.
abbrev gone : Window → (Window → Option SampleSurface) → Window → Option SampleSurface
gone w before v = if v == w then none else before v

abbrev all_live : ℕ → Bool
all_live workspace = true

-- The dialog of the terminal is closed.
raise_tree-Raised_example :
    (m : Manager SampleSurface) × (raise_tree 2 2 manager 2 ≡ ok m)
    × Told manager m
    × Raised manager depth 1 manager-IsForest 2 m
unfolding info_for find_info
raise_tree-Raised_example =
    raise_tree-Raised manager depth 1 manager-IsForest 2 (child_window, refl)
