-- ===== src/Lib.antt =====
-- MirAL, the abstraction layer for shells on the Mir display server: the logic of its window manager.
--
-- The window manager (miral/basic_window_manager.cpp) keeps a record of each window and the list of the
-- windows in the order in which they were last active; it checks the requests of clients, decides where
-- windows go, and asks the shell's policy before it acts. The monitor of outputs stands beside it and
-- tells its listeners about displays; the keymap (miral/keymap.cpp) is handed to each keyboard.
--
-- Which file models what:
--   Types                 include/mir/client/detail/mir_forward_compatibility.h: the enumerations
--   Geometry              points, sizes and rectangles; what Mir computes from them is an argument
--   MruWindowList         miral/mru_window_list.cpp: push, erase, top, enumerate
--   WindowSpecification   miral/window_specification.cpp: the constructors from Mir's requests, update
--   WindowInfo            miral/window_info.cpp: the tests on types, and constrain_resize in Resize
--   Placement             miral/basic_window_manager.cpp: place_relative and what it calls
--   Output                miral/output.cpp: is_same_output, equivalent_display_area
--   ActiveOutputs         miral/active_outputs.cpp: the monitor, with the calls of listeners as a trace
--   Keymap                miral/keymap.cpp: the names of keymaps, and the keyboards that have them
--   ApplicationInfo       miral/application_info.cpp: the windows of an application
--   BasicWindowManager    miral/basic_window_manager.cpp, in child modules:
--     Surfaces, Input     Mir's interface to surfaces, and its input events
--     State               the manager's state, its maps and its calls (with miral/window.cpp)
--     Events              handle_keyboard_event, handle_pointer_event, handle_touch_event,
--                         update_event_timestamp, handle_raise_surface
--     Validation          validate_modification_request
--     Focus               select_active_window
--     Displays            active_display
--     StateChange         place_and_size_for_state, fullscreen_rect_for
--     Workspaces          add_tree_to_workspace, remove_tree_from_workspace,
--                         move_workspace_content_to_workspace, workspaces_containing
--     Movement            drag_window, drag_active_window, move_tree, place_and_size
--     Raise               raise_tree
--     Activation          can_activate_window_for_session, and the same in workspaces
--     Refocus             refocus, focus_next_application
--     Cycling             focus_next_within_application, focus_prev_within_application
--     Hotplug             add_display, remove_display, window_at
--     Removal             erase, remove_window, remove_surface, force_close
--     Transition          set_state
--     Insertion           place_new_surface (where it is to put a window: Goal, Rules)
--     Joining             add_session, remove_session, add_surface
--     Modification        modify_window, modify_surface
--     Forest, Family      the invariants on parents and children
--     Records, Kin        what a change of a record, or of the rest, does to the invariants
--     Descent, Choice     trees of windows (Workspaces/Descent), and the window that gets the focus
--                         (Focus/Choice), as relations apart from the code
--   Tests                 the theorems at concrete inputs
--
-- A window is a number, a handle that may be null an Option of one. The calls of the policy and of the
-- focus controller are appended to a list, so that their order is part of the state. An exception is a
-- value: out_of_range is that of std::map::at, division_by_zero stands for a division that C++ does not
-- define, logic_error and runtime_error are the C++ exceptions.
--
-- Arguments of the model: Geometry (Mir's computations on rectangles, with the laws that define them),
-- SurfaceApi (Mir's surfaces: what is set is read back), DisplayLayout (where Mir puts outputs),
-- Defaults (two enumerators of Mir), FocusController (Mir's controller of the focus: the session and
-- the surface that it names after a number of steps), Host (what add_surface asks of Mir and of the
-- policy: the surface that is built, the place that the policy chooses), Rectangles (Mir's collections
-- of rectangles), the policy's confirm_inherited_move and its answers to events, and what Mir's
-- destroy_surface does to the surfaces.
--
-- Bounds and fuel: the operations that follow parents and children recurse on fuel. Where parents and
-- children form a forest whose depth has a limit, 2 * limit + 2 calls are enough for
-- select_active_window, which goes up to a parent and down to a dialog, and limit + 1 for the
-- collection of a tree, for raise_tree and for move_tree (see the results below). The search for the
-- next application recurses on a number of rounds, which is enough where the controller comes round to
-- the first application within them. Everything else is structural recursion. The loops of
-- focus_next_within_application that do not test for the end of a list give past_the_end there.
--
-- Not modelled: locks and threads (each operation runs alone); what a policy does to the window
-- manager in the calls that it is given; the overflow of int in sums and products, which is undefined
-- in C++; the branches for Mir before 0.25; the observer that add_surface gives to Mir, which calls
-- the policy when the surface is ready; of miral/basic_window_manager.cpp set_surface_attribute, the
-- functions on persistent identities, and the removal of workspaces that nothing holds; what a Keymap
-- registers with the server; options, cursors, tracing, and the example shells.
pub mod Prelude
pub mod Types
pub mod Geometry
pub mod MruWindowList
pub mod WindowSpecification
pub mod Placement
pub mod WindowInfo
pub mod ApplicationInfo
pub mod Output
pub mod ActiveOutputs
pub mod Keymap
pub mod BasicWindowManager
pub mod Tests
