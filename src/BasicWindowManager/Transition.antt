-- ===== src/BasicWindowManager/Transition.antt =====
-- miral/basic_window_manager.cpp, `set_state`: a window changes its state, and may give up or take the focus.
pub mod Reached
pub mod Applied
use miral.Prelude.{
  ℕ, Bool, true, false, not, ◌&&◌, ◌||◌, Option, none, some, List, [], ◌∷◌, ◌++◌, ◌==◌,
  if◌then◌else◌, reverse, filter, contains,
}
use miral.Types.{WindowState, hidden, minimized, fullscreen, state_eq}
use miral.MruWindowList.{Window}
use miral.WindowInfo.{WindowInfo}
use miral.BasicWindowManager.Surfaces.{SurfaceApi}
use miral.BasicWindowManager.State.{
  Manager, advise_state_change, Result, ok, out_of_range, out_of_fuel, ◌>>=◌, tell, info_for,
  set_info, active_window, with_surface, is_window,
}
use miral.BasicWindowManager.Focus.{select_active_window}
use miral.BasicWindowManager.Activation.{share_workspace, activate_first}
use miral.BasicWindowManager.Workspaces.{workspaces_containing}
use miral.BasicWindowManager.Refocus.{Attempt}

-- The set of windows that are fullscreen, or want to be.
unfoldable pub listed_fullscreen : WindowState → Window → List Window → List Window
listed_fullscreen value w windows =
    let others = filter (λ v. not (v == w)) windows in
    let added = if contains w windows then windows else windows ++ w ∷ [] in
    if state_eq value fullscreen then added else others

unfoldable pub hides : WindowState → Bool
hides hidden = true
hides minimized = true
hides _ = false

-- `window == active_window() || !active_window()`
abbrev pub unsettled : Option Window → Window → Bool
unsettled none w = true
unsettled (some v) w = v == w

-- `operator bool` of the answer of `active_window`.
abbrev pub handle_set : Option Window → Bool
handle_set none = false
handle_set (some w) = true

module _ {Surface : Type 0} (api : SurfaceApi Surface) (fuel : ℕ) where
  abbrev pub attempt_if : Bool → Attempt api fuel → Attempt api fuel
  attempt_if true f m = f m
  attempt_if false f m = ok (none, m)

  -- The window of any application, but for this one, that was active last.
  unfoldable pub focus_other : Window → Attempt api fuel
  focus_other w m = activate_first api fuel (λ v. not (v == w)) (reverse m.mru_active_windows) m

  -- The same among the windows that share a workspace with this one.
  unfoldable pub focus_neighbour : (ℕ → Bool) → Window → Attempt api fuel
  focus_neighbour lives w m =
      activate_first api fuel
        (λ v.
          not (v == w)
          && share_workspace (workspaces_containing lives m v) (workspaces_containing lives m w))
        (reverse m.mru_active_windows) m

  -- What is done for a window that is hidden while it is active.
  unfoldable pub give_up_focus : (ℕ → Bool) → Window → Manager Surface → Result (Manager Surface)
  give_up_focus lives w m = do
    (_, asked) ← select_active_window api fuel m (some w)
    (_, near) ← attempt_if (unsettled (active_window api asked) w) (focus_neighbour lives w) asked
    (_, any) ← attempt_if (unsettled (active_window api near) w) (focus_other w) near
    (_, left) ←
        attempt_if (is_window (active_window api any) w) (λ n. select_active_window api fuel n none)
          any
    ok left

  abbrev pub with_state : WindowState → Manager Surface → WindowInfo → Manager Surface
  with_state value m info = record m {
    window_info = set_info (record info { state = value }) m.window_info;
  }

  abbrev pub leave_if_active :
      (ℕ → Bool) → Bool → Window → Manager Surface → Result (Manager Surface)
  leave_if_active lives false w m = ok m
  leave_if_active lives true w m = give_up_focus lives w m

  -- The cases `hidden` and `minimized`.
  unfoldable pub hide_window :
      (ℕ → Bool) → WindowState → Manager Surface → WindowInfo → Result (Manager Surface)
  hide_window lives value m info = do
    let changed = with_state value m info
    left ←
        leave_if_active lives (is_window (active_window api changed) info.window) info.window
          changed
    ok (with_surface (λ s. api.hide (api.configure_state value s)) left info.window)

  -- `if (was_hidden && none_active) select_active_window(window)`
  abbrev pub enter_if : Bool → Window → Manager Surface → Result (Manager Surface)
  enter_if false w m = ok m
  enter_if true w m = do (_, entered) ← select_active_window api fuel m (some w); ok entered

  -- The other cases.
  unfoldable pub show_window : WindowState → Manager Surface → WindowInfo → Result (Manager Surface)
  show_window value m info =
      let none_active = not (handle_set (active_window api m)) in
      let shown =
        with_surface (λ s. api.show (api.configure_state value s)) (with_state value m info)
          info.window in
      enter_if (hides info.state && none_active) info.window shown

  abbrev pub change_to :
      (ℕ → Bool) → Bool → WindowState → Manager Surface → WindowInfo → Result (Manager Surface)
  change_to lives true value m info = hide_window lives value m info
  change_to lives false value m info = show_window value m info

  unfoldable pub set_state :
      (ℕ → Bool) → Manager Surface → WindowInfo → WindowState → Result (Manager Surface)
  set_state lives m info value =
      let listed = record m {
        fullscreen_surfaces = listed_fullscreen value info.window m.fullscreen_surfaces;
      } in
      let changed =
        change_to lives (hides value) value
          (tell listed (advise_state_change info.window value ∷ [])) info in
      if state_eq info.state value then ok listed else changed
