-- ===== src/BasicWindowManager/Refocus.antt =====
-- miral/basic_window_manager.cpp, `refocus` and `focus_next_application`: where the focus goes once the active
-- window is gone.
pub mod Attempts
pub mod Outcome
pub mod Termination
use miral.Prelude.{
  ℕ, zero, suc, Bool, true, false, Option, none, some, List, [], ◌∷◌, if◌then◌else◌, reverse,
}
use miral.MruWindowList.{Window}
use miral.BasicWindowManager.Surfaces.{SurfaceApi}
use miral.BasicWindowManager.State.{
  Manager, focus_next_session, Result, ok, out_of_fuel, out_of_range, ◌>>=◌, tell, info_for, handle,
  active_window,
}
use miral.BasicWindowManager.Focus.{select_active_window}
use miral.BasicWindowManager.Activation.{
  session_eq, share_workspace, unless_found, activate_first, can_activate_window_for_session,
  can_activate_window_for_session_in_workspace,
}
use miral.BasicWindowManager.Workspaces.{workspaces_containing}

-- Mir's focus controller: the session and the surface in focus after a number of calls of `focus_next_session`. An
-- attempt that selects no window does not reach it.
pub record FocusController : Type 0 where
  pub focused_session : ℕ → Option ℕ
  pub focused_surface : ℕ → Option Window

module _ {Surface : Type 0} (api : SurfaceApi Surface) (fuel : ℕ) where
  -- What gives the focus to a window, which it names, or does not.
  abbrev pub Attempt : Type 0
  Attempt = Manager Surface → Result (Option Window × Manager Surface)

  -- `if (parent && select_active_window(parent)) return;`
  unfoldable pub focus_parent : Option Window → Attempt
  focus_parent none m = ok (none, m)
  focus_parent (some parent) m = select_active_window api fuel m (some parent)

  -- The window of any application that was active last and that shares a workspace.
  unfoldable pub focus_shared : (ℕ → Bool) → List ℕ → Attempt
  focus_shared lives workspaces m =
      activate_first api fuel (λ w. share_workspace (workspaces_containing lives m w) workspaces)
        (reverse m.mru_active_windows) m

  unfoldable pub focus_any : Attempt
  focus_any m = activate_first api fuel (λ w. true) (reverse m.mru_active_windows) m

  -- The attempts of `refocus` before it goes through the applications.
  unfoldable pub focus_recent : (ℕ → Bool) → ℕ → Option Window → List ℕ → Attempt
  focus_recent lives application parent workspaces m =
      focus_parent (handle m parent) m
      >>= unless_found api (λ n.
        can_activate_window_for_session_in_workspace api fuel lives n (some application) workspaces)
      >>= unless_found api (focus_shared lives workspaces)
      >>= unless_found api (λ n. can_activate_window_for_session api fuel n (some application))
      >>= unless_found api focus_any

  module _ (controller : FocusController) where
    -- `select_active_window(focussed_surface ? info_for(focussed_surface).window() : Window{})`
    unfoldable pub focus_surface : Option Window → Attempt
    focus_surface none m = select_active_window api fuel m none
    focus_surface (some surface) m = do
      info ← info_for m surface
      select_active_window api fuel m (some info.window)

    -- What follows the loop, after `k` calls of `focus_next_session`.
    unfoldable pub last_resort : ℕ → Attempt
    last_resort k m =
        can_activate_window_for_session api fuel (tell m (focus_next_session ∷ []))
          (controller.focused_session (suc k))
        >>= unless_found api (focus_surface (controller.focused_surface (suc k)))

    -- The loop over the sessions, up to the one of `prev`; `rounds` is its fuel.
    unfoldable pub cycle_sessions : (ℕ → Bool) → List ℕ → Option ℕ → ℕ → ℕ → Attempt
    cycle_sessions lives workspaces prev zero k m = out_of_fuel
    cycle_sessions lives workspaces prev (suc rounds) k m =
        let again = cycle_sessions lives workspaces prev rounds (suc k) in
        let session = controller.focused_session (suc k) in
        can_activate_window_for_session_in_workspace api fuel lives
          (tell m (focus_next_session ∷ [])) session workspaces
        >>= unless_found api
            (λ n. if session_eq session prev then last_resort (suc k) n else again n)

    unfoldable pub cycle_from : (ℕ → Bool) → ℕ → List ℕ → Option ℕ → Attempt
    cycle_from lives rounds [] prev m = last_resort 0 m
    cycle_from lives rounds workspaces prev m = cycle_sessions lives workspaces prev rounds 0 m

    -- `if (auto const prev = active_window())`
    unfoldable pub next_after : (ℕ → Bool) → ℕ → Option Window → Attempt
    next_after lives rounds none m = last_resort 0 m
    next_after lives rounds (some prev) m =
        cycle_from lives rounds (workspaces_containing lives m prev) (m.applications prev) m

    unfoldable pub focus_next_application : (ℕ → Bool) → ℕ → Attempt
    focus_next_application lives rounds m = next_after lives rounds (active_window api m) m

    unfoldable pub refocus : (ℕ → Bool) → ℕ → ℕ → Option Window → List ℕ → Attempt
    refocus lives rounds application parent workspaces m =
        focus_recent lives application parent workspaces m
        >>= unless_found api (focus_next_application lives rounds)
