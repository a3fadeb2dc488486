-- ===== src/BasicWindowManager/Activation.antt =====
-- miral/basic_window_manager.cpp: the search for a window to have the focus, the one that was active last first
-- (`can_activate_window_for_session`, and the same within some workspaces).
pub mod Search
use miral.Prelude.{
  ℕ, Bool, true, false, ◌&&◌, Option, none, some, List, [], ◌∷◌, ◌==◌, if◌then◌else◌, reverse, any,
  contains,
}
use miral.MruWindowList.{Window}
use miral.BasicWindowManager.Surfaces.{SurfaceApi}
use miral.BasicWindowManager.State.{Manager, Result, ok, out_of_range, out_of_fuel, ◌>>=◌, visible}
use miral.BasicWindowManager.Focus.{select_active_window}
use miral.BasicWindowManager.Workspaces.{workspaces_containing}

-- `==` on sessions, which may be null.
abbrev pub session_eq : Option ℕ → Option ℕ → Bool
session_eq none none = true
session_eq (some a) (some b) = a == b
session_eq _ _ = false

-- Whether two lists of workspaces share one: the two loops.
unfoldable pub share_workspace : List ℕ → List ℕ → Bool
share_workspace containing workspaces = any (λ workspace. contains workspace workspaces) containing

module _ {Surface : Type 0} (api : SurfaceApi Surface) where
  -- The callback that returns `!(new_focus = select_active_window(w))`: what follows depends on `new_focus`.
  abbrev pub unless_found :
      (Manager Surface → Result (Option Window × Manager Surface))
      → Option Window × Manager Surface
      → Result (Option Window × Manager Surface)
  unless_found rest (none, m) = rest m
  unless_found rest (some found, m) = ok (some found, m)

  -- `mru_active_windows.enumerate` with a callback that tries the windows that pass a test. The list is changed by a
  -- selection that succeeds, which ends the loop; one that fails changes nothing that the test reads.
  unfoldable pub activate_first :
      ℕ → (Window → Bool) → List Window → Manager Surface → Result (Option Window × Manager Surface)
  activate_first fuel admits [] m = ok (none, m)
  activate_first fuel admits (w ∷ ws) m =
      let passed = activate_first fuel admits ws m in
      let tried =
        select_active_window api fuel m (some w) >>= unless_found (activate_first fuel admits ws) in
      if visible api m w && admits w then tried else passed

  -- The source returns whether a window was found.
  unfoldable pub can_activate_window_for_session :
      ℕ → Manager Surface → Option ℕ → Result (Option Window × Manager Surface)
  can_activate_window_for_session fuel m session =
      activate_first fuel (λ w. session_eq (m.applications w) session)
        (reverse m.mru_active_windows) m

  unfoldable pub can_activate_window_for_session_in_workspace :
      ℕ
      → (ℕ → Bool)
      → Manager Surface
      → Option ℕ
      → List ℕ
      → Result (Option Window × Manager Surface)
  can_activate_window_for_session_in_workspace fuel lives m session workspaces =
      activate_first fuel
        (λ w.
          session_eq (m.applications w) session
          && share_workspace (workspaces_containing lives m w) workspaces)
        (reverse m.mru_active_windows) m
