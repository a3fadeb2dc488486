-- ===== src/BasicWindowManager/Cycling.antt =====
-- miral/basic_window_manager.cpp: the focus goes to another window of the application
-- (`focus_next_within_application`, `focus_prev_within_application`).
pub mod Attempts
pub mod Cycled
pub mod Within
pub mod Stuck
use miral.Prelude.{
  ℕ, Bool, true, false, not, Option, none, some, List, [], ◌∷◌, ◌==◌, if◌then◌else◌, reverse,
}
use miral.MruWindowList.{Window}
use miral.BasicWindowManager.Surfaces.{SurfaceApi}
use miral.BasicWindowManager.State.{
  Manager, Result, ok, out_of_range, past_the_end, ◌>>=◌, application_for, is_window, active_window,
}
use miral.BasicWindowManager.Focus.{select_active_window}
use miral.BasicWindowManager.Workspaces.{workspaces_containing}

-- What may end the search: the result tells whether it does.
abbrev pub Step : Type 0 → Type 0
Step Surface = Manager Surface → Result (Bool × Manager Surface)

module _ {Surface : Type 0} where
  -- What follows an attempt that did not end the search.
  abbrev pub unless_left : Step Surface → Bool × Manager Surface → Result (Bool × Manager Surface)
  unless_left rest (true, m) = ok (true, m)
  unless_left rest (false, m) = rest m

  -- The loop over the windows behind `prev`.
  unfoldable pub loop_over : (Window → Step Surface) → List Window → Step Surface
  loop_over step [] m = ok (false, m)
  loop_over step (w ∷ ws) m = step w m >>= unless_left (loop_over step ws)

  -- The loop over the windows before `prev`, which does not test for the end.
  unfoldable pub loop_until : Window → (Window → Step Surface) → List Window → Step Surface
  loop_until prev step [] m = past_the_end
  loop_until prev step (w ∷ ws) m =
      let on = step w m >>= unless_left (loop_until prev step ws) in
      if w == prev then ok (false, m) else on

-- `++current`, from where `find` stops.
unfoldable pub behind : Window → List Window → List Window
behind prev [] = []
behind prev (w ∷ ws) = if w == prev then ws else behind prev ws

module _ {Surface : Type 0} (api : SurfaceApi Surface) (fuel : ℕ) where
  -- `prev != select_active_window(*current)`
  unfoldable pub leaves : Window → Window → Step Surface
  leaves prev w m = do
    (selected, m') ← select_active_window api fuel m (some w)
    ok (not (is_window selected prev), m')

  -- The loop over the workspaces that `prev` is in, for a workspace of the other window.
  unfoldable pub try_workspace : Window → Window → ℕ → List ℕ → Step Surface
  try_workspace prev w workspace [] m = ok (false, m)
  try_workspace prev w workspace (ww ∷ wws) m =
      let tried = leaves prev w m >>= unless_left (try_workspace prev w workspace wws) in
      let passed = try_workspace prev w workspace wws m in if ww == workspace then tried else passed

  -- The loop over the workspaces of the other window.
  unfoldable pub try_workspaces : Window → Window → List ℕ → List ℕ → Step Surface
  try_workspaces prev w wws [] m = ok (false, m)
  try_workspaces prev w wws (workspace ∷ workspaces) m =
      try_workspace prev w workspace wws m >>= unless_left (try_workspaces prev w wws workspaces)

  module _ (lives : ℕ → Bool) where
    unfoldable pub try_sharing : Window → List ℕ → Window → Step Surface
    try_sharing prev wws w m = try_workspaces prev w wws (workspaces_containing lives m w) m

    -- The four loops: the windows that share a workspace, and then all.
    unfoldable pub cycle_siblings : Window → List Window → Step Surface
    cycle_siblings prev siblings m =
        let wws = workspaces_containing lives m prev in
        loop_over (try_sharing prev wws) (behind prev siblings) m
        >>= unless_left (loop_until prev (try_sharing prev wws) siblings)
        >>= unless_left (loop_over (leaves prev) (behind prev siblings))
        >>= unless_left (loop_until prev (leaves prev) siblings)

    unfoldable pub among_windows : Window → List Window → Manager Surface → Result (Manager Surface)
    among_windows prev siblings m = do searched ← cycle_siblings prev siblings m; ok searched.1

    -- `info_for(prev.application()).windows()`
    unfoldable pub within_application :
        (List Window → List Window) → Window → Option ℕ → Manager Surface → Result (Manager Surface)
    within_application order prev none m = out_of_range
    within_application order prev (some application) m = do
      info ← application_for m application
      among_windows prev (order info.windows) m

    -- `order` is that of the iterators: `begin` and `end`, or `rbegin` and `rend`.
    unfoldable pub focus_within :
        (List Window → List Window) → Option Window → Manager Surface → Result (Manager Surface)
    focus_within order none m = ok m
    focus_within order (some prev) m = within_application order prev (m.applications prev) m

    unfoldable pub focus_next_within_application : Manager Surface → Result (Manager Surface)
    focus_next_within_application m = focus_within (λ ws. ws) (active_window api m) m

    unfoldable pub focus_prev_within_application : Manager Surface → Result (Manager Surface)
    focus_prev_within_application m = focus_within reverse (active_window api m) m
