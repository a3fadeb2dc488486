-- ===== src/BasicWindowManager/Cycling/Stuck.antt =====
-- miral/basic_window_manager.cpp: `focus_next_within_application` at a window that cannot have the focus.
use miral.Prelude.{
  ℕ, ◌≡◌, ◌∙◌, refl, ap, inl, inr, Bool, true, false, not, none, some, List, [], ◌∷◌, ◌==◌,
  contains, Bool-cases, ==_iff, arith,
}
use miral.MruWindowList.{Window}
use miral.ApplicationInfo.{ApplicationInfo}
use miral.BasicWindowManager.Surfaces.{SurfaceApi}
use miral.BasicWindowManager.State.{
  Manager, Call, ok, ◌>>=◌, tell, application_for, active_window, visible, is_window,
}
use miral.BasicWindowManager.Focus.{select_active_window}
use miral.BasicWindowManager.Focus.Outcome.{select_active_window-Selected}
use miral.BasicWindowManager.Activation.{share_workspace}
use miral.BasicWindowManager.Workspaces.{workspaces_containing}
use miral.BasicWindowManager.Cycling.{
  unless_left, behind, loop_over, loop_until, leaves, try_workspace, try_workspaces, try_sharing,
  cycle_siblings, focus_within, within_application, among_windows, focus_next_within_application,
}

behind-first : (prev : Window) (ws : List Window) → behind prev (prev ∷ ws) ≡ ws
unfolding behind
behind-first prev ws = rw ((==_iff prev prev).1 refl) refl

module _ {Surface : Type 0} (api : SurfaceApi Surface) (fuel : ℕ) (prev w : Window)
    (m m' : Manager Surface) (left : leaves api fuel prev w m ≡ ok (true, m')) where
  try_workspace-hit :
      (workspace : ℕ) (wws : List ℕ)
      → contains workspace wws ≡ true
      → try_workspace api fuel prev w workspace wws m ≡ ok (true, m')
  unfolding try_workspace
  try_workspace-hit workspace [] h = absurd (ground (arith, h))
  try_workspace-hit workspace (ww ∷ wws) h = elim (Bool-cases (ww == workspace)) [
    | inl same ↦
        rw same (ap (λ r. r >>= unless_left (try_workspace api fuel prev w workspace wws)) left)
    | inr other ↦ rw other (try_workspace-hit workspace wws (ground (arith, h, other)))
  ]

  try_workspace-miss :
      (workspace : ℕ) (wws : List ℕ)
      → contains workspace wws ≡ false
      → try_workspace api fuel prev w workspace wws m ≡ ok (false, m)
  unfolding try_workspace
  try_workspace-miss workspace [] h = refl
  try_workspace-miss workspace (ww ∷ wws) h = elim (Bool-cases (ww == workspace)) [
    | inl same ↦ absurd (ground (arith, h, same))
    | inr other ↦ rw other (try_workspace-miss workspace wws (ground (arith, h, other)))
  ]

  -- A window that shares a workspace is tried.
  pub try_workspaces-shared :
      (wws workspaces : List ℕ)
      → share_workspace workspaces wws ≡ true
      → try_workspaces api fuel prev w wws workspaces m ≡ ok (true, m')
  unfolding try_workspaces share_workspace
  try_workspaces-shared wws [] h = absurd (ground (arith, h))
  try_workspaces-shared wws (workspace ∷ workspaces) h =
      elim (Bool-cases (contains workspace wws)) [
        | inl hit ↦
            ap (λ r. r >>= unless_left (try_workspaces api fuel prev w wws workspaces))
              (try_workspace-hit workspace wws hit)
        | inr miss ↦
            ap (λ r. r >>= unless_left (try_workspaces api fuel prev w wws workspaces))
              (try_workspace-miss workspace wws miss)
            ∙ try_workspaces-shared wws workspaces (ground (arith, h, miss))
      ]

module _ {Surface : Type 0} (api : SurfaceApi Surface) (fuel : ℕ) (lives : ℕ → Bool) where
  leaves-nothing :
      (prev w : Window) (m m' : Manager Surface)
      → select_active_window api fuel m (some w) ≡ ok (none, m')
      → leaves api fuel prev w m ≡ ok (true, m')
  unfolding leaves
  leaves-nothing prev w m m' selected =
      ap (λ r. r >>= λ s. ok (not (is_window s.0 prev), s.1)) selected

  cycle_siblings-stuck :
      (prev w : Window) (rest : List Window) (m m' : Manager Surface)
      → leaves api fuel prev w m ≡ ok (true, m')
      → share_workspace (workspaces_containing lives m w) (workspaces_containing lives m prev)
        ≡ true
      → cycle_siblings api fuel lives prev (prev ∷ w ∷ rest) m ≡ ok (true, m')
  unfolding cycle_siblings loop_over try_sharing
  cycle_siblings-stuck prev w rest m m' left shared =
      let siblings = prev ∷ w ∷ rest in
      let wws = workspaces_containing lives m prev in
      let step = try_sharing api fuel lives prev wws in
      ap
        (λ r.
          r
          >>= unless_left (loop_until prev step siblings)
          >>= unless_left (loop_over (leaves api fuel prev) (behind prev siblings))
          >>= unless_left (loop_until prev (leaves api fuel prev) siblings))
        (ap (λ ws. loop_over step ws m) (behind-first prev (w ∷ rest))
          ∙ ap (λ r. r >>= unless_left (loop_over step rest))
              (try_workspaces-shared api fuel prev w m m' left wws (workspaces_containing lives m w)
                shared))

  -- The active window is the first of its application, the next one shares a workspace with it, and the selection of
  -- the next one selects nothing: then `focus_next_within_application` stops there. Whatever windows follow, it
  -- has changed nothing but the calls, and the active window is still the same.
  pub focus_next_within_application-stuck :
      (m m' : Manager Surface) (prev w application : ℕ) (rest : List Window)
      (info : ApplicationInfo)
      → active_window api m ≡ some prev
      → m.applications prev ≡ some application
      → application_for m application ≡ ok info
      → info.windows ≡ prev ∷ w ∷ rest
      → share_workspace (workspaces_containing lives m w) (workspaces_containing lives m prev)
        ≡ true
      → select_active_window api fuel m (some w) ≡ ok (none, m')
      → (focus_next_within_application api fuel lives m ≡ ok m')
        × ((calls : List Call) × (m' ≡ tell m calls))
        × (active_window api m' ≡ some prev)
  unfolding focus_next_within_application focus_within within_application among_windows
      active_window visible
  focus_next_within_application-stuck m m' prev w application rest info active owner recorded order
        shared selected =
      let (calls, told) =
        select_active_window-Selected api fuel m (some w) {r = (none, m')} selected in
      (
        ap (λ o. focus_within api fuel lives (λ ws. ws) o m) active
            ∙ ap (λ o. within_application api fuel lives (λ ws. ws) prev o m) owner
            ∙ ap (λ r. r >>= λ i. among_windows api fuel lives prev i.windows m) recorded
            ∙ ap (λ ws. among_windows api fuel lives prev ws m) order
            ∙ ap (λ r. r >>= λ searched. ok searched.1)
                (cycle_siblings-stuck prev w rest m m' (leaves-nothing prev w m m' selected)
                  shared),
        (calls, told),
        ap (active_window api) told ∙ active,
      )
