-- ===== src/BasicWindowManager/Refocus/Termination.antt =====
-- The loop over the applications in `focus_next_application` of miral/basic_window_manager.cpp, and the whole of `refocus`.
use miral.Prelude.{
  ℕ, zero, suc, ◌+◌, ◌<◌, ◌≤◌, ◌≡◌, ◌∙◌, ◌==◌, ==_iff, refl, sym, ap, subst, inl, inr, Bool, true,
  false, Option, none, some, List, [], ◌∷◌, Bool-cases, arith,
}
use miral.MruWindowList.{Window}
use miral.BasicWindowManager.Surfaces.{SurfaceApi}
use miral.BasicWindowManager.State.{
  handle, Manager, ok, active_window, visible, focus_next_session, tell,
}
use miral.BasicWindowManager.Forest.{Known, IsForest, Told, Told-trans, info_for-key}
use miral.BasicWindowManager.Workspaces.{workspaces_containing}
use miral.BasicWindowManager.Activation.{session_eq}
use miral.BasicWindowManager.Refocus.{
  FocusController, focus_surface, last_resort, cycle_sessions, cycle_from, next_after,
  focus_next_application, refocus,
}
use miral.BasicWindowManager.Refocus.Attempts.{
  Focused, IsAttempt, bind-Attempted, select-Attempted, Known-Told, session-IsAttempt,
  session_in_workspace-IsAttempt, focus_recent-Attempted,
}

-- Within the rounds, the session that has the number comes into focus.
unfoldable pub ComesRound : FocusController → ℕ → ℕ → Option ℕ → Type 0
ComesRound controller k rounds session =
    (j : ℕ) × (k < j)
    × (j ≤ k + rounds)
    × (session_eq (controller.focused_session j) session ≡ true)

module _ {Surface : Type 0} (api : SurfaceApi Surface) (m : Manager Surface) (depth : Window → ℕ)
    (limit : ℕ) (forest : IsForest m depth limit) (controller : FocusController)
    (surfaces_known : (k : ℕ) (w : Window) → controller.focused_surface k ≡ some w → Known m w)
    (lives : ℕ → Bool) where
  abbrev fuel : ℕ
  fuel = suc (suc (limit + limit))

  Told-tell : (n : Manager Surface) → Told m n → Told m (tell n (focus_next_session ∷ []))
  Told-tell n told = Told-trans m n _ told (focus_next_session ∷ [], refl)

  focus_surface-IsAttempt :
      (surface : Option Window)
      → ((w : Window) → surface ≡ some w → Known m w)
      → IsAttempt api m depth limit forest (focus_surface api fuel controller surface)
  unfolding focus_surface
  focus_surface-IsAttempt none known n told =
      select-Attempted api m depth limit forest n none told (λ w e. absurd (ground (arith, e)))
  focus_surface-IsAttempt (some w) known n told =
      let (info, there) = Known-Told api m depth limit forest n w told (known w refl) in
      let key = info_for-key n w there in
      rw there (
        select-Attempted api m depth limit forest n (some info.window) told
          (λ v e. known v (ap some (sym key) ∙ e)))

  last_resort-IsAttempt :
      (k : ℕ) → IsAttempt api m depth limit forest (last_resort api fuel controller k)
  unfolding last_resort
  last_resort-IsAttempt k n told =
      bind-Attempted api m depth limit forest _ _
        (session-IsAttempt api m depth limit forest (controller.focused_session (suc k))
          (tell n (focus_next_session ∷ [])) (Told-tell n told))
        (focus_surface-IsAttempt (controller.focused_surface (suc k)) (surfaces_known (suc k)))

  later :
      (rounds k : ℕ) (prev : Option ℕ)
      → session_eq (controller.focused_session (suc k)) prev ≡ false
      → ComesRound controller k (suc rounds) prev
      → ComesRound controller (suc k) rounds prev
  unfolding ComesRound
  later rounds k prev other (j, after, within, here) = elim (Bool-cases (suc k == j)) [
    | inl same ↦
        let at_once =
          subst (λ x. session_eq (controller.focused_session x) prev ≡ true)
            (sym ((==_iff (suc k) j).0 same)) here in
        absurd (ground (arith, at_once, other))
    | inr differs ↦ (j, ground (arith, after, differs), omega arith, here)
  ]

  cycle_sessions-IsAttempt :
      (workspaces : List ℕ) (prev : Option ℕ) (rounds k : ℕ)
      → ComesRound controller k rounds prev
      → IsAttempt api m depth limit forest
          (cycle_sessions api fuel controller lives workspaces prev rounds k)
  unfolding cycle_sessions ComesRound
  cycle_sessions-IsAttempt workspaces prev zero k (j, after, within, here) n told =
      absurd (omega arith)
  cycle_sessions-IsAttempt workspaces prev (suc rounds) k comes n told =
      bind-Attempted api m depth limit forest _ _
        (session_in_workspace-IsAttempt api m depth limit forest lives
          (controller.focused_session (suc k)) workspaces (tell n (focus_next_session ∷ []))
          (Told-tell n told))
        (λ n' told'. elim (Bool-cases (session_eq (controller.focused_session (suc k)) prev)) [
          | inl back ↦ rw back (last_resort-IsAttempt (suc k) n' told')
          | inr other ↦ rw other (
              cycle_sessions-IsAttempt workspaces prev rounds (suc k)
                (later rounds k prev other comes) n' told')
        ])

  cycle_from-IsAttempt :
      (workspaces : List ℕ) (prev : Option ℕ) (rounds : ℕ)
      → ComesRound controller 0 rounds prev
      → IsAttempt api m depth limit forest
          (cycle_from api fuel controller lives rounds workspaces prev)
  unfolding cycle_from
  cycle_from-IsAttempt [] prev rounds comes n told = last_resort-IsAttempt 0 n told
  cycle_from-IsAttempt (w ∷ ws) prev rounds comes n told =
      cycle_sessions-IsAttempt (w ∷ ws) prev rounds 0 comes n told

  Told-active : (n : Manager Surface) → Told m n → active_window api n ≡ active_window api m
  unfolding active_window visible
  Told-active n (calls, is) = ap (active_window api) is

  next_after-IsAttempt :
      (rounds : ℕ) (prev : Option Window)
      → ((p : Window) → prev ≡ some p → ComesRound controller 0 rounds (m.applications p))
      → IsAttempt api m depth limit forest (next_after api fuel controller lives rounds prev)
  unfolding next_after
  next_after-IsAttempt rounds none comes n told = last_resort-IsAttempt 0 n told
  next_after-IsAttempt rounds (some prev) comes n told =
      cycle_from-IsAttempt (workspaces_containing lives n prev) (n.applications prev) rounds
        (subst (λ x. ComesRound controller 0 rounds (x.applications prev)) (sym told.1)
          (comes prev refl))
        n told

  focus_next_application-IsAttempt :
      (rounds : ℕ)
      → ((p : Window)
          → active_window api m ≡ some p
          → ComesRound controller 0 rounds (m.applications p))
      → IsAttempt api m depth limit forest (focus_next_application api fuel controller lives rounds)
  unfolding focus_next_application
  focus_next_application-IsAttempt rounds comes n told =
      next_after-IsAttempt rounds (active_window api n)
        (λ p e. comes p (sym (Told-active n told) ∙ e)) n told

module _ {Surface : Type 0} (api : SurfaceApi Surface) where
  -- `refocus` returns where parents and children form a forest of a bounded depth and the parent, if it is alive,
  -- has a record, if the focus controller names only surfaces that have a record and comes round, within the given
  -- rounds, to the session of the window that is active, if one is. If it gives the focus to no window, it changes
  -- nothing but the calls; if it does, that window has a record, and the list of the windows that were active, where
  -- it is put last, is all that changes but the calls.
  pub refocus-Returns :
      (controller : FocusController) (m : Manager Surface) (depth : Window → ℕ) (limit : ℕ)
      (lives : ℕ → Bool) (rounds application : ℕ) (parent : Option Window) (workspaces : List ℕ)
      (forest : IsForest m depth limit)
      → ((p : Window) → handle m parent ≡ some p → Known m p)
      → ((k : ℕ) (w : Window) → controller.focused_surface k ≡ some w → Known m w)
      → ((p : Window)
          → active_window api m ≡ some p
          → ComesRound controller 0 rounds (m.applications p))
      → (r : Option Window × Manager Surface) × (refocus api
            (suc (suc (limit + limit)))
            controller
            lives
            rounds
            application
            parent
            workspaces
            m
          ≡ ok r)
        × Focused api m depth limit forest r
  unfolding refocus
  refocus-Returns controller m depth limit lives rounds application parent workspaces forest known
        surfaces_known comes =
      bind-Attempted api m depth limit forest _ _
        (focus_recent-Attempted api m depth limit forest lives application parent workspaces known)
        (focus_next_application-IsAttempt api m depth limit forest controller surfaces_known lives
          rounds comes)
