-- ===== src/BasicWindowManager/Cycling/Attempts.antt =====
-- The attempts of `focus_next_within_application` in miral/basic_window_manager.cpp, one after another.
use miral.Prelude.{
  ℕ, ◌≡◌, ◌∙◌, refl, sym, ap, subst, inl, inr, Bool, true, false, Option, none, some, List, [], ◌∷◌,
  ◌++◌, ◌==◌, if◌then◌else◌, contains, All, Bool-cases, arith,
}
use miral.MruWindowList.{Window, push}
use miral.BasicWindowManager.Surfaces.{SurfaceApi}
use miral.BasicWindowManager.State.{
  Manager, Call, Result, ok, ◌>>=◌, info_for, tell, set_focus_to, advise_focus_gained,
}
use miral.BasicWindowManager.Forest.{Known, IsForest}
use miral.BasicWindowManager.Kin.{kin-IsForest, relisted-SameKin, push-All}
use miral.BasicWindowManager.Focus.{select_active_window}
use miral.BasicWindowManager.Focus.Outcome.{select_active_window-Selected}
use miral.BasicWindowManager.Workspaces.{workspaces_containing}
use miral.BasicWindowManager.Cycling.{
  Step, unless_left, loop_over, loop_until, leaves, try_workspace, try_workspaces, try_sharing,
}

-- The windows before the first occurrence of one.
abbrev pub before : Window → List Window → List Window
before prev [] = []
before prev (w ∷ ws) = if w == prev then [] else w ∷ before prev ws

module _ {Surface : Type 0} (m : Manager Surface) where
  -- Nothing has changed but the calls and the list of the windows that were active, which all have records.
  abbrev pub Kept : Manager Surface → Type 0
  Kept n =
      (ws : List Window) × (calls : List Call) × All (Known m) ws
      × (n ≡ record m { mru_active_windows = ws; calls = calls })

  pub Known-Kept : (n : Manager Surface) (w : Window) → Kept n → Known m w → Known n w
  unfolding info_for
  Known-Kept n w (ws, calls, active, is) known = subst (λ x. Known x w) (sym is) known

  Kept-Known : (n : Manager Surface) (w : Window) → Kept n → Known n w → Known m w
  unfolding info_for
  Kept-Known n w (ws, calls, active, is) known = subst (λ x. Known x w) is known

  pub Kept-IsForest :
      (n : Manager Surface) (depth : Window → ℕ) (limit : ℕ)
      → Kept n
      → IsForest m depth limit
      → IsForest n depth limit
  Kept-IsForest n depth limit (ws, calls, active, is) forest =
      subst (λ x. IsForest x depth limit) (sym is)
        (kin-IsForest m _ depth limit (relisted-SameKin m ws m.fullscreen_surfaces calls active)
          forest)

  module _ (api : SurfaceApi Surface) where
    pub select-Kept :
        (fuel : ℕ) (n : Manager Surface) (hint : Option Window)
        (r : Option Window × Manager Surface)
        → Kept n
        → select_active_window api fuel n hint ≡ ok r
        → Kept r.1
    select-Kept fuel n hint (none, n') (ws, calls, active, is) e =
        let (more, told) = select_active_window-Selected api fuel n hint {r = (none, n')} e in
        (ws, calls ++ more, active, told ∙ ap (λ x. tell x more) is)
    select-Kept fuel n hint (some w, n') (ws, calls, active, is) e =
        let (info, known, _, _, lost, _, pushed) =
          select_active_window-Selected api fuel n hint {r = (some w, n')} e in
        let more = set_focus_to (some w) ∷ lost ++ advise_focus_gained w ∷ [] in
        (
          push w ws,
          calls ++ more,
          push-All m w ws (Kept-Known n w (ws, calls, active, is) (info, known)) active,
          pushed
              ∙ ap
                  (λ (x : Manager Surface).
                    tell (record x { mru_active_windows = push w x.mru_active_windows }) more)
                  is,
        )

  -- `Left` tells of what ends the search, `Stays` of what does not.
  module _ (Left : Manager Surface → Type 0) where
    abbrev pub Ended : Type 0 → Bool × Manager Surface → Type 0
    Ended Stays (true, n) = Kept n × Left n
    Ended Stays (false, n) = Kept n × Stays

    abbrev pub Outcome : Type 0 → Result (Bool × Manager Surface) → Type 0
    Outcome Stays result = (r : Bool × Manager Surface) × (result ≡ ok r) × Ended Stays r

    -- The step returns.
    abbrev pub Runs : Type 0 → Step Surface → Type 0
    Runs Stays step = (n : Manager Surface) → Kept n → Outcome Stays (step n)

    unless_left-Ended :
        {P Q R : Type 0} (rest : Step Surface) (both : P → Q → R) (r : Bool × Manager Surface)
        → Ended P r
        → Runs Q rest
        → Outcome R (unless_left rest r)
    unless_left-Ended rest both (true, n) ended runs = ((true, n), refl, ended)
    unless_left-Ended {P} {Q} {R} rest both (false, n) (kept, p) runs =
        let (r, is, ended) = runs n kept in (r, is, also r ended)
      where
        also : (r : Bool × Manager Surface) → Ended Q r → Ended R r
        also (true, n') ended = ended
        also (false, n') (kept', q) = (kept', both p q)

    -- One step after another.
    pub then-Outcome :
        {P Q R : Type 0} (result : Result (Bool × Manager Surface)) (rest : Step Surface)
        (both : P → Q → R)
        → Outcome P result
        → Runs Q rest
        → Outcome R (result >>= unless_left rest)
    then-Outcome {P} {Q} {R} result rest both (r, is, ended) runs =
        subst (λ x. Outcome R (x >>= unless_left rest)) (sym is)
          (unless_left-Ended {P = P} {Q = Q} {R = R} rest both r ended runs)

    pub loop_over-Runs :
        (Q : Window → Type 0) (step : Window → Step Surface) (ws : List Window)
        → ((w : Window) → contains w ws ≡ true → Runs (Q w) (step w))
        → Runs (All Q ws) (loop_over step ws)
    unfolding loop_over
    loop_over-Runs Q step [] h n kept = ((false, n), refl, (kept, tt))
    loop_over-Runs Q step (w ∷ ws) h n kept =
        then-Outcome {P = Q w} {Q = All Q ws} (step w n) (loop_over step ws) (λ p q. (p, q))
          (h w (ground arith) n kept)
          (loop_over-Runs Q step ws (λ v there. h v (ground (arith, there))))

    pub loop_until-Runs :
        (prev : Window) (Q : Window → Type 0) (step : Window → Step Surface) (ws : List Window)
        → contains prev ws ≡ true
        → ((w : Window) → contains w ws ≡ true → Runs (Q w) (step w))
        → Runs (All Q (before prev ws)) (loop_until prev step ws)
    unfolding loop_until
    loop_until-Runs prev Q step [] found h n kept = absurd (ground (arith, found))
    loop_until-Runs prev Q step (w ∷ ws) found h n kept = elim (Bool-cases (w == prev)) [
      | inl same ↦ ((false, n), rw same refl, rw same (kept, tt))
      | inr other ↦ rw other (
          then-Outcome {P = Q w} {Q = All Q (before prev ws)} (step w n) (loop_until prev step ws)
            (λ p q. (p, q)) (h w (ground arith) n kept)
            (loop_until-Runs prev Q step ws (ground (arith, found, other))
              (λ v there. h v (ground (arith, there)))))
    ]

    -- The nested loops over two lists of workspaces.
    module _ (api : SurfaceApi Surface) (fuel : ℕ) (prev w : Window)
        (runs : Runs Unit (leaves api fuel prev w)) where
      try_workspace-Runs :
          (workspace : ℕ) (wws : List ℕ) → Runs Unit (try_workspace api fuel prev w workspace wws)
      unfolding try_workspace
      try_workspace-Runs workspace [] n kept = ((false, n), refl, (kept, tt))
      try_workspace-Runs workspace (ww ∷ wws) n kept = elim (Bool-cases (ww == workspace)) [
        | inl same ↦ rw same (
            then-Outcome {P = Unit} {Q = Unit} {R = Unit} (leaves api fuel prev w n)
              (try_workspace api fuel prev w workspace wws) (λ p q. tt) (runs n kept)
              (try_workspace-Runs workspace wws))
        | inr other ↦ rw other (try_workspace-Runs workspace wws n kept)
      ]

      try_workspaces-Runs :
          (wws workspaces : List ℕ) → Runs Unit (try_workspaces api fuel prev w wws workspaces)
      unfolding try_workspaces
      try_workspaces-Runs wws [] n kept = ((false, n), refl, (kept, tt))
      try_workspaces-Runs wws (workspace ∷ workspaces) n kept =
          then-Outcome {P = Unit} {Q = Unit} {R = Unit}
            (try_workspace api fuel prev w workspace wws n)
            (try_workspaces api fuel prev w wws workspaces) (λ p q. tt)
            (try_workspace-Runs workspace wws n kept) (try_workspaces-Runs wws workspaces)

      pub try_sharing-Runs :
          (lives : ℕ → Bool) (wws : List ℕ) → Runs Unit (try_sharing api fuel lives prev wws w)
      unfolding try_sharing
      try_sharing-Runs lives wws n kept =
          try_workspaces-Runs wws (workspaces_containing lives n w) n kept
