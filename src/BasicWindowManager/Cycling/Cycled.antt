-- ===== src/BasicWindowManager/Cycling/Cycled.antt =====
-- The effect of `focus_next_within_application` and `focus_prev_within_application` in
-- miral/basic_window_manager.cpp.
use mathlib.Core.List.{reverse-reverse}
use mathlib.Core.Option.{some-injective}
use miral.Prelude.{
  ℕ, suc, ◌+◌, ◌≡◌, ◌∙◌, refl, ap, subst, inl, inr, ◌⊎◌, Bool, true, false, Option, none, some,
  List, [], ◌∷◌, ◌==◌, contains, reverse, All, Bool-cases, ==_iff, arith,
}
use miral.MruWindowList.{Window}
use miral.MruWindowList.Top.{All-reverse}
use miral.BasicWindowManager.Surfaces.{SurfaceApi}
use miral.BasicWindowManager.State.{Manager, Result, ok, is_window}
use miral.BasicWindowManager.Forest.{Known, IsForest}
use miral.BasicWindowManager.Family.{All-contains, All-of-contained}
use miral.BasicWindowManager.Focus.{select_active_window}
use miral.BasicWindowManager.Focus.Termination.{select_active_window-Returns}
use miral.BasicWindowManager.Workspaces.{workspaces_containing}
use miral.BasicWindowManager.Cycling.{behind, leaves, try_sharing, cycle_siblings}
use miral.BasicWindowManager.Cycling.Attempts.{
  before, Kept, Known-Kept, Kept-IsForest, select-Kept, Outcome, Runs, then-Outcome, loop_over-Runs,
  loop_until-Runs, try_sharing-Runs,
}

pub contains-reverse :
    (w : Window) (ws : List Window) → contains w ws ≡ true → contains w (reverse ws) ≡ true
contains-reverse w ws h = elim (Bool-cases (contains w (reverse ws))) [
  | inl there ↦ there
  | inr missing ↦
      let apart =
        All-of-contained (λ v. v == w ≡ false) (reverse ws)
          λ v there. elim (Bool-cases (v == w)) [
            | inr other ↦ other
            | inl same ↦
                let is = (==_iff v w).0 same in
                absurd
                  (ground (arith, missing, subst (λ u. contains u (reverse ws) ≡ true) is there))
          ] in
      let all =
        subst (All (λ v. v == w ≡ false)) (reverse-reverse ws)
          (All-reverse (λ v. v == w ≡ false) (reverse ws) apart) in
      absurd (ground (arith, (==_iff w w).1 refl, All-contains (λ v. v == w ≡ false) w ws all h))
]

contains-behind :
    (w prev : Window) (ws : List Window) → contains w (behind prev ws) ≡ true → contains w ws ≡ true
unfolding behind
contains-behind w prev [] h = h
contains-behind w prev (v ∷ ws) h = ground (arith, contains-behind w prev ws, h)

-- A window is before another one, or is that one, or is behind it.
contains-cases :
    (w prev : Window) (ws : List Window)
    → contains w ws ≡ true
    → w == prev ≡ false
    → (contains w (before prev ws) ≡ true) ⊎ (contains w (behind prev ws) ≡ true)
unfolding behind
contains-cases w prev [] h other = inl h
contains-cases w prev (v ∷ ws) h other = elim (Bool-cases (v == prev)) [
  | inl same ↦
      let is = (==_iff v prev).0 same in
      let apart : v == w ≡ false = ground (arith, other, is) in
      rw same (inr (ground (arith, h, apart)))
  | inr apart ↦ rw apart (elim (Bool-cases (v == w)) [
    | inl here ↦ inl (ground (arith, here))
    | inr elsewhere ↦ elim (contains-cases w prev ws (ground (arith, h, elsewhere)) other) [
      | inl early ↦ inl (ground (arith, early))
      | inr late ↦ inr late
    ]
  ])
]

is_window-some : (o : Option Window) (w : Window) → is_window o w ≡ true → o ≡ some w
is_window-some none w h = absurd (ground (arith, h))
is_window-some (some v) w h = ap some ((==_iff v w).0 h)

module _ {Surface : Type 0} (api : SurfaceApi Surface) (m : Manager Surface) (depth : Window → ℕ)
    (limit : ℕ) (forest : IsForest m depth limit) where
  abbrev fuel : ℕ
  fuel = suc (suc (limit + limit))

  module _ (prev : Window) where
    -- The last selection was that of one of the windows, and led to another window than `prev`, or to none.
    abbrev pub Left : List Window → Manager Surface → Type 0
    Left siblings n' =
        (w : Window) × (contains w siblings ≡ true)
        × (n : Manager Surface) × Kept m n
        × (r : Option Window) × (select_active_window api fuel n (some w) ≡ ok (r, n'))
        × (is_window r prev ≡ false)

    -- The selection of the window led to `prev`.
    abbrev pub Stays : Window → Type 0
    Stays w =
        (n : Manager Surface) × Kept m n
        × (n' : Manager Surface) × (select_active_window api fuel n (some w) ≡ ok (some prev, n'))

    abbrev pub Cycled : List Window → Manager Surface → Type 0
    Cycled siblings n =
        Kept m n
        × (Left siblings n
            ⊎ ((w : Window) → contains w siblings ≡ true → w == prev ≡ false → Stays w))

    leaves-Runs :
        (siblings : List Window) (w : Window)
        → contains w siblings ≡ true
        → Known m w
        → Runs m (Left siblings) (Stays w) (leaves api fuel prev w)
    unfolding leaves
    leaves-Runs siblings w there known n kept =
        let ((o, n'), is) =
          select_active_window-Returns api n depth limit (Kept-IsForest m n depth limit kept forest)
            (some w)
            (λ v e. subst (Known n) (some-injective w v e) (Known-Kept m n w kept known)) in
        let kept' = select-Kept m api fuel n (some w) (o, n') kept is in
        elim (Bool-cases (is_window o prev)) [
          | inl same ↦ (
            (false, n'),
            rw is (rw same refl),
            (kept', (n, kept, n', is ∙ ap (λ x. ok (x, n')) (is_window-some o prev same))),
          )
          | inr other ↦
              ((true, n'), rw is (rw other refl), (kept', (w, there, n, kept, o, is, other)))
        ]

    module _ (lives : ℕ → Bool) (siblings : List Window) (listed : contains prev siblings ≡ true)
        (known : All (Known m) siblings) where
      abbrev wws : List ℕ
      wws = workspaces_containing lives m prev

      runs :
          (w : Window)
          → contains w siblings ≡ true
          → Runs m (Left siblings) (Stays w) (leaves api fuel prev w)
      runs w there = leaves-Runs siblings w there (All-contains (Known m) w siblings known there)

      forget :
          (r : Result (Bool × Manager Surface)) (w : Window)
          → Outcome m (Left siblings) (Stays w) r
          → Outcome m (Left siblings) Unit r
      forget r w ((true, n), is, ended) = ((true, n), is, ended)
      forget r w ((false, n), is, (kept, stays)) = ((false, n), is, (kept, tt))

      sharing :
          (w : Window)
          → contains w siblings ≡ true
          → Runs m (Left siblings) Unit (try_sharing api fuel lives prev wws w)
      sharing w there =
          try_sharing-Runs m (Left siblings) api fuel prev w
            (λ n kept. forget (leaves api fuel prev w n) w (runs w there n kept)) lives wws

      abbrev Ran : Type 0
      Ran =
          Outcome m (Left siblings)
            (All Stays (behind prev siblings) × All Stays (before prev siblings))
            (cycle_siblings api fuel lives prev siblings m)

      cycle_siblings-Outcome : Ran
      unfolding cycle_siblings
      cycle_siblings-Outcome =
          let one =
            loop_over-Runs m (Left siblings) (λ w. Unit) (try_sharing api fuel lives prev wws)
              (behind prev siblings) (λ w there. sharing w (contains-behind w prev siblings there))
              m (m.mru_active_windows, m.calls, forest.active, refl) in
          let two =
            loop_until-Runs m (Left siblings) prev (λ w. Unit) (try_sharing api fuel lives prev wws)
              siblings listed sharing in
          let three =
            loop_over-Runs m (Left siblings) Stays (leaves api fuel prev) (behind prev siblings)
              (λ w there. runs w (contains-behind w prev siblings there)) in
          let four =
            loop_until-Runs m (Left siblings) prev Stays (leaves api fuel prev) siblings listed
              runs in
          then-Outcome m (Left siblings) _ _ (λ p q. (p, q))
            (then-Outcome m (Left siblings) _ _ (λ p q. q)
              (then-Outcome m (Left siblings) _ _ (λ p q. tt) one two) three)
            four

      -- The result of the four loops.
      abbrev pub Searched : Type 0
      Searched =
          (b : Bool) × (n : Manager Surface) × (cycle_siblings api fuel lives prev siblings m
            ≡ ok (b, n))
          × Cycled siblings n

      pub cycle_siblings-Searched : Searched
      cycle_siblings-Searched = of_outcome cycle_siblings-Outcome
        where
          of_outcome : Ran → Searched
          of_outcome ((true, n), is, (kept, left)) = (true, n, is, (kept, inl left))
          of_outcome ((false, n), is, (kept, (late, early))) = (
            false,
            n,
            is,
            (
              kept,
              inr (λ w there other. elim (contains-cases w prev siblings there other) [
                | inl sooner ↦ All-contains Stays w (before prev siblings) early sooner
                | inr later ↦ All-contains Stays w (behind prev siblings) late later
              ]),
            ),
          )
