-- ===== src/MruWindowList/Order.antt =====
-- The list of miral/mru_window_list.cpp after a history of `push` and `erase`.
use mathlib.Core.List.{reverse-append, reverse-cons, append-nil}
use miral.Prelude.{
  ◌≡◌, refl, sym, ap, ◌∙◌, inl, inr, Bool, true, not, List, [], ◌∷◌, ◌++◌, reverse, arith, ◌==◌,
  if◌then◌else◌, filter, contains, Bool-cases, ==_iff,
}
use miral.MruWindowList.{Window, is_other, erase, push}

pub data Operation : Type 0 where
  pushes erases : Window → Operation

-- The list after a history, whose latest operation stands first.
abbrev pub run : List Operation → List Window
run [] = []
run (pushes w ∷ history) = push w (run history)
run (erases w ∷ history) = erase w (run history)

-- Only the latest operation on a window counts: the windows whose latest operation is a push,
-- by the time of that push, the latest first.
abbrev pub recent : List Window → List Operation → List Window
recent seen [] = []
recent seen (pushes w ∷ history) =
    let rest = recent (w ∷ seen) history in
    let skip = recent seen history in if contains w seen then skip else w ∷ rest
recent seen (erases w ∷ history) =
    let rest = recent (w ∷ seen) history in
    let skip = recent seen history in if contains w seen then skip else rest

abbrev unseen : List Window → List Window → List Window
unseen seen ws = filter (λ w. not (contains w seen)) ws

filter-append :
    (p : Window → Bool) (xs ys : List Window) → filter p (xs ++ ys) ≡ filter p xs ++ filter p ys
filter-append p [] ys = refl
filter-append p (x ∷ xs) ys = ground (arith, filter-append p xs ys)

reverse-filter :
    (p : Window → Bool) (xs : List Window) → reverse (filter p xs) ≡ filter p (reverse xs)
reverse-filter p [] = refl
reverse-filter p (x ∷ xs) =
    rw (reverse-cons x xs, filter-append p (reverse xs) (x ∷ []), ← reverse-filter p xs)
      (ground (arith, reverse-cons x (filter p xs), append-nil (reverse (filter p xs))))

unseen-other :
    (w : Window) (seen ws : List Window)
    → unseen seen (filter (is_other w) ws) ≡ unseen (w ∷ seen) ws
unseen-other w seen [] = refl
unseen-other w seen (x ∷ ws) = ground (arith, unseen-other w seen ws)

unseen-nil : (ws : List Window) → unseen [] ws ≡ ws
unseen-nil [] = refl
unseen-nil (x ∷ ws) = ap (◌∷◌ x) (unseen-nil ws)

unseen-again :
    (w : Window) (seen ws : List Window)
    → contains w seen ≡ true
    → unseen (w ∷ seen) ws ≡ unseen seen ws
unseen-again w seen [] h = refl
unseen-again w seen (x ∷ ws) h = elim (Bool-cases (w == x)) [
  | inl same ↦
      ground (arith, unseen-again w seen ws h, ap (λ y. contains y seen) ((==_iff w x).0 same))
  | inr other ↦ ground (arith, unseen-again w seen ws h)
]

unseen-run :
    (seen : List Window) (history : List Operation)
    → unseen seen (reverse (run history)) ≡ recent seen history
unfolding push erase
unseen-run seen [] = refl
unseen-run seen (pushes w ∷ history) =
    rw
      (
        reverse-append (filter (is_other w) (run history)) (w ∷ []),
        reverse-filter (is_other w) (run history),
      )
      (ground (
        arith,
        unseen-other w seen (reverse (run history)),
        unseen-again w seen (reverse (run history)),
        unseen-run (w ∷ seen) history,
        unseen-run seen history,
      ))
unseen-run seen (erases w ∷ history) = rw (reverse-filter (is_other w) (run history)) (
    ground (
      arith,
      unseen-other w seen (reverse (run history)),
      unseen-again w seen (reverse (run history)),
      unseen-run (w ∷ seen) history,
      unseen-run seen history,
    ))

-- After any history the list holds, latest first, exactly the windows whose latest operation is a
-- push, in the order of those pushes.
pub reverse-run : (history : List Operation) → reverse (run history) ≡ recent [] history
reverse-run history = sym (unseen-nil (reverse (run history))) ∙ unseen-run [] history
