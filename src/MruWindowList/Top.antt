-- ===== src/MruWindowList/Top.antt =====
-- `top` and `enumerate` of miral/mru_window_list.cpp.
use mathlib.Core.List.{reverse-append, reverse-cons, reverse-reverse, append_assoc, append-nil}
use miral.Prelude.{
  ◌≡◌, refl, sym, ap, ◌∙◌, Bool, true, false, Option, none, some, List, [], ◌∷◌, ◌++◌, reverse,
  arith, filter, find, All, Bool-cases, inl, inr, All-append, All-middle, subst,
}
use miral.MruWindowList.{Window, top, resume, enumerate, enumerate_from}

pub All-reverse : (P : Window → Type 0) (ws : List Window) → All P ws → All P (reverse ws)
All-reverse P [] h = tt
All-reverse P (w ∷ ws) h =
    rw (reverse-cons w ws) (All-append P (reverse ws) (w ∷ []) (h.0, tt) (All-reverse P ws h.1))

module _ (visible : Window → Bool) where
  -- Where the search of `find` ended.
  abbrev Found : List Window → Option Window → Type 0
  Found ws none = All (λ w. visible w ≡ false) ws
  Found ws (some w) =
      (before : List Window) × (after : List Window) × (ws ≡ before ++ w ∷ after)
      × All (λ v. visible v ≡ false) before
      × (visible w ≡ true)

  find-Found : (ws : List Window) → Found ws (find visible ws)
  find-Found [] = tt
  find-Found (w ∷ ws) = elim (Bool-cases (visible w)) [
    | inl shown ↦ rw shown ([], ws, refl, tt, shown)
    | inr unseen ↦ rw unseen (later (find visible ws) unseen (find-Found ws))
  ]
    where
      later : (r : Option Window) → visible w ≡ false → Found ws r → Found (w ∷ ws) r
      later none unseen h = (unseen, h)
      later (some v) unseen (before, after, e, none_before, shown) =
          (w ∷ before, after, ap (◌∷◌ w) e, (unseen, none_before), shown)

  abbrev pub Topmost : List Window → Option Window → Type 0
  Topmost windows none = All (λ w. visible w ≡ false) windows
  Topmost windows (some w) =
      (before : List Window) × (after : List Window) × (windows ≡ before ++ w ∷ after)
      × (visible w ≡ true)
      × All (λ v. visible v ≡ false) after

  Found→Topmost :
      (windows : List Window) (r : Option Window) → Found (reverse windows) r → Topmost windows r
  Found→Topmost windows none h =
      rw (reverse-reverse windows) at (All-reverse (λ w. visible w ≡ false) (reverse windows) h)
  Found→Topmost windows (some w) (before, after, e, none_before, shown) = (
    reverse after,
    reverse before,
    sym (reverse-reverse windows)
        ∙ ap reverse e
        ∙ reverse-append before (w ∷ after)
        ∙ ap (λ l. l ++ reverse before) (reverse-cons w after)
        ∙ append_assoc (reverse after) (w ∷ []) (reverse before),
    shown,
    All-reverse (λ v. visible v ≡ false) before none_before,
  )

  -- `top` is the visible window that was active last: every window behind it is invisible, and
  -- there is none only if no window is visible.
  pub top-Topmost : (windows : List Window) → Topmost windows (top visible windows)
  unfolding top
  top-Topmost windows =
      Found→Topmost windows (find visible (reverse windows)) (find-Found (reverse windows))

  -- So what holds of all windows of the list holds of the active one.
  pub top-All :
      (P : Window → Type 0) (windows : List Window) {w : Window}
      → All P windows
      → top visible windows ≡ some w
      → P w
  top-All P windows {w} all e =
      let (before, after, is, _, _) = subst (Topmost windows) e (top-Topmost windows) in
      All-middle P before w after (subst (All P) is all)

  enumerate_from-all :
      (ws seen : List Window)
      → enumerate_from (λ _. visible) (λ w seen. (true, seen ++ w ∷ [])) ws seen
        ≡ seen ++ filter visible ws
  unfolding enumerate_from
  enumerate_from-all [] seen = sym (append-nil seen)
  enumerate_from-all (w ∷ ws) seen = ground (
    arith,
    enumerate_from-all ws (seen ++ w ∷ []),
    append_assoc seen (w ∷ []) (filter visible ws),
    enumerate_from-all ws seen,
  )

  enumerate_from-first :
      (ws : List Window)
      → enumerate_from {S = Option Window} (λ _. visible) (λ w _. (false, some w)) ws none
        ≡ find visible ws
  unfolding enumerate_from
  enumerate_from-first [] = refl
  enumerate_from-first (w ∷ ws) = ground (arith, enumerate_from-first ws)

  -- A callback that always answers true is called with the visible windows, the latest first; one
  -- that answers false is called with what `top` returns, and with nothing else.
  pub enumerate-order :
      (windows : List Window)
      → (enumerate (λ _. visible) (λ w seen. (true, seen ++ w ∷ [])) windows []
          ≡ filter visible (reverse windows))
        × (enumerate {S = Option Window} (λ _. visible) (λ w _. (false, some w)) windows none
            ≡ top visible windows)
  unfolding enumerate top
  enumerate-order windows =
      (enumerate_from-all (reverse windows) [], enumerate_from-first (reverse windows))

module _ {S : Type 0} (visible : S → Window → Bool) (enumerator : Window → S → Bool × S)
    (P : S → Type 0) (keep : (w : Window) (s : S) → P s → P (enumerator w s).1) where
  resume_inv :
      (r : Bool × S) (rest : S → S) → P r.1 → ((s : S) → P s → P (rest s)) → P (resume r rest)
  resume_inv (true, s) rest h later = later s h
  resume_inv (false, s) rest h later = h

  enumerate_from_inv : (ws : List Window) (s : S) → P s → P (enumerate_from visible enumerator ws s)
  unfolding enumerate_from
  enumerate_from_inv [] s h = h
  enumerate_from_inv (w ∷ ws) s h = elim (Bool-cases (visible s w)) [
    | inl shown ↦
        rw (shown, enumerate_from)
          (resume_inv (enumerator w s) _ (keep w s h) (enumerate_from_inv ws))
    | inr unseen ↦ rw (unseen, enumerate_from) (enumerate_from_inv ws s h)
  ]

  -- What each call of the callback keeps, the whole enumeration keeps.
  pub enumerate_inv :
      (windows : List Window) (s : S) → P s → P (enumerate visible enumerator windows s)
  unfolding enumerate
  enumerate_inv windows s h = enumerate_from_inv (reverse windows) s h
