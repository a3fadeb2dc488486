-- ===== src/BasicWindowManager/Records.antt =====
-- The records of the windows in miral/basic_window_manager.cpp, and what a change of one makes of them.
use mathlib.Core.Option
use mathlib.Core.Option.{some-injective}
use miral.Prelude.{
  ◌⊎◌, Option-cases, ◌≡◌, ◌∙◌, refl, sym, ap, inl, inr, false, not, Option, none, some, List, [],
  ◌∷◌, ◌==◌, if◌then◌else◌, filter, Bool-cases, Option-cases, ==_iff, arith,
}
use miral.MruWindowList.{Window}
use miral.WindowInfo.{WindowInfo}
use miral.BasicWindowManager.State.{Manager, ok, find_info, set_info, info_for}
use miral.BasicWindowManager.Forest.{find_info-key}

pub same_key :
    (v : Window) (new i : WindowInfo)
    → (if i.window == new.window then new else i).window == v ≡ i.window == v
same_key v new i = elim (Bool-cases (i.window == new.window)) [
  | inl same ↦ rw same (ap (λ w. w == v) (sym ((==_iff i.window new.window).0 same)))
  | inr other ↦ rw other refl
]

-- What a call does to each record.
abbrev pub edited : (WindowInfo → WindowInfo) → Option WindowInfo → Option WindowInfo
edited f o = Option.map f o

pub find_info-set_info :
    (v : Window) (new : WindowInfo) (infos : List WindowInfo)
    → find_info v (set_info new infos)
      ≡ edited (λ i. if i.window == new.window then new else i) (find_info v infos)
unfolding find_info set_info
find_info-set_info v new [] = refl
find_info-set_info v new (i ∷ infos) = elim (Bool-cases (i.window == v)) [
  | inl mine ↦ rw (same_key v new i ∙ mine, mine) refl
  | inr other ↦ rw (same_key v new i ∙ other, other) (find_info-set_info v new infos)
]

pub find_info-filter :
    (v w : Window) (infos : List WindowInfo)
    → v == w ≡ false
    → find_info v (filter (λ i. not (i.window == w)) infos) ≡ find_info v infos
unfolding find_info
find_info-filter v w [] h = refl
find_info-filter v w (i ∷ infos) h = ground (arith, find_info-filter v w infos h)

-- The record that a window has is replaced by what a function makes of it.
pub set_info-edited :
    (c v : Window) (f : WindowInfo → WindowInfo) (info : WindowInfo) (infos : List WindowInfo)
    → find_info c infos ≡ some info
    → (f info).window ≡ c
    → find_info v (set_info (f info) infos)
      ≡ edited (λ i. if i.window == c then f i else i) (find_info v infos)
set_info-edited c v f info infos found key =
    find_info-set_info v (f info) infos
    ∙ ap (λ k. edited (λ i. if i.window == k then f info else i) (find_info v infos)) key
    ∙ same (find_info v infos) refl
  where
    same :
        (o : Option WindowInfo)
        → find_info v infos ≡ o
        → edited (λ i. if i.window == c then f info else i) o
          ≡ edited (λ i. if i.window == c then f i else i) o
    same none e = refl
    same (some i) e = elim (Bool-cases (i.window == c)) [
      | inr other ↦ rw other refl
      | inl mine ↦
          let v_is_c : v ≡ c =
            sym (find_info-key v infos {info = i} e) ∙ (==_iff i.window c).0 mine in
          let is : info ≡ i =
            some-injective info i (sym found ∙ ap (λ w. find_info w infos) (sym v_is_c) ∙ e) in
          rw mine (ap (λ j. some (f j)) is)
    ]

pub edited-id : (o : Option WindowInfo) → o ≡ edited (λ i. i) o
edited-id none = refl
edited-id (some i) = refl

pub edited-edited :
    (f g : WindowInfo → WindowInfo) (o : Option WindowInfo)
    → edited f (edited g o) ≡ edited (λ i. f (g i)) o
edited-edited f g none = refl
edited-edited f g (some i) = refl

-- A change of another record is none.
pub edited-other :
    (v : Window) (new : WindowInfo) (infos : List WindowInfo) (o : Option WindowInfo)
    → find_info v infos ≡ o
    → v == new.window ≡ false
    → edited (λ i. if i.window == new.window then new else i) o ≡ o
edited-other v new infos none e other = refl
edited-other v new infos (some i) e other =
    let key = find_info-key v infos {info = i} e in
    let apart : i.window == new.window ≡ false = ap (λ x. x == new.window) key ∙ other in
    rw apart refl

module _ {Surface : Type 0} where
  pub found_info :
      (m : Manager Surface) (w : Window) {info : WindowInfo}
      → info_for m w ≡ ok info
      → find_info w m.window_info ≡ some info
  unfolding info_for
  found_info m w e = ground (arith, e)

  -- Each record was edited, but for that of one window.
  module _ (m n : Manager Surface) (w : Window) (own : WindowInfo) (f : WindowInfo → WindowInfo)
      (is_own : info_for n w ≡ ok own)
      (others : (v : Window)
        → v == w ≡ false
        → find_info v n.window_info ≡ edited f (find_info v m.window_info)) where
    pub kept_edited :
        (v : Window) (i : WindowInfo)
        → v == w ≡ false
        → info_for m v ≡ ok i
        → info_for n v ≡ ok (f i)
    unfolding info_for
    kept_edited v i other e = rw (others v other, found_info m v {info = i} e) refl

    -- A record is that of the one window, or an earlier one that was edited.
    pub was_edited :
        (v : Window) (j : WindowInfo)
        → info_for n v ≡ ok j
        → ((v ≡ w) × (j ≡ own))
          ⊎ ((v == w ≡ false) × (i : WindowInfo) × (info_for m v ≡ ok i) × (j ≡ f i))
    unfolding info_for
    was_edited v j e = elim (Bool-cases (v == w)) [
      | inl same ↦
          let is = (==_iff v w).0 same in
          inl (
            is,
            some-injective j own (
                sym (found_info n v {info = j} e)
                ∙ ap (λ x. find_info x n.window_info) is
                ∙ found_info n w {info = own} is_own),
          )
      | inr other ↦ elim (Option-cases (find_info v m.window_info)) [
        | inl none_found ↦ absurd (ground (arith, was other ∙ ap (edited f) none_found))
        | inr (i, found) ↦
            inr (other, i, rw found refl, some-injective j (f i) (was other ∙ ap (edited f) found))
      ]
    ]
      where
        was : v == w ≡ false → some j ≡ edited f (find_info v m.window_info)
        was other = sym (found_info n v {info = j} e) ∙ others v other
