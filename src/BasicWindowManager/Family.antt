-- ===== src/BasicWindowManager/Family.antt =====
-- The invariant on the records of parents and children in miral/basic_window_manager.cpp: each names the other.
use miral.Prelude.{
  ℕ, ◌≡◌, true, false, some, List, [], ◌∷◌, ◌==◌, contains, All, arith, Bool-cases, inl, inr, refl,
  ==_iff, subst, sym,
}
use miral.MruWindowList.{Window}
use miral.WindowInfo.{WindowInfo, remove_first}
use miral.BasicWindowManager.State.{Manager, Call, ok, info_for, handle, alive}
use miral.BasicWindowManager.Forest.{Known, IsForest}

-- No element occurs twice.
abbrev pub Distinct : List Window → Type 0
Distinct [] = Unit
Distinct (w ∷ ws) = (contains w ws ≡ false) × Distinct ws

-- A forest in which a window is listed, once, as a child of each parent that it has, and has as its parent each
-- window that lists it.
pub record IsFamily {Surface : Type 0} (m : Manager Surface) (depth : Window → ℕ) (limit : ℕ)
    : Type 0 where
  pub forest : IsForest m depth limit
  pub listed :
      (w p : Window) (info : WindowInfo)
      → info_for m w ≡ ok info
      → handle m info.parent ≡ some p
      → (i : WindowInfo) × (info_for m p ≡ ok i) × (contains w i.children ≡ true)
  pub parent_of :
      (p c : Window) (i info : WindowInfo)
      → info_for m p ≡ ok i
      → contains c i.children ≡ true
      → info_for m c ≡ ok info
      → handle m info.parent ≡ some p
  pub distinct : (p : Window) (i : WindowInfo) → info_for m p ≡ ok i → Distinct i.children

pub contains-remove_first-other :
    (v w : Window) (ws : List Window)
    → v == w ≡ false
    → contains v (remove_first w ws) ≡ contains v ws
unfolding remove_first
contains-remove_first-other v w [] h = refl
contains-remove_first-other v w (x ∷ ws) h = ground (arith, contains-remove_first-other v w ws h, h)

pub contains-remove_first-same :
    (w : Window) (ws : List Window) → Distinct ws → contains w (remove_first w ws) ≡ false
unfolding remove_first
contains-remove_first-same w [] d = refl
contains-remove_first-same w (x ∷ ws) (fresh, d) = elim (Bool-cases (w == x)) [
  | inl same ↦ rw same (subst (λ y. contains y ws ≡ false) (sym ((==_iff w x).0 same)) fresh)
  | inr other ↦
      let turned : x == w ≡ false = ground (arith, other) in
      rw (other, turned) (contains-remove_first-same w ws d)
]

pub Distinct-remove_first :
    (w : Window) (ws : List Window) → Distinct ws → Distinct (remove_first w ws)
unfolding remove_first
Distinct-remove_first w [] d = tt
Distinct-remove_first w (x ∷ ws) (fresh, d) = elim (Bool-cases (w == x)) [
  | inl same ↦ rw same d
  | inr other ↦
      let turned : x == w ≡ false = ground (arith, other) in
      rw other
        ((rw (contains-remove_first-other x w ws turned) fresh), Distinct-remove_first w ws d)
]

-- What holds of each element holds of all.
pub All-of-contained :
    (P : Window → Type 0) (ws : List Window)
    → ((w : Window) → contains w ws ≡ true → P w)
    → All P ws
All-of-contained P [] h = tt
All-of-contained P (x ∷ ws) h =
    (h x (ground arith), All-of-contained P ws (λ w e. h w (ground (arith, e))))

pub All-contains :
    (P : Window → Type 0) (w : Window) (ws : List Window) → All P ws → contains w ws ≡ true → P w
All-contains P w [] h e = ground (arith, e)
All-contains P w (v ∷ ws) (here, later) e = elim (Bool-cases (v == w)) [
  | inl same ↦ subst P ((==_iff v w).0 same) here
  | inr other ↦ All-contains P w ws later (rw other at e)
]

pub All-imp :
    (P Q : Window → Type 0) (ws : List Window) → ((w : Window) → P w → Q w) → All P ws → All Q ws
All-imp P Q [] f h = tt
All-imp P Q (w ∷ ws) f (here, later) = (f w here, All-imp P Q ws f later)

module _ {Surface : Type 0} where
  -- Another order of the windows that were active, other calls and nothing else.
  pub pushed-IsFamily :
      (m : Manager Surface) (depth : Window → ℕ) (limit : ℕ) (windows : List Window)
      (calls : List Call)
      → IsFamily m depth limit
      → All (Known m) windows
      → IsFamily (record m { mru_active_windows = windows; calls = calls }) depth limit
  unfolding info_for alive
  pushed-IsFamily m depth limit windows calls f active = record {
    forest = record {
      children = f.forest.children;
      parent = f.forest.parent;
      bounded = f.forest.bounded;
      active = active;
    };
    listed = f.listed;
    parent_of = f.parent_of;
    distinct = f.distinct;
  }
