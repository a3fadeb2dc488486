-- ===== src/BasicWindowManager/Forest.antt =====
-- The invariant on the parents and children in miral/basic_window_manager.cpp that the recursive operations rely on.
use mathlib.Core.Option.{some-injective}
use mathlib.Core.List.{append_assoc, append-nil}
use miral.Prelude.{
  ap, ◌∙◌, inl, inr, Bool-cases, ==_iff, ◌==◌, arith, List, [], ◌∷◌, ◌++◌, sym, subst, ℕ, ◌≤◌, ◌<◌,
  ◌≡◌, some, All,
}
use miral.MruWindowList.{Window}
use miral.WindowInfo.{WindowInfo}
use miral.BasicWindowManager.State.{
  find_info, Call, tell, alive, Result, ◌>>=◌, Manager, ok, info_for, handle,
}

-- A record stands under its own window.
pub find_info-key :
    (w : Window) (infos : List WindowInfo) {info : WindowInfo}
    → find_info w infos ≡ some info
    → info.window ≡ w
unfolding find_info
find_info-key w [] e = ground arith
find_info-key w (i ∷ infos) {info} e = elim (Bool-cases (i.window == w)) [
  | inl mine ↦
      subst (λ x. x.window ≡ w) (some-injective i info (rw mine at e)) ((==_iff i.window w).0 mine)
  | inr other ↦ find_info-key w infos (rw other at e)
]

module _ {Surface : Type 0} where
  -- The map has a record of the window.
  abbrev pub Known : Manager Surface → Window → Type 0
  Known m w = (info : WindowInfo) × (info_for m w ≡ ok info)

  pub info_for-key :
      (m : Manager Surface) (w : Window) {info : WindowInfo}
      → info_for m w ≡ ok info
      → info.window ≡ w
  unfolding info_for
  info_for-key m w {info} e = find_info-key w m.window_info {info = info} (ground (arith, e))

  -- `depth` grows from a window to its children and falls to its parent, and has a limit; windows
  -- that are referred to have records.
  pub record IsForest (m : Manager Surface) (depth : Window → ℕ) (limit : ℕ) : Type 0 where
    pub children :
        (w : Window) (info : WindowInfo)
        → info_for m w ≡ ok info
        → All (λ c. Known m c × (depth w < depth c)) info.children
    pub parent :
        (w p : Window) (info : WindowInfo)
        → info_for m w ≡ ok info
        → handle m info.parent ≡ some p
        → Known m p × (depth p < depth w)
    pub bounded : (w : Window) → depth w ≤ limit
    pub active : All (Known m) m.mru_active_windows

-- The operation returns: it throws nothing, and the fuel is enough.
abbrev pub Returns : {A : Type 0} → Result A → Type 0
Returns {A} r = (a : A) × (r ≡ ok a)

pub Returns-bind :
    {A B : Type 0} (r : Result A) (f : A → Result B)
    → Returns r
    → ((a : A) → r ≡ ok a → Returns (f a))
    → Returns (r >>= f)
Returns-bind r f (a, e) h = subst (λ x. Returns (x >>= f)) (sym e) (h a e)

module _ {Surface : Type 0} where
  -- Nothing but the calls differs.
  abbrev pub Told : Manager Surface → Manager Surface → Type 0
  Told m n = (calls : List Call) × (n ≡ tell m calls)

  tell-tell : (m : Manager Surface) (a b : List Call) → tell (tell m a) b ≡ tell m (a ++ b)
  tell-tell m a b = λ i. record m { calls = append_assoc m.calls a b i }

  pub Told-trans : (a b c : Manager Surface) → Told a b → Told b c → Told a c
  Told-trans a b c (x, e) (y, f) = (x ++ y, f ∙ ap (λ m. tell m y) e ∙ tell-tell a x y)

  pub Told-refl : (m : Manager Surface) → Told m m
  Told-refl m = ([], λ i. record m { calls = sym (append-nil m.calls) i })

  pub tell-IsForest :
      (m : Manager Surface) (depth : Window → ℕ) (limit : ℕ) (calls : List Call)
      → IsForest m depth limit
      → IsForest (tell m calls) depth limit
  unfolding info_for alive
  tell-IsForest m depth limit calls f = record {
    children = f.children;
    parent = f.parent;
    bounded = f.bounded;
    active = f.active;
  }
