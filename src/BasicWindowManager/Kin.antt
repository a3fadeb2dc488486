-- ===== src/BasicWindowManager/Kin.antt =====
-- Changes of the state of miral/basic_window_manager.cpp that leave parents and children as they are.
use mathlib.Core.Option.{some-injective}
use miral.Prelude.{
  ℕ, ◌<◌, ◌≡◌, ◌∙◌, refl, sym, ap, subst, inl, inr, Bool, true, false, Option, none, some, List, [],
  ◌∷◌, ◌==◌, if◌then◌else◌, contains, All, All-append, All-filter, filter, not, Option-cases,
  ==_iff, arith,
}
use miral.MruWindowList
use miral.MruWindowList.{Window, push}
use miral.WindowInfo.{WindowInfo}
use miral.BasicWindowManager.State.{
  Manager, Call, ok, find_info, set_info, info_for, alive, handle, with_surface,
}
use miral.BasicWindowManager.Forest.{Known, IsForest}
use miral.BasicWindowManager.Family.{IsFamily, Distinct}
use miral.BasicWindowManager.Records.{set_info-edited, found_info, edited}

module _ {Surface : Type 0} where
  -- The windows that have records and those that are alive are the same, and so are their parents and children.
  pub record SameKin (m n : Manager Surface) : Type 0 where
    pub was :
        (v : Window) (j : WindowInfo)
        → info_for n v ≡ ok j
        → (i : WindowInfo) × (info_for m v ≡ ok i)
          × (i.parent ≡ j.parent)
          × (i.children ≡ j.children)
    pub now :
        (v : Window) (i : WindowInfo)
        → info_for m v ≡ ok i
        → (j : WindowInfo) × (info_for n v ≡ ok j)
          × (i.parent ≡ j.parent)
          × (i.children ≡ j.children)
    pub alive : (v : Window) → alive n v ≡ alive m v
    pub active : All (Known m) n.mru_active_windows

  module _ (m n : Manager Surface) (depth : Window → ℕ) (limit : ℕ) (kin : SameKin m n) where
    Known-kin : (v : Window) → Known m v → Known n v
    Known-kin v (i, is) = let (j, js, _, _) = kin.now v i is in (j, js)

    All-Known-kin : (vs : List Window) → All (Known m) vs → All (Known n) vs
    All-Known-kin [] h = tt
    All-Known-kin (v ∷ vs) (known, h) = (Known-kin v known, All-Known-kin vs h)

    handle-kin : (o : Option Window) → handle n o ≡ handle m o
    handle-kin none = refl
    handle-kin (some v) = rw (kin.alive v) refl

    children-kin :
        (w : Window) (vs : List Window)
        → All (λ c. Known m c × (depth w < depth c)) vs
        → All (λ c. Known n c × (depth w < depth c)) vs
    children-kin w [] h = tt
    children-kin w (v ∷ vs) ((known, deeper), h) =
        ((Known-kin v known, deeper), children-kin w vs h)

    pub kin-IsForest : IsForest m depth limit → IsForest n depth limit
    kin-IsForest f = record {
      children = λ w j e.
          let (i, is, _, same) = kin.was w j e in
          subst (All (λ c. Known n c × (depth w < depth c))) same
            (children-kin w i.children (f.children w i is));
      parent = λ w p j e above.
          let (i, is, same, _) = kin.was w j e in
          let (known, higher) =
            f.parent w p i is (ap (handle m) same ∙ sym (handle-kin j.parent) ∙ above) in
          (Known-kin p known, higher);
      bounded = f.bounded;
      active = All-Known-kin n.mru_active_windows kin.active;
    }

    pub kin-IsFamily : IsFamily m depth limit → IsFamily n depth limit
    kin-IsFamily f = record {
      forest = kin-IsForest f.forest;
      listed = λ w p j e above.
          let (i, is, same, _) = kin.was w j e in
          let (q, qs, lists) =
            f.listed w p i is (ap (handle m) same ∙ sym (handle-kin j.parent) ∙ above) in
          let (q', qs', _, same') = kin.now p q qs in
          (q', qs', ap (contains w) (sym same') ∙ lists);
      parent_of = λ p c j l e lists e'.
          let (i, is, _, same) = kin.was p j e in
          let (k, ks, same', _) = kin.was c l e' in
          ap (handle n) (sym same')
          ∙ handle-kin k.parent
          ∙ f.parent_of p c i k is (ap (contains c) same ∙ lists) ks;
      distinct =
          λ p j e. let (i, is, _, same) = kin.was p j e in subst Distinct same (f.distinct p i is);
    }

  All-was :
      (a b : Manager Surface)
      → SameKin a b
      → (vs : List Window) → All (Known b) vs
      → All (Known a) vs
  All-was a b f [] h = tt
  All-was a b f (v ∷ vs) ((j, js), h) =
      let (i, is, _, _) = f.was v j js in ((i, is), All-was a b f vs h)

  pub SameKin-trans : (a b c : Manager Surface) → SameKin a b → SameKin b c → SameKin a c
  SameKin-trans a b c f g = record {
    was = λ v k e.
        let (j, js, p, q) = g.was v k e in
        let (i, is, p', q') = f.was v j js in (i, is, p' ∙ p, q' ∙ q);
    now = λ v i e.
        let (j, js, p, q) = f.now v i e in
        let (k, ks, p', q') = g.now v j js in (k, ks, p ∙ p', q ∙ q');
    alive = λ v. g.alive v ∙ f.alive v;
    active = All-was a b f c.mru_active_windows g.active;
  }

  pub push-All :
      (m : Manager Surface) (v : Window) (ws : List Window)
      → Known m v
      → All (Known m) ws
      → All (Known m) (push v ws)
  unfolding push miral.MruWindowList.erase
  push-All m v ws known h =
      All-append (Known m) (filter (λ x. not (x == v)) ws) (v ∷ []) (known, tt)
        (All-filter (Known m) (λ x. not (x == v)) ws h)

  -- Other lists, other calls.
  pub relisted-SameKin :
      (m : Manager Surface) (windows fullscreen : List Window) (calls : List Call)
      → All (Known m) windows
      → SameKin m (record m {
        mru_active_windows = windows;
        fullscreen_surfaces = fullscreen;
        calls = calls;
      })
  unfolding info_for alive
  relisted-SameKin m windows fullscreen calls active = record {
    was = λ v j e. (j, e, refl, refl);
    now = λ v i e. (i, e, refl, refl);
    alive = λ v. refl;
    active = active;
  }

  -- A surface is called.
  pub surface-SameKin :
      (f : Surface → Surface) (m : Manager Surface) (w : Window)
      → All (Known m) m.mru_active_windows
      → SameKin m (with_surface f m w)
  unfolding info_for alive
  surface-SameKin f m w active = record {
    was = λ v j e. (j, e, refl, refl);
    now = λ v i e. (i, e, refl, refl);
    alive = λ v. ground arith;
    active = active;
  }

  abbrev pub with_info : WindowInfo → Manager Surface → Manager Surface
  with_info info m = record m { window_info = set_info info m.window_info }

  -- The record of a window is changed, but for the window, its parent and its children.
  module _ (f : WindowInfo → WindowInfo)
      (keeps : (i : WindowInfo)
        → ((f i).window ≡ i.window) × (i.parent ≡ (f i).parent) × (i.children ≡ (f i).children))
      (m : Manager Surface) (info : WindowInfo) (known : info_for m info.window ≡ ok info) where
    with_info-edited :
        (v : Window)
        → find_info v (with_info (f info) m).window_info
          ≡ edited (λ i. if i.window == info.window then f i else i) (find_info v m.window_info)
    with_info-edited v =
        set_info-edited info.window v f info m.window_info
          (found_info m info.window {info = info} known) (keeps info).0

    pub with_info-info_for : info_for (with_info (f info) m) info.window ≡ ok (f info)
    unfolding info_for
    with_info-info_for =
        rw (with_info-edited info.window, found_info m info.window {info = info} known)
          (rw ((==_iff info.window info.window).1 refl) refl)

    change_keeps :
        (b : Bool) (i : WindowInfo)
        → (i.parent ≡ (if b then f i else i).parent)
          × (i.children ≡ (if b then f i else i).children)
    change_keeps true i = ((keeps i).1, (keeps i).2)
    change_keeps false i = (refl, refl)

    change_was :
        (v : Window) (j : WindowInfo)
        → find_info v (with_info (f info) m).window_info ≡ some j
        → (i : WindowInfo) × (info_for m v ≡ ok i)
          × (i.parent ≡ j.parent)
          × (i.children ≡ j.children)
    unfolding info_for
    change_was v j e = elim (Option-cases (find_info v m.window_info)) [
      | inl none_found ↦
          absurd (ground (arith, sym e ∙ with_info-edited v ∙ ap (edited _) none_found))
      | inr (i, found) ↦
          let is =
            some-injective (if i.window == info.window then f i else i) j
              (sym (with_info-edited v ∙ ap (edited _) found) ∙ e) in
          let (p, c) = change_keeps (i.window == info.window) i in
          (i, rw found refl, p ∙ ap (λ x. x.parent) is, c ∙ ap (λ x. x.children) is)
    ]

    pub with_info-SameKin : All (Known m) m.mru_active_windows → SameKin m (with_info (f info) m)
    unfolding info_for alive
    with_info-SameKin active = record {
      was = λ v j e. change_was v j (found_info (with_info (f info) m) v {info = j} e);
      now = λ v i e.
          let (p, c) = change_keeps (i.window == info.window) i in
          (
            if i.window == info.window then f i else i,
            rw (with_info-edited v, found_info m v {info = i} e) refl,
            p,
            c,
          );
      alive = λ v. refl;
      active = active;
    }
