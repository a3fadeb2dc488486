-- ===== src/BasicWindowManager/Modification/Moved.antt =====
-- The records once `modify_window` of miral/basic_window_manager.cpp has given a window another parent.
use mathlib.Core.Option.{some-injective}
use miral.Prelude.{
  ℕ, ◌<◌, ◌≡◌, ◌∙◌, refl, sym, ap, subst, inl, inr, ◌⊎◌, true, false, Option, none, some, List, [],
  ◌∷◌, ◌==◌, contains, Bool-cases, ==_iff, arith, All,
}
use miral.MruWindowList.{Window}
use miral.WindowInfo.{WindowInfo}
use miral.BasicWindowManager.State.{Manager, ok, find_info, info_for, handle, alive, is_window}
use miral.BasicWindowManager.Forest.{Known, info_for-key}
use miral.BasicWindowManager.Family.{IsFamily, All-contains}
use miral.BasicWindowManager.Records.{edited, found_info, kept_edited, was_edited}
use miral.BasicWindowManager.Modification.Edits.{moved_by, shared, edit-parent, child_was}

module _ {Surface : Type 0} where
  -- The second state is the first one with the window of the record below another parent.
  pub record IsMoved (m n : Manager Surface) (info tmp : WindowInfo) (old new : Option Window)
      : Type 0 where
    pub own : info_for n info.window ≡ ok tmp
    pub others :
        (v : Window)
        → v == info.window ≡ false
        → find_info v n.window_info
          ≡ edited (moved_by info.window old new) (find_info v m.window_info)
    pub alive : (v : Window) → alive n v ≡ alive m v
    pub active : n.mru_active_windows ≡ m.mru_active_windows
    pub old_handle : handle m info.parent ≡ old
    pub new_handle : handle n tmp.parent ≡ new
    pub children : tmp.children ≡ info.children

  -- A move below a parent that is another one, that has a record, and that is less deep.
  pub record IsMove (m n : Manager Surface) (depth : Window → ℕ) (limit : ℕ) (info tmp : WindowInfo)
      (old new : Option Window) : Type 0 where
    pub family : IsFamily m depth limit
    pub known : info_for m info.window ≡ ok info
    pub moved : IsMoved m n info tmp old new
    pub apart : shared old new ≡ false
    pub above :
        (p : Window)
        → new ≡ some p
        → (p == info.window ≡ false) × Known m p × (depth p < depth info.window)

  module _ {m n : Manager Surface} {depth : Window → ℕ} {limit : ℕ} {info tmp : WindowInfo}
      {old new : Option Window} (move : IsMove m n depth limit info tmp old new) where
    abbrev pub w : Window
    w = info.window

    abbrev pub edit : WindowInfo → WindowInfo
    edit = moved_by w old new

    pub kept_info :
        (v : Window) (i : WindowInfo)
        → v == w ≡ false
        → info_for m v ≡ ok i
        → info_for n v ≡ ok (edit i)
    kept_info = kept_edited m n w tmp edit move.moved.own move.moved.others

    pub was_info :
        (v : Window) (j : WindowInfo)
        → info_for n v ≡ ok j
        → ((v ≡ w) × (j ≡ tmp))
          ⊎ ((v == w ≡ false) × (i : WindowInfo) × (info_for m v ≡ ok i) × (j ≡ edit i))
    was_info = was_edited m n w tmp edit move.moved.own move.moved.others

    pub Known-kept : (v : Window) → Known m v → Known n v
    Known-kept v (i, is) = elim (Bool-cases (v == w)) [
      | inl same ↦ subst (Known n) (sym ((==_iff v w).0 same)) (tmp, move.moved.own)
      | inr other ↦ (edit i, kept_info v i other is)
    ]

    pub All-kept : (vs : List Window) → All (Known m) vs → All (Known n) vs
    All-kept [] h = tt
    All-kept (v ∷ vs) (there, h) = (Known-kept v there, All-kept vs h)

    pub handle-same : (o : Option Window) → handle n o ≡ handle m o
    handle-same none = refl
    handle-same (some v) = rw (move.moved.alive v) refl

    -- The child of a window in the new state was its child, unless it is the one that was moved.
    pub child_before :
        (v c : Window) (i : WindowInfo)
        → info_for m v ≡ ok i
        → contains c (edit i).children ≡ true
        → ((contains c i.children ≡ true) × (c == w ≡ false)) ⊎ ((w ≡ c) × (new ≡ some v))
    child_before v c i is h =
        elim (child_was w old new c i move.apart (move.family.distinct v i is) h) [
          | inr (mine, at) ↦ inr (mine, at ∙ ap some (info_for-key m v {info = i} is))
          | inl (before, not_left) ↦ elim (Bool-cases (c == w)) [
            | inr other ↦ inl (before, other)
            | inl same ↦
                let listed =
                  subst (λ x. contains x i.children ≡ true) ((==_iff c w).0 same) before in
                let at : old ≡ some v =
                  sym move.moved.old_handle
                  ∙ move.family.parent_of v w i info is listed move.known in
                let left : is_window old i.window ≡ true =
                  ap (λ o. is_window o i.window) at
                  ∙ (==_iff v i.window).1 (sym (info_for-key m v {info = i} is)) in
                absurd (ground (arith, not_left, left, same))
          ]
        ]

    -- The parent of a window that was not moved.
    pub parent_before :
        (v p : Window) (i j : WindowInfo)
        → info_for m v ≡ ok i
        → j ≡ edit i
        → handle n j.parent ≡ some p
        → handle m i.parent ≡ some p
    parent_before v p i j is edited_to higher =
        sym (handle-same i.parent)
        ∙ ap (handle n) (sym (edit-parent w old new i))
        ∙ ap (λ x. handle n x.parent) (sym edited_to)
        ∙ higher

    pub own_info :
        (p : Window) (q : WindowInfo) → p ≡ w → info_for m p ≡ ok q → info.children ≡ q.children
    own_info p q is there =
        ap (λ x. x.children)
          (some-injective info q (
            sym (found_info m w {info = info} move.known)
            ∙ ap (λ x. find_info x m.window_info) (sym is)
            ∙ found_info m p {info = q} there))

    -- A child that was not moved has the parent that it had.
    pub parent_after :
        (p c : Window) (i k : WindowInfo)
        → info_for m p ≡ ok i
        → contains c i.children ≡ true
        → info_for n c ≡ ok k
        → c == w ≡ false
        → handle n k.parent ≡ some p
    parent_after p c i k is before e elsewhere = elim (was_info c k e) [
      | inl (mine, _) ↦ absurd (ground (arith, elsewhere, (==_iff c w).1 mine))
      | inr (_, l, ls, edited_to) ↦
          ap (λ x. handle n x.parent) edited_to
          ∙ ap (handle n) (edit-parent w old new l)
          ∙ handle-same l.parent
          ∙ move.family.parent_of p c i l is before ls
    ]

    -- A window is not its own child.
    pub own_child : (c : Window) → contains c info.children ≡ true → c == w ≡ false
    own_child c listed = elim (Bool-cases (c == w)) [
      | inr other ↦ other
      | inl same ↦
          let (_, deeper) =
            All-contains (λ x. Known m x × (depth w < depth x)) c info.children
              (move.family.forest.children w info move.known) listed in
          let is = (==_iff c w).0 same in absurd (omega (arith, ap depth is, deeper))
    ]

    -- The window is new to its new parent.
    pub not_listed :
        (p : Window) (i : WindowInfo)
        → info_for m p ≡ ok i
        → new ≡ some p
        → contains w i.children ≡ false
    not_listed p i is at = elim (Bool-cases (contains w i.children)) [
      | inr free ↦ free
      | inl lists ↦
          let was : old ≡ some p =
            sym move.moved.old_handle ∙ move.family.parent_of p w i info is lists move.known in
          let both : shared old new ≡ true =
            ap (λ o. shared o new) was ∙ ap (shared (some p)) at ∙ (==_iff p p).1 refl in
          absurd (ground (arith, both, move.apart))
    ]
