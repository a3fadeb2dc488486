-- ===== src/BasicWindowManager/Joining/Family.antt =====
-- The records of parents and children once `add_surface` of miral/basic_window_manager.cpp has made a window.
use miral.Prelude.{
  ℕ, ◌<◌, ◌≡◌, ◌∙◌, refl, sym, ap, subst, inl, inr, ◌⊎◌, true, false, Option, none, some, List, [],
  ◌∷◌, ◌==◌, contains, Bool-cases, ==_iff, arith, All,
}
use miral.MruWindowList.{Window}
use miral.WindowInfo.{WindowInfo}
use miral.BasicWindowManager.State.{Manager, ok, find_info, info_for, handle, is_window}
use miral.BasicWindowManager.Forest.{Known, IsForest, info_for-key}
use miral.BasicWindowManager.Family.{IsFamily, Distinct, All-contains, All-of-contained}
use miral.BasicWindowManager.Joining.Edits.{
  joined_by, contains-append, Distinct-append, edit-parent, edit-children, child_was, child_kept,
  IsJoined, IsNew,
}
use miral.BasicWindowManager.Records.{found_info, kept_edited, was_edited}

module _ {Surface : Type 0} where
  module _ (m n : Manager Surface) (depth : Window → ℕ) (limit : ℕ)
      (family : IsFamily m depth limit) (info : WindowInfo) (parent : Option Window)
      (new : IsNew m info.window) (joined : IsJoined m n info parent)
      (above : (p : Window)
        → parent ≡ some p
        → (p == info.window ≡ false) × Known m p × (depth p < depth info.window)) where
    abbrev w : Window
    w = info.window

    abbrev edit : WindowInfo → WindowInfo
    edit = joined_by w parent

    Known-other : (v : Window) → Known m v → v == w ≡ false
    Known-other v (i, is) = elim (Bool-cases (v == w)) [
      | inr other ↦ other
      | inl same ↦
          let found = found_info m v {info = i} is in
          let mine = subst (λ x. find_info x m.window_info ≡ some i) ((==_iff v w).0 same) found in
          absurd (ground (arith, sym new.unknown ∙ mine))
    ]

    kept_info : (v : Window) (i : WindowInfo) → info_for m v ≡ ok i → info_for n v ≡ ok (edit i)
    kept_info v i e =
        kept_edited m n w info edit joined.own joined.others v i (Known-other v (i, e)) e

    -- A record is the new one, or an earlier one that was edited.
    was_info :
        (v : Window) (j : WindowInfo)
        → info_for n v ≡ ok j
        → ((v ≡ w) × (j ≡ info))
          ⊎ ((v == w ≡ false) × (i : WindowInfo) × (info_for m v ≡ ok i) × (j ≡ edit i))
    was_info = was_edited m n w info edit joined.own joined.others

    Known-kept : (v : Window) → Known m v → Known n v
    Known-kept v (i, is) = (edit i, kept_info v i is)

    All-kept : (vs : List Window) → All (Known m) vs → All (Known n) vs
    All-kept [] h = tt
    All-kept (v ∷ vs) (known, h) = (Known-kept v known, All-kept vs h)

    -- A parent that is there was there before, unless it is the new window.
    handle_was :
        (o : Option Window) (q : Window)
        → is_window o w ≡ false
        → handle n o ≡ some q
        → handle m o ≡ some q
    handle_was none q other e = absurd (ground (arith, e))
    handle_was (some v) q other e = ground (arith, e, joined.alive v, other)

    handle_kept : (o : Option Window) (q : Window) → handle m o ≡ some q → handle n o ≡ some q
    handle_kept none q e = absurd (ground (arith, e))
    handle_kept (some v) q e = ground (arith, e, joined.alive v)

    -- Below a parent, or not at all.
    new_above : (p : Window) → handle n info.parent ≡ some p → Known n p × (depth p < depth w)
    new_above p e =
        let (_, known, higher) = above p (sym joined.parent_handle ∙ e) in
        (Known-kept p known, higher)

    joined-IsForest : IsForest n depth limit
    joined-IsForest = record {
      children = λ v j e. elim (was_info v j e) [
        | inl (is, same) ↦
            subst (All (λ c. Known n c × (depth v < depth c)))
              (sym joined.no_children ∙ ap (λ x. x.children) (sym same)) tt
        | inr (other, i, is, edited_to) ↦
            subst (λ x. All (λ c. Known n c × (depth v < depth c)) x.children) (sym edited_to)
              (All-of-contained (λ c. Known n c × (depth v < depth c)) (edit i).children
                (λ c h. elim (child_was w parent c i h) [
                  | inl before ↦
                      let (known, deeper) =
                        All-contains (λ x. Known m x × (depth v < depth x)) c i.children
                          (family.forest.children v i is) before in
                      (Known-kept c known, deeper)
                  | inr (mine, at_parent) ↦
                      let (_, _, higher) =
                        above v (at_parent ∙ ap some (info_for-key m v {info = i} is)) in
                      (
                        subst (Known n) mine (info, joined.own),
                        subst (λ x. depth v < depth x) mine higher,
                      )
                ]))
      ];
      parent = λ v p j e higher. elim (was_info v j e) [
        | inl (is, same) ↦
            let (known, less) = new_above p (ap (λ x. handle n x.parent) (sym same) ∙ higher) in
            (known, subst (λ x. depth p < depth x) (sym is) less)
        | inr (other, i, is, edited_to) ↦
            let before = handle_was i.parent p (new.no_parent v i is) (
              ap (handle n) (sym (edit-parent w parent i))
              ∙ ap (λ x. handle n x.parent) (sym edited_to)
              ∙ higher) in
            let (known, less) = family.forest.parent v p i is before in (Known-kept p known, less)
      ];
      bounded = family.forest.bounded;
      active =
          subst (All (Known n)) (sym joined.active)
            (All-kept m.mru_active_windows family.forest.active);
    }

    -- The earlier parent of an earlier window.
    parent_before :
        (v p : Window) (i j : WindowInfo)
        → info_for m v ≡ ok i
        → j ≡ edit i
        → handle n j.parent ≡ some p
        → handle m i.parent ≡ some p
    parent_before v p i j is edited_to higher = handle_was i.parent p (new.no_parent v i is) (
        ap (handle n) (sym (edit-parent w parent i))
        ∙ ap (λ x. handle n x.parent) (sym edited_to)
        ∙ higher)

    joined-listed :
        (v p : Window) (j : WindowInfo)
        → info_for n v ≡ ok j
        → handle n j.parent ≡ some p
        → (i : WindowInfo) × (info_for n p ≡ ok i) × (contains v i.children ≡ true)
    joined-listed v p j e higher = elim (was_info v j e) [
      | inr (other, i, is, edited_to) ↦
          let (q, known, lists) =
            family.listed v p i is (parent_before v p i j is edited_to higher) in
          (edit q, kept_info p q known, child_kept w parent v q lists)
      | inl (is, same) ↦
          let at_parent =
            sym joined.parent_handle ∙ ap (λ x. handle n x.parent) (sym same) ∙ higher in
          let (_, (q, known), _) = above p at_parent in
          (
            edit q,
            kept_info p q known,
            elim (edit-children w parent q) [
              | inr (more, _) ↦
                  ap (contains v) more
                  ∙ contains-append v w q.children
                  ∙ ground (arith, (==_iff w v).1 (sym is))
              | inl (_, apart) ↦
                  let key = info_for-key m p {info = q} known in
                  let here : is_window parent q.window ≡ true =
                    ap (λ o. is_window o q.window) at_parent ∙ (==_iff p q.window).1 (sym key) in
                  absurd (ground (arith, sym apart ∙ here))
            ],
          )
    ]

    joined-parent_of :
        (p c : Window) (j k : WindowInfo)
        → info_for n p ≡ ok j
        → contains c j.children ≡ true
        → info_for n c ≡ ok k
        → handle n k.parent ≡ some p
    joined-parent_of p c j k e lists e' = elim (was_info p j e) [
      | inl (is, same) ↦
          let nothing =
            ap (contains c) (sym joined.no_children ∙ ap (λ x. x.children) (sym same)) ∙ lists in
          absurd (ground (arith, nothing))
      | inr (other, i, is, edited_to) ↦
          elim (child_was w parent c i (ap (λ x. contains c x.children) (sym edited_to) ∙ lists)) [
            | inr (mine, at_parent) ↦ elim (was_info c k e') [
              | inl (_, same) ↦
                  ap (λ x. handle n x.parent) same
                  ∙ joined.parent_handle
                  ∙ at_parent
                  ∙ ap some (info_for-key m p {info = i} is)
              | inr (apart, _, _, _) ↦ absurd (ground (arith, apart, (==_iff c w).1 (sym mine)))
            ]
            | inl before ↦ elim (was_info c k e') [
              | inl (mine, _) ↦
                  let (known, _) =
                    All-contains (λ x. Known m x × (depth p < depth x)) c i.children
                      (family.forest.children p i is) before in
                  absurd (ground (arith, Known-other c known, (==_iff c w).1 mine))
              | inr (_, l, ls, edited_to') ↦
                  ap (λ x. handle n x.parent) edited_to'
                  ∙ ap (handle n) (edit-parent w parent l)
                  ∙ handle_kept l.parent p (family.parent_of p c i l is before ls)
            ]
          ]
    ]

    joined-Distinct : (p : Window) (j : WindowInfo) → info_for n p ≡ ok j → Distinct j.children
    joined-Distinct p j e = elim (was_info p j e) [
      | inl (is, same) ↦
          subst Distinct (sym joined.no_children ∙ ap (λ x. x.children) (sym same)) tt
      | inr (other, i, is, edited_to) ↦
          subst (λ x. Distinct x.children) (sym edited_to)
            (elim (edit-children w parent i) [
              | inl (same, _) ↦ subst Distinct (sym same) (family.distinct p i is)
              | inr (more, _) ↦
                  subst Distinct (sym more)
                    (Distinct-append w i.children (not_listed p i is) (family.distinct p i is))
            ])
    ]
      where
        not_listed :
            (p : Window) (i : WindowInfo) → info_for m p ≡ ok i → contains w i.children ≡ false
        not_listed p i is = elim (Bool-cases (contains w i.children)) [
          | inr free ↦ free
          | inl lists ↦
              let (known, _) =
                All-contains (λ x. Known m x × (depth p < depth x)) w i.children
                  (family.forest.children p i is) lists in
              absurd (ground (arith, Known-other w known, (==_iff w w).1 refl))
        ]

    -- The new window has joined the family.
    pub joined-IsFamily : IsFamily n depth limit
    joined-IsFamily = record {
      forest = joined-IsForest;
      listed = joined-listed;
      parent_of = joined-parent_of;
      distinct = joined-Distinct;
    }
