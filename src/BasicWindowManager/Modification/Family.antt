-- ===== src/BasicWindowManager/Modification/Family.antt =====
-- Parents and children once `modify_window` of miral/basic_window_manager.cpp has given a window another parent.
use miral.Prelude.{
  ℕ, ◌<◌, ◌≡◌, ◌∙◌, sym, ap, subst, inl, inr, true, Option, some, ◌==◌, contains, Bool-cases,
  ==_iff, arith, All,
}
use miral.MruWindowList.{Window}
use miral.WindowInfo.{WindowInfo}
use miral.BasicWindowManager.State.{Manager, ok, info_for, handle, is_window}
use miral.BasicWindowManager.Forest.{Known, IsForest, info_for-key}
use miral.BasicWindowManager.Family.{
  IsFamily, Distinct, Distinct-remove_first, All-contains, All-of-contained,
}
use miral.BasicWindowManager.Joining.Edits.{Distinct-append, contains-append}
use miral.BasicWindowManager.Modification.Edits.{edit-children, child_kept}
use miral.BasicWindowManager.Modification.Moved.{
  IsMove, edit, kept_info, was_info, Known-kept, All-kept, child_before, parent_before, own_info,
  parent_after, own_child, not_listed,
}

module _ {Surface : Type 0} where
  module _ {m n : Manager Surface} {depth : Window → ℕ} {limit : ℕ} {info tmp : WindowInfo}
      {old new : Option Window} (move : IsMove m n depth limit info tmp old new) where
    moved-IsForest : IsForest n depth limit
    moved-IsForest = record {
      children = λ v j e. elim (was_info move v j e) [
        | inl (is, same) ↦
            subst (All (λ c. Known n c × (depth v < depth c)))
              (sym move.moved.children ∙ ap (λ x. x.children) (sym same))
              (subst (λ x. All (λ c. Known n c × (depth x < depth c)) info.children) (sym is)
                (All-of-contained (λ c. Known n c × (depth info.window < depth c)) info.children
                  (λ c h.
                    let (there, deeper) =
                      All-contains (λ x. Known m x × (depth info.window < depth x)) c info.children
                        (move.family.forest.children info.window info move.known) h in
                    (Known-kept move c there, deeper))))
        | inr (other, i, is, edited_to) ↦
            subst (λ x. All (λ c. Known n c × (depth v < depth c)) x.children) (sym edited_to)
              (All-of-contained (λ c. Known n c × (depth v < depth c)) (edit move i).children
                (λ c h. elim (child_before move v c i is h) [
                  | inl (before, _) ↦
                      let (there, deeper) =
                        All-contains (λ x. Known m x × (depth v < depth x)) c i.children
                          (move.family.forest.children v i is) before in
                      (Known-kept move c there, deeper)
                  | inr (mine, at) ↦
                      let (_, _, higher) = move.above v at in
                      (
                        subst (Known n) mine (tmp, move.moved.own),
                        subst (λ x. depth v < depth x) mine higher,
                      )
                ]))
      ];
      parent = λ v p j e higher. elim (was_info move v j e) [
        | inl (is, same) ↦
            let (_, there, less) =
              move.above p
                (sym move.moved.new_handle ∙ ap (λ x. handle n x.parent) (sym same) ∙ higher) in
            (Known-kept move p there, subst (λ x. depth p < depth x) (sym is) less)
        | inr (other, i, is, edited_to) ↦
            let (there, less) =
              move.family.forest.parent v p i is (parent_before move v p i j is edited_to higher) in
            (Known-kept move p there, less)
      ];
      bounded = move.family.forest.bounded;
      active =
          subst (All (Known n)) (sym move.moved.active)
            (All-kept move m.mru_active_windows move.family.forest.active);
    }

    moved-listed :
        (v p : Window) (j : WindowInfo)
        → info_for n v ≡ ok j
        → handle n j.parent ≡ some p
        → (i : WindowInfo) × (info_for n p ≡ ok i) × (contains v i.children ≡ true)
    moved-listed v p j e higher = elim (was_info move v j e) [
      | inl (is, same) ↦
          let at = sym move.moved.new_handle ∙ ap (λ x. handle n x.parent) (sym same) ∙ higher in
          let (other, (q, there), _) = move.above p at in
          let joined : is_window new q.window ≡ true =
            ap (λ o. is_window o q.window) at
            ∙ (==_iff p q.window).1 (sym (info_for-key m p {info = q} there)) in
          (
            edit move q,
            kept_info move p q other there,
            elim (edit-children info.window old new q move.apart) [
              | inl (_, _, not_new) ↦ absurd (ground (arith, not_new, joined))
              | inr (inl (_, _, not_new)) ↦ absurd (ground (arith, not_new, joined))
              | inr (inr (more, _, _)) ↦
                  ap (contains v) more
                  ∙ contains-append v info.window q.children
                  ∙ ground (arith, (==_iff info.window v).1 (sym is))
            ],
          )
      | inr (other, i, is, edited_to) ↦
          let (q, there, lists) =
            move.family.listed v p i is (parent_before move v p i j is edited_to higher) in
          elim (Bool-cases (p == info.window)) [
            | inr elsewhere ↦ (
              edit move q,
              kept_info move p q elsewhere there,
              child_kept info.window old new v q move.apart other lists,
            )
            | inl mine ↦
                let at = (==_iff p info.window).0 mine in
                (
                  tmp,
                  ap (info_for n) at ∙ move.moved.own,
                  ap (contains v) (move.moved.children ∙ own_info move p q at there) ∙ lists,
                )
          ]
    ]

    moved-parent_of :
        (p c : Window) (j k : WindowInfo)
        → info_for n p ≡ ok j
        → contains c j.children ≡ true
        → info_for n c ≡ ok k
        → handle n k.parent ≡ some p
    moved-parent_of p c j k e lists e' = elim (was_info move p j e) [
      | inl (is, same) ↦
          let listed =
            ap (contains c) (sym move.moved.children ∙ ap (λ x. x.children) (sym same)) ∙ lists in
          subst (λ x. handle n k.parent ≡ some x) (sym is)
            (parent_after move info.window c info k move.known listed e' (own_child move c listed))
      | inr (other, i, is, edited_to) ↦
          elim (child_before move p c i is
            (ap (λ x. contains c x.children) (sym edited_to) ∙ lists)) [
              | inl (before, elsewhere) ↦ parent_after move p c i k is before e' elsewhere
              | inr (mine, at) ↦ elim (was_info move c k e') [
                | inl (_, same) ↦ ap (λ x. handle n x.parent) same ∙ move.moved.new_handle ∙ at
                | inr (elsewhere, _, _, _) ↦
                    absurd (ground (arith, elsewhere, (==_iff c info.window).1 (sym mine)))
              ]
            ]
    ]

    moved-Distinct : (p : Window) (j : WindowInfo) → info_for n p ≡ ok j → Distinct j.children
    moved-Distinct p j e = elim (was_info move p j e) [
      | inl (is, same) ↦
          subst Distinct (sym move.moved.children ∙ ap (λ x. x.children) (sym same))
            (move.family.distinct info.window info move.known)
      | inr (other, i, is, edited_to) ↦
          subst (λ x. Distinct x.children) (sym edited_to)
            (elim (edit-children info.window old new i move.apart) [
              | inl (same, _, _) ↦ subst Distinct (sym same) (move.family.distinct p i is)
              | inr (inl (fewer, _, _)) ↦
                  subst Distinct (sym fewer)
                    (Distinct-remove_first info.window i.children (move.family.distinct p i is))
              | inr (inr (more, at, _)) ↦ subst Distinct (sym more) (
                  Distinct-append info.window i.children
                    (not_listed move p i is (at ∙ ap some (info_for-key m p {info = i} is)))
                    (move.family.distinct p i is))
            ])
    ]

    pub moved-IsFamily : IsFamily n depth limit
    moved-IsFamily = record {
      forest = moved-IsForest;
      listed = moved-listed;
      parent_of = moved-parent_of;
      distinct = moved-Distinct;
    }
