-- ===== src/BasicWindowManager/Removal/Family.antt =====
-- The records of parents and children once `remove_window` of miral/basic_window_manager.cpp has forgotten a window.
use mathlib.Core.Option.{some-injective}
use miral.Prelude.{
  ℕ, ◌<◌, ◌≡◌, ◌∙◌, refl, sym, ap, subst, ◌⊎◌, inl, inr, true, false, Option, none, some, List, [],
  ◌∷◌, ◌==◌, if◌then◌else◌, contains, Bool-cases, Option-cases, ==_iff, arith, All,
}
use miral.MruWindowList
use miral.MruWindowList.{Window}
use miral.WindowInfo.{WindowInfo, remove_first, remove_child}
use miral.BasicWindowManager.State.{Manager, ok, find_info, info_for, handle, alive}
use miral.BasicWindowManager.Forest.{Known, IsForest, info_for-key}
use miral.BasicWindowManager.Family.{
  IsFamily, Distinct, Distinct-remove_first, contains-remove_first-same,
  contains-remove_first-other, All-contains, All-of-contained,
}
use miral.BasicWindowManager.Records.{edited, found_info}
use miral.BasicWindowManager.Removal.Records.{left_by, orphaned_in}

-- The edits of a record where a window leaves.
unfoldable pub family_edit : WindowInfo → Option Window → WindowInfo → WindowInfo
family_edit info parent i = orphaned_in info.children (left_by info.window parent i)

module _ {Surface : Type 0} where
  -- The second state is the first one without the window of the record.
  pub record IsWithout (m m' : Manager Surface) (info : WindowInfo) : Type 0 where
    pub gone : find_info info.window m'.window_info ≡ none
    pub kept :
        (v : Window)
        → v == info.window ≡ false
        → find_info v m'.window_info
          ≡ edited (family_edit info (handle m info.parent)) (find_info v m.window_info)
    pub surfaces : (v : Window) → m'.surfaces v ≡ (if v == info.window then none else m.surfaces v)
    pub active : m'.mru_active_windows ≡ miral.MruWindowList.erase info.window m.mru_active_windows

  module _ (m m' : Manager Surface) (depth : Window → ℕ) (limit : ℕ)
      (family : IsFamily m depth limit) (info : WindowInfo)
      (known : info_for m info.window ≡ ok info) (without : IsWithout m m' info) where
    abbrev w : Window
    w = info.window

    abbrev edit : WindowInfo → WindowInfo
    edit = family_edit info (handle m info.parent)

    kept_info :
        (v : Window) (i : WindowInfo)
        → v == w ≡ false
        → info_for m v ≡ ok i
        → info_for m' v ≡ ok (edit i)
    unfolding info_for
    kept_info v i other e = rw (without.kept v other, found_info m v {info = i} e) refl

    -- A window that still has a record is another one, and had a record.
    was_info :
        (v : Window) (i' : WindowInfo)
        → info_for m' v ≡ ok i'
        → (v == w ≡ false) × (i : WindowInfo) × (info_for m v ≡ ok i) × (i' ≡ edit i)
    unfolding info_for
    was_info v i' e = elim (Bool-cases (v == w)) [
      | inl same ↦
          let still =
            subst (λ x. find_info x m'.window_info ≡ some i') ((==_iff v w).0 same)
              (found_info m' v {info = i'} e) in
          absurd (ground (arith, sym without.gone ∙ still))
      | inr other ↦ elim (Option-cases (find_info v m.window_info)) [
        | inl none_found ↦ absurd (ground (arith, was other ∙ ap (edited edit) none_found))
        | inr (i, found) ↦ (
          other,
          i,
          rw found refl,
          some-injective i' (edit i) (was other ∙ ap (edited edit) found),
        )
      ]
    ]
      where
        was : v == w ≡ false → some i' ≡ edited edit (find_info v m.window_info)
        was other = sym (found_info m' v {info = i'} e) ∙ without.kept v other

    pub Known-was : (v : Window) → Known m' v → Known m v
    Known-was v (i', e) = let (_, i, is, _) = was_info v i' e in (i, is)

    alive_if : (v : Window) → alive m' v ≡ (if v == w then false else alive m v)
    unfolding alive
    alive_if v =
        ap (λ o. elim o [ none ↦ false | some s ↦ true ]) (without.surfaces v)
        ∙ elim (Bool-cases (v == w)) [ inl same ↦ rw same refl | inr other ↦ rw other refl ]

    pub handle_was :
        (o : Option Window) (q : Window)
        → handle m' o ≡ some q
        → (q == w ≡ false) × (handle m o ≡ some q)
    handle_was none q e = absurd (ground (arith, e))
    handle_was (some v) q e = ground (arith, e, alive_if v)

    handle_kept :
        (o : Option Window) (q : Window)
        → q == w ≡ false
        → handle m o ≡ some q
        → handle m' o ≡ some q
    handle_kept none q other e = absurd (ground (arith, e))
    handle_kept (some v) q other e = ground (arith, e, other, alive_if v)

    -- What an edit leaves of a record: fewer children, and no other parent.
    edit-parent :
        (i : WindowInfo) (p : Window)
        → handle m' (edit i).parent ≡ some p
        → (contains i.window info.children ≡ false) × (handle m' i.parent ≡ some p)
    unfolding family_edit orphaned_in left_by remove_child
    edit-parent i p e = ground (arith, e)

    edit-kept_parent :
        (i : WindowInfo) → contains i.window info.children ≡ false → (edit i).parent ≡ i.parent
    unfolding family_edit orphaned_in left_by remove_child
    edit-kept_parent i e = ground (arith, e)

    edit-children :
        (i : WindowInfo)
        → ((edit i).children ≡ i.children × (handle m info.parent ≡ some i.window → ⊥))
          ⊎ (((edit i).children ≡ remove_first w i.children)
              × (handle m info.parent ≡ some i.window))
    unfolding family_edit orphaned_in left_by remove_child
    edit-children i = ground arith

    -- A child that is left is another window than the one that is gone.
    child_left :
        (v c : Window) (i : WindowInfo)
        → info_for m v ≡ ok i
        → contains c (edit i).children ≡ true
        → (c == w ≡ false) × (contains c i.children ≡ true)
    child_left v c i is h = elim (edit-children i) [
      | inl (same, apart) ↦
          let listed = subst (λ cs. contains c cs ≡ true) same h in
          (
            elim (Bool-cases (c == w)) [
              | inr other ↦ other
              | inl mine ↦
                  let mine_listed =
                    subst (λ x. contains x i.children ≡ true) ((==_iff c w).0 mine) listed in
                  absurd (
                    apart (
                      family.parent_of v w i info is mine_listed known
                      ∙ ap some (sym (info_for-key m v {info = i} is))))
            ],
            listed,
          )
      | inr (fewer, here) ↦
          let listed = subst (λ cs. contains c cs ≡ true) fewer h in
          elim (Bool-cases (c == w)) [
            | inr other ↦ (other, sym (contains-remove_first-other c w i.children other) ∙ listed)
            | inl mine ↦
                let mine_listed =
                  subst (λ x. contains x (remove_first w i.children) ≡ true) ((==_iff c w).0 mine)
                    listed in
                absurd (
                  ground (
                    arith,
                    mine_listed,
                    contains-remove_first-same w i.children (family.distinct v i is),
                  ))
          ]
    ]

    child_kept :
        (c : Window) (i : WindowInfo)
        → c == w ≡ false
        → contains c i.children ≡ true
        → contains c (edit i).children ≡ true
    child_kept c i other h = elim (edit-children i) [
      | inl (same, _) ↦ subst (λ cs. contains c cs ≡ true) (sym same) h
      | inr (fewer, _) ↦
          subst (λ cs. contains c cs ≡ true) (sym fewer)
            (contains-remove_first-other c w i.children other ∙ h)
    ]

    pub Known-kept : (v : Window) → v == w ≡ false → Known m v → Known m' v
    Known-kept v other (i, is) = (edit i, kept_info v i other is)

    All-erase :
        (ws : List Window) → All (Known m) ws → All (Known m') (miral.MruWindowList.erase w ws)
    unfolding miral.MruWindowList.erase
    All-erase [] h = tt
    All-erase (v ∷ ws) (here, later) = elim (Bool-cases (v == w)) [
      | inl same ↦ rw same (All-erase ws later)
      | inr other ↦ rw other (Known-kept v other here, All-erase ws later)
    ]

    without-IsForest : IsForest m' depth limit
    without-IsForest = record {
      children = λ v i' e.
          let (other, i, is, edited_to) = was_info v i' e in
          subst (λ x. All (λ c. Known m' c × (depth v < depth c)) x.children) (sym edited_to)
            (All-of-contained (λ c. Known m' c × (depth v < depth c)) (edit i).children
              (λ c h.
                let (apart, listed) = child_left v c i is h in
                let (there, deeper) =
                  All-contains (λ x. Known m x × (depth v < depth x)) c i.children
                    (family.forest.children v i is) listed in
                (Known-kept c apart there, deeper)));
      parent = λ v p i' e above.
          let (other, i, is, edited_to) = was_info v i' e in
          let (free, same) =
            edit-parent i p (ap (λ x. handle m' x.parent) (sym edited_to) ∙ above) in
          let (apart, before) = handle_was i.parent p same in
          let (there, higher) = family.forest.parent v p i is before in
          (Known-kept p apart there, higher);
      bounded = family.forest.bounded;
      active =
          subst (All (Known m')) (sym without.active)
            (All-erase m.mru_active_windows family.forest.active);
    }

    -- A window with another parent is no child of the one that is gone.
    other_parent :
        (c p : Window) (j : WindowInfo)
        → info_for m c ≡ ok j
        → p == w ≡ false
        → handle m j.parent ≡ some p
        → contains c info.children ≡ false
    other_parent c p j js other above = elim (Bool-cases (contains c info.children)) [
      | inr free ↦ free
      | inl listed ↦
          let mine : p ≡ w =
            some-injective p w (sym above ∙ family.parent_of w c info j known listed js) in
          absurd (ground (arith, mine, other))
    ]

    pub without-IsFamily : IsFamily m' depth limit
    without-IsFamily = record {
      forest = without-IsForest;
      listed = λ v p i' e above.
          let (other, i, is, edited_to) = was_info v i' e in
          let (free, same) =
            edit-parent i p (ap (λ x. handle m' x.parent) (sym edited_to) ∙ above) in
          let (apart, before) = handle_was i.parent p same in
          let (j, known_j, lists) = family.listed v p i is before in
          (edit j, kept_info p j apart known_j, child_kept v j other lists);
      parent_of = λ p c i' info' e h e'.
          let (other, i, is, edited_to) = was_info p i' e in
          let (other', j, js, edited_to') = was_info c info' e' in
          let (apart, listed) =
            child_left p c i is (ap (λ x. contains c x.children) (sym edited_to) ∙ h) in
          let above = family.parent_of p c i j is listed js in
          ap (λ x. handle m' x.parent) edited_to'
          ∙ ap (handle m') (
              edit-kept_parent j (
                subst (λ x. contains x info.children ≡ false) (sym (info_for-key m c {info = j} js))
                  (other_parent c p j js other above)))
          ∙ handle_kept j.parent p other above;
      distinct = λ p i' e.
          let (other, i, is, edited_to) = was_info p i' e in
          subst (λ x. Distinct x.children) (sym edited_to)
            (elim (edit-children i) [
              | inl (same, _) ↦ subst Distinct (sym same) (family.distinct p i is)
              | inr (fewer, _) ↦
                  subst Distinct (sym fewer)
                    (Distinct-remove_first w i.children (family.distinct p i is))
            ]);
    }
