-- ===== src/BasicWindowManager/Modification/Edits.antt =====
-- What a change of parent in miral/basic_window_manager.cpp (`modify_window`) makes of the records.
use miral.Prelude.{
  ◌≡◌, ◌∙◌, sym, subst, inl, inr, ◌⊎◌, Bool, true, false, ◌&&◌, Option, some, [], ◌∷◌, ◌++◌, ◌==◌,
  contains, Bool-cases, ==_iff, arith,
}
use miral.MruWindowList.{Window}
use miral.WindowInfo.{WindowInfo, remove_child, remove_first, add_child}
use miral.BasicWindowManager.State.{is_window}
use miral.BasicWindowManager.Family.{
  Distinct, contains-remove_first-same, contains-remove_first-other,
}
use miral.BasicWindowManager.Removal.Records.{left_by}
use miral.BasicWindowManager.Joining.Edits.{joined_by, contains-append}

-- The window leaves one parent and comes to another.
unfoldable pub moved_by : Window → Option Window → Option Window → WindowInfo → WindowInfo
moved_by w old new i = joined_by w new (left_by w old i)

-- A parent that is left and joined.
abbrev pub shared : Option Window → Option Window → Bool
shared (some v) (some w) = v == w
shared _ _ = false

module _ (w : Window) (old new : Option Window) where
  abbrev edit : WindowInfo → WindowInfo
  edit = moved_by w old new

  pub edit-parent : (i : WindowInfo) → (edit i).parent ≡ i.parent
  unfolding moved_by joined_by left_by add_child remove_child
  edit-parent i = ground arith

  -- The old parent loses the child, the new one gets it, the others keep theirs.
  pub edit-children :
      (i : WindowInfo)
      → shared old new ≡ false
      → (((edit i).children ≡ i.children)
          × (is_window old i.window ≡ false)
          × (is_window new i.window ≡ false))
        ⊎ ((((edit i).children ≡ remove_first w i.children)
              × (old ≡ some i.window)
              × (is_window new i.window ≡ false))
            ⊎ (((edit i).children ≡ i.children ++ w ∷ [])
                × (new ≡ some i.window)
                × (is_window old i.window ≡ false)))
  unfolding moved_by joined_by left_by add_child remove_child
  edit-children i apart = ground (arith, apart)

  -- A child after the edit was one before, unless it is the window at its new parent.
  pub child_was :
      (c : Window) (i : WindowInfo)
      → shared old new ≡ false
      → Distinct i.children
      → contains c (edit i).children ≡ true
      → ((contains c i.children ≡ true) × (is_window old i.window && c == w ≡ false))
        ⊎ ((w ≡ c) × (new ≡ some i.window))
  child_was c i apart d h = elim (edit-children i apart) [
    | inl (same, not_old, _) ↦
        inl (subst (λ cs. contains c cs ≡ true) same h, ground (arith, not_old))
    | inr (inl (fewer, was_old, _)) ↦
        let listed = subst (λ cs. contains c cs ≡ true) fewer h in
        elim (Bool-cases (c == w)) [
          | inr other ↦ inl (
            sym (contains-remove_first-other c w i.children other) ∙ listed,
            ground (arith, other),
          )
          | inl mine ↦
              let mine_listed =
                subst (λ x. contains x (remove_first w i.children) ≡ true) ((==_iff c w).0 mine)
                  listed in
              absurd (ground (arith, mine_listed, contains-remove_first-same w i.children d))
        ]
    | inr (inr (more, is_new, not_old)) ↦
        let listed =
          sym (contains-append c w i.children) ∙ subst (λ cs. contains c cs ≡ true) more h in
        elim (Bool-cases (contains c i.children)) [
          | inl before ↦ inl (before, ground (arith, not_old))
          | inr not_before ↦ inr (ground (arith, listed, not_before), is_new)
        ]
  ]

  pub child_kept :
      (c : Window) (i : WindowInfo)
      → shared old new ≡ false
      → c == w ≡ false
      → contains c i.children ≡ true
      → contains c (edit i).children ≡ true
  child_kept c i apart other h = elim (edit-children i apart) [
    | inl (same, _, _) ↦ subst (λ cs. contains c cs ≡ true) (sym same) h
    | inr (inl (fewer, _, _)) ↦
        subst (λ cs. contains c cs ≡ true) (sym fewer)
          (contains-remove_first-other c w i.children other ∙ h)
    | inr (inr (more, _, _)) ↦
        subst (λ cs. contains c cs ≡ true) (sym more)
          (contains-append c w i.children ∙ ground (arith, h))
  ]
