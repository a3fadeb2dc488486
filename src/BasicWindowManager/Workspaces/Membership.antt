-- ===== src/BasicWindowManager/Workspaces/Membership.antt =====
-- miral/basic_window_manager.cpp: `add_tree_to_workspace` and `remove_tree_from_workspace` take whole trees.
use miral.Prelude.{
  ℕ, suc, ◌≡◌, inl, inr, ◌⊎◌, ◌↔◌, Bool, true, not, ◌&&◌, ◌||◌, some, ◌==◌, contains, Bool-cases,
  ==_iff, arith,
}
use miral.MruWindowList.{Window}
use miral.BasicWindowManager.State.{Manager, ok, handle}
use miral.BasicWindowManager.Forest.{Known, IsForest}
use miral.BasicWindowManager.Workspaces.{
  in_workspace, add_tree_to_workspace, remove_tree_from_workspace,
}
use miral.BasicWindowManager.Workspaces.Content.{
  add_tree_to_workspace-in_workspace, remove_tree_from_workspace-in_workspace,
}
use miral.BasicWindowManager.Workspaces.Descent.{InTree, tree_of-InTree}
use miral.BasicWindowManager.Workspaces.Trees.{tree_of-Returns}

module _ {T : Type 0} (k workspace : ℕ) (before listed after : Bool)
    (lists : (listed ≡ true) ↔ T) where
  added_iff :
      after ≡ before || k == workspace && listed
      → (after ≡ true) ↔ ((before ≡ true) ⊎ ((k ≡ workspace) × T))
  added_iff e = (there, back)
    where
      there : after ≡ true → (before ≡ true) ⊎ ((k ≡ workspace) × T)
      there h = elim (Bool-cases before) [
        | inl was ↦ inl was
        | inr new ↦
            let both : k == workspace && listed ≡ true = ground (arith, e, h, new) in
            inr ((==_iff k workspace).0 (ground (arith, both)), lists.0 (ground (arith, both)))
      ]

      back : (before ≡ true) ⊎ ((k ≡ workspace) × T) → after ≡ true
      back (inl was) = ground (arith, e, was)
      back (inr (same, t)) =
          let one = (==_iff k workspace).1 same in
          let two = lists.1 t in ground (arith, e, one, two)

  removed_iff :
      after ≡ before && not (k == workspace && listed)
      → (after ≡ true) ↔ ((before ≡ true) × ¬ ((k ≡ workspace) × T))
  removed_iff e = (there, back)
    where
      there : after ≡ true → (before ≡ true) × ¬ ((k ≡ workspace) × T)
      there h = (
        ground (arith, e, h),
        λ (same, t).
            let one = (==_iff k workspace).1 same in
            let two = lists.1 t in ground (arith, e, h, one, two),
      )

      back : (before ≡ true) × ¬ ((k ≡ workspace) × T) → after ≡ true
      back (was, out) = elim (Bool-cases (k == workspace && listed)) [
        | inl both ↦
            absurd
              (out ((==_iff k workspace).0 (ground (arith, both)), lists.0 (ground (arith, both))))
        | inr neither ↦ ground (arith, e, was, neither)
      ]

module _ {Surface : Type 0} (m : Manager Surface) (depth : Window → ℕ) (limit : ℕ)
    (forest : IsForest m depth limit) (w : Window) (alive : handle m (some w) ≡ some w)
    (known : Known m w) (workspace k : ℕ) (v : Window) where
  -- Where parents and children form a forest of a bounded depth, the addition of a live window that has a record returns:
  -- a window is in a workspace afterwards exactly if it was before, or if this is the workspace and the window is
  -- in the same tree, from the root that is reached by parents that are alive down to the last window below it.
  pub add_tree_to_workspace-InTree :
      (m' : Manager Surface) × (add_tree_to_workspace (suc limit) m (some w) workspace ≡ ok m')
      × ((in_workspace k v m'.workspaces_to_windows ≡ true)
          ↔ ((in_workspace k v m.workspaces_to_windows ≡ true) ⊎ ((k ≡ workspace) × InTree m w v)))
  add_tree_to_workspace-InTree =
      let (windows, tree) = tree_of-Returns m depth limit forest w known in
      let (m', is, content) =
        add_tree_to_workspace-in_workspace (suc limit) m w workspace {windows = windows} k v alive
          tree in
      (
        m',
        is,
        added_iff k workspace _ (contains v windows) _ (tree_of-InTree m (suc limit) w tree v)
            content,
      )

  -- The removal of such a window returns: a window is in a workspace afterwards exactly if it was before, unless this is
  -- the workspace and the window is in the same tree.
  pub remove_tree_from_workspace-InTree :
      (m' : Manager Surface) × (remove_tree_from_workspace (suc limit) m (some w) workspace ≡ ok m')
      × ((in_workspace k v m'.workspaces_to_windows ≡ true) ↔ (
          (in_workspace k v m.workspaces_to_windows ≡ true) × ¬ ((k ≡ workspace) × InTree m w v)))
  remove_tree_from_workspace-InTree =
      let (windows, tree) = tree_of-Returns m depth limit forest w known in
      let (m', is, content) =
        remove_tree_from_workspace-in_workspace (suc limit) m w workspace {windows = windows} k v
          alive tree in
      (
        m',
        is,
        removed_iff k workspace _ (contains v windows) _ (tree_of-InTree m (suc limit) w tree v)
            content,
      )
