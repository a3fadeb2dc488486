-- ===== src/BasicWindowManager/Workspaces/Trees.antt =====
-- The collection of the windows of a tree in miral/basic_window_manager.cpp.
use miral.Prelude.{
  ℕ, zero, suc, ◌+◌, ◌≤◌, ◌<◌, ◌≡◌, refl, List, [], ◌∷◌, ◌++◌, arith, All, Option-cases, inl, inr,
}
use miral.MruWindowList.{Window}
use miral.WindowInfo.{WindowInfo}
use miral.BasicWindowManager.State.{Manager, Result, ok, info_for, handle}
use miral.BasicWindowManager.Forest.{Known, IsForest, Returns}
use miral.BasicWindowManager.Workspaces.{children_loop, add_children, root_of, tree_of}

module _ {Surface : Type 0} (m : Manager Surface) (depth : Window → ℕ) (limit : ℕ)
    (forest : IsForest m depth limit) where
  abbrev pub Below : ℕ → List Window → Type 0
  Below d children = All (λ c. Known m c × (d < depth c)) children

  children_loop-Returns :
      (next : List Window → Result (List Window)) (d : ℕ) (children : List Window)
      → Below d children
      → ((c : Window) (info : WindowInfo)
          → info_for m c ≡ ok info
          → d < depth c
          → Returns (next info.children))
      → Returns (children_loop next m children)
  unfolding children_loop
  children_loop-Returns next d [] h go = ([], refl)
  children_loop-Returns next d (c ∷ cs) (((info, known), deeper), h) go =
      let (below, is_below) = go c info known deeper in
      let (rest, is_rest) = children_loop-Returns next d cs h go in
      (c ∷ below ++ rest, rw (known, is_below, is_rest) refl)

  pub add_children-Returns :
      (fuel d : ℕ) (children : List Window)
      → Below d children
      → d ≤ limit
      → limit < fuel + d
      → Returns (add_children fuel m children)
  unfolding add_children
  add_children-Returns zero d children h small enough = absurd (omega arith)
  add_children-Returns (suc fuel) d children h small enough =
      children_loop-Returns (add_children fuel m) d children h (λ c info known deeper.
        add_children-Returns fuel (depth c) info.children (forest.children c info known)
          (forest.bounded c) (omega arith))

  root_of-Returns :
      (fuel : ℕ) (w : Window)
      → Known m w
      → depth w < fuel
      → (root : Window) × (root_of fuel m w ≡ ok root) × Known m root
  unfolding root_of
  root_of-Returns zero w known enough = absurd (omega arith)
  root_of-Returns (suc fuel) w (info, known) enough = elim (Option-cases (handle m info.parent)) [
    | inl top ↦ (w, rw (known, top) refl, (info, known))
    | inr (p, above) ↦
        let (parent, higher) = forest.parent w p info known above in
        let (root, is, its) = root_of-Returns fuel p parent (omega arith) in
        (root, rw (known, above) is, its)
  ]

  -- Where parents and children form a forest of a bounded depth, the windows of the tree of a window that has a
  -- record are found: nothing is thrown, and as many levels of calls as the bound has and one are enough.
  pub tree_of-Returns : (w : Window) → Known m w → Returns (tree_of (suc limit) m w)
  unfolding tree_of
  tree_of-Returns w known =
      let (root, is_root, (info, root_known)) =
        root_of-Returns (suc limit) w known (omega (arith, forest.bounded w)) in
      let (below, is_below) =
        add_children-Returns (suc limit) (depth root) info.children
          (forest.children root info root_known) (forest.bounded root) (omega arith) in
      (root ∷ below, rw (is_root, root_known, is_below) refl)
