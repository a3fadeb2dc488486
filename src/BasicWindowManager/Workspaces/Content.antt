-- ===== src/BasicWindowManager/Workspaces/Content.antt =====
-- The content of the workspaces of miral/basic_window_manager.cpp after each operation.
use miral.Prelude.{
  ℕ, ◌≡◌, refl, ap, ◌∙◌, Bool, true, not, ◌&&◌, ◌||◌, some, List, [], ◌∷◌, ◌++◌, ◌==◌, any,
  contains, arith, ==_iff,
}
use miral.MruWindowList.{Window}
use miral.BasicWindowManager.State.{Manager, ok, handle}
use miral.BasicWindowManager.Workspaces.{
  Links, in_workspace, insert_loop, erase_loop, insert_windows, erase_windows, windows_in, is_nil,
  tree_of, add_tree, add_tree_to_workspace, remove_tree, remove_tree_from_workspace,
  move_workspace_content_to_workspace,
}

any-append : {A : Type 0} (p : A → Bool) (xs ys : List A) → any p (xs ++ ys) ≡ any p xs || any p ys
any-append p [] ys = refl
any-append p (x ∷ xs) ys = ground (arith, any-append p xs ys)

in_workspace-append :
    (k : ℕ) (v : Window) (xs ys : Links)
    → in_workspace k v (xs ++ ys) ≡ in_workspace k v xs || in_workspace k v ys
unfolding in_workspace
in_workspace-append k v xs ys = any-append _ xs ys

in_workspace-one :
    (k : ℕ) (v : Window) (j : ℕ) (w : Window) → in_workspace k v ((j, w) ∷ []) ≡ (j == k && w == v)
unfolding in_workspace
in_workspace-one k v j w = ground arith

in_workspace-same :
    (k : ℕ) (v : Window) (j : ℕ) (w : Window) (links : Links)
    → j == k && w == v ≡ true
    → in_workspace j w links ≡ in_workspace k v links
in_workspace-same k v j w links h =
    let one : j ≡ k = ground arith in
    let two : w ≡ v = ground arith in
    ap (λ i. in_workspace i w links) one ∙ ap (λ u. in_workspace k u links) two

same_test : (p : Window → Bool) (w v : Window) → w == v ≡ true → p w ≡ p v
same_test p w v h = ap p ((==_iff w v).0 h)

insert_loop_lem :
    (empty : Bool) (workspace : ℕ) (windows : List Window) (links : Links) (k : ℕ) (v : Window)
    → in_workspace k v (insert_loop empty workspace windows links).0
      ≡ in_workspace k v links || k == workspace && contains v windows
unfolding insert_loop
insert_loop_lem empty workspace [] links k v = ground arith
insert_loop_lem empty workspace (w ∷ windows) links k v = ground (
  arith,
  insert_loop_lem empty workspace windows links k v,
  insert_loop_lem empty workspace windows (links ++ (workspace, w) ∷ []) k v,
  in_workspace-append k v links ((workspace, w) ∷ []),
  in_workspace-one k v workspace w,
  in_workspace-same k v workspace w links,
)

erase_loop_lem :
    (p : Window → Bool) (workspace : ℕ) (links : Links) (k : ℕ) (v : Window)
    → in_workspace k v (erase_loop p workspace links).0
      ≡ in_workspace k v links && not (k == workspace && p v)
unfolding erase_loop in_workspace
erase_loop_lem p workspace [] k v = refl
erase_loop_lem p workspace ((j, w) ∷ links) k v =
    ground (arith, erase_loop_lem p workspace links k v, same_test p w v)

insert_windows_lem :
    {Surface : Type 0} (m : Manager Surface) (workspace : ℕ) (windows : List Window) (k : ℕ)
    (v : Window)
    → in_workspace k v (insert_windows m workspace windows).workspaces_to_windows
      ≡ in_workspace k v m.workspaces_to_windows || k == workspace && contains v windows
unfolding insert_windows
insert_windows_lem m workspace windows k v =
    insert_loop_lem (is_nil (windows_in workspace m.workspaces_to_windows)) workspace windows
      m.workspaces_to_windows k v

erase_loop-removed :
    (p : Window → Bool) (workspace : ℕ) (links : Links) (v : Window)
    → contains v (erase_loop p workspace links).1 ≡ in_workspace workspace v links && p v
unfolding erase_loop in_workspace
erase_loop-removed p workspace [] v = refl
erase_loop-removed p workspace ((j, w) ∷ links) v =
    ground (arith, erase_loop-removed p workspace links v, same_test p w v)

module _ {Surface : Type 0} where
  -- The addition of the tree of a live window, whose windows are found, returns: the workspace has
  -- what it had and the windows of the tree, and the other workspaces have what they had.
  pub add_tree_to_workspace-in_workspace :
      (fuel : ℕ) (m : Manager Surface) (w : Window) (workspace : ℕ) {windows : List Window} (k : ℕ)
      (v : Window)
      → handle m (some w) ≡ some w
      → tree_of fuel m w ≡ ok windows
      → (m' : Manager Surface) × (add_tree_to_workspace fuel m (some w) workspace ≡ ok m')
        × (in_workspace k v m'.workspaces_to_windows
            ≡ in_workspace k v m.workspaces_to_windows || k == workspace && contains v windows)
  unfolding add_tree_to_workspace add_tree
  add_tree_to_workspace-in_workspace fuel m w workspace {windows} k v alive tree = (
    insert_windows m workspace windows,
    rw (alive, tree) refl,
    insert_windows_lem m workspace windows k v,
  )

  -- The removal of the tree of a live window, whose windows are found, returns: none of the windows
  -- of the tree is left in the workspace, and nothing else is gone from any workspace.
  pub remove_tree_from_workspace-in_workspace :
      (fuel : ℕ) (m : Manager Surface) (w : Window) (workspace : ℕ) {windows : List Window} (k : ℕ)
      (v : Window)
      → handle m (some w) ≡ some w
      → tree_of fuel m w ≡ ok windows
      → (m' : Manager Surface) × (remove_tree_from_workspace fuel m (some w) workspace ≡ ok m')
        × (in_workspace k v m'.workspaces_to_windows
            ≡ in_workspace k v m.workspaces_to_windows
              && not (k == workspace && contains v windows))
  unfolding remove_tree_from_workspace remove_tree erase_windows
  remove_tree_from_workspace-in_workspace fuel m w workspace {windows} k v alive tree = (
    (erase_windows m workspace (λ u. contains u windows)).0,
    rw (alive, tree) refl,
    erase_loop_lem (λ u. contains u windows) workspace m.workspaces_to_windows k v,
  )

  -- After the content of a workspace was moved to another one, the first has no window, the second
  -- has the windows of both, and each other workspace has what it had. A workspace whose content is
  -- moved to itself keeps its content.
  pub move_workspace_content_to_workspace-in_workspace :
      (m : Manager Surface) (to from k : ℕ) (v : Window)
      → in_workspace k v (move_workspace_content_to_workspace m to from).workspaces_to_windows
        ≡ (in_workspace k v m.workspaces_to_windows && not (k == from))
          || k == to && in_workspace from v m.workspaces_to_windows
  unfolding move_workspace_content_to_workspace erase_windows
  move_workspace_content_to_workspace-in_workspace m to from k v =
      let links = m.workspaces_to_windows in
      let emptied = (erase_windows m from (λ w. true)).0 in
      let removed = (erase_windows m from (λ w. true)).1 in
      ground (
        arith,
        insert_windows_lem emptied to removed k v,
        erase_loop_lem (λ w. true) from links k v,
        erase_loop-removed (λ w. true) from links v,
      )
