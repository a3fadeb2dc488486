-- ===== src/BasicWindowManager/Workspaces.antt =====
-- miral/basic_window_manager.cpp: workspaces, each a set of window trees. The links between workspaces and
-- windows stand in the order in which they were made, which is the order within a key of the source's map.
pub mod Trees
pub mod Descent
pub mod Content
pub mod Membership
use miral.Prelude.{
  ℕ, zero, suc, Bool, true, false, not, ◌&&◌, Option, none, some, List, [], ◌∷◌, ◌++◌, ◌==◌,
  if◌then◌else◌, any, contains, filter, map,
}
use miral.MruWindowList.{Window}
use miral.WindowInfo.{WindowInfo}
use miral.BasicWindowManager.State.{
  Manager, Call, advise_adding_to_workspace, advise_removing_from_workspace, Result, ok,
  out_of_fuel, out_of_range, ◌>>=◌, tell, info_for, handle,
}

abbrev pub Links : Type 0
Links = List (ℕ × Window)

unfoldable pub in_workspace : ℕ → Window → Links → Bool
in_workspace workspace w links = any (λ kv. kv.0 == workspace && kv.1 == w) links

-- `while (auto const& parent = info->parent())`
abbrev pub go_up : (Window → Result Window) → Window → Option Window → Result Window
go_up next w none = ok w
go_up next w (some parent) = next parent

module _ {Surface : Type 0} where
  -- The loop of `add_children`, with `next` for its recursive calls.
  unfoldable pub children_loop :
      (List Window → Result (List Window)) → Manager Surface → List Window → Result (List Window)
  children_loop next m [] = ok []
  children_loop next m (child ∷ children) = do
    let rest_of = children_loop next m children
    info ← info_for m child
    below ← next info.children
    rest ← rest_of
    ok (child ∷ below ++ rest)

  unfoldable pub add_children : ℕ → Manager Surface → List Window → Result (List Window)
  add_children zero m children = out_of_fuel
  add_children (suc fuel) m children = children_loop (add_children fuel m) m children

  unfoldable pub root_of : ℕ → Manager Surface → Window → Result Window
  root_of zero m w = out_of_fuel
  root_of (suc fuel) m w = do info ← info_for m w; go_up (root_of fuel m) w (handle m info.parent)

  -- The windows of the tree that a window belongs to, the root first.
  unfoldable pub tree_of : ℕ → Manager Surface → Window → Result (List Window)
  tree_of fuel m window = do
    root ← root_of fuel m window
    info ← info_for m root
    below ← add_children fuel m info.children
    ok (root ∷ below)

-- `equal_range` on a workspace, and on a window.
unfoldable pub windows_in : ℕ → Links → List Window
windows_in workspace links = map (λ kv. kv.1) (filter (λ kv. kv.0 == workspace) links)

unfoldable pub workspaces_of : Window → Links → List ℕ
workspaces_of w links = map (λ kv. kv.0) (filter (λ kv. kv.1 == w) links)

abbrev pub is_nil : {A : Type 0} → List A → Bool
is_nil [] = true
is_nil (first ∷ rest) = false

-- The loop that adds what the workspace has not yet. Where the range was empty at first it stays empty, since
-- it ends before the new links; else they fall into it. With the windows that were added.
unfoldable pub insert_loop : Bool → ℕ → List Window → Links → Links × List Window
insert_loop empty workspace [] links = (links, [])
insert_loop empty workspace (w ∷ windows) links =
    let passed = insert_loop empty workspace windows links in
    let inserted = insert_loop empty workspace windows (links ++ (workspace, w) ∷ []) in
    if not empty && in_workspace workspace w links then passed else (inserted.0, w ∷ inserted.1)

-- The loop that erases the links of a workspace whose windows pass a test. With the windows that were removed.
unfoldable pub erase_loop : (Window → Bool) → ℕ → Links → Links × List Window
erase_loop p workspace [] = ([], [])
erase_loop p workspace ((k, w) ∷ links) =
    let (kept, removed) = erase_loop p workspace links in
    if k == workspace && p w then (kept, w ∷ removed) else ((k, w) ∷ kept, removed)

-- `if (!windows_added.empty())`
abbrev pub advise_if_any : (List Window → Call) → List Window → List Call
advise_if_any advise [] = []
advise_if_any advise windows = advise windows ∷ []

module _ {Surface : Type 0} where
  abbrev pub linked : Manager Surface → Links → List Call → Manager Surface
  linked m links calls = tell (record m { workspaces_to_windows = links }) calls

  unfoldable pub insert_windows : Manager Surface → ℕ → List Window → Manager Surface
  insert_windows m workspace windows =
      let links = m.workspaces_to_windows in
      let (links, added) =
        insert_loop (is_nil (windows_in workspace links)) workspace windows links in
      linked m links (advise_if_any (advise_adding_to_workspace workspace) added)

  unfoldable pub erase_windows :
      Manager Surface → ℕ → (Window → Bool) → Manager Surface × List Window
  erase_windows m workspace p =
      let (links, removed) = erase_loop p workspace m.workspaces_to_windows in
      (linked m links (advise_if_any (advise_removing_from_workspace workspace) removed), removed)

  unfoldable pub add_tree : ℕ → Manager Surface → Option Window → ℕ → Result (Manager Surface)
  add_tree fuel m none workspace = ok m
  add_tree fuel m (some w) workspace = do
    windows ← tree_of fuel m w
    ok (insert_windows m workspace windows)

  unfoldable pub add_tree_to_workspace :
      ℕ → Manager Surface → Option Window → ℕ → Result (Manager Surface)
  unfolding add_tree
  add_tree_to_workspace fuel m window workspace = add_tree fuel m (handle m window) workspace

  unfoldable pub remove_tree : ℕ → Manager Surface → Option Window → ℕ → Result (Manager Surface)
  remove_tree fuel m none workspace = ok m
  remove_tree fuel m (some w) workspace = do
    windows ← tree_of fuel m w
    ok (erase_windows m workspace (λ v. contains v windows)).0

  unfoldable pub remove_tree_from_workspace :
      ℕ → Manager Surface → Option Window → ℕ → Result (Manager Surface)
  unfolding remove_tree
  remove_tree_from_workspace fuel m window workspace =
      remove_tree fuel m (handle m window) workspace

  unfoldable pub move_workspace_content_to_workspace : Manager Surface → ℕ → ℕ → Manager Surface
  move_workspace_content_to_workspace m to_workspace from_workspace =
      let (emptied, removed) = erase_windows m from_workspace (λ w. true) in
      insert_windows emptied to_workspace removed

  -- `workspaces_containing`, with the workspaces that are still there.
  unfoldable pub workspaces_containing : (ℕ → Bool) → Manager Surface → Window → List ℕ
  workspaces_containing lives m window = filter lives (workspaces_of window m.workspaces_to_windows)
