-- ===== src/BasicWindowManager/Raise.antt =====
-- miral/basic_window_manager.cpp, `raise_tree`: a window is raised with the windows below it, after its parent.
pub mod Order
use miral.Prelude.{ℕ, zero, suc, Option, none, some, List, [], ◌∷◌}
use miral.MruWindowList.{Window}
use miral.BasicWindowManager.State.{
  Manager, Call, advise_raise, raise, Result, ok, out_of_range, out_of_fuel, ◌>>=◌, tell, info_for,
  handle,
}
use miral.BasicWindowManager.Workspaces.{add_children}

module _ {Surface : Type 0} where
  -- `if (auto parent = info.parent()) raise_tree(parent);`
  abbrev pub raise_parent :
      (Window → Result (Manager Surface))
      → Manager Surface
      → Option Window
      → Result (Manager Surface)
  raise_parent next m none = ok m
  raise_parent next m (some parent) = next parent

  -- The policy is told first, then the focus controller. `depth` is the fuel of `add_children`, which is the function
  -- of that name in `add_tree_to_workspace`.
  unfoldable pub raise_tree : ℕ → ℕ → Manager Surface → Window → Result (Manager Surface)
  raise_tree depth zero m root = out_of_fuel
  raise_tree depth (suc fuel) m root = do
    info ← info_for m root
    raised ← raise_parent (raise_tree depth fuel m) m (handle m info.parent)
    below ← add_children depth raised info.children
    ok (tell raised (advise_raise (root ∷ below) ∷ raise (root ∷ below) ∷ []))
