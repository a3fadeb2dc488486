-- ===== src/BasicWindowManager/Joining/Linked.antt =====
-- A new window joins the workspaces of its parent (`add_surface` of miral/basic_window_manager.cpp).
use miral.Prelude.{
  ℕ, suc, ◌≡◌, ◌∙◌, refl, sym, ap, subst, inl, inr, some, List, [], ◌∷◌, Bool-cases, All,
}
use miral.MruWindowList.{Window}
use miral.BasicWindowManager.State.{Manager, Call, ok, info_for, alive}
use miral.BasicWindowManager.Forest.{Known, IsForest}
use miral.BasicWindowManager.Kin.{SameKin, kin-IsForest}
use miral.BasicWindowManager.Workspaces.{Links, add_tree, add_tree_to_workspace, insert_windows}
use miral.BasicWindowManager.Workspaces.Trees.{tree_of-Returns}
use miral.BasicWindowManager.Joining.{join_workspaces}

module _ {Surface : Type 0} where
  abbrev pub relinked : Manager Surface → Links → List Call → Manager Surface
  relinked m links calls = record m { workspaces_to_windows = links; calls = calls }

  -- Nothing but workspaces and calls differs.
  abbrev pub Relinked : Manager Surface → Manager Surface → Type 0
  Relinked m n = (links : Links) × (calls : List Call) × (n ≡ relinked m links calls)

  Relinked-trans : (a b c : Manager Surface) → Relinked a b → Relinked b c → Relinked a c
  Relinked-trans a b c (l, k, e) (l', k', e') = (l', k', e' ∙ ap (λ x. relinked x l' k') e)

  pub Relinked-SameKin :
      (m n : Manager Surface) → All (Known m) m.mru_active_windows → Relinked m n → SameKin m n
  unfolding info_for alive
  Relinked-SameKin m n active (links, calls, is) = subst (SameKin m) (sym is) (record {
    was = λ v j e. (j, e, refl, refl);
    now = λ v i e. (i, e, refl, refl);
    alive = λ v. refl;
    active = active;
  })

  pub Relinked-info_for :
      (m n : Manager Surface) (v : Window) → Relinked m n → info_for n v ≡ info_for m v
  unfolding info_for
  Relinked-info_for m n v (links, calls, is) = ap (λ x. info_for x v) is

  insert_windows-Relinked :
      (m : Manager Surface) (workspace : ℕ) (windows : List Window)
      → Relinked m (insert_windows m workspace windows)
  unfolding insert_windows
  insert_windows-Relinked m workspace windows = (_, _, refl)

  add_tree-Relinked :
      (m : Manager Surface) (depth : Window → ℕ) (limit : ℕ) (w : Window) (workspace : ℕ)
      → IsForest m depth limit
      → Known m w
      → (n : Manager Surface) × (add_tree_to_workspace (suc limit) m (some w) workspace ≡ ok n)
        × Relinked m n
  unfolding add_tree_to_workspace add_tree
  add_tree-Relinked m depth limit w workspace forest known = elim (Bool-cases (alive m w)) [
    | inr gone ↦ (m, rw gone refl, (m.workspaces_to_windows, m.calls, refl))
    | inl there ↦
        let (windows, is) = tree_of-Returns m depth limit forest w known in
        (
          insert_windows m workspace windows,
          rw (there, is) refl,
          insert_windows-Relinked m workspace windows,
        )
  ]

  pub join_workspaces-Relinked :
      (m : Manager Surface) (depth : Window → ℕ) (limit : ℕ) (w : Window) (workspaces : List ℕ)
      → IsForest m depth limit
      → Known m w
      → (n : Manager Surface) × (join_workspaces (suc limit) m w workspaces ≡ ok n) × Relinked m n
  unfolding join_workspaces
  join_workspaces-Relinked m depth limit w [] forest known =
      (m, refl, (m.workspaces_to_windows, m.calls, refl))
  join_workspaces-Relinked m depth limit w (workspace ∷ workspaces) forest known =
      let (added, e, one) = add_tree-Relinked m depth limit w workspace forest known in
      let kin = Relinked-SameKin m added forest.active one in
      let (info, is) = known in
      let (n, e', rest) =
        join_workspaces-Relinked added depth limit w workspaces
          (kin-IsForest m added depth limit kin forest)
          (info, Relinked-info_for m added w one ∙ is) in
      (n, rw e e', Relinked-trans m added n one rest)
