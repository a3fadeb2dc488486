-- ===== src/BasicWindowManager/Raise/Order.antt =====
-- The order of the calls of `raise_tree` in miral/basic_window_manager.cpp.
use miral.Prelude.{
  ◌↔◌, contains, true, ℕ, zero, suc, ◌<◌, ◌≡◌, refl, sym, ap, subst, ◌∙◌, none, some, List, [], ◌∷◌,
  arith, Option-cases, inl, inr,
}
use miral.MruWindowList.{Window}
use miral.WindowInfo.{WindowInfo}
use miral.BasicWindowManager.State.{Manager, Call, advise_raise, raise, ok, tell, info_for, handle}
use miral.BasicWindowManager.Forest.{
  Known, IsForest, Returns, Told, Told-trans, Told-refl, tell-IsForest,
}
use miral.BasicWindowManager.Workspaces.{add_children}
use miral.BasicWindowManager.Workspaces.Trees.{add_children-Returns}
use miral.BasicWindowManager.Workspaces.Descent.{Descends, add_children-Descends}
use miral.BasicWindowManager.Raise.{raise_tree}

module _ {Surface : Type 0} (m : Manager Surface) (depth : Window → ℕ) (limit : ℕ)
    (forest : IsForest m depth limit) where
  abbrev pub both : Window → List Window → List Call
  both w below = advise_raise (w ∷ below) ∷ raise (w ∷ below) ∷ []

  -- The windows are those that descend from a window.
  abbrev pub AllBelow : Window → List Window → Type 0
  AllBelow w below = (v : Window) → (contains v below ≡ true) ↔ Descends m.window_info w v

  -- The state once a window was raised: the ancestors come first, each with all the windows below it.
  pub data Raised : Window → Manager Surface → Type 0 where
    alone :
        (w : Window) (info : WindowInfo) (below : List Window)
        → info_for m w ≡ ok info
        → handle m info.parent ≡ none
        → AllBelow w below
        → Raised w (tell m (both w below))
    after_parent :
        (w parent : Window) (info : WindowInfo) (n : Manager Surface) (below : List Window)
        → info_for m w ≡ ok info
        → handle m info.parent ≡ some parent
        → Raised parent n
        → AllBelow w below
        → Raised w (tell n (both w below))

  below-Returns :
      (n : Manager Surface) (w : Window) (info : WindowInfo)
      → Told m n
      → info_for m w ≡ ok info
      → Returns (add_children (suc limit) n info.children)
  unfolding info_for
  below-Returns n w info (calls, is) known =
      let f =
        subst (λ x. IsForest x depth limit) (sym is) (tell-IsForest m depth limit calls forest) in
      let known_n = ap (λ x. info_for x w) is ∙ known in
      add_children-Returns n depth limit f (suc limit) (depth w) info.children
        (f.children w info known_n) (f.bounded w) (omega arith)

  below-AllBelow :
      (n : Manager Surface) (w : Window) (info : WindowInfo) (below : List Window)
      → Told m n
      → info_for m w ≡ ok info
      → add_children (suc limit) n info.children ≡ ok below
      → AllBelow w below
  unfolding info_for
  below-AllBelow n w info below (calls, is) known is_below v =
      subst (λ x. (contains v below ≡ true) ↔ Descends x.window_info w v) is
        (add_children-Descends n (suc limit) w info (ap (λ x. info_for x w) is ∙ known) is_below v)

  raise_tree-from :
      (fuel : ℕ) (w : Window)
      → Known m w
      → depth w < fuel
      → (m' : Manager Surface) × (raise_tree (suc limit) fuel m w ≡ ok m') × Told m m' × Raised w m'
  unfolding raise_tree
  raise_tree-from zero w known enough = absurd (omega arith)
  raise_tree-from (suc fuel) w (info, known) enough = elim (Option-cases (handle m info.parent)) [
    | inl top ↦
        let (below, is_below) = below-Returns m w info (Told-refl m) known in
        (
          tell m (both w below),
          rw (known, top, is_below) refl,
          (both w below, refl),
          alone w info below known top (below-AllBelow m w info below (Told-refl m) known is_below),
        )
    | inr (p, above) ↦
        let (parent, higher) = forest.parent w p info known above in
        let (n, is_raised, told, raised) = raise_tree-from fuel p parent (omega arith) in
        let (below, is_below) = below-Returns n w info told known in
        (
          tell n (both w below),
          rw (known, above, is_raised, is_below) refl,
          Told-trans m n (tell n (both w below)) told (both w below, refl),
          after_parent w p info n below known above raised
              (below-AllBelow n w info below told known is_below),
        )
  ]

  -- Where parents and children form a forest of a bounded depth, and the window has a record, `raise_tree` returns. It
  -- raises the root of the tree first and the window itself last, each with exactly the windows that descend from it,
  -- and changes nothing but the calls.
  pub raise_tree-Raised :
      (w : Window)
      → Known m w
      → (m' : Manager Surface) × (raise_tree (suc limit) (suc limit) m w ≡ ok m')
        × Told m m'
        × Raised w m'
  raise_tree-Raised w known = raise_tree-from (suc limit) w known (omega (arith, forest.bounded w))
