-- ===== src/BasicWindowManager/Workspaces/Descent.antt =====
-- The trees of windows in miral/basic_window_manager.cpp, described without the functions that walk them.
use mathlib.Core.Option.{some-injective}
use miral.Prelude.{
  ℕ, zero, suc, ◌≡◌, ◌∙◌, refl, sym, ap, subst, inl, inr, ◌⊎◌, ◌↔◌, true, ◌||◌, Option, none, some,
  List, [], ◌∷◌, ◌++◌, ◌==◌, contains, Bool-cases, ==_iff, arith,
}
use miral.MruWindowList.{Window}
use miral.WindowInfo.{WindowInfo}
use miral.BasicWindowManager.State.{
  Manager, Result, ok, Ensures, Ensures-bind, Ensures-map, ensured, find_info, info_for, handle,
}
use miral.BasicWindowManager.Records.{found_info}
use miral.BasicWindowManager.Workspaces.{children_loop, add_children, root_of, tree_of, go_up}

-- A window is a child of another one, or stands further below it.
pub data Descends (infos : List WindowInfo) : Window → Window → Type 0 where
  child :
      (w v : Window) (info : WindowInfo)
      → find_info w infos ≡ some info
      → contains v info.children ≡ true
      → Descends infos w v
  grandchild :
      (w c v : Window) (info : WindowInfo)
      → find_info w infos ≡ some info
      → contains c info.children ≡ true
      → Descends infos c v
      → Descends infos w v

-- The first window of the way up whose parent is none, or is gone.
pub data Rooted {Surface : Type 0} (m : Manager Surface) : Window → Window → Type 0 where
  top :
      (w : Window) (info : WindowInfo)
      → find_info w m.window_info ≡ some info
      → handle m info.parent ≡ none
      → Rooted m w w
  up :
      (w p r : Window) (info : WindowInfo)
      → find_info w m.window_info ≡ some info
      → handle m info.parent ≡ some p
      → Rooted m p r
      → Rooted m w r

-- The window is in the tree of another one: it is the root of the tree, or below it.
abbrev pub InTree : {Surface : Type 0} → Manager Surface → Window → Window → Type 0
InTree m w v = (r : Window) × Rooted m w r × ((v ≡ r) ⊎ Descends m.window_info r v)

contains-++ :
    (v : Window) (xs ys : List Window) → contains v (xs ++ ys) ≡ contains v xs || contains v ys
contains-++ v [] ys = refl
contains-++ v (x ∷ xs) ys = ground (arith, contains-++ v xs ys)

module _ (infos : List WindowInfo) where
  -- One of some windows, or below one of them.
  abbrev Among : List Window → Window → Type 0
  Among children v =
      (contains v children ≡ true)
      ⊎ ((c : Window) × (contains c children ≡ true) × Descends infos c v)

  abbrev Lists : List Window → List Window → Type 0
  Lists children ws = (v : Window) → (contains v ws ≡ true) ↔ Among children v

  Among-Descends :
      (c v : Window) (info : WindowInfo)
      → find_info c infos ≡ some info
      → Among info.children v
      → Descends infos c v
  Among-Descends c v info found (inl here) = child c v info found here
  Among-Descends c v info found (inr (d, there, lower)) = grandchild c d v info found there lower

  Descends-Among :
      (c v : Window) (info : WindowInfo)
      → find_info c infos ≡ some info
      → Descends infos c v
      → Among info.children v
  Descends-Among c v info found (child _ _ i is here) =
      inl (subst (λ j. contains v j.children ≡ true) (some-injective i info (sym is ∙ found)) here)
  Descends-Among c v info found (grandchild _ d _ i is there lower) = inr (
    d,
    subst (λ j. contains d j.children ≡ true) (some-injective i info (sym is ∙ found)) there,
    lower,
  )

  Among-more : (c v : Window) (cs : List Window) → Among cs v → Among (c ∷ cs) v
  Among-more c v cs (inl here) = inl (ground (arith, here))
  Among-more c v cs (inr (d, there, lower)) = inr (d, ground (arith, there), lower)

  pub Among-none : (v : Window) → Among [] v → contains v [] ≡ true
  Among-none v (inl here) = here
  Among-none v (inr (d, there, lower)) = absurd (ground (arith, there))

  cons-Lists :
      (c : Window) (info : WindowInfo) (cs below rest : List Window)
      → find_info c infos ≡ some info
      → Lists info.children below
      → Lists cs rest
      → Lists (c ∷ cs) (c ∷ below ++ rest)
  cons-Lists c info cs below rest found h k v = (there, back)
    where
      there : contains v (c ∷ below ++ rest) ≡ true → Among (c ∷ cs) v
      there e = elim (Bool-cases (c == v)) [
        | inl same ↦ inl (ground (arith, same))
        | inr other ↦ elim (Bool-cases (contains v below)) [
          | inl inside ↦ inr (c, ground arith, Among-Descends c v info found ((h v).0 inside))
          | inr outside ↦
              Among-more c v cs
                ((k v).0 (ground (arith, e, other, outside, contains-++ v below rest)))
        ]
      ]

      in_below : contains v below ≡ true → contains v (c ∷ below ++ rest) ≡ true
      in_below e = ground (arith, e, contains-++ v below rest)

      in_rest : contains v rest ≡ true → contains v (c ∷ below ++ rest) ≡ true
      in_rest e = ground (arith, e, contains-++ v below rest)

      back : Among (c ∷ cs) v → contains v (c ∷ below ++ rest) ≡ true
      back (inl e) = elim (Bool-cases (c == v)) [
        | inl same ↦ ground (arith, same)
        | inr other ↦ in_rest ((k v).1 (inl (ground (arith, e, other))))
      ]
      back (inr (d, e, lower)) = elim (Bool-cases (c == d)) [
        | inl same ↦ in_below (
            (h v).1 (
              Descends-Among c v info found
                (subst (λ x. Descends infos x v) (sym ((==_iff c d).0 same)) lower)))
        | inr other ↦ in_rest ((k v).1 (inr (d, ground (arith, e, other), lower)))
      ]

module _ {Surface : Type 0} (m : Manager Surface) where
  abbrev infos : List WindowInfo
  infos = m.window_info

  children_loop-Lists :
      (next : List Window → Result (List Window)) (children : List Window)
      → ((cs : List Window) → Ensures (Lists infos cs) (next cs))
      → Ensures (Lists infos children) (children_loop next m children)
  unfolding children_loop
  children_loop-Lists next [] h = λ v. ((λ e. absurd (ground (arith, e))), Among-none infos v)
  children_loop-Lists next (c ∷ cs) h =
      Ensures-bind (Lists infos (c ∷ cs)) (info_for m c) _ λ info known.
        Ensures-bind (Lists infos (c ∷ cs)) (next info.children) _ λ below is_below.
          Ensures-bind (Lists infos (c ∷ cs)) (children_loop next m cs) _ λ rest is_rest.
            cons-Lists infos c info cs below rest (found_info m c {info = info} known)
              (ensured (Lists infos info.children) (next info.children) (h info.children) is_below)
              (ensured (Lists infos cs) (children_loop next m cs) (children_loop-Lists next cs h)
                is_rest)

  add_children-Lists :
      (fuel : ℕ) (children : List Window)
      → Ensures (Lists infos children) (add_children fuel m children)
  unfolding add_children
  add_children-Lists zero children = tt
  add_children-Lists (suc fuel) children =
      children_loop-Lists (add_children fuel m) children (add_children-Lists fuel)

  -- What is collected for the children of a window is what stands below it.
  pub add_children-Descends :
      (fuel : ℕ) (w : Window) (info : WindowInfo) {below : List Window}
      → info_for m w ≡ ok info
      → add_children fuel m info.children ≡ ok below
      → (v : Window) → (contains v below ≡ true) ↔ Descends infos w v
  add_children-Descends fuel w info known is v =
      let found = found_info m w {info = info} known in
      let lists =
        ensured (Lists infos info.children) (add_children fuel m info.children)
          (add_children-Lists fuel info.children) is in
      (
        (λ e. Among-Descends infos w v info found ((lists v).0 e)),
        (λ d. (lists v).1 (Descends-Among infos w v info found d)),
      )

  go_up-Rooted :
      (next : Window → Result Window) (w : Window) (info : WindowInfo) (o : Option Window)
      → ((p : Window) → Ensures (Rooted m p) (next p))
      → find_info w infos ≡ some info
      → handle m info.parent ≡ o
      → Ensures (Rooted m w) (go_up next w o)
  go_up-Rooted next w info none h found above = top w info found above
  go_up-Rooted next w info (some p) h found above =
      Ensures-map (Rooted m p) (Rooted m w) (next p) (λ r rooted. up w p r info found above rooted)
        (h p)

  root_of-Rooted : (fuel : ℕ) (w : Window) → Ensures (Rooted m w) (root_of fuel m w)
  unfolding root_of
  root_of-Rooted zero w = tt
  root_of-Rooted (suc fuel) w = Ensures-bind (Rooted m w) (info_for m w) _ λ info known.
      go_up-Rooted (root_of fuel m) w info (handle m info.parent) (root_of-Rooted fuel)
        (found_info m w {info = info} known) refl

  same_handle :
      (info info' : WindowInfo) (w : Window)
      → find_info w infos ≡ some info
      → find_info w infos ≡ some info'
      → handle m info.parent ≡ handle m info'.parent
  same_handle info info' w found found' =
      ap (λ i. handle m i.parent) (some-injective info info' (sym found ∙ found'))

  -- A tree has one root.
  Rooted-unique : (w r q : Window) → Rooted m w r → Rooted m w q → q ≡ r
  Rooted-unique w r q (top _ info found above) (top _ info' found' above') = refl
  Rooted-unique w r q (top _ info found above) (up _ p _ info' found' above' rooted) =
      absurd (ground (arith, same_handle info info' w found found', above, above'))
  Rooted-unique w r q (up _ p _ info found above rooted) (top _ info' found' above') =
      absurd (ground (arith, same_handle info info' w found found', above, above'))
  Rooted-unique w r q (up _ p _ info found above rooted) (up _ p' _ info' found' above' rooted') =
      let same : p' ≡ p =
        some-injective p' p (sym above' ∙ sym (same_handle info info' w found found') ∙ above) in
      Rooted-unique p r q rooted (subst (λ x. Rooted m x q) same rooted')

  rooted_tree :
      (w v r : Window) (below : List Window)
      → Rooted m w r
      → (contains v below ≡ true) ↔ Descends infos r v
      → (contains v (r ∷ below) ≡ true) ↔ InTree m w v
  rooted_tree w v r below rooted lists = (there, back)
    where
      there : contains v (r ∷ below) ≡ true → InTree m w v
      there e = elim (Bool-cases (r == v)) [
        | inl same ↦ (r, rooted, inl (sym ((==_iff r v).0 same)))
        | inr other ↦ (r, rooted, inr (lists.0 (ground (arith, e, other))))
      ]

      back : InTree m w v → contains v (r ∷ below) ≡ true
      back (q, rooted', inl is) =
          let same : r == v ≡ true =
            (==_iff r v).1 (sym (is ∙ Rooted-unique w r q rooted rooted')) in
          ground (arith, same)
      back (q, rooted', inr lower) =
          let e =
            lists.1 (subst (λ x. Descends infos x v) (Rooted-unique w r q rooted rooted') lower) in
          ground (arith, e)

  collected :
      (fuel : ℕ) (w v : Window)
      → Ensures (λ ws. (contains v ws ≡ true) ↔ InTree m w v) (tree_of fuel m w)
  unfolding tree_of
  collected fuel w v = Ensures-bind _ (root_of fuel m w) _ λ r is_root.
      Ensures-bind _ (info_for m r) _ λ info known.
        Ensures-bind _ (add_children fuel m info.children) _ λ below is_below.
          rooted_tree w v r below
            (ensured (Rooted m w) (root_of fuel m w) (root_of-Rooted fuel w) is_root)
            (add_children-Descends fuel r info known is_below v)

  -- What is collected for a window is the tree that it is in.
  pub tree_of-InTree :
      (fuel : ℕ) (w : Window) {windows : List Window}
      → tree_of fuel m w ≡ ok windows
      → (v : Window) → (contains v windows ≡ true) ↔ InTree m w v
  tree_of-InTree fuel w is v =
      ensured (λ ws. (contains v ws ≡ true) ↔ InTree m w v) (tree_of fuel m w) (collected fuel w v)
        is
