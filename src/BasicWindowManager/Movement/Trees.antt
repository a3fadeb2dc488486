-- ===== src/BasicWindowManager/Movement/Trees.antt =====
-- The recursion of `move_tree` in miral/basic_window_manager.cpp: the surfaces that it changes.
use miral.Prelude.{
  ℕ, zero, suc, ◌+◌, ◌≤◌, ◌<◌, ◌≡◌, refl, sym, ap, subst, ◌∙◌, inl, inr, false, some, List, [], ◌∷◌,
  arith, All, if◌then◌else◌, ◌==◌, Bool-cases, Option-cases, ==_iff,
}
use miral.Geometry.{
  Point, Size, Displacement, Rectangle, between, displacement_eq, no_displacement, size_eq,
}
use miral.MruWindowList.{Window}
use miral.WindowInfo.{WindowInfo}
use miral.BasicWindowManager.Surfaces.{SurfaceApi}
use miral.BasicWindowManager.State.{
  Manager, Result, ok, info_for, find_info, window_top_left, window_size,
}
use miral.BasicWindowManager.Forest.{Known, IsForest}
use miral.BasicWindowManager.Movement.{
  resized_to, place_and_size, move_children, shifted, move_tree,
}

find_info-window :
    (w : Window) (infos : List WindowInfo) {info : WindowInfo}
    → find_info w infos ≡ some info
    → info.window ≡ w
unfolding find_info
find_info-window w [] e = cc
find_info-window w (i ∷ infos) {info} e = elim (Bool-cases (i.window == w)) [
  | inl mine ↦ ground (arith, e, mine)
  | inr other ↦ find_info-window w infos (rw other at e)
]

info_for-window :
    {Surface : Type 0} (m : Manager Surface) (w : Window) {info : WindowInfo}
    → info_for m w ≡ ok info
    → info.window ≡ w
unfolding info_for
info_for-window m w {info} e = elim (Option-cases (find_info w m.window_info)) [
  | inl nowhere ↦ absurd (ground (arith, e, nowhere))
  | inr (i, found) ↦ find_info-window w m.window_info {info = info} (ground (arith, e, found))
]

module _ {Surface : Type 0} (api : SurfaceApi Surface)
    (confirm : Manager Surface → WindowInfo → Displacement → Rectangle) (start : Manager Surface)
    (depth : Window → ℕ) (limit : ℕ) (forest : IsForest start depth limit) where
  -- The records are the same.
  abbrev pub Same : Manager Surface → Manager Surface → Type 0
  Same m m' = m'.window_info ≡ m.window_info

  -- So are the surfaces of the windows that are no deeper than `d`.
  abbrev pub Above : ℕ → Manager Surface → Manager Surface → Type 0
  Above d m m' = Same m m' × ((v : Window) → depth v ≤ d → m'.surfaces v ≡ m.surfaces v)

  Above-trans : (d : ℕ) (a b c : Manager Surface) → Above d a b → Above d b c → Above d a c
  Above-trans d a b c (s, h) (t, k) = (t ∙ s, λ v small. k v small ∙ h v small)

  known_in :
      (m : Manager Surface) (w : Window) {info : WindowInfo}
      → Same start m
      → info_for start w ≡ ok info
      → info_for m w ≡ ok info
  unfolding info_for
  known_in m w s known = rw s known

  elsewhere : (d : ℕ) (v w : Window) → depth v ≤ d → d < depth w → v == w ≡ false
  elsewhere d v w small deeper = elim (Bool-cases (v == w)) [
    | inl same ↦ absurd (let e : depth v ≡ depth w = ap depth ((==_iff v w).0 same) in omega arith)
    | inr other ↦ other
  ]

  shifted-Above :
      (d : ℕ) (m : Manager Surface) (w : Window) (movement : Displacement)
      → d < depth w
      → Above d m (shifted api m w movement)
  unfolding shifted
  shifted-Above d m w movement deeper = (refl, λ v small. rw (elsewhere d v w small deeper) refl)

  resized_to-Above :
      (d : ℕ) (m : Manager Surface) (w : Window) (size : Size)
      → d < depth w
      → Above d m (resized_to api m w size)
  unfolding resized_to
  resized_to-Above d m w size deeper = elim (Bool-cases (size_eq (window_size api m w) size)) [
    | inl same ↦ rw same (refl, λ v small. refl)
    | inr other ↦ rw other (refl, λ v small. rw (elsewhere d v w small deeper) refl)
  ]

  -- Where the root goes, before the windows below it follow.
  abbrev pub destination : Manager Surface → Window → Displacement → Manager Surface
  destination m w movement =
      if displacement_eq movement no_displacement then m else shifted api m w movement

  destination-Above :
      (d : ℕ) (m : Manager Surface) (w : Window) (movement : Displacement)
      → d < depth w
      → Above d m (destination m w movement)
  destination-Above d m w movement deeper =
      elim (Bool-cases (displacement_eq movement no_displacement)) [
        | inl still ↦ rw still (refl, λ v small. refl)
        | inr moving ↦ rw moving (shifted-Above d m w movement deeper)
      ]

  -- What `move_tree` does to windows no deeper than the root: it shifts the root, if at all.
  abbrev pub Moves :
      (Manager Surface → WindowInfo → Displacement → Result (Manager Surface)) → Window → Type 0
  Moves next w =
      (m : Manager Surface) (info : WindowInfo) (movement : Displacement)
      → Same start m
      → info_for start w ≡ ok info
      → (m' : Manager Surface) × (next m info movement ≡ ok m')
        × Above (depth w) (destination m w movement) m'

  place_and_size-Above :
      (next : Manager Surface → WindowInfo → Displacement → Result (Manager Surface)) (d : ℕ)
      (m : Manager Surface) (w : Window) (info : WindowInfo) (p : Point) (size : Size)
      → Moves next w
      → d < depth w
      → Same start m
      → info_for start w ≡ ok info
      → (m' : Manager Surface) × (place_and_size api confirm next m info p size ≡ ok m')
        × Above d m m'
  unfolding place_and_size
  place_and_size-Above next d m w info p size moves deeper same known =
      let own : info.window ≡ w = info_for-window start w known in
      let resized = resized_to api m info.window size in
      let movement = between p (window_top_left api resized info.window) in
      let resize_above : Above d m resized =
        subst (λ u. Above d m (resized_to api m u size)) (sym own)
          (resized_to-Above d m w size deeper) in
      let (m', is, above) = moves resized info movement (resize_above.0 ∙ same) known in
      let shift_above : Above d resized (destination resized w movement) =
        destination-Above d resized w movement deeper in
      (
        m',
        is,
        Above-trans d m resized m' resize_above (
            Above-trans d resized (destination resized w movement) m' shift_above
              (above.0, λ v small. above.1 v (omega arith))),
      )

  move_children-Above :
      (next : Manager Surface → WindowInfo → Displacement → Result (Manager Surface)) (d : ℕ)
      (m : Manager Surface) (movement : Displacement) (children : List Window)
      → ((c : Window) → d < depth c → Moves next c)
      → All (λ c. Known start c × (d < depth c)) children
      → Same start m
      → (m' : Manager Surface) × (move_children api confirm next m movement children ≡ ok m')
        × Above d m m'
  unfolding move_children
  move_children-Above next d m movement [] moves h same = (m, refl, (refl, λ v small. refl))
  move_children-Above next d m movement (c ∷ cs) moves (((info, known), deeper), h) same =
      let placement = confirm m info movement in
      let (moved, is, above) =
        place_and_size-Above next d m c info placement.top_left placement.size (moves c deeper)
          deeper same known in
      let (m', is_rest, above_rest) =
        move_children-Above next d moved movement cs moves h (above.0 ∙ same) in
      (m', rw (known_in m c same known, is) is_rest, Above-trans d m moved m' above above_rest)

  pub move_tree-Moves :
      (fuel : ℕ) (w : Window) → limit < fuel + depth w → Moves (move_tree api confirm fuel) w
  unfolding move_tree shifted
  move_tree-Moves zero w enough m info movement same known =
      absurd (omega (arith, forest.bounded w))
  move_tree-Moves (suc fuel) w enough m info movement same known =
      elim (Bool-cases (displacement_eq movement no_displacement)) [
        | inl still ↦ (m, rw still refl, rw still (refl, λ v small. refl))
        | inr moving ↦
            let own : info.window ≡ w = info_for-window start w known in
            let (m', is, above) =
              move_children-Above (move_tree api confirm fuel) (depth w) (shifted api m w movement)
                movement info.children (λ c deeper. move_tree-Moves fuel c (omega arith))
                (forest.children w info known) same in
            (
              m',
              rw moving (
                  subst
                    (λ u.
                      move_children api confirm (move_tree api confirm fuel)
                        (shifted api m u movement) movement info.children
                      ≡ ok m')
                    (sym own) is),
              rw moving above,
            )
      ]
