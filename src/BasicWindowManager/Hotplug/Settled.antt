-- ===== src/BasicWindowManager/Hotplug/Settled.antt =====
-- `place_and_size` in miral/basic_window_manager.cpp: where the window itself comes to be.
use mathlib.Core.Option
use miral.Prelude.{
  ℕ, suc, ◌≤◌, ◌≡◌, ◌∙◌, refl, sym, ap, inl, inr, true, false, some, arith, ◌==◌, Bool-cases,
  ==_iff,
}
use miral.Prelude.Int.{ℤ, pos, ◌+ℤ◌, ◌-ℤ◌, eq_of_parts, eqb_ℤ}
use miral.Geometry.{
  Point, Size, Rectangle, Displacement, translate, between, displacement_eq, no_displacement,
  size_eq,
}
use miral.MruWindowList.{Window}
use miral.WindowInfo.{WindowInfo}
use miral.BasicWindowManager.Surfaces.{SurfaceApi}
use miral.BasicWindowManager.State.{Manager, ok, info_for, window_top_left, window_size}
use miral.BasicWindowManager.Forest.{IsForest, info_for-key}
use miral.BasicWindowManager.Movement.{resized_to, shifted, move_tree, place_and_size}
use miral.BasicWindowManager.Movement.Trees.{destination, move_tree-Moves}
use miral.BasicWindowManager.Movement.Drag.{placed, sized}

there_and : (q p : ℤ) → q +ℤ (p -ℤ q) ≡ p
unfolding ◌+ℤ◌ ◌-ℤ◌
there_and q p = ground arith

no_way : (p q : ℤ) → eqb_ℤ (p -ℤ q) (pos 0) ≡ true → q ≡ p
unfolding ◌-ℤ◌
no_way p q h = ground arith

still_there : (p q : Point) → displacement_eq (between p q) no_displacement ≡ true → q ≡ p
still_there p q h =
    let x = no_way p.x q.x (ground (arith, h)) in
    let y = no_way p.y q.y (ground (arith, h)) in λ i. record { x = x i; y = y i }

size_of_eq : (a b : Size) → size_eq a b ≡ true → a ≡ b
size_of_eq a b h =
    let width = eq_of_parts a.width b.width (ground (arith, h)) in
    let height = eq_of_parts a.height b.height (ground (arith, h)) in
    λ i. record { width = width i; height = height i }

module _ {Surface : Type 0} (api : SurfaceApi Surface) where
  -- The surface of a window, as it now is.
  abbrev pub Surfaces : Manager Surface → Window → Point → Size → Type 0
  Surfaces m w p z =
      (t : Surface) × (m.surfaces w ≡ some t) × (api.top_left t ≡ p) × (api.size t ≡ z)

  resized-Surfaces :
      (m : Manager Surface) (w : Window) (s : Surface) (z : Size)
      → m.surfaces w ≡ some s
      → Surfaces (resized_to api m w z) w (api.top_left s) z
  unfolding resized_to
  resized-Surfaces m w s z there = elim (Bool-cases (size_eq (window_size api m w) z)) [
    | inl same ↦
        rw same
          (s, there, refl, sym (sized api m w there) ∙ size_of_eq (window_size api m w) z same)
    | inr other ↦ rw other (
      api.resize z s,
      rw ((==_iff w w).1 refl) (ap (Option.map (api.resize z)) there),
      api.top_left-resize z s,
      api.size-resize z s,
    )
  ]

  -- The records are the same, and so are the surfaces of other windows.
  Others : Window → Manager Surface → Manager Surface → Type 0
  Others w m m' =
      (m'.window_info ≡ m.window_info)
      × ((u : Window) → u == w ≡ false → m'.surfaces u ≡ m.surfaces u)

  resized-Others : (m : Manager Surface) (w : Window) (z : Size) → Others w m (resized_to api m w z)
  unfolding Others resized_to
  resized-Others m w z = elim (Bool-cases (size_eq (window_size api m w) z)) [
    | inl same ↦ rw same (refl, λ u other. refl)
    | inr changed ↦ rw changed (refl, λ u other. rw other refl)
  ]

  module _ (confirm : Manager Surface → WindowInfo → Displacement → Rectangle)
      (start : Manager Surface) (depth : Window → ℕ) (limit : ℕ)
      (forest : IsForest start depth limit) where
    abbrev goes : Manager Surface → Window → Point → Manager Surface
    goes m w p =
        destination api confirm start depth limit forest m w (between p (window_top_left api m w))

    goes-Others : (m : Manager Surface) (w : Window) (p : Point) → Others w m (goes m w p)
    unfolding Others shifted
    goes-Others m w p =
        let d = between p (window_top_left api m w) in
        elim (Bool-cases (displacement_eq d no_displacement)) [
          | inl still ↦ rw still (refl, λ u other. refl)
          | inr moving ↦ rw moving (refl, λ u other. rw other refl)
        ]

    goes-Surfaces :
        (m : Manager Surface) (w : Window) (s : Surface) (p : Point)
        → m.surfaces w ≡ some s
        → Surfaces (goes m w p) w p (api.size s)
    unfolding shifted
    goes-Surfaces m w s p there =
        let q = window_top_left api m w in
        let at : q ≡ api.top_left s = placed api m w there in
        elim (Bool-cases (displacement_eq (between p q) no_displacement)) [
          | inl still ↦ rw still (s, there, sym at ∙ still_there p q still, refl)
          | inr moving ↦
              let target = translate q (between p q) in
              let arrived : target ≡ p =
                λ i. record { x = there_and q.x p.x i; y = there_and q.y p.y i } in
              rw moving (
                api.move_to target s,
                rw ((==_iff w w).1 refl) (ap (Option.map (api.move_to target)) there),
                api.top_left-move_to target s ∙ arrived,
                api.size-move_to target s,
              )
        ]

    -- The window is where it was placed, and no other that is no deeper has moved.
    abbrev pub Settled : Manager Surface → Window → Rectangle → Manager Surface → Type 0
    Settled m w r m' =
        (m'.window_info ≡ m.window_info)
        × Surfaces m' w r.top_left r.size
        × ((u : Window) → u == w ≡ false → depth u ≤ depth w → m'.surfaces u ≡ m.surfaces u)

    pub place_and_size-Settled :
        (m : Manager Surface) (w : Window) (info : WindowInfo) (s : Surface) (r : Rectangle)
        → m.window_info ≡ start.window_info
        → info_for start w ≡ ok info
        → m.surfaces w ≡ some s
        → (m' : Manager Surface) × (place_and_size api confirm
              (move_tree api confirm (suc limit))
              m
              info
              r.top_left
              r.size
            ≡ ok m')
          × Settled m w r m'
    unfolding place_and_size Others
    place_and_size-Settled m w info s r same known there =
        let own : info.window ≡ w = info_for-key start w known in
        let resized = resized_to api m w r.size in
        let (t, now, top, wide) = resized-Surfaces m w s r.size there in
        let (kept, others) = resized-Others m w r.size in
        let movement = between r.top_left (window_top_left api resized w) in
        let (m', is, (records, above)) =
          move_tree-Moves api confirm start depth limit forest (suc limit) w (omega arith) resized
            info movement (kept ∙ same) known in
        let (t', at, corner, size) = goes-Surfaces resized w t r.top_left now in
        let (kept', others') = goes-Others resized w r.top_left in
        (
          m',
          ap
                (λ u.
                  move_tree api confirm (suc limit) (resized_to api m u r.size) info
                    (between r.top_left (window_top_left api (resized_to api m u r.size) u)))
                own
              ∙ is,
          (
            records ∙ kept' ∙ kept,
            (t', above w (omega arith) ∙ at, corner, size ∙ wide),
            λ u other small. above u small ∙ others' u other ∙ others u other,
          ),
        )
