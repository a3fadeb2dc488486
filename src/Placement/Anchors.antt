-- ===== src/Placement/Anchors.antt =====
-- The gravities, anchors and offsets of miral/basic_window_manager.cpp together.
use miral.Prelude.{◌≡◌, arith}
use miral.Prelude.Int.{pos, ◌≤ℤ◌, +ℤ_parts, +ℤ-zero, neg-+ℤ}
use miral.Types.{PlacementGravity, northwest}
use miral.Geometry.{Geometry, Point, Size, Rectangle, translate, left, top, right, bottom}
use miral.Placement.Gravity.{anchor_for, offset_for, constrain_to}

ruleset shifts = (+ℤ-zero, neg-+ℤ)

module _ (g : Geometry) where
  -- The offset of a gravity puts the point of the window that the gravity names on the anchor.
  pub anchor_for-offset_for :
      (p : Point) (size : Size) (gravity : PlacementGravity)
      → anchor_for g
          (record { top_left = translate p (offset_for g size gravity); size = size })
          gravity
        ≡ p
  unfolding anchor_for offset_for
  anchor_for-offset_for p size northwest = simp shifts
  anchor_for-offset_for p size _ =
      simp (shifts, g.minus_half_lem, g.top_right_lem, g.bottom_left_lem, g.bottom_right_lem)

  -- A constrained point lies in the rectangle, which is not negative, edges included, and stays if it is constrained
  -- again.
  pub constrain_to-Bounds :
      (r : Rectangle) (p : Point)
      → pos 0 ≤ℤ r.size.width
      → pos 0 ≤ℤ r.size.height
      → (left r ≤ℤ (constrain_to g r p).x)
        × ((constrain_to g r p).x ≤ℤ right r)
        × (top r ≤ℤ (constrain_to g r p).y)
        × ((constrain_to g r p).y ≤ℤ bottom r)
        × (constrain_to g r (constrain_to g r p) ≡ constrain_to g r p)
  unfolding constrain_to
  constrain_to-Bounds r p w h =
      ground (
        arith,
        g.bottom_right_lem r,
        +ℤ_parts (left r) r.size.width,
        +ℤ_parts (top r) r.size.height,
      )
