-- ===== src/Placement/Gravity.antt =====
-- miral/basic_window_manager.cpp: gravities, anchors and offsets.
use miral.Prelude.{if◌then◌else◌}
use miral.Prelude.Int.{ℤ, pos, ◌+ℤ◌, ltb_ℤ, neg_ℤ}
use miral.Types.{
  PlacementGravity, center, west, east, north, south, northwest, northeast, southwest, southeast,
}
use miral.Geometry.{Geometry, Point, Size, Displacement, Rectangle}

-- `flip_x(MirPlacementGravity)`
unfoldable pub flip_x : PlacementGravity → PlacementGravity
flip_x northwest = northeast
flip_x northeast = northwest
flip_x west = east
flip_x east = west
flip_x southwest = southeast
flip_x southeast = southwest
flip_x rect_gravity = rect_gravity

-- `flip_y(MirPlacementGravity)`
unfoldable pub flip_y : PlacementGravity → PlacementGravity
flip_y northwest = southwest
flip_y north = south
flip_y northeast = southeast
flip_y southwest = northwest
flip_y south = north
flip_y southeast = northeast
flip_y rect_gravity = rect_gravity

-- `antipodes`
unfoldable pub opposite : PlacementGravity → PlacementGravity
opposite northwest = southeast
opposite north = south
opposite northeast = southwest
opposite west = east
opposite east = west
opposite southwest = northeast
opposite south = north
opposite southeast = northwest
opposite center = center

-- `flip_x(Displacement)` and `flip_y(Displacement)`
unfoldable pub flip_dx : Displacement → Displacement
flip_dx d = record d { dx = neg_ℤ d.dx }

unfoldable pub flip_dy : Displacement → Displacement
flip_dy d = record d { dy = neg_ℤ d.dy }

module _ (g : Geometry) where
  clamp_low : Rectangle → Point → Point
  clamp_low rect point =
      let left_in = if ltb_ℤ point.x rect.top_left.x then rect.top_left.x else point.x in
      let top_in = if ltb_ℤ point.y rect.top_left.y then rect.top_left.y else point.y in
      record { x = left_in; y = top_in }

  clamp_high : Point → Point → Point
  clamp_high corner point =
      let right_in = if ltb_ℤ corner.x point.x then corner.x else point.x in
      let bottom_in = if ltb_ℤ corner.y point.y then corner.y else point.y in
      record { x = right_in; y = bottom_in }

  -- The two tests on the left and top edges come first, then those on the right and bottom ones.
  unfoldable pub constrain_to : Rectangle → Point → Point
  unfolding clamp_low clamp_high
  constrain_to rect point = clamp_high (g.bottom_right rect) (clamp_low rect point)

  abbrev shift_x : Point → ℤ → Point
  shift_x p d = record p { x = p.x +ℤ d }

  abbrev shift_y : Point → ℤ → Point
  shift_y p d = record p { y = p.y +ℤ d }

  unfoldable pub anchor_for : Rectangle → PlacementGravity → Point
  anchor_for aux_rect northwest = aux_rect.top_left
  anchor_for aux_rect north = shift_x aux_rect.top_left (g.half aux_rect.size.width)
  anchor_for aux_rect northeast = g.top_right aux_rect
  anchor_for aux_rect west = shift_y aux_rect.top_left (g.half aux_rect.size.height)
  anchor_for aux_rect center =
      shift_y (shift_x aux_rect.top_left (g.half aux_rect.size.width)) (g.half aux_rect.size.height)
  anchor_for aux_rect east = shift_y (g.top_right aux_rect) (g.half aux_rect.size.height)
  anchor_for aux_rect southwest = g.bottom_left aux_rect
  anchor_for aux_rect south = shift_x (g.bottom_left aux_rect) (g.half aux_rect.size.width)
  anchor_for aux_rect southeast = g.bottom_right aux_rect

  abbrev by : ℤ → ℤ → Displacement
  by dx dy = record { dx = dx; dy = dy }

  unfoldable pub offset_for : Size → PlacementGravity → Displacement
  offset_for size northwest = by (pos 0) (pos 0)
  offset_for size north = by (g.minus_half size.width) (pos 0)
  offset_for size northeast = by (neg_ℤ size.width) (pos 0)
  offset_for size west = by (pos 0) (g.minus_half size.height)
  offset_for size center = by (g.minus_half size.width) (g.minus_half size.height)
  offset_for size east = by (neg_ℤ size.width) (g.minus_half size.height)
  offset_for size southwest = by (pos 0) (neg_ℤ size.height)
  offset_for size south = by (g.minus_half size.width) (neg_ℤ size.height)
  offset_for size southeast = by (neg_ℤ size.width) (neg_ℤ size.height)
