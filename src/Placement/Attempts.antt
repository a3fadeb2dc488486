-- ===== src/Placement/Attempts.antt =====
-- miral/basic_window_manager.cpp, the bodies of the three loops of `place_relative`: the rectangles
-- that they try for one gravity of the auxiliary rectangle.
use miral.Prelude.{Bool, Option, List, [], ◌∷◌, ◌&&◌, if◌then◌else◌, find}
use miral.Prelude.Int.{ℤ, pos, ◌+ℤ◌, ◌-ℤ◌, ltb_ℤ}
use miral.Types.{PlacementGravity, PlacementHints}
use miral.Geometry.{Geometry, Size, Displacement, Rectangle, translate, left, top}
use miral.Placement.Gravity.{flip_x, flip_y, flip_dx, flip_dy, anchor_for, offset_for, constrain_to}

-- What the loops read: the variables of `place_relative` but for the size, which the last loop
-- changes. `aux_rect` is in screen coordinates.
pub record Request : Type 0 where
  pub parent : Rectangle
  pub area : Rectangle
  pub hints : PlacementHints
  pub win_gravity : PlacementGravity
  pub aux_rect : Rectangle
  pub aux_gravity : PlacementGravity
  pub offset : Displacement

-- The slide of the second loop on one axis, from `low` to `high` of the display: the overhang at the
-- low edge comes first, and the one at the high edge counts only if there is none.
unfoldable pub slide : ℤ → ℤ → ℤ → ℤ → ℤ
slide start extent low high =
    let low_overhang = start -ℤ low in
    let high_overhang = start +ℤ extent -ℤ high in
    if ltb_ℤ low_overhang (pos 0)
    then start -ℤ low_overhang
    else if ltb_ℤ (pos 0) high_overhang
    then start -ℤ high_overhang
    else start

-- A window on one axis.
pub record Span : Type 0 where
  pub start : ℤ
  pub extent : ℤ

cut_low : Span → ℤ → Span
cut_low s overhang =
    if ltb_ℤ overhang (pos 0)
    then record { start = s.start -ℤ overhang; extent = s.extent +ℤ overhang }
    else s

cut_high : Span → ℤ → Span
cut_high s overhang =
    if ltb_ℤ (pos 0) overhang then record s { extent = s.extent -ℤ overhang } else s

-- The resizing of the third loop on one axis. Both overhangs are measured before either edge is
-- moved.
unfoldable pub resize : Span → ℤ → ℤ → Span
unfolding cut_low cut_high
resize s low high = cut_high (cut_low s (s.start -ℤ low)) (s.start +ℤ s.extent -ℤ high)

module _ (g : Geometry) (r : Request) where
  open r use {parent, area, hints, win_gravity, aux_rect, offset}

  -- `constrain_to(parent, anchor_for(aux_rect, rect_gravity) + offset) + offset_for(size, win_gravity)`
  unfoldable pub placed_at : PlacementGravity → Displacement → PlacementGravity → Size → Rectangle
  placed_at rect_gravity offset win_gravity size = record {
    top_left =
        translate (constrain_to g parent (translate (anchor_for g aux_rect rect_gravity) offset))
          (offset_for g size win_gravity);
    size = size;
  }

  unfoldable pub base : PlacementGravity → Size → Rectangle
  unfolding placed_at
  base rect_gravity size = placed_at rect_gravity offset win_gravity size

  abbrev when : Bool → Rectangle → List Rectangle → List Rectangle
  when hint rect rest = if hint then rect ∷ rest else rest

  -- The rectangles of the first loop, in the order in which they are tried.
  unfoldable pub flipped : PlacementGravity → Size → List Rectangle
  flipped rect_gravity size =
      base rect_gravity size
      ∷ when hints.flip_x
          (placed_at (flip_x rect_gravity) (flip_dx offset) (flip_x win_gravity) size)
          (when hints.flip_y
            (placed_at (flip_y rect_gravity) (flip_dy offset) (flip_y win_gravity) size)
            (when (hints.flip_x && hints.flip_y)
              (placed_at (flip_x (flip_y rect_gravity)) (flip_dx (flip_dy offset))
                (flip_x (flip_y win_gravity)) size)
              []))

  -- The first of them that lies on the display.
  unfoldable pub first_hit : List Rectangle → Option Rectangle
  first_hit rects = find (g.contains_rectangle area) rects

  -- The rectangle of the second loop.
  unfoldable pub slid : PlacementGravity → Size → Rectangle
  slid rect_gravity size =
      let p = (base rect_gravity size).top_left in
      record {
        top_left = record {
          x = if hints.slide_x then slide p.x size.width (left area) (g.top_right area).x else p.x;
          y =
              if hints.slide_y
              then slide p.y size.height (top area) (g.bottom_left area).y
              else p.y;
        };
        size = size;
      }

  -- The rectangle of the third loop; its size is the size that the next round starts from.
  unfoldable pub resized : PlacementGravity → Size → Rectangle
  resized rect_gravity size =
      let p = (base rect_gravity size).top_left in
      let whole_x : Span = record { start = p.x; extent = size.width } in
      let whole_y : Span = record { start = p.y; extent = size.height } in
      let across =
        if hints.resize_x then resize whole_x (left area) (g.top_right area).x else whole_x in
      let down =
        if hints.resize_y then resize whole_y (top area) (g.bottom_left area).y else whole_y in
      record {
        top_left = record { x = across.start; y = down.start };
        size = record { width = across.extent; height = down.extent };
      }
