-- ===== src/Geometry.antt =====
-- mir::geometry as the sources use it. Points, sizes, displacements and rectangles are structs of
-- `int`s whose members the sources read and write; the sums and differences of the wrapped `int`s
-- are those of the integers (their overflow is undefined behaviour). What Mir computes from these
-- structs is an argument of the model, `Geometry`, with the laws that Mir documents.
use miral.Prelude.{Bool, true, ◌≡◌, ◌↔◌, ◌&&◌}
use miral.Prelude.Int.{ℤ, pos, ◌+ℤ◌, ◌-ℤ◌, ◌≤ℤ◌, ◌<ℤ◌, eqb_ℤ}

pub record Point : Type 0 where
  pub x : ℤ
  pub y : ℤ

pub record Size : Type 0 where
  pub width : ℤ
  pub height : ℤ

pub record Displacement : Type 0 where
  pub dx : ℤ
  pub dy : ℤ

pub record Rectangle : Type 0 where
  pub top_left : Point
  pub size : Size

-- `Point{}` and its like.
abbrev pub origin : Point
origin = record { x = pos 0; y = pos 0 }

abbrev pub empty_size : Size
empty_size = record { width = pos 0; height = pos 0 }

abbrev pub no_displacement : Displacement
no_displacement = record { dx = pos 0; dy = pos 0 }

-- `point + displacement`
abbrev pub translate : Point → Displacement → Point
translate p d = record { x = p.x +ℤ d.dx; y = p.y +ℤ d.dy }

-- `point - point`
abbrev pub between : Point → Point → Displacement
between p q = record { dx = p.x -ℤ q.x; dy = p.y -ℤ q.y }

-- `as_displacement(size)`
abbrev pub as_displacement : Size → Displacement
as_displacement s = record { dx = s.width; dy = s.height }

-- `==` on points, sizes, displacements and rectangles.
abbrev pub point_eq : Point → Point → Bool
point_eq p q = eqb_ℤ p.x q.x && eqb_ℤ p.y q.y

abbrev pub size_eq : Size → Size → Bool
size_eq s t = eqb_ℤ s.width t.width && eqb_ℤ s.height t.height

abbrev pub displacement_eq : Displacement → Displacement → Bool
displacement_eq d e = eqb_ℤ d.dx e.dx && eqb_ℤ d.dy e.dy

abbrev pub rectangle_eq : Rectangle → Rectangle → Bool
rectangle_eq r s = point_eq r.top_left s.top_left && size_eq r.size s.size

abbrev pub left : Rectangle → ℤ
left r = r.top_left.x

abbrev pub top : Rectangle → ℤ
top r = r.top_left.y

abbrev pub right : Rectangle → ℤ
right r = r.top_left.x +ℤ r.size.width

abbrev pub bottom : Rectangle → ℤ
bottom r = r.top_left.y +ℤ r.size.height

-- `inner` lies within `outer`, edges included.
pub record Within (outer inner : Rectangle) : Type 0 where
  pub left_edge : left outer ≤ℤ left inner
  pub top_edge : top outer ≤ℤ top inner
  pub right_edge : right inner ≤ℤ right outer
  pub bottom_edge : bottom inner ≤ℤ bottom outer

-- A point is in a rectangle, whose right and bottom edges do not belong to it.
pub record Inside (r : Rectangle) (p : Point) : Type 0 where
  pub from_left : left r ≤ℤ p.x
  pub from_top : top r ≤ℤ p.y
  pub to_right : p.x <ℤ right r
  pub to_bottom : p.y <ℤ bottom r

-- What Mir computes.
pub record Geometry : Type 0 where
  -- `0.5 * delta` and `-0.5 * delta`
  pub half : ℤ → ℤ
  pub minus_half : ℤ → ℤ
  pub top_right : Rectangle → Point
  pub bottom_left : Rectangle → Point
  pub bottom_right : Rectangle → Point
  -- `Rectangle::contains(Rectangle)` and `Rectangle::contains(Point)`
  pub contains_rectangle : Rectangle → Rectangle → Bool
  pub contains_point : Rectangle → Point → Bool
  pub overlaps : Rectangle → Rectangle → Bool
  pub intersection_with : Rectangle → Rectangle → Rectangle
  pub intersection_nonnegative :
      (r s : Rectangle)
      → (pos 0 ≤ℤ (intersection_with r s).size.width)
        × (pos 0 ≤ℤ (intersection_with r s).size.height)
  pub minus_half_lem : (d : ℤ) → minus_half d ≡ pos 0 -ℤ half d
  pub top_right_lem : (r : Rectangle) → top_right r ≡ record { x = right r; y = top r }
  pub bottom_left_lem : (r : Rectangle) → bottom_left r ≡ record { x = left r; y = bottom r }
  pub bottom_right_lem : (r : Rectangle) → bottom_right r ≡ record { x = right r; y = bottom r }
  pub contains_rectangle_iff :
      (outer inner : Rectangle) → (contains_rectangle outer inner ≡ true) ↔ Within outer inner
  pub contains_point_iff : (r : Rectangle) (p : Point) → (contains_point r p ≡ true) ↔ Inside r p
