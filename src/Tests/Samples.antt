-- ===== src/Tests/Samples.antt =====
-- Concrete arguments of the model: a geometry, surfaces, and a specification.
use miral.Prelude.{◌≡◌, refl, ◌↔◌, Bool, true, false, ◌&&◌, arith, if◌then◌else◌}
use miral.Prelude.Int.{int_laws, ℤ, pos, ◌-ℤ◌, ◌≤ℤ◌, ◌<ℤ◌, leb_ℤ, ltb_ℤ, quotient}
use miral.Types.{WindowState, restored}
use miral.Geometry.{Geometry, Point, Size, Rectangle, Within, Inside, left, top, right, bottom}
use miral.BasicWindowManager.Surfaces.{SurfaceApi}

abbrev pub at : ℤ → ℤ → Point
at x y = record { x = x; y = y }

abbrev pub sized : ℤ → ℤ → Size
sized w h = record { width = w; height = h }

abbrev pub rect : ℤ → ℤ → ℤ → ℤ → Rectangle
rect x y w h = record { top_left = at x y; size = sized w h }

abbrev pub covers : Rectangle → Rectangle → Bool
covers o i =
    leb_ℤ (left o) (left i)
    && leb_ℤ (top o) (top i)
    && leb_ℤ (right i) (right o)
    && leb_ℤ (bottom i) (bottom o)

abbrev pub holds : Rectangle → Point → Bool
holds r p = leb_ℤ (left r) p.x && leb_ℤ (top r) p.y && ltb_ℤ p.x (right r) && ltb_ℤ p.y (bottom r)

and4 :
    (a b c d : Bool)
    → ((a && b && c && d) ≡ true) ↔ ((a ≡ true) × (b ≡ true) × (c ≡ true) × (d ≡ true))
and4 a b c d = ground arith

leb_iff : (a b : ℤ) → (leb_ℤ a b ≡ true) ↔ (a ≤ℤ b)
leb_iff a b = ground arith

ltb_iff : (a b : ℤ) → (ltb_ℤ a b ≡ true) ↔ (a <ℤ b)
ltb_iff a b = ground arith

pub covers_iff : (o i : Rectangle) → (covers o i ≡ true) ↔ Within o i
covers_iff o i = (
  λ h.
      let (l, t, r, b) = (and4 _ _ _ _).0 h in
      record {
        left_edge = (leb_iff (left o) (left i)).0 l;
        top_edge = (leb_iff (top o) (top i)).0 t;
        right_edge = (leb_iff (right i) (right o)).0 r;
        bottom_edge = (leb_iff (bottom i) (bottom o)).0 b;
      },
  λ w. (and4 _ _ _ _).1 (
    (leb_iff (left o) (left i)).1 w.left_edge,
    (leb_iff (top o) (top i)).1 w.top_edge,
    (leb_iff (right i) (right o)).1 w.right_edge,
    (leb_iff (bottom i) (bottom o)).1 w.bottom_edge,
  ),
)

pub holds_iff : (r : Rectangle) (p : Point) → (holds r p ≡ true) ↔ Inside r p
holds_iff r p = (
  λ h.
      let (l, t, e, b) = (and4 _ _ _ _).0 h in
      record {
        from_left = (leb_iff (left r) p.x).0 l;
        from_top = (leb_iff (top r) p.y).0 t;
        to_right = (ltb_iff p.x (right r)).0 e;
        to_bottom = (ltb_iff p.y (bottom r)).0 b;
      },
  λ w. (and4 _ _ _ _).1 (
    (leb_iff (left r) p.x).1 w.from_left,
    (leb_iff (top r) p.y).1 w.from_top,
    (ltb_iff p.x (right r)).1 w.to_right,
    (ltb_iff p.y (bottom r)).1 w.to_bottom,
  ),
)

-- What two intervals share, from the later start, or nothing.
abbrev pub shared_length : ℤ → ℤ → ℤ
shared_length low high = if ltb_ℤ low high then high -ℤ low else pos 0

abbrev pub later : ℤ → ℤ → ℤ
later a b = if ltb_ℤ a b then b else a

abbrev pub earlier : ℤ → ℤ → ℤ
earlier a b = if ltb_ℤ a b then a else b

shared_length_nonnegative : (low high : ℤ) → pos 0 ≤ℤ shared_length low high
shared_length_nonnegative low high = grind int_laws

abbrev pub shared : Rectangle → Rectangle → Rectangle
shared r s =
    let x = later (left r) (left s) in
    let y = later (top r) (top s) in
    rect x y (shared_length x (earlier (right r) (right s)))
      (shared_length y (earlier (bottom r) (bottom s)))

pub shared_nonnegative :
    (r s : Rectangle) → (pos 0 ≤ℤ (shared r s).size.width) × (pos 0 ≤ℤ (shared r s).size.height)
shared_nonnegative r s = (
  shared_length_nonnegative (later (left r) (left s)) (earlier (right r) (right s)),
  shared_length_nonnegative (later (top r) (top s)) (earlier (bottom r) (bottom s)),
)

abbrev pub geometry : Geometry
geometry = record {
  half = λ d. quotient d (pos 2);
  minus_half = λ d. pos 0 -ℤ quotient d (pos 2);
  top_right = λ r. at (right r) (top r);
  bottom_left = λ r. at (left r) (bottom r);
  bottom_right = λ r. at (right r) (bottom r);
  contains_rectangle = covers;
  contains_point = holds;
  overlaps = λ r s.
      ltb_ℤ (left r) (right s)
      && ltb_ℤ (left s) (right r)
      && ltb_ℤ (top r) (bottom s)
      && ltb_ℤ (top s) (bottom r);
  intersection_with = shared;
  intersection_nonnegative = shared_nonnegative;
  minus_half_lem = λ d. refl;
  top_right_lem = λ r. refl;
  bottom_left_lem = λ r. refl;
  bottom_right_lem = λ r. refl;
  contains_rectangle_iff = covers_iff;
  contains_point_iff = holds_iff;
}

pub record SampleSurface : Type 0 where
  pub top_left : Point
  pub size : Size
  pub state : WindowState
  pub visible : Bool

abbrev pub surfaces : SurfaceApi SampleSurface
surfaces = record {
  top_left = λ s. s.top_left;
  size = λ s. s.size;
  state = λ s. s.state;
  visible = λ s. s.visible;
  move_to = λ p s. record s { top_left = p };
  resize = λ z s. record s { size = z };
  configure_state = λ v s. record s { state = v };
  hide = λ s. record s { visible = false };
  show = λ s. record s { visible = true };
  top_left-move_to = λ p s. refl;
  size-move_to = λ p s. refl;
  top_left-resize = λ z s. refl;
  size-resize = λ z s. refl;
  state-configure_state = λ v s. refl;
  state-hide = λ s. refl;
  visible-hide = λ s. refl;
}

abbrev pub shown : SampleSurface
shown = record {
  top_left = at (pos 10) (pos 10);
  size = sized (pos 100) (pos 80);
  state = restored;
  visible = true;
}
