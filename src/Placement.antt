-- ===== src/Placement.antt =====
-- miral/basic_window_manager.cpp, `place_relative` and the functions that it is made of: where a
-- window goes that is placed relative to a rectangle of its parent. Gravities outside the
-- enumeration, for which the source throws, are not represented.
pub mod Gravity
pub mod Attempts
pub mod Anchors
pub mod Fitting
pub mod Result
use miral.Prelude.{Option, none, some, List, [], ◌∷◌, if◌then◌else◌}
use miral.Types.{PlacementGravity}
use miral.Geometry.{
  Geometry, Size, Displacement, Rectangle, translate, between, origin, no_displacement,
}
use miral.WindowSpecification.{WindowSpecification}
use Gravity.{opposite}
use Attempts.{Request, base, flipped, first_hit, slid, resized}

abbrev pub or_else : {A : Type 0} → Option A → Option A → Option A
or_else (some a) other = some a
or_else none other = other

abbrev pub value_or : {A : Type 0} → Option A → A → A
value_or (some a) default = a
value_or none default = default

-- `optional_value::value` on a value that is not set fails: `none`.
infixl 5 ◌>>=◌
abbrev ◌>>=◌ : {A B : Type 0} → Option A → (A → Option B) → Option B
some a >>= f = f a
none >>= f = none

module _ (g : Geometry) (r : Request) where
  open r use {hints, aux_gravity}

  unfoldable pub rect_gravities : List PlacementGravity
  rect_gravities = aux_gravity ∷ (if hints.antipodes then opposite aux_gravity ∷ [] else [])

  unfoldable pub flip_loop : List PlacementGravity → Size → Option Rectangle
  flip_loop [] size = none
  flip_loop (rect_gravity ∷ rest) size =
      or_else (first_hit g r (flipped g r rect_gravity size)) (flip_loop rest size)

  unfoldable pub slide_loop : List PlacementGravity → Size → Option Rectangle
  slide_loop [] size = none
  slide_loop (rect_gravity ∷ rest) size =
      or_else (first_hit g r (slid g r rect_gravity size ∷ [])) (slide_loop rest size)

  unfoldable pub resize_loop : List PlacementGravity → Size → Option Rectangle
  resize_loop [] size = none
  resize_loop (rect_gravity ∷ rest) size =
      let tried = resized g r rect_gravity size in
      or_else (first_hit g r (tried ∷ [])) (resize_loop rest tried.size)

  -- The three loops, one after the other.
  unfoldable pub attempt : Size → Option Rectangle
  attempt size =
      or_else (flip_loop rect_gravities size)
        (or_else (slide_loop rect_gravities size) (resize_loop rect_gravities size))

  -- The default result is the first rectangle that was tried.
  unfoldable pub place : Size → Rectangle
  place size = value_or (attempt size) (base g r aux_gravity size)

-- `place_relative`, with the result of `active_display()`. `none` stands for the failure to read a
-- property that is not set; the result, where there is one, is always set.
unfoldable pub place_relative :
    Geometry → Rectangle → Rectangle → WindowSpecification → Size → Option Rectangle
place_relative g active_display_area parent parameters size = do
  hints ← parameters.placement_hints
  win_gravity ← parameters.window_placement_gravity
  aux_rect ← parameters.aux_rect
  aux_gravity ← parameters.aux_rect_placement_gravity
  some (
      place g
        (record {
          parent = parent;
          area = active_display_area;
          hints = hints;
          win_gravity = win_gravity;
          aux_rect = record aux_rect {
            top_left = translate aux_rect.top_left (between parent.top_left origin);
          };
          aux_gravity = aux_gravity;
          offset = value_or parameters.aux_rect_placement_offset no_displacement;
        })
        (value_or parameters.size size))
