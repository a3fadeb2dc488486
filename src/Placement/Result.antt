-- ===== src/Placement/Result.antt =====
-- The result of `place_relative` in miral/basic_window_manager.cpp.
use miral.Prelude.{
  ◌≡◌, ◌≢◌, subst, inl, inr, Option, none, some, List, [], ◌∷◌, Bool-cases, Option-cases,
}
use miral.Types.{PlacementGravity}
use miral.Geometry.{Geometry, Size, Rectangle, Within}
use miral.Placement.Attempts.{Request, base, flipped, first_hit, slid, resized}
use miral.Placement.{attempt, place, flip_loop, slide_loop, resize_loop, rect_gravities, or_else}

module _ (g : Geometry) (r : Request) where
  open r use {area, hints, aux_gravity}

  abbrev pub Fits : Option Rectangle → Type 0
  Fits none = Unit
  Fits (some rect) = Within area rect

  first_hit-Fits : (rects : List Rectangle) → Fits (first_hit g r rects)
  unfolding first_hit
  first_hit-Fits [] = tt
  first_hit-Fits (rect ∷ rects) = elim (Bool-cases (g.contains_rectangle area rect)) [
    | inl hit ↦ rw hit ((g.contains_rectangle_iff area rect).0 hit)
    | inr miss ↦ rw miss (first_hit-Fits rects)
  ]

  or_else-Fits : (a b : Option Rectangle) → Fits a → Fits b → Fits (or_else a b)
  or_else-Fits none b ha hb = hb
  or_else-Fits (some x) b ha hb = ha

  flip_loop-Fits : (gs : List PlacementGravity) (size : Size) → Fits (flip_loop g r gs size)
  unfolding flip_loop
  flip_loop-Fits [] size = tt
  flip_loop-Fits (x ∷ gs) size =
      or_else-Fits (first_hit g r (flipped g r x size)) (flip_loop g r gs size)
        (first_hit-Fits (flipped g r x size)) (flip_loop-Fits gs size)

  slide_loop-Fits : (gs : List PlacementGravity) (size : Size) → Fits (slide_loop g r gs size)
  unfolding slide_loop
  slide_loop-Fits [] size = tt
  slide_loop-Fits (x ∷ gs) size =
      or_else-Fits (first_hit g r (slid g r x size ∷ [])) (slide_loop g r gs size)
        (first_hit-Fits (slid g r x size ∷ [])) (slide_loop-Fits gs size)

  resize_loop-Fits : (gs : List PlacementGravity) (size : Size) → Fits (resize_loop g r gs size)
  unfolding resize_loop
  resize_loop-Fits [] size = tt
  resize_loop-Fits (x ∷ gs) size =
      or_else-Fits (first_hit g r (resized g r x size ∷ []))
        (resize_loop g r gs (resized g r x size).size) (first_hit-Fits (resized g r x size ∷ []))
        (resize_loop-Fits gs (resized g r x size).size)

  attempt-Fits : (size : Size) → Fits (attempt g r size)
  unfolding attempt
  attempt-Fits size =
      let gs = rect_gravities g r in
      or_else-Fits (flip_loop g r gs size) _ (flip_loop-Fits gs size) (
        or_else-Fits (slide_loop g r gs size) _ (slide_loop-Fits gs size)
          (resize_loop-Fits gs size))

  pub place-Within_of : (size : Size) → attempt g r size ≢ none → Within area (place g r size)
  unfolding place
  place-Within_of size h = elim (Option-cases (attempt g r size)) [
    | inl e ↦ absurd (h e)
    | inr (rect, e) ↦ rw e (subst Fits e (attempt-Fits size))
  ]

  -- A window that lies on the display where its anchors put it is placed there.
  pub place-base :
      (size : Size)
      → Within area (base g r aux_gravity size)
      → place g r size ≡ base g r aux_gravity size
  unfolding place attempt flip_loop rect_gravities first_hit flipped
  place-base size h = rw ((g.contains_rectangle_iff area (base g r aux_gravity size)).1 h)
