-- ===== src/Placement/Fitting.antt =====
-- The second and the third loop of `place_relative` in miral/basic_window_manager.cpp.
use miral.Prelude.{◌≡◌, ◌≢◌, ap, true, false, inl, inr, Bool-cases, none, some, [], ◌∷◌, arith}
use miral.Prelude.Int.{ℤ, pos, ◌+ℤ◌, ◌≤ℤ◌, ◌<ℤ◌, int_laws}
use miral.Types.{PlacementGravity, PlacementHints}
use miral.Geometry.{Geometry, Size, Rectangle, Within, left, top, right, bottom}
use miral.Placement.Attempts.{
  slide, Span, resize, Request, base, placed_at, flipped, slid, resized, first_hit,
}
use miral.Placement.{attempt, place, flip_loop, slide_loop, resize_loop, rect_gravities}
use miral.Placement.Result.{place-Within_of}

-- A window no longer than the display slides onto it.
slide_bounds :
    (start extent low high : ℤ)
    → low +ℤ extent ≤ℤ high
    → (low ≤ℤ slide start extent low high) × (slide start extent low high +ℤ extent ≤ℤ high)
unfolding slide
slide_bounds start extent low high h = grind int_laws

resize_bounds :
    (s : Span) (low high : ℤ)
    → low ≤ℤ high
    → (low ≤ℤ (resize s low high).start)
      × ((resize s low high).start +ℤ (resize s low high).extent ≤ℤ high)
unfolding resize
resize_bounds s low high h = grind int_laws

-- A window that ends before the display begins gets a negative length.
resize_off :
    (s : Span) (low high : ℤ)
    → low ≤ℤ high
    → s.start +ℤ s.extent <ℤ low
    → pos 0 ≤ℤ s.extent
    → (resize s low high).extent <ℤ pos 0
unfolding resize
resize_off s low high h off long = grind int_laws

module _ (g : Geometry) (r : Request) where
  open r use {area, hints, aux_gravity}

  -- The display is no smaller than nothing.
  abbrev pub Proper : Type 0
  Proper = (left area ≤ℤ right area) × (top area ≤ℤ bottom area)

  -- The window is no larger than the display.
  abbrev pub Fitting : Size → Type 0
  Fitting size = (left area +ℤ size.width ≤ℤ right area) × (top area +ℤ size.height ≤ℤ bottom area)

  slid-Within :
      (rect_gravity : PlacementGravity) (size : Size)
      → hints.slide_x ≡ true
      → hints.slide_y ≡ true
      → Fitting size
      → Within area (slid g r rect_gravity size)
  unfolding slid
  slid-Within rect_gravity size hx hy fits =
      simp (hx, hy, g.top_right_lem, g.bottom_left_lem)
        (let p = (base g r rect_gravity size).top_left in
          let across = slide_bounds p.x size.width (left area) (right area) fits.0 in
          let down = slide_bounds p.y size.height (top area) (bottom area) fits.1 in
          record {
            left_edge = across.0;
            top_edge = down.0;
            right_edge = across.1;
            bottom_edge = down.1;
          })

  resized-Within :
      (rect_gravity : PlacementGravity) (size : Size)
      → hints.resize_x ≡ true
      → hints.resize_y ≡ true
      → Proper
      → Within area (resized g r rect_gravity size)
  unfolding resized
  resized-Within rect_gravity size hx hy proper =
      simp (hx, hy, g.top_right_lem, g.bottom_left_lem)
        (let p = (base g r rect_gravity size).top_left in
          let across =
            resize_bounds (record { start = p.x; extent = size.width }) (left area) (right area)
              proper.0 in
          let down =
            resize_bounds (record { start = p.y; extent = size.height }) (top area) (bottom area)
              proper.1 in
          record {
            left_edge = across.0;
            top_edge = down.0;
            right_edge = across.1;
            bottom_edge = down.1;
          })

  hit : (rect : Rectangle) → Within area rect → first_hit g r (rect ∷ []) ≡ some rect
  unfolding first_hit
  hit rect h = rw ((g.contains_rectangle_iff area rect).1 h)

  slide_loop_lem :
      (size : Size)
      → Within area (slid g r aux_gravity size)
      → slide_loop g r (rect_gravities g r) size ≢ none
  unfolding slide_loop rect_gravities
  slide_loop_lem size h = rw (hit (slid g r aux_gravity size) h) (λ e. cc)

  attempt_of_slide :
      (size : Size) → slide_loop g r (rect_gravities g r) size ≢ none → attempt g r size ≢ none
  unfolding attempt
  attempt_of_slide size h = ground arith

  -- A window that may slide both ways and is no larger than the display is placed on the display.
  pub place-slide :
      (size : Size)
      → hints.slide_x ≡ true
      → hints.slide_y ≡ true
      → Fitting size
      → Within area (place g r size)
  place-slide size hx hy fits =
      place-Within_of g r size
        (attempt_of_slide size (slide_loop_lem size (slid-Within aux_gravity size hx hy fits)))

module _ (g : Geometry) (r : Request) where
  open r use {area, hints, aux_gravity}

  -- Only the two resize hints are given.
  abbrev pub resize_only : PlacementHints
  resize_only = record {
    flip_x = false;
    flip_y = false;
    slide_x = false;
    slide_y = false;
    resize_x = true;
    resize_y = true;
    antipodes = false;
  }

  miss : (rect : Rectangle) → ¬ Within area rect → g.contains_rectangle area rect ≡ false
  miss rect h = elim (Bool-cases (g.contains_rectangle area rect)) [
    | inl e ↦ absurd (h ((g.contains_rectangle_iff area rect).0 e))
    | inr e ↦ e
  ]

  off_display :
      (size : Size)
      → pos 0 ≤ℤ size.width
      → right (base g r aux_gravity size) <ℤ left area
      → ¬ Within area (base g r aux_gravity size)
  unfolding base placed_at
  off_display size long off h = omega (int_laws, h.left_edge)

  resized_off :
      (size : Size)
      → hints.resize_x ≡ true
      → Proper g r
      → pos 0 ≤ℤ size.width
      → right (base g r aux_gravity size) <ℤ left area
      → (resized g r aux_gravity size).size.width <ℤ pos 0
  unfolding resized base placed_at
  resized_off size hx proper long off =
      simp (hx, g.top_right_lem)
        (resize_off (record { start = (base g r aux_gravity size).top_left.x; extent = size.width })
          (left area) (right area) proper.0 off long)

  -- A window with only the two resize hints, whose width is not negative and which lies wholly to
  -- the left of the display where its anchors put it, is given a negative width; the display is not
  -- negative.
  pub place-resize_off :
      (size : Size)
      → hints ≡ resize_only
      → Proper g r
      → pos 0 ≤ℤ size.width
      → right (base g r aux_gravity size) <ℤ left area
      → (place g r size).size.width <ℤ pos 0
  unfolding place attempt flip_loop slide_loop resize_loop rect_gravities first_hit flipped slid
      base placed_at
  place-resize_off size only proper long off =
      let no_hit = miss (base g r aux_gravity size) (off_display size long off) in
      let hx : hints.resize_x ≡ true = ap (λ h. h.resize_x) only in
      let hy : hints.resize_y ≡ true = ap (λ h. h.resize_y) only in
      let inside = resized-Within g r aux_gravity size hx hy proper in
      simp (only, no_hit, (g.contains_rectangle_iff area (resized g r aux_gravity size)).1 inside)
        (resized_off size hx proper long off)
