-- ===== src/BasicWindowManager/Displays/Active.antt =====
-- The result of `active_display` in miral/basic_window_manager.cpp.
use miral.Prelude.{
  subst, ◌≡◌, ◌≢◌, refl, ◌⊎◌, inl, inr, Bool, true, Option, none, some, List, [], ◌∷◌, find, All,
  Bool-cases, Option-cases, arith,
}
use miral.Prelude.Int.{ℤ, pos, negsuc, ◌*ℤ◌, ◌≤ℤ◌, ltb_ℤ}
use miral.Geometry.{Geometry, Point, Rectangle}
use miral.BasicWindowManager.Displays.{overlap_area, largest_overlap, or_first, active_display}

abbrev pub Among : Rectangle → List Rectangle → Type 0
Among r [] = ⊥
Among r (display ∷ displays) = (r ≡ display) ⊎ Among r displays

find-Among :
    (p : Rectangle → Bool) (displays : List Rectangle) {r : Rectangle}
    → find p displays ≡ some r
    → Among r displays
find-Among p [] e = cc
find-Among p (d ∷ ds) {r} e = elim (Bool-cases (p d)) [
  | inl hit ↦ inl (ground (arith, e))
  | inr miss ↦ inr (find-Among p ds (ground (arith, e)))
]

module _ (g : Geometry) where
  *ℤ_nonnegative : (a b : ℤ) → pos 0 ≤ℤ a → pos 0 ≤ℤ b → pos 0 ≤ℤ a *ℤ b
  unfolding ◌*ℤ◌
  *ℤ_nonnegative a b ha hb = ground arith

  overlap_area_nonnegative : (bounds display : Rectangle) → pos 0 ≤ℤ overlap_area g bounds display
  unfolding overlap_area
  overlap_area_nonnegative bounds display =
      let (w, h) = g.intersection_nonnegative bounds display in *ℤ_nonnegative _ _ w h

  module _ (bounds : Rectangle) where
    abbrev AtMost : Rectangle → Rectangle → Type 0
    AtMost d r = overlap_area g bounds d ≤ℤ overlap_area g bounds r

    -- No display shows more of the bounds than `r` does.
    abbrev pub Largest : List Rectangle → Rectangle → Type 0
    Largest displays r = Among r displays × All (λ display. AtMost display r) displays

    AtMost-trans : (a b c : Rectangle) → AtMost a b → AtMost b c → AtMost a c
    AtMost-trans a b c h k = omega arith

    -- Of the first candidate and the displays.
    abbrev Best : Rectangle → List Rectangle → Rectangle → Type 0
    Best first displays r =
        ((r ≡ first) ⊎ Among r displays)
        × AtMost first r
        × All (λ display. AtMost display r) displays

    later :
        {r first : Rectangle} (d : Rectangle) (ds : List Rectangle)
        → (r ≡ first) ⊎ Among r ds
        → (r ≡ first) ⊎ Among r (d ∷ ds)
    later d ds (inl e) = inl e
    later d ds (inr e) = inr (inr e)

    largest_overlap-Best :
        (first : Rectangle) (displays : List Rectangle)
        → Best first displays
            (largest_overlap g bounds (overlap_area g bounds first) first displays)
    unfolding largest_overlap
    largest_overlap-Best first [] = (inl refl, omega arith, tt)
    largest_overlap-Best first (d ∷ ds) =
        elim (Bool-cases (ltb_ℤ (overlap_area g bounds first) (overlap_area g bounds d))) [
          | inl more ↦
              let (is, least, all) = largest_overlap-Best d ds in
              let less : AtMost first d = ground arith in
              let result = largest_overlap g bounds (overlap_area g bounds d) d ds in
              let taken : result
                  ≡ largest_overlap g bounds (overlap_area g bounds first) first (d ∷ ds) =
                rw more refl in
              subst (Best first (d ∷ ds)) taken
                (inr is, AtMost-trans first d result less least, (least, all))
          | inr no_more ↦
              let (is, least, all) = largest_overlap-Best first ds in
              let less : AtMost d first = ground arith in
              let result = largest_overlap g bounds (overlap_area g bounds first) first ds in
              let passed : result
                  ≡ largest_overlap g bounds (overlap_area g bounds first) first (d ∷ ds) =
                rw no_more refl in
              subst (Best first (d ∷ ds)) passed
                (later d ds is, least, (AtMost-trans d first result less least, all))
        ]

    -- If a surface has the focus and there are displays, the active display is one of them, and
    -- none has a larger area in common with the surface.
    pub active_display-Largest :
        (displays : List Rectangle) (cursor : Point)
        → displays ≢ []
        → Largest displays (active_display g (some bounds) displays cursor)
    unfolding active_display largest_overlap
    active_display-Largest [] cursor h = absurd (h refl)
    active_display-Largest (d ∷ ds) cursor h =
        let (is, least, all) = largest_overlap-Best d ds in
        let seen : ltb_ℤ (negsuc 0) (overlap_area g bounds d) ≡ true =
          ground (arith, overlap_area_nonnegative bounds d) in
        let result = largest_overlap g bounds (overlap_area g bounds d) d ds in
        let taken : result ≡ active_display g (some bounds) (d ∷ ds) cursor = rw seen refl in
        subst (Largest (d ∷ ds)) taken (is, (least, all))

  or_first-Among :
      (p : Rectangle → Bool) (displays : List Rectangle)
      → displays ≢ []
      → Among (or_first (find p displays) displays) displays
  or_first-Among p [] h = absurd (h refl)
  or_first-Among p (d ∷ ds) h = elim (Option-cases (find p (d ∷ ds))) [
    | inl nowhere ↦ rw nowhere (inl refl)
    | inr (r, found) ↦
        let chosen : r ≡ or_first (find p (d ∷ ds)) (d ∷ ds) = rw found refl in
        subst (λ x. Among x (d ∷ ds)) chosen (find-Among p (d ∷ ds) found)
  ]

  -- If there are displays, the active display is one of them, whether or not a surface has the
  -- focus.
  pub active_display-Among :
      (focused : Option Rectangle) (displays : List Rectangle) (cursor : Point)
      → displays ≢ []
      → Among (active_display g focused displays cursor) displays
  unfolding active_display
  active_display-Among (some bounds) displays cursor h =
      (active_display-Largest bounds displays cursor h).0
  active_display-Among none displays cursor h =
      or_first-Among (λ display. g.contains_point display cursor) displays h
