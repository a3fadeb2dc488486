-- ===== src/WindowInfo/Aspect.antt =====
-- The aspect ratios in `constrain_resize` of miral/window_info.cpp.
use native.Mathlib.Nat.{div-add-mod, mod-lt}
use miral.Prelude.{
  ℕ, ◌-◌, ◌/◌, ap, subst, ◌==◌, ◌+◌, ◌*◌, ◌≤◌, ◌<◌, ◌≡◌, inl, inr, some, arith, Bool-cases,
  Option-cases, if◌then◌else◌,
}
use miral.Prelude.Int.{
  ℤ, pos, negsuc, ◌+ℤ◌, ◌-ℤ◌, ◌*ℤ◌, ◌≤ℤ◌, ltb_ℤ, quotient, int_laws, ltb_ℤ-false, *ℤ_parts,
  +ℤ_parts, -ℤ_parts,
}
use miral.Geometry.{Size}
use miral.WindowSpecification.{AspectRatio}
use miral.WindowInfo.Resize.{ceiling_div, widen, narrow, raise_aspect, lower_aspect}

-- The two ratios as inequalities: width / height is no less, and no more, than the ratio.
abbrev pub AtLeast : AspectRatio → Size → Type 0
AtLeast ar size = size.height *ℤ pos ar.width ≤ℤ size.width *ℤ pos ar.height

abbrev pub AtMost : AspectRatio → Size → Type 0
AtMost ar size = size.width *ℤ pos ar.height ≤ℤ size.height *ℤ pos ar.width

ceiling : (e d : ℕ) → 0 < d → e ≤ (e + (d - 1)) / d * d
ceiling e d h = grind (arith, div-add-mod (e + (d - 1)) d, mod-lt (e + (d - 1)) h)

-- The quotient is rounded up, so the correction makes up for the whole error.
ceiling_div-lem :
    (error : ℤ) (d : ℕ) {c : ℤ}
    → pos 0 ≤ℤ error
    → ceiling_div error d ≡ some c
    → (error ≤ℤ c *ℤ pos d)
unfolding ceiling_div quotient ◌+ℤ◌
ceiling_div-lem (pos e) d {c} h eq = elim (Bool-cases (d == 0)) [
  | inl zero_d ↦ absurd (ground arith)
  | inr some_d ↦
      let lem : c ≡ pos ((e + (d - 1)) / d) = ground arith in
      rw lem (ground (arith, *ℤ_parts (pos ((e + (d - 1)) / d)) (pos d), ceiling e d))
]
ceiling_div-lem (negsuc e) d h eq = absurd (omega arith)

of_some : {s t : Size} → some s ≡ some t → s ≡ t
of_some e = cc

module _ (w h c : ℤ) (a b : ℕ) where
  -- The width is raised, or lowered, by a correction.
  raise_first : w *ℤ pos a -ℤ h *ℤ pos b ≤ℤ c *ℤ pos b → w *ℤ pos a ≤ℤ (h +ℤ c) *ℤ pos b
  raise_first e = omega (int_laws, ltb_ℤ-false, *ℤ_parts, ap (λ (t : ℕ). t * b) (+ℤ_parts h c))

  lower_second : w *ℤ pos a -ℤ h *ℤ pos b ≤ℤ c *ℤ pos a → (w -ℤ c) *ℤ pos a ≤ℤ h *ℤ pos b
  lower_second e = omega (int_laws, ltb_ℤ-false, *ℤ_parts, ap (λ (t : ℕ). t * a) (-ℤ_parts w c))

-- Both corrections exist if the size was corrected.
corrections :
    (ar : AspectRatio) (size : Size) (error : ℤ) {s : Size}
    → widen ar size error ≡ some s
    → (c : ℤ) × (d : ℤ) × (ceiling_div error ar.height ≡ some c)
      × (ceiling_div error ar.width ≡ some d)
      × (s ≡ (
          if ltb_ℤ c d
          then record size { width = size.width +ℤ c }
          else record size { height = size.height -ℤ d }))
unfolding widen
corrections ar size error e = elim (Option-cases (ceiling_div error ar.height)) [
  | inl none_h ↦ absurd (ground arith)
  | inr (c, some_c) ↦ elim (Option-cases (ceiling_div error ar.width)) [
    | inl none_w ↦ absurd (ground arith)
    | inr (d, some_d) ↦ (c, d, some_c, some_d, ground arith)
  ]
]

widen-AtLeast :
    (ar : AspectRatio) (size : Size) {s : Size}
    → let error = size.height *ℤ pos ar.width -ℤ size.width *ℤ pos ar.height in
      pos 0 ≤ℤ error → widen ar size error ≡ some s → AtLeast ar s
widen-AtLeast ar size {s} h e =
    let error = size.height *ℤ pos ar.width -ℤ size.width *ℤ pos ar.height in
    let (c, d, some_c, some_d, is) = corrections ar size error e in
    let by_width =
      raise_first size.height size.width c ar.width ar.height
        (ceiling_div-lem error ar.height h some_c) in
    let by_height =
      lower_second size.height size.width d ar.width ar.height
        (ceiling_div-lem error ar.width h some_d) in
    elim (Bool-cases (ltb_ℤ c d)) [
      | inl less ↦ rw (is, less) by_width
      | inr more ↦ rw (is, more) by_height
    ]

-- Whatever the requested size, a size that the correction for the least ratio returns has at least
-- that ratio.
pub raise_aspect-AtLeast :
    (ar : AspectRatio) (size : Size) {s : Size} → raise_aspect ar size ≡ some s → AtLeast ar s
unfolding raise_aspect
raise_aspect-AtLeast ar size {s} e =
    let error = size.height *ℤ pos ar.width -ℤ size.width *ℤ pos ar.height in
    elim (Bool-cases (ltb_ℤ (pos 0) error)) [
      | inl wrong ↦ widen-AtLeast ar size (ground arith) (rw wrong at e)
      | inr fine ↦
          let is : some size ≡ some s = rw fine at e in
          subst (AtLeast ar) (of_some is) (omega (int_laws, ltb_ℤ-false (pos 0) error fine))
    ]

-- Both corrections exist if the size was corrected.
reductions :
    (ar : AspectRatio) (size : Size) (error : ℤ) {s : Size}
    → narrow ar size error ≡ some s
    → (c : ℤ) × (d : ℤ) × (ceiling_div error ar.height ≡ some c)
      × (ceiling_div error ar.width ≡ some d)
      × (s ≡ (
          if ltb_ℤ c d
          then record size { width = size.width -ℤ c }
          else record size { height = size.height +ℤ d }))
unfolding narrow
reductions ar size error e = elim (Option-cases (ceiling_div error ar.height)) [
  | inl none_h ↦ absurd (ground arith)
  | inr (c, some_c) ↦ elim (Option-cases (ceiling_div error ar.width)) [
    | inl none_w ↦ absurd (ground arith)
    | inr (d, some_d) ↦ (c, d, some_c, some_d, ground arith)
  ]
]

narrow-AtMost :
    (ar : AspectRatio) (size : Size) {s : Size}
    → let error = size.width *ℤ pos ar.height -ℤ size.height *ℤ pos ar.width in
      pos 0 ≤ℤ error → narrow ar size error ≡ some s → AtMost ar s
narrow-AtMost ar size {s} h e =
    let error = size.width *ℤ pos ar.height -ℤ size.height *ℤ pos ar.width in
    let (c, d, some_c, some_d, is) = reductions ar size error e in
    let by_width =
      lower_second size.width size.height c ar.height ar.width
        (ceiling_div-lem error ar.height h some_c) in
    let by_height =
      raise_first size.width size.height d ar.height ar.width
        (ceiling_div-lem error ar.width h some_d) in
    elim (Bool-cases (ltb_ℤ c d)) [
      | inl less ↦ rw (is, less) by_width
      | inr more ↦ rw (is, more) by_height
    ]

-- Whatever the size, the corrected one has at most the greatest ratio.
pub lower_aspect-AtMost :
    (ar : AspectRatio) (size : Size) {s : Size} → lower_aspect ar size ≡ some s → AtMost ar s
unfolding lower_aspect
lower_aspect-AtMost ar size {s} e =
    let error = size.width *ℤ pos ar.height -ℤ size.height *ℤ pos ar.width in
    elim (Bool-cases (ltb_ℤ (pos 0) error)) [
      | inl wrong ↦ narrow-AtMost ar size (ground arith) (rw wrong at e)
      | inr fine ↦
          let is : some size ≡ some s = rw fine at e in
          subst (AtMost ar) (of_some is) (omega (int_laws, ltb_ℤ-false (pos 0) error fine))
    ]
