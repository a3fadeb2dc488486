-- ===== src/WindowInfo/Snap.antt =====
-- The rounding to steps in `constrain_resize` of miral/window_info.cpp.
use native.Mathlib.Nat.{mul-mod_right, div-add-mod}
use miral.Prelude.{
  ℕ, ◌+◌, ◌*◌, ◌/◌, ◌%◌, ◌≤◌, ◌<◌, ◌≡◌, inl, inr, some, arith, ltb, if◌then◌else◌, Bool-cases,
}
use miral.Prelude.Int.{ℤ, pos, ◌+ℤ◌, ◌-ℤ◌, ◌*ℤ◌, ◌<ℤ◌, quotient, int_laws, *ℤ_parts}
use miral.WindowInfo.Resize.{snap}

-- The number of steps nearest to a length.
abbrev steps : ℕ → ℕ → ℕ
steps excess inc = (2 * excess + inc) / 2 / inc

steps_bounds :
    (excess inc : ℕ)
    → 0 < inc
    → (2 * (inc * steps excess inc) ≤ 2 * excess + inc)
      × (2 * excess ≤ 2 * (inc * steps excess inc) + inc)
steps_bounds excess inc h = grind arith

excess_lem : (low : ℤ) (e : ℕ) → low +ℤ pos e -ℤ low ≡ pos e
excess_lem low e = omega int_laws

total : (m n : ℕ) → pos m +ℤ pos n ≡ pos (m + n)
total m n = omega int_laws

product : (i k : ℕ) → pos i *ℤ pos k ≡ pos (i * k)
product i k = omega (int_laws, *ℤ_parts)

nearest : ℕ → ℕ → ℕ
nearest excess inc = if ltb 0 (excess % inc) then inc * steps excess inc else excess

snap-nearest :
    (low : ℤ) (excess inc : ℕ)
    → 0 < inc
    → snap low (pos inc) (low +ℤ pos excess) ≡ some (low +ℤ pos (nearest excess inc))
unfolding snap quotient nearest
snap-nearest low excess inc h = simp (excess_lem, total, product) (ground arith)

nearest-mod : (excess inc : ℕ) → 0 < inc → nearest excess inc % inc ≡ 0
unfolding nearest
nearest-mod excess inc h = elim (Bool-cases (ltb 0 (excess % inc))) [
  | inl rest ↦ rw rest (mul-mod_right inc (steps excess inc))
  | inr exact ↦ rw exact (ground arith)
]

-- With a positive step, a length that is `excess` above the least one becomes one that is a whole
-- number of steps above it, and is off by half a step at most.
pub snap_lem :
    (low : ℤ) (excess inc : ℕ)
    → 0 < inc
    → (n : ℕ) × (snap low (pos inc) (low +ℤ pos excess) ≡ some (low +ℤ pos n))
      × (n % inc ≡ 0)
      × (2 * n ≤ 2 * excess + inc)
      × (2 * excess ≤ 2 * n + inc)
unfolding nearest
snap_lem low excess inc h = (
  nearest excess inc,
  snap-nearest low excess inc h,
  nearest-mod excess inc h,
  ground (arith, steps_bounds excess inc),
  ground (arith, steps_bounds excess inc),
)

steps_above :
    (excess inc : ℕ) → 0 < inc → inc ≤ 2 * (excess % inc) → excess < inc * steps excess inc
steps_above excess inc h up = grind (arith, div-add-mod excess inc)

-- With a positive step, a length whose excess over the least one leaves a rest of half a step or
-- more is rounded up past itself, even if it is the greatest length.
pub snap_above :
    (low : ℤ) (excess inc : ℕ)
    → 0 < inc
    → 0 < excess % inc
    → inc ≤ 2 * (excess % inc)
    → (r : ℤ) × (snap low (pos inc) (low +ℤ pos excess) ≡ some r) × (low +ℤ pos excess <ℤ r)
unfolding nearest
snap_above low excess inc h rest up = (
  low +ℤ pos (nearest excess inc),
  snap-nearest low excess inc h,
  let more : excess < nearest excess inc = ground (arith, steps_above excess inc h up) in
      omega (int_laws, more),
)
