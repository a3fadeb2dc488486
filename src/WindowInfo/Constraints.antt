-- ===== src/WindowInfo/Constraints.antt =====
-- `constrain_resize` of miral/window_info.cpp as a whole.
use miral.Prelude.{◌≡◌, ◌≢◌, refl, inl, inr, ◌∙◌, ap, subst, false, some, arith, Option-cases}
use miral.Prelude.Int.{
  ℤ, pos, ◌+ℤ◌, ◌-ℤ◌, ◌*ℤ◌, ◌≤ℤ◌, eqb_ℤ, leaves_rest, int_laws, eq_of_parts, le→ltb_ℤ, *ℤ_parts,
}
use miral.Types.{WindowState, restored, vertmaximized, horizmaximized}
use miral.Geometry.{Point, Size, Rectangle, left, top, right}
use miral.WindowSpecification.{AspectRatio}
use miral.WindowInfo.{WindowInfo}
use miral.WindowInfo.Aspect.{AtLeast, AtMost, lower_aspect-AtMost}
use miral.WindowInfo.Resize.{
  clamp, snap, raise_aspect, lower_aspect, raised_size, constrained_size, corrected_position,
  pinned, constrain_resize, ◌>>=◌, >>=-eq-some,
}

-- A size that respects every constraint of the window.
pub record Respects (info : WindowInfo) (size : Size) : Type 0 where
  pub min_width : info.min_width ≤ℤ size.width
  pub min_height : info.min_height ≤ℤ size.height
  pub max_width : size.width ≤ℤ info.max_width
  pub max_height : size.height ≤ℤ info.max_height
  pub width_steps : leaves_rest (size.width -ℤ info.min_width) info.width_inc ≡ false
  pub height_steps : leaves_rest (size.height -ℤ info.min_height) info.height_inc ≡ false
  pub width_inc : info.width_inc ≢ pos 0
  pub height_inc : info.height_inc ≢ pos 0
  pub min_aspect : AtLeast info.min_aspect size
  pub max_aspect : AtMost info.max_aspect size

clamp_id : (low high length : ℤ) → low ≤ℤ length → length ≤ℤ high → clamp low high length ≡ length
unfolding clamp
clamp_id low high length l h = ground arith

cancel : (a b : ℤ) → a +ℤ (b -ℤ b) ≡ a
cancel a b = omega int_laws

snap_id :
    (low inc length : ℤ)
    → inc ≢ pos 0
    → leaves_rest (length -ℤ low) inc ≡ false
    → snap low inc length ≡ some length
unfolding snap
snap_id low inc length n h = rw h (ground arith)

raise_id : (ar : AspectRatio) (size : Size) → AtLeast ar size → raise_aspect ar size ≡ some size
unfolding raise_aspect
raise_id ar size h = rw (
    le→ltb_ℤ (pos 0) (size.height *ℤ pos ar.width -ℤ size.width *ℤ pos ar.height)
      (omega (int_laws, h)))

lower_id : (ar : AspectRatio) (size : Size) → AtMost ar size → lower_aspect ar size ≡ some size
unfolding lower_aspect
lower_id ar size h = rw (
    le→ltb_ℤ (pos 0) (size.width *ℤ pos ar.height -ℤ size.height *ℤ pos ar.width)
      (omega (int_laws, h)))

constrained_size_id :
    (info : WindowInfo) (size : Size) → Respects info size → constrained_size info size ≡ some size
unfolding constrained_size raised_size
constrained_size_id info size r =
    simp
      (
        clamp_id info.min_width info.max_width size.width r.min_width r.max_width,
        clamp_id info.min_height info.max_height size.height r.min_height r.max_height,
        snap_id info.min_width info.width_inc size.width r.width_inc r.width_steps,
        snap_id info.min_height info.height_inc size.height r.height_inc r.height_steps,
      )
      (ap (λ s. s >>= lower_aspect info.max_aspect) (raise_id info.min_aspect size r.min_aspect)
        ∙ lower_id info.max_aspect size r.max_aspect)

corrected_position_id :
    (current : Rectangle) (p : Point) (size : Size) → corrected_position current p size size ≡ p
unfolding corrected_position
corrected_position_id current p size = ground (arith, cancel p.x size.width, cancel p.y size.height)

-- A request that respects the constraints of a restored window is granted as it is, whichever edges move.
pub constrain_resize_id :
    (info : WindowInfo) (current requested : Rectangle)
    → info.state ≡ restored
    → Respects info requested.size
    → constrain_resize info current requested ≡ some requested
unfolding constrain_resize pinned
constrain_resize_id info current requested state r = rw (
  constrained_size_id info requested.size r,
  corrected_position_id current requested.top_left requested.size,
  state,
)

-- A size that is granted is no wider than the greatest ratio allows, for its height.
pub constrained_size-AtMost :
    (info : WindowInfo) (size : Size) {s : Size}
    → constrained_size info size ≡ some s
    → AtMost info.max_aspect s
unfolding constrained_size
constrained_size-AtMost info size e =
    let (raised, _, lowered) =
      >>=-eq-some (raised_size info size) (lower_aspect info.max_aspect) e in
    lower_aspect-AtMost info.max_aspect raised lowered

-- The state decides what a resize may change: everything in the restored state, the horizontal or the
-- vertical extent alone in the state that is maximized in the other direction, and nothing in any other.
abbrev pub Pinned : WindowState → Rectangle → Rectangle → Type 0
Pinned restored current new = Unit
Pinned vertmaximized current new = (top new ≡ top current) × (new.size.height ≡ current.size.height)
Pinned horizmaximized current new =
    (left new ≡ left current) × (new.size.width ≡ current.size.width)
Pinned _ current new = new ≡ current

pinned-Pinned :
    (state : WindowState) (current new : Rectangle)
    → Pinned state current (pinned state current new)
unfolding pinned
pinned-Pinned restored current new = tt
pinned-Pinned vertmaximized current new = (refl, refl)
pinned-Pinned horizmaximized current new = (refl, refl)
pinned-Pinned _ current new = refl

resized : WindowInfo → Rectangle → Rectangle → Size → Rectangle
resized info current requested new_size = pinned info.state current (record {
  top_left = corrected_position current requested.top_left requested.size new_size;
  size = new_size;
})

-- A granted rectangle comes from a granted size.
constrain_resize-eq-some :
    (info : WindowInfo) (current requested : Rectangle) {new : Rectangle}
    → constrain_resize info current requested ≡ some new
    → (size : Size) × (constrained_size info requested.size ≡ some size)
      × (resized info current requested size ≡ new)
unfolding constrain_resize resized
constrain_resize-eq-some info current requested e =
    elim (Option-cases (constrained_size info requested.size)) [
      | inl refused ↦ absurd (ground arith)
      | inr (size, granted) ↦ (size, granted, ground arith)
    ]

-- A granted resize keeps what the state of the window pins to its present place.
pub constrain_resize-Pinned :
    (info : WindowInfo) (current requested : Rectangle) {new : Rectangle}
    → constrain_resize info current requested ≡ some new
    → Pinned info.state current new
unfolding resized
constrain_resize-Pinned info current requested e =
    let (size, _, is) = constrain_resize-eq-some info current requested e in
    subst (Pinned info.state current) is (pinned-Pinned info.state current _)

moved_test : (a b : ℤ) → a ≢ b → eqb_ℤ a b ≡ false
moved_test a b n = ground (arith, eq_of_parts a b)

-- When the left edge of a restored window is moved and the resize is granted, the right edge of the
-- result is off from that of the request by twice the correction of the width: the position is
-- corrected the wrong way.
pub constrain_resize-right :
    (info : WindowInfo) (current requested : Rectangle) {new : Rectangle}
    → info.state ≡ restored
    → left requested ≢ left current
    → constrain_resize info current requested ≡ some new
    → right new -ℤ right requested ≡ pos 2 *ℤ (new.size.width -ℤ requested.size.width)
unfolding resized pinned corrected_position
constrain_resize-right info current requested state moved e =
    let (size, _, is) = constrain_resize-eq-some info current requested e in
    subst (λ new. right new -ℤ right requested ≡ pos 2 *ℤ (new.size.width -ℤ requested.size.width))
      (rw state at is)
      (rw (moved_test (left requested) (left current) moved) (omega (int_laws, *ℤ_parts)))
