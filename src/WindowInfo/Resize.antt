-- ===== src/WindowInfo/Resize.antt =====
-- miral/window_info.cpp, `constrain_resize`. Sizes and positions are integers: the narrowing of the
-- corrections, which the source computes as `long`, to `int` is not represented.
use miral.Prelude.{ℕ, ◌-◌, Option, none, some, ◌≡◌, refl, ◌==◌, if◌then◌else◌}
use miral.Prelude.Int.{ℤ, pos, ◌+ℤ◌, ◌-ℤ◌, ◌*ℤ◌, ltb_ℤ, eqb_ℤ, quotient, leaves_rest}
use miral.Types.{WindowState, restored, vertmaximized, horizmaximized}
use miral.Geometry.{Point, Size, Rectangle}
use miral.WindowSpecification.{AspectRatio}
use miral.WindowInfo.{WindowInfo}

infixl 5 ◌>>=◌
abbrev pub ◌>>=◌ : {A B : Type 0} → Option A → (A → Option B) → Option B
some a >>= f = f a
none >>= f = none

pub >>=-eq-some :
    {A B : Type 0} (m : Option A) (f : A → Option B) {b : B}
    → (m >>= f) ≡ some b
    → (a : A) × (m ≡ some a) × (f a ≡ some b)
>>=-eq-some (some a) f e = (a, refl, e)
>>=-eq-some none f e = cc

-- The lower bound first, then the upper one.
unfoldable pub clamp : ℤ → ℤ → ℤ → ℤ
clamp low high length =
    let raised = if ltb_ℤ length low then low else length in
    if ltb_ℤ high raised then high else raised

-- To the nearest step above the least length. `none` is a division by zero.
unfoldable pub snap : ℤ → ℤ → ℤ → Option ℤ
snap low inc length =
    let excess = length -ℤ low in
    let steps = quotient (quotient (pos 2 *ℤ excess +ℤ inc) (pos 2)) inc in
    if eqb_ℤ inc (pos 0)
    then none
    else some (if leaves_rest excess inc then low +ℤ inc *ℤ steps else length)

-- `(error + (d - 1)) / d`, where `d - 1` is computed as `unsigned`. `none` is a division by zero.
unfoldable pub ceiling_div : ℤ → ℕ → Option ℤ
ceiling_div error d = if d == 0 then none else some (quotient (error +ℤ pos (d - 1)) (pos d))

-- The smaller of the two corrections is applied.
unfoldable pub widen : AspectRatio → Size → ℤ → Option Size
widen ar size error = do
  width_correction ← ceiling_div error ar.height
  height_correction ← ceiling_div error ar.width
  some (
      if ltb_ℤ width_correction height_correction
      then record size { width = size.width +ℤ width_correction }
      else record size { height = size.height -ℤ height_correction })

unfoldable pub narrow : AspectRatio → Size → ℤ → Option Size
narrow ar size error = do
  height_correction ← ceiling_div error ar.width
  width_correction ← ceiling_div error ar.height
  some (
      if ltb_ℤ width_correction height_correction
      then record size { width = size.width -ℤ width_correction }
      else record size { height = size.height +ℤ height_correction })

-- A window that is too narrow for the ratio gets wider, or less high.
unfoldable pub raise_aspect : AspectRatio → Size → Option Size
raise_aspect ar size =
    let error = size.height *ℤ pos ar.width -ℤ size.width *ℤ pos ar.height in
    if ltb_ℤ (pos 0) error then widen ar size error else some size

-- A window that is too wide for the ratio gets less wide, or higher.
unfoldable pub lower_aspect : AspectRatio → Size → Option Size
lower_aspect ar size =
    let error = size.width *ℤ pos ar.height -ℤ size.height *ℤ pos ar.width in
    if ltb_ℤ (pos 0) error then narrow ar size error else some size

-- The bounds, the steps and the least ratio; then, in `constrained_size`, the greatest ratio.
unfoldable pub raised_size : WindowInfo → Size → Option Size
raised_size info requested = do
  width ← snap info.min_width info.width_inc (clamp info.min_width info.max_width requested.width)
  height ←
      snap info.min_height info.height_inc (clamp info.min_height info.max_height requested.height)
  raise_aspect info.min_aspect (record { width = width; height = height })

-- The size that the window's own constraints leave of a requested size.
unfoldable pub constrained_size : WindowInfo → Size → Option Size
constrained_size info requested = do
  raised ← raised_size info requested
  lower_aspect info.max_aspect raised

-- The corrections of a position whose left or top edge was moved.
unfoldable pub corrected_position : Rectangle → Point → Size → Size → Point
corrected_position current requested requested_size new_size = record {
  x =
      if eqb_ℤ requested.x current.top_left.x
      then requested.x
      else requested.x +ℤ (new_size.width -ℤ requested_size.width);
  y =
      if eqb_ℤ requested.y current.top_left.y
      then requested.y
      else requested.y +ℤ (new_size.height -ℤ requested_size.height);
}

-- What each state pins to the present place of the window.
unfoldable pub pinned : WindowState → Rectangle → Rectangle → Rectangle
pinned restored current new = new
pinned vertmaximized current new = record {
  top_left = record new.top_left { y = current.top_left.y };
  size = record new.size { height = current.size.height };
}
pinned horizmaximized current new = record {
  top_left = record new.top_left { x = current.top_left.x };
  size = record new.size { width = current.size.width };
}
pinned _ current new = current

-- `constrain_resize`, with the present place of the window. `none` is a division by zero.
unfoldable pub constrain_resize : WindowInfo → Rectangle → Rectangle → Option Rectangle
constrain_resize info current requested = do
  new_size ← constrained_size info requested.size
  some (
      pinned info.state current (record {
        top_left = corrected_position current requested.top_left requested.size new_size;
        size = new_size;
      }))
