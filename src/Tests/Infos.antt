-- ===== src/Tests/Infos.antt =====
-- The tests on window types and the constraints on resizing at concrete inputs.
use miral.Prelude.{◌≡◌, refl, none, some, [], arith}
use miral.Prelude.Int.{ℤ, pos, negsuc, ◌+ℤ◌, ◌-ℤ◌, ◌*ℤ◌, ◌<ℤ◌, quotient}
use miral.Types.{normal, restored, vertmaximized, unconfined}
use miral.Geometry.{Rectangle, right}
use miral.WindowInfo.{WindowInfo}
use miral.WindowInfo.Resize.{
  clamp, snap, ceiling_div, narrow, raise_aspect, lower_aspect, raised_size, constrained_size,
  corrected_position, pinned, constrain_resize,
}
use miral.WindowInfo.Snap.{snap_above}
use miral.WindowInfo.Aspect.{AtMost}
use miral.WindowInfo.Constraints.{
  constrain_resize_id, constrained_size-AtMost, Pinned, constrain_resize-Pinned,
  constrain_resize-right,
}
use miral.Tests.Samples.{rect, sized}

-- A terminal of cells of 8 by 16, in a window that is never less wide than high.
abbrev pub terminal : WindowInfo
terminal = record {
  window = 1;
  name = "terminal";
  type = normal;
  state = restored;
  restore_rect = rect (pos 0) (pos 0) (pos 80) (pos 48);
  parent = none;
  children = [];
  min_width = pos 16;
  min_height = pos 16;
  max_width = pos 160;
  max_height = pos 96;
  preferred_orientation = 0;
  confine_pointer = unconfined;
  width_inc = pos 8;
  height_inc = pos 16;
  min_aspect = record { width = 1; height = 1 };
  max_aspect = record { width = 4; height = 1 };
  output_id = none;
  shell_chrome = 0;
  userdata = none;
}

snap_above_example :
    (r : ℤ) × (snap (pos 16) (pos 8) (pos 16 +ℤ pos 21) ≡ some r) × (pos 16 +ℤ pos 21 <ℤ r)
snap_above_example = snap_above (pos 16) 21 8 (omega arith) (omega arith) (omega arith)

constrain_resize_id_example :
    constrain_resize terminal
      (rect (pos 0) (pos 0) (pos 80) (pos 48))
      (rect (pos 5) (pos 9) (pos 96) (pos 64))
    ≡ some (rect (pos 5) (pos 9) (pos 96) (pos 64))
unfolding ◌+ℤ◌ ◌-ℤ◌ ◌*ℤ◌
constrain_resize_id_example =
    constrain_resize_id terminal (rect (pos 0) (pos 0) (pos 80) (pos 48))
      (rect (pos 5) (pos 9) (pos 96) (pos 64)) refl
      (record {
        min_width = omega arith;
        min_height = omega arith;
        max_width = omega arith;
        max_height = omega arith;
        width_steps = refl;
        height_steps = refl;
        width_inc = λ e. ground arith;
        height_inc = λ e. ground arith;
        min_aspect = omega arith;
        max_aspect = omega arith;
      })

constrained_size-AtMost_example : AtMost terminal.max_aspect (sized (pos 152) (pos 38))
unfolding constrained_size raised_size clamp snap raise_aspect lower_aspect narrow ceiling_div ◌+ℤ◌
    ◌-ℤ◌ ◌*ℤ◌ quotient
constrained_size-AtMost_example =
    constrained_size-AtMost terminal (sized (pos 150) (pos 30)) {s = sized (pos 152) (pos 38)} refl

abbrev dragged : Rectangle
dragged = rect (negsuc 9) (pos 5) (pos 91) (pos 64)

abbrev tall : WindowInfo
tall = record terminal { state = vertmaximized }

constrain_resize-Pinned_example :
    Pinned vertmaximized
      (rect (pos 0) (pos 0) (pos 80) (pos 48))
      (rect (negsuc 12) (pos 0) (pos 88) (pos 48))
unfolding constrain_resize pinned corrected_position constrained_size raised_size clamp snap
    raise_aspect lower_aspect narrow ceiling_div ◌+ℤ◌ ◌-ℤ◌ ◌*ℤ◌ quotient
constrain_resize-Pinned_example =
    constrain_resize-Pinned tall (rect (pos 0) (pos 0) (pos 80) (pos 48)) dragged
      {new = rect (negsuc 12) (pos 0) (pos 88) (pos 48)} refl

constrain_resize-right_example :
    right (rect (negsuc 12) (pos 5) (pos 88) (pos 64)) -ℤ right dragged
    ≡ pos 2 *ℤ (pos 88 -ℤ pos 91)
unfolding constrain_resize pinned corrected_position constrained_size raised_size clamp snap
    raise_aspect lower_aspect narrow ceiling_div ◌+ℤ◌ ◌-ℤ◌ ◌*ℤ◌ quotient
constrain_resize-right_example =
    constrain_resize-right terminal (rect (pos 0) (pos 0) (pos 80) (pos 48)) dragged
      {new = rect (negsuc 12) (pos 5) (pos 88) (pos 64)} refl (λ e. ground arith) refl
