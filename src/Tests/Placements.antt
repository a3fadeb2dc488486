-- ===== src/Tests/Placements.antt =====
-- The placement of menus and the like at concrete inputs.
use miral.Prelude.{refl, true, false, arith}
use miral.Prelude.Int.{pos, ◌<ℤ◌, ◌+ℤ◌}
use miral.Types.{PlacementHints, northwest, southwest}
use miral.Geometry.{Rectangle, Within, no_displacement}
use miral.Placement.Gravity.{anchor_for, offset_for, constrain_to}
use miral.Placement.Attempts.{Request, base, placed_at}
use miral.Placement.{place}
use miral.Placement.Fitting.{resize_only, place-slide, place-resize_off}
use miral.Tests.Samples.{geometry, rect, sized}

abbrev slides : PlacementHints
slides = record {
  flip_x = false;
  flip_y = false;
  slide_x = true;
  slide_y = true;
  resize_x = false;
  resize_y = false;
  antipodes = false;
}

-- A menu below a button at the left edge of the display.
abbrev below : PlacementHints → Rectangle → Request
below hints area = record {
  parent = rect (pos 0) (pos 0) (pos 400) (pos 300);
  area = area;
  hints = hints;
  win_gravity = northwest;
  aux_rect = rect (pos 10) (pos 10) (pos 30) (pos 20);
  aux_gravity = southwest;
  offset = no_displacement;
}

abbrev display : Rectangle
display = rect (pos 0) (pos 0) (pos 640) (pos 480)

abbrev second_display : Rectangle
second_display = rect (pos 640) (pos 0) (pos 640) (pos 480)

place-slide_example :
    Within display (place geometry (below slides display) (sized (pos 50) (pos 460)))
unfolding ◌+ℤ◌
place-slide_example =
    place-slide geometry (below slides display) (sized (pos 50) (pos 460)) refl refl
      (omega arith, omega arith)

place-resize_off_example :
    (place geometry
      (below (resize_only geometry (below slides display)) second_display)
      (sized (pos 50) (pos 90))).size.width
    <ℤ pos 0
unfolding base placed_at anchor_for offset_for constrain_to ◌+ℤ◌
place-resize_off_example =
    place-resize_off geometry (below (resize_only geometry (below slides display)) second_display)
      (sized (pos 50) (pos 90)) refl (omega arith, omega arith) (omega arith) (omega arith)
