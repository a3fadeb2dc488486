-- ===== src/BasicWindowManager/Displays.antt =====
-- miral/basic_window_manager.cpp, `active_display`: the display that new windows go to. The areas are integers:
-- the overflow of their product is not represented.
pub mod Active
use miral.Prelude.{Bool, Option, none, some, List, [], ◌∷◌, if◌then◌else◌, find}
use miral.Prelude.Int.{ℤ, negsuc, ◌*ℤ◌, ltb_ℤ}
use miral.Geometry.{Geometry, Point, Rectangle, origin, empty_size}

abbrev pub no_rectangle : Rectangle
no_rectangle = record { top_left = origin; size = empty_size }

-- The first display, or the empty rectangle.
abbrev pub first_of : List Rectangle → Rectangle
first_of [] = no_rectangle
first_of (display ∷ displays) = display

abbrev pub or_first : Option Rectangle → List Rectangle → Rectangle
or_first (some display) displays = display
or_first none displays = first_of displays

module _ (g : Geometry) where
  unfoldable pub overlap_area : Rectangle → Rectangle → ℤ
  overlap_area surface_rect display =
      let intersection = (g.intersection_with surface_rect display).size in
      intersection.width *ℤ intersection.height

  -- The loop over the displays, with `max_overlap_area` and `result`.
  unfoldable pub largest_overlap : Rectangle → ℤ → Rectangle → List Rectangle → Rectangle
  largest_overlap surface_rect max result [] = result
  largest_overlap surface_rect max result (display ∷ displays) =
      let area = overlap_area surface_rect display in
      let taken = largest_overlap surface_rect area display displays in
      let passed = largest_overlap surface_rect max result displays in
      if ltb_ℤ max area then taken else passed

  -- With the `input_bounds` of the surface that has the focus, if there is one.
  unfoldable pub active_display : Option Rectangle → List Rectangle → Point → Rectangle
  active_display (some surface_rect) displays cursor =
      largest_overlap surface_rect (negsuc 0) no_rectangle displays
  active_display none displays cursor =
      or_first (find (λ display. g.contains_point display cursor) displays) displays
