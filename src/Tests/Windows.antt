-- ===== src/Tests/Windows.antt =====
-- The list of active windows and the window specifications at concrete inputs.
use miral.Prelude.{◌≡◌, refl, Bool, none, some, [], ◌∷◌, reverse, ◌==◌, not}
use miral.Prelude.Int.{pos}
use miral.Types.{normal}
use miral.Geometry.{origin}
use miral.MruWindowList.{Window, top}
use miral.MruWindowList.Order.{pushes, erases, run, reverse-run}
use miral.MruWindowList.Top.{Topmost, top-Topmost}
use miral.WindowSpecification.{WindowSpecification, no_specification, undefined, normal}
use miral.WindowSpecification.Conversion.{CreationParameters, of_creation_parameters, update}
use miral.WindowSpecification.Update.{Carries, update-round_trip}
use miral.Tests.Samples.{at, sized}

abbrev not_two : Window → Bool
not_two w = not (w == 2)

reverse-run_example :
    reverse (run (pushes 1 ∷ erases 2 ∷ pushes 3 ∷ pushes 2 ∷ pushes 1 ∷ [])) ≡ 1 ∷ 3 ∷ []
reverse-run_example = reverse-run (pushes 1 ∷ erases 2 ∷ pushes 3 ∷ pushes 2 ∷ pushes 1 ∷ [])

top-Topmost_example : Topmost not_two (1 ∷ 3 ∷ 2 ∷ []) (top not_two (1 ∷ 3 ∷ 2 ∷ []))
top-Topmost_example = top-Topmost not_two (1 ∷ 3 ∷ 2 ∷ [])

abbrev pub request : CreationParameters
request = record {
  top_left = origin;
  size = sized (pos 640) (pos 480);
  pixel_format = 1;
  buffer_usage = undefined;
  name = "editor";
  output_id = pos 0;
  type = some normal;
  state = none;
  preferred_orientation = none;
  content_id = none;
  aux_rect = none;
  edge_attachment = none;
  placement_hints = none;
  surface_placement_gravity = none;
  aux_rect_placement_gravity = none;
  aux_rect_placement_offset_x = none;
  aux_rect_placement_offset_y = some (pos 3);
  min_width = some (pos 10);
  min_height = none;
  max_width = none;
  max_height = none;
  width_inc = none;
  height_inc = none;
  min_aspect = none;
  max_aspect = none;
  streams = none;
  parent = none;
  input_shape = none;
  input_mode = normal;
  shell_chrome = none;
  confine_pointer = none;
}

abbrev moved : WindowSpecification
moved = record no_specification { top_left = some (at (pos 5) (pos 7)); min_height = some (pos 20) }

update-round_trip_example :
    (update (of_creation_parameters request) request ≡ request)
    × Carries moved (of_creation_parameters (update moved request))
    × (update no_specification request ≡ request)
update-round_trip_example = update-round_trip moved request refl
