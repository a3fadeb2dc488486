-- ===== src/Tests/Outputs.antt =====
-- Outputs and their listeners at concrete inputs.
use miral.Prelude.{◌≡◌, refl, inl, inr, true, none, [], ◌∷◌}
use miral.Prelude.Int.{pos}
use miral.Output.{Output, equivalent_display_area, is_same_output, is_bad, same_area}
use miral.Output.Equivalence.{equivalent_display_area-equivalence}
use miral.ActiveOutputs.{Monitor, current_outputs, find_output}
use miral.ActiveOutputs.View.{lookup, follow, Tracks}
use miral.ActiveOutputs.Broadcast.{received, applied, trace, trace-Tracks}
use miral.Tests.Samples.{rect}

abbrev laptop : Output
laptop = record {
  card_id = 0;
  id = 1;
  type = 7;
  physical_size_mm = record { width = pos 300; height = pos 200 };
  connected = true;
  used = true;
  valid = true;
  powered = true;
  pixel_format = 2;
  orientation = 0;
  scale = 1;
  form_factor = 3;
  extents = rect (pos 0) (pos 0) (pos 1920) (pos 1080);
}

abbrev beamer : Output
beamer = record laptop { id = 2; extents = rect (pos 1920) (pos 0) (pos 1024) (pos 768) }

abbrev rotated : Output
rotated = record laptop { orientation = 1 }

-- Another output with the same display area.
abbrev renamed : Output
renamed = record laptop { id = 5 }

abbrev one_listener : Monitor
one_listener = record { listeners = 4 ∷ 9 ∷ []; outputs = [] }

equivalent_display_area-equivalence_example :
    (equivalent_display_area beamer beamer ≡ true)
    × (equivalent_display_area beamer laptop ≡ equivalent_display_area laptop beamer)
    × (equivalent_display_area beamer laptop ≡ equivalent_display_area beamer renamed)
unfolding equivalent_display_area is_bad same_area
equivalent_display_area-equivalence_example =
    equivalent_display_area-equivalence beamer laptop renamed refl

trace-Tracks_example :
    Tracks
      (λ k.
        follow k none
          (received 9 (trace one_listener ((laptop ∷ beamer ∷ []) ∷ (rotated ∷ []) ∷ []))))
      (applied one_listener ((laptop ∷ beamer ∷ []) ∷ (rotated ∷ []) ∷ [])).outputs
unfolding current_outputs lookup find_output is_same_output
trace-Tracks_example =
    trace-Tracks 9 one_listener (λ _. none) ((laptop ∷ beamer ∷ []) ∷ (rotated ∷ []) ∷ [])
      (inr (refl, inl (refl, refl))) ((refl, (refl, tt)), ((refl, tt), tt)) (λ k. tt)
