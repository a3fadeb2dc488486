-- ===== src/Tests/Arrivals.antt =====
-- New windows at concrete inputs.
use miral.Prelude.{◌<◌, ◌≡◌, refl, ap, subst, inl, inr, false, none, some, [], ◌∷◌, ◌==◌, arith}
use miral.Prelude.Int.{pos, negsuc, ◌+ℤ◌, ◌-ℤ◌, quotient}
use miral.Types.{dialog, restored, unconfined}
use miral.MruWindowList.{Window}
use miral.WindowSpecification.{WindowSpecification}
use miral.WindowSpecification.Conversion.{CreationParameters, of_creation_parameters}
use miral.WindowInfo.{WindowInfo, create, int_max, unsigned_max}
use miral.ApplicationInfo.{ApplicationInfo}
use miral.BasicWindowManager.State.{
  window_top_left, window_size, Manager, ok, find_info, info_for, alive, handle, is_window,
  application_for,
}
use miral.BasicWindowManager.Forest.{Known}
use miral.BasicWindowManager.Family.{IsFamily}
use miral.BasicWindowManager.Insertion.{
  place_new_surface, requested_parent, place_requested, place_first, place_unnamed, place_by_parent,
  place_on_parent, place_unpositioned, centred_in,
}
use miral.BasicWindowManager.Joining.{Host, add_surface, emplaced}
use miral.BasicWindowManager.Joining.Edits.{IsNew}
use miral.BasicWindowManager.Joining.Whole.{add_surface-IsFamily}
use miral.Tests.Samples.{at, SampleSurface, surfaces, shown, geometry, rect}
use miral.Tests.Windows.{request}
use miral.Tests.Desktop.{layout}
use miral.Tests.Managers.{manager, depth, known, parent_window}
use miral.Tests.Removals.{lives, manager-IsFamily}

-- Another dialog of the terminal.
abbrev dialog_request : CreationParameters
dialog_request = record request { type = some dialog; parent = some 1; output_id = pos 0 }

abbrev session : ApplicationInfo
session = record { application = 7; windows = 1 ∷ 2 ∷ [] }

abbrev host : Host SampleSurface
host = record {
  geometry = geometry;
  layout = layout;
  active_display = rect (pos 0) (pos 0) (pos 640) (pos 480);
  defaults = record { orientation_mode_any = 0; shell_chrome_normal = 0 };
  place_new_window = λ app_info placed. placed;
  blank = request;
  build = λ params. record { window = 3; surface = shown };
}

three_IsNew : IsNew manager 3
unfolding find_info
three_IsNew = record {
  unknown = refl;
  no_parent = λ v i e. elim (known v i e) [
    | inl (is, has) ↦ ap (λ x. is_window x.parent 3) has
    | inr (is, has) ↦ ap (λ x. is_window x.parent 3) has
  ];
}

-- In the middle of the terminal, which is smaller.
abbrev placed_request : WindowSpecification
placed_request = record (of_creation_parameters dialog_request) {
  top_left = some (at (negsuc 259) (negsuc 123));
  state = some restored;
}

abbrev dialog_info : WindowInfo
dialog_info = record {
  window = 3;
  name = "editor";
  type = dialog;
  state = restored;
  restore_rect = record { top_left = at (negsuc 259) (negsuc 123); size = request.size };
  parent = none;
  children = [];
  min_width = pos 10;
  min_height = pos 0;
  max_width = int_max;
  max_height = int_max;
  preferred_orientation = 0;
  confine_pointer = unconfined;
  width_inc = pos 1;
  height_inc = pos 1;
  min_aspect = record { width = 0; height = unsigned_max };
  max_aspect = record { width = unsigned_max; height = 0 };
  output_id = some (pos 0);
  shell_chrome = 0;
  userdata = none;
}

request-place :
    place_new_surface surfaces geometry layout host.active_display manager session
      (of_creation_parameters dialog_request)
    ≡ ok placed_request
unfolding place_new_surface place_requested place_first place_unnamed place_by_parent
    place_on_parent place_unpositioned centred_in of_creation_parameters info_for find_info alive
    window_top_left window_size ◌+ℤ◌ ◌-ℤ◌ quotient
request-place = refl

request-create : create host.defaults 3 placed_request ≡ some dialog_info
unfolding create of_creation_parameters
request-create = refl

above :
    (p : Window)
    → handle
        (emplaced manager 7 (record { window = 3; surface = shown }) dialog_info)
        (requested_parent placed_request)
      ≡ some p
    → (p == 3 ≡ false) × Known manager p × (depth p < depth 3)
unfolding of_creation_parameters emplaced alive info_for find_info
above p e =
    let one : 1 ≡ p = ground (arith, e) in
    subst (λ x. (x == 3 ≡ false) × Known manager x × (depth x < depth 3)) one
      (refl, (parent_window, refl), omega arith)

add_surface-IsFamily_example :
    (n : Manager SampleSurface) × (add_surface surfaces host lives 2 manager 7 dialog_request
      ≡ ok (3, n))
    × IsFamily n depth 1
    × (info_for n 3
        ≡ ok (record dialog_info {
          parent =
              handle
                (emplaced manager 7 (record { window = 3; surface = shown }) dialog_info)
                (requested_parent placed_request);
        }))
unfolding application_for
add_surface-IsFamily_example =
    add_surface-IsFamily surfaces host lives manager depth 1 7 dialog_request
      {session_info = session} {placed = placed_request} {info = dialog_info} manager-IsFamily refl
      request-place request-create three_IsNew above
