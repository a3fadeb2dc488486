-- ===== src/Tests/Managers.antt =====
-- The window manager at concrete inputs.
use miral.Prelude.{
  ℕ, ◌≡◌, ◌↔◌, ◌⊎◌, refl, inl, inr, ◌<◌, Bool, true, none, some, [], ◌∷◌, arith, ◌==◌,
  if◌then◌else◌, ap, ◌∙◌, sym, subst, ◌≤◌, Option,
}
use miral.Prelude.Int.{pos}
use miral.Types.{normal, dialog}
use miral.Geometry.{origin}
use miral.MruWindowList.{Window}
use miral.WindowSpecification.{WindowSpecification, no_specification}
use miral.WindowInfo.{WindowInfo, can_morph_to}
use miral.BasicWindowManager.State.{Manager, ok, find_info, info_for, alive, handle}
use miral.BasicWindowManager.Forest.{Known, IsForest, Returns}
use miral.BasicWindowManager.Focus.{select_active_window}
use miral.BasicWindowManager.Focus.Choice.{Leads, After, select_active_window-Leads}
use miral.BasicWindowManager.Activation.{can_activate_window_for_session, session_eq}
use miral.BasicWindowManager.Activation.Search.{Searched, can_activate_window_for_session-Searched}
use miral.BasicWindowManager.Focus.Termination.{select_active_window-Returns}
use miral.BasicWindowManager.Validation.{
  validate_modification_request, check_type_change, invalid_type_change,
}
use miral.BasicWindowManager.Validation.Requests.{
  Acceptable, validate_modification_request-none, check_type_change-morph,
}
use miral.Tests.Samples.{SampleSurface, surfaces, shown, sized}
use miral.Tests.Infos.{terminal}

-- A terminal and its dialog.
abbrev pub parent_window : WindowInfo
parent_window = record terminal { children = 2 ∷ [] }

abbrev pub child_window : WindowInfo
child_window = record terminal { window = 2; type = dialog; parent = some 1 }

abbrev pub manager : Manager SampleSurface
manager = record {
  app_info = record { application = 7; windows = 1 ∷ 2 ∷ [] } ∷ [];
  window_info = parent_window ∷ child_window ∷ [];
  mru_active_windows = 1 ∷ [];
  fullscreen_surfaces = [];
  workspaces_to_windows = [];
  displays = [];
  cursor = origin;
  last_input_event_timestamp = 0;
  surfaces = λ w. some shown;
  applications = λ w. some 7;
  calls = [];
}

-- The depth of a window: the dialog stands below the terminal, and so would another one.
abbrev pub depth : Window → ℕ
depth w = if w == 2 then 1 else if w == 3 then 1 else 0

pub known :
    (w : Window) (info : WindowInfo)
    → info_for manager w ≡ ok info
    → ((w ≡ 1) × (info ≡ parent_window)) ⊎ ((w ≡ 2) × (info ≡ child_window))
unfolding info_for find_info
known w info e = ground arith

depth_bound : (w : Window) → depth w ≤ 1
depth_bound w = ground arith

pub no_handle : {p : Window} → none ≡ some p → ⊥
no_handle e = cc

from_child :
    (w p : Window)
    → w ≡ 2
    → handle manager (some 1) ≡ some p
    → Known manager p × (depth p < depth w)
unfolding info_for find_info alive
from_child w p two e =
    let one : 1 ≡ p = ground (arith, e) in
    subst (λ q. Known manager q × (depth q < depth w)) one
      (subst (λ v. Known manager 1 × (depth 1 < depth v)) (sym two)
        ((parent_window, refl), omega arith))

pub manager-IsForest : IsForest manager depth 1
unfolding info_for find_info alive
manager-IsForest = record {
  children = λ w info e. elim (known w info e) [
    | inl (is, has) ↦ rw (is, has) (((child_window, refl), omega arith), tt)
    | inr (is, has) ↦ rw (is, has) tt
  ];
  parent = λ w p info e above. elim (known w info e) [
    | inl (is, has) ↦ absurd (no_handle (ap (λ i. handle manager i.parent) (sym has) ∙ above))
    | inr (is, has) ↦ from_child w p is (ap (λ i. handle manager i.parent) (sym has) ∙ above)
  ];
  bounded = depth_bound;
  active = ((parent_window, refl), tt);
}

abbrev alive_window : Window → Bool
alive_window w = true

-- Asked for the terminal, the code gives the focus to its dialog.
select_active_window-Leads_example :
    (o : Option Window) × (m : Manager SampleSurface) × (select_active_window surfaces 4 manager
        (some 1)
      ≡ ok (o, m))
    × Leads surfaces manager 1 o
    × After surfaces manager o m
unfolding info_for find_info alive
select_active_window-Leads_example =
    select_active_window-Leads surfaces manager depth 1 1 manager-IsForest (parent_window, refl)
      refl

select_active_window-Returns_example : Returns (select_active_window surfaces 4 manager (some 1))
unfolding info_for find_info
select_active_window-Returns_example =
    select_active_window-Returns surfaces manager depth 1 manager-IsForest (some 1)
      (λ w e. let is : 1 ≡ w = ground (arith, e) in subst (Known manager) is (parent_window, refl))

abbrev resized : WindowSpecification
resized = record no_specification { size = some (sized (pos 30) (pos 40)) }

validate_modification_request-none_example :
    (validate_modification_request alive_window resized parent_window ≡ none)
    ↔ Acceptable alive_window resized parent_window
validate_modification_request-none_example =
    validate_modification_request-none alive_window resized parent_window

check_type_change-morph_example : check_type_change normal dialog ≡ some invalid_type_change
unfolding can_morph_to
check_type_change-morph_example = check_type_change-morph normal dialog refl (λ e. ground arith)

can_activate_window_for_session-Searched_example :
    (r : Option Window × Manager SampleSurface) × (can_activate_window_for_session surfaces 4
        manager
        (some 7)
      ≡ ok r)
    × Searched surfaces manager depth 1 manager-IsForest
        (λ w. session_eq (some 7) (some 7))
        (1 ∷ [])
        r
can_activate_window_for_session-Searched_example =
    can_activate_window_for_session-Searched surfaces manager depth 1 manager-IsForest (some 7)
