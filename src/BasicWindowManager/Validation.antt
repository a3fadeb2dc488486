-- ===== src/BasicWindowManager/Validation.antt =====
-- miral/basic_window_manager.cpp, `validate_modification_request`: a client's request is refused by an
-- exception before it reaches the policy.
pub mod Requests
use miral.Prelude.{Bool, true, false, not, Option, none, some, ◌||◌, if◌then◌else◌}
use miral.Prelude.Int.{pos, leb_ℤ}
use miral.Types.{
  WindowType, normal, utility, dialog, gloss, freestyle, menu, inputmethod, satellite, tip, types,
  type_eq,
}
use miral.Geometry.{Size}
use miral.MruWindowList.{Window}
use miral.WindowSpecification.{WindowSpecification}
use miral.WindowInfo.{WindowInfo, value_or_default}

-- The exceptions, by their messages.
pub data Refusal : Type 0 where
  invalid_type_change invalid_type : Refusal
  must_not_have_a_parent must_have_a_parent : Refusal
  width_not_positive height_not_positive : Refusal

-- A check passes with `none`, and else throws.
abbrev pub Check : Type 0
Check = Option Refusal

abbrev pub throw_unless : Bool → Refusal → Check → Check
throw_unless true e next = next
throw_unless false e next = some e

floating_target : WindowType → Bool
floating_target normal = true
floating_target utility = true
floating_target dialog = true
floating_target satellite = true
floating_target _ = false

menu_target : WindowType → Bool
menu_target menu = true
menu_target satellite = true
menu_target _ = false

-- The switch on the original type. Its first two groups of cases have no `break` of their own, so
-- control falls from each group into the next one.
same_type : WindowType → WindowType → Check
same_type original target = throw_unless (type_eq target original) invalid_type_change none

menu_case : WindowType → WindowType → Check
unfolding menu_target same_type
menu_case original target =
    throw_unless (menu_target target) invalid_type_change (same_type original target)

floating_case : WindowType → WindowType → Check
unfolding floating_target menu_case
floating_case original target =
    throw_unless (floating_target target) invalid_type_change (menu_case original target)

unfoldable pub check_type_change : WindowType → WindowType → Check
unfolding floating_case menu_case same_type
check_type_change normal target = floating_case normal target
check_type_change utility target = floating_case utility target
check_type_change dialog target = floating_case dialog target
check_type_change satellite target = floating_case satellite target
check_type_change menu target = menu_case menu target
check_type_change gloss target = same_type gloss target
check_type_change freestyle target = same_type freestyle target
check_type_change inputmethod target = same_type inputmethod target
check_type_change tip target = same_type tip target
check_type_change types target = none

-- The switch on the target type, with whether there will be a parent.
unfoldable pub check_parent : WindowType → Bool → Check
check_parent normal has_parent = throw_unless (not has_parent) must_not_have_a_parent none
check_parent utility has_parent = throw_unless (not has_parent) must_not_have_a_parent none
check_parent satellite has_parent = throw_unless has_parent must_have_a_parent none
check_parent gloss has_parent = throw_unless has_parent must_have_a_parent none
check_parent tip has_parent = throw_unless has_parent must_have_a_parent none
check_parent inputmethod has_parent = none
check_parent dialog has_parent = none
check_parent menu has_parent = none
check_parent freestyle has_parent = none
check_parent types has_parent = some invalid_type

unfoldable pub check_size : Option Size → Check
check_size none = none
check_size (some size) =
    throw_unless (not (leb_ℤ size.width (pos 0))) width_not_positive
      (throw_unless (not (leb_ℤ size.height (pos 0))) height_not_positive none)

abbrev pub and_then : Check → Check → Check
and_then none next = next
and_then (some e) next = some e

-- `if (modifications.type().is_set())`
unfoldable pub check_requested_type : WindowType → Option WindowType → Check
check_requested_type original none = none
check_requested_type original (some target) = check_type_change original target

module _ (alive : Window → Bool) where
  -- A weak pointer, or a window, tested for being there still.
  abbrev pub locked : Option Window → Bool
  locked none = false
  locked (some w) = alive w

  unfoldable pub validate_modification_request : WindowSpecification → WindowInfo → Check
  validate_modification_request modifications window_info =
      let target_type = value_or_default modifications.type window_info.type in
      let parent = value_or_default modifications.parent window_info.parent in
      and_then (check_requested_type window_info.type modifications.type)
        (and_then (check_parent target_type (locked parent)) (check_size modifications.size))
