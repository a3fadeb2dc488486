-- ===== src/BasicWindowManager/Validation/Requests.antt =====
-- The requests that `validate_modification_request` of miral/basic_window_manager.cpp lets pass.
use miral.Prelude.{
  not, ◌&&◌, ◌≡◌, ◌≢◌, ◌↔◌, ◌⊎◌, refl, Bool, true, false, Option, none, some, arith,
}
use miral.Prelude.Int.{pos, ◌<ℤ◌}
use miral.Types.{WindowType, normal, utility, dialog, inputmethod, types}
use miral.Geometry.{Size}
use miral.MruWindowList.{Window}
use miral.WindowSpecification.{WindowSpecification}
use miral.WindowInfo.{
  WindowInfo, value_or_default, must_have_parent, must_not_have_parent, can_morph_to,
}
use miral.BasicWindowManager.Validation.{
  check_type_change, check_parent, check_size, validate_modification_request, locked,
  invalid_type_change, Check, and_then, check_requested_type,
}

-- The switch on the types lets a request pass exactly if the present type is outside the
-- enumeration, or if the type is unchanged and is neither normal, utility nor dialog.
pub check_type_change-none :
    (original target : WindowType)
    → (check_type_change original target ≡ none) ↔ (
        (original ≡ types)
        ⊎ ((target ≡ original) × (original ≢ normal) × (original ≢ utility) × (original ≢ dialog)))
unfolding check_type_change
check_type_change-none original target = ground arith

-- Each change to another type that `can_morph_to` allows is refused by the validation of requests.
pub check_type_change-morph :
    (original target : WindowType)
    → can_morph_to original target ≡ true
    → target ≢ original
    → check_type_change original target ≡ some invalid_type_change
unfolding check_type_change can_morph_to
check_type_change-morph original target h n = ground arith

-- A parent is demanded as `must_have_parent` says, but of no input method.
check_parent-none :
    (target : WindowType) (has_parent : Bool)
    → (check_parent target has_parent ≡ none) ↔ (
        (target ≢ types)
        × (must_not_have_parent target && has_parent ≡ false)
        × ((target ≡ inputmethod) ⊎ (must_have_parent target && not has_parent ≡ false)))
unfolding check_parent must_not_have_parent must_have_parent
check_parent-none target has_parent = ground arith

abbrev pub IsPositive : Size → Type 0
IsPositive size = (pos 0 <ℤ size.width) × (pos 0 <ℤ size.height)

-- A property that is set satisfies the predicate.
abbrev pub IfSet : {A : Type 0} → (A → Type 0) → Option A → Type 0
IfSet P none = Unit
IfSet P (some a) = P a

check_size-none : (size : Option Size) → (check_size size ≡ none) ↔ IfSet IsPositive size
unfolding check_size
check_size-none none = ground arith
check_size-none (some size) = ground arith

abbrev pub KeepsType : WindowType → WindowType → Type 0
KeepsType original target =
    (original ≡ types)
    ⊎ ((target ≡ original) × (original ≢ normal) × (original ≢ utility) × (original ≢ dialog))

and_then-none : (a b : Check) → (and_then a b ≡ none) ↔ ((a ≡ none) × (b ≡ none))
and_then-none a b = ground arith

check_requested_type-none :
    (original : WindowType) (target : Option WindowType)
    → (check_requested_type original target ≡ none) ↔ IfSet (KeepsType original) target
unfolding check_requested_type
check_requested_type-none original none = ((λ _. tt), (λ _. refl))
check_requested_type-none original (some target) = check_type_change-none original target

-- What the type, the parent and the size of a request must be.
pub record Acceptable (alive : Window → Bool) (mods : WindowSpecification) (info : WindowInfo)
    : Type 0 where
  pub type : IfSet (KeepsType info.type) mods.type
  pub known : value_or_default mods.type info.type ≢ types
  pub no_parent :
      must_not_have_parent (value_or_default mods.type info.type)
        && locked alive (value_or_default mods.parent info.parent)
      ≡ false
  pub a_parent :
      (value_or_default mods.type info.type ≡ inputmethod)
      ⊎ (must_have_parent (value_or_default mods.type info.type)
            && not (locked alive (value_or_default mods.parent info.parent))
          ≡ false)
  pub size : IfSet IsPositive mods.size

-- A request passes the validation exactly if it is acceptable: it names no type that changes the
-- present one (or is normal, utility or dialog), the type it leads to has or lacks a parent as it
-- must, but for an input method, and a size that it sets is positive.
pub validate_modification_request-none :
    (alive : Window → Bool) (mods : WindowSpecification) (info : WindowInfo)
    → (validate_modification_request alive mods info ≡ none) ↔ Acceptable alive mods info
unfolding validate_modification_request
validate_modification_request-none alive mods info =
    let target = value_or_default mods.type info.type in
    let parent = locked alive (value_or_default mods.parent info.parent) in
    let type_check = check_requested_type info.type mods.type in
    let parent_check = check_parent target parent in
    let whole = and_then-none type_check (and_then parent_check (check_size mods.size)) in
    let rest = and_then-none parent_check (check_size mods.size) in
    let type_ok = check_requested_type-none info.type mods.type in
    let parent_ok = check_parent-none target parent in
    let size_ok = check_size-none mods.size in
    (
      λ e.
          let (passes, later) = whole.0 e in
          let (parented, sized) = rest.0 later in
          let (known, no_parent, a_parent) = parent_ok.0 parented in
          record {
            type = type_ok.0 passes;
            known = known;
            no_parent = no_parent;
            a_parent = a_parent;
            size = size_ok.0 sized;
          },
      λ a. whole.1 (
        type_ok.1 a.type,
        rest.1 (parent_ok.1 (a.known, a.no_parent, a.a_parent), size_ok.1 a.size),
      ),
    )
