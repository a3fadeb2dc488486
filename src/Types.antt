-- ===== src/Types.antt =====
-- include/mir/client/detail/mir_forward_compatibility.h: the enumerations of Mir's client API that
-- the sources branch on, with a test for equality on each. The last constructor of an enumeration
-- is the count that the C enum ends with; the sources reach it only by `default:` labels.
use miral.Prelude.{ℕ, ◌≡◌, ◌↔◌, Bool, true, arith, ◌==◌}

pub data WindowType : Type 0 where
  normal utility dialog gloss freestyle menu inputmethod satellite tip types : WindowType

pub data WindowState : Type 0 where
  unknown restored minimized maximized vertmaximized fullscreen horizmaximized hidden : WindowState
  states : WindowState

-- A gravity is one of three places on each axis.
pub data PlacementGravity : Type 0 where
  center west east north south northwest northeast southwest southeast : PlacementGravity

-- One flag for each bit of the mask.
pub record PlacementHints : Type 0 where
  pub flip_x : Bool
  pub flip_y : Bool
  pub slide_x : Bool
  pub slide_y : Bool
  pub resize_x : Bool
  pub resize_y : Bool
  pub antipodes : Bool

pub data PointerConfinementState : Type 0 where
  unconfined confined_to_window : PointerConfinementState

-- The number of an enumerator, by which `==` compares.
abbrev pub type_index : WindowType → ℕ
type_index normal = 0
type_index utility = 1
type_index dialog = 2
type_index gloss = 3
type_index freestyle = 4
type_index menu = 5
type_index inputmethod = 6
type_index satellite = 7
type_index tip = 8
type_index types = 9

abbrev pub state_index : WindowState → ℕ
state_index unknown = 0
state_index restored = 1
state_index minimized = 2
state_index maximized = 3
state_index vertmaximized = 4
state_index fullscreen = 5
state_index horizmaximized = 6
state_index hidden = 7
state_index states = 8

abbrev pub type_eq : WindowType → WindowType → Bool
type_eq a b = type_index a == type_index b

abbrev pub state_eq : WindowState → WindowState → Bool
state_eq a b = state_index a == state_index b

-- The numbering is injective, so the tests decide equality.
pub type_eq_iff : (a b : WindowType) → (type_eq a b ≡ true) ↔ (a ≡ b)
type_eq_iff a b = ground arith

pub state_eq_iff : (a b : WindowState) → (state_eq a b ≡ true) ↔ (a ≡ b)
state_eq_iff a b = ground arith
