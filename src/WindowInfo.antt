-- ===== src/WindowInfo.antt =====
-- miral/window_info.cpp: what the window manager knows of a window. Values that the sources only copy
-- are numbers.
pub mod Roles
pub mod Resize
pub mod Snap
pub mod Aspect
pub mod Constraints
use Prim.Native.String.{String}
use miral.Prelude.{
  ℕ, Bool, true, false, not, Option, none, some, List, [], ◌∷◌, ◌++◌, ◌==◌, if◌then◌else◌,
}
use miral.Prelude.Int.{ℤ, pos}
use miral.Types.{
  WindowType, normal, utility, dialog, gloss, freestyle, menu, inputmethod, satellite, tip, types,
  WindowState, restored, minimized, hidden, PointerConfinementState, unconfined,
}
use miral.Geometry.{Rectangle}
use miral.MruWindowList.{Window}
use miral.WindowSpecification.{WindowSpecification, AspectRatio}

pub record WindowInfo : Type 0 where
  pub window : Window
  pub name : String
  pub type : WindowType
  pub state : WindowState
  pub restore_rect : Rectangle
  pub parent : Option Window
  pub children : List Window
  pub min_width : ℤ
  pub min_height : ℤ
  pub max_width : ℤ
  pub max_height : ℤ
  pub preferred_orientation : ℕ
  pub confine_pointer : PointerConfinementState
  pub width_inc : ℤ
  pub height_inc : ℤ
  pub min_aspect : AspectRatio
  pub max_aspect : AspectRatio
  pub output_id : Option ℤ
  pub shell_chrome : ℕ
  pub userdata : Option ℕ

abbrev pub value_or_default : {A : Type 0} → Option A → A → A
value_or_default (some a) default = a
value_or_default none default = default

-- `std::numeric_limits<int>::max()` and that of `unsigned`.
abbrev pub int_max : ℤ
int_max = pos 2147483647

abbrev pub unsigned_max : ℕ
unsigned_max = 4294967295

-- The two enumerators of Mir that stand for a property that is not set.
pub record Defaults : Type 0 where
  pub orientation_mode_any : ℕ
  pub shell_chrome_normal : ℕ

infixl 5 ◌>>=◌
abbrev ◌>>=◌ : {A B : Type 0} → Option A → (A → Option B) → Option B
some a >>= f = f a
none >>= f = none

-- `Self(window, params)`. `none`: the name, the position or the size is not set.
unfoldable pub create : Defaults → Window → WindowSpecification → Option WindowInfo
create defaults window params = do
  name ← params.name
  top_left ← params.top_left
  size ← params.size
  some (record {
    window = window;
    name = name;
    type = value_or_default params.type normal;
    state = value_or_default params.state restored;
    restore_rect = record { top_left = top_left; size = size };
    parent = none;
    children = [];
    min_width = value_or_default params.min_width (pos 0);
    min_height = value_or_default params.min_height (pos 0);
    max_width = value_or_default params.max_width int_max;
    max_height = value_or_default params.max_height int_max;
    preferred_orientation =
        value_or_default params.preferred_orientation defaults.orientation_mode_any;
    confine_pointer = value_or_default params.confine_pointer unconfined;
    width_inc = value_or_default params.width_inc (pos 1);
    height_inc = value_or_default params.height_inc (pos 1);
    min_aspect = value_or_default params.min_aspect (record { width = 0; height = unsigned_max });
    max_aspect = value_or_default params.max_aspect (record { width = unsigned_max; height = 0 });
    output_id = params.output_id;
    shell_chrome = value_or_default params.shell_chrome defaults.shell_chrome_normal;
    userdata = params.userdata;
  })

unfoldable pub can_be_active : WindowType → Bool
can_be_active normal = true
can_be_active utility = true
can_be_active dialog = true
can_be_active freestyle = true
can_be_active menu = true
can_be_active _ = false

unfoldable pub must_have_parent : WindowType → Bool
must_have_parent gloss = true
must_have_parent inputmethod = true
must_have_parent satellite = true
must_have_parent tip = true
must_have_parent _ = false

unfoldable pub must_not_have_parent : WindowType → Bool
must_not_have_parent normal = true
must_not_have_parent utility = true
must_not_have_parent _ = false

unfoldable pub needs_titlebar : WindowType → Bool
needs_titlebar freestyle = false
needs_titlebar menu = false
needs_titlebar inputmethod = false
needs_titlebar gloss = false
needs_titlebar tip = false
needs_titlebar _ = true

-- The inner switches of `can_morph_to`, on the present type.
floating : WindowType → Bool
floating normal = true
floating utility = true
floating dialog = true
floating satellite = true
floating _ = false

dialog_source : WindowType → Bool
dialog_source normal = true
dialog_source utility = true
dialog_source dialog = true
dialog_source menu = true
dialog_source satellite = true
dialog_source _ = false

-- `can_morph_to`, from the present type to the new one.
unfoldable pub can_morph_to : WindowType → WindowType → Bool
unfolding floating dialog_source
can_morph_to old normal = floating old
can_morph_to old utility = floating old
can_morph_to old satellite = floating old
can_morph_to old dialog = dialog_source old
can_morph_to old _ = false

-- `is_visible`, where `surface_visible` is what Mir answers for the surface, which may be gone.
unfoldable pub is_visible : WindowState → Option Bool → Bool
is_visible hidden surface_visible = false
is_visible minimized surface_visible = false
is_visible _ (some visible) = visible
is_visible _ none = false

unfoldable pub add_child : WindowInfo → Window → WindowInfo
add_child info child = record info { children = info.children ++ child ∷ [] }

-- Only the first occurrence goes.
unfoldable pub remove_first : Window → List Window → List Window
remove_first child [] = []
remove_first child (w ∷ siblings) =
    let rest = remove_first child siblings in if child == w then siblings else w ∷ rest

unfoldable pub remove_child : WindowInfo → Window → WindowInfo
unfolding remove_first
remove_child info child = record info { children = remove_first child info.children }
