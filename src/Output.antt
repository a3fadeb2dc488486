-- ===== src/Output.antt =====
-- miral/output.cpp. An `Output` holds a copy of Mir's description of an output; its members are those that
-- the accessors read. What the sources only compare is a number: the type, the formats and modes, and
-- the scale, which is a float there.
pub mod Equivalence
use miral.Prelude.{ℕ, Bool, true, false, not, ◌&&◌, ◌||◌, ◌==◌, if◌then◌else◌}
use miral.Prelude.Int.{ℤ, eqb_ℤ}
use miral.Geometry.{Rectangle, rectangle_eq}

pub record PhysicalSizeMm : Type 0 where
  pub width : ℤ
  pub height : ℤ

-- `powered` is `power_mode() == mir_power_mode_on`.
pub record Output : Type 0 where
  pub card_id : ℕ
  pub id : ℕ
  pub type : ℕ
  pub physical_size_mm : PhysicalSizeMm
  pub connected : Bool
  pub used : Bool
  pub valid : Bool
  pub powered : Bool
  pub pixel_format : ℕ
  pub orientation : ℕ
  pub scale : ℕ
  pub form_factor : ℕ
  pub extents : Rectangle

unfoldable pub is_same_output : Output → Output → Bool
is_same_output self other = self.card_id == other.card_id && self.id == other.id

-- `operator==(PhysicalSizeMm, PhysicalSizeMm)`
abbrev pub physical_size_eq : PhysicalSizeMm → PhysicalSizeMm → Bool
physical_size_eq lhs rhs = eqb_ℤ lhs.width rhs.width && eqb_ℤ lhs.height rhs.height

-- `lhs_bad` and `rhs_bad`
unfoldable pub is_bad : Output → Bool
is_bad o = not o.valid || not o.used || not o.connected || not o.powered

unfoldable pub same_area : Output → Output → Bool
same_area lhs rhs =
    rectangle_eq lhs.extents rhs.extents
    && lhs.form_factor == rhs.form_factor
    && lhs.orientation == rhs.orientation
    && lhs.pixel_format == rhs.pixel_format
    && physical_size_eq lhs.physical_size_mm rhs.physical_size_mm
    && lhs.scale == rhs.scale
    && lhs.type == rhs.type

abbrev pub bool_eq : Bool → Bool → Bool
bool_eq true b = b
bool_eq false b = not b

unfoldable pub equivalent_display_area : Output → Output → Bool
equivalent_display_area lhs rhs =
    if is_bad lhs || is_bad rhs then bool_eq (is_bad lhs) (is_bad rhs) else same_area lhs rhs
