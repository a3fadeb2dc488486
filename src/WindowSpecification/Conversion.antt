-- ===== src/WindowSpecification/Conversion.antt =====
-- miral/window_specification.cpp: the constructors from Mir's requests and `update`, for Mir 0.25 and
-- later. The two request structs are Mir's; they have the members that the sources read.
use Prim.Native.String.{String}
use mathlib.Core.Option
use miral.Prelude.{ℕ, Option, none, some, List, Bool, true, false}
use miral.Prelude.Int.{ℤ}
use miral.Types.{
  WindowType, WindowState, PlacementGravity, northwest, northeast, southwest, PlacementHints,
  PointerConfinementState,
}
use miral.Geometry.{Point, Size, Displacement, Rectangle}
use miral.MruWindowList.{Window}
use miral.WindowSpecification.{WindowSpecification, BufferUsage, InputReceptionMode, AspectRatio}

pub data EdgeAttachment : Type 0 where
  vertical horizontal any : EdgeAttachment

-- mir::shell::SurfaceSpecification
pub record SurfaceSpecification : Type 0 where
  pub width : Option ℤ
  pub height : Option ℤ
  pub pixel_format : Option ℕ
  pub buffer_usage : Option BufferUsage
  pub name : Option String
  pub output_id : Option ℤ
  pub type : Option WindowType
  pub state : Option WindowState
  pub preferred_orientation : Option ℕ
  pub aux_rect : Option Rectangle
  pub edge_attachment : Option EdgeAttachment
  pub placement_hints : Option PlacementHints
  pub surface_placement_gravity : Option PlacementGravity
  pub aux_rect_placement_gravity : Option PlacementGravity
  pub aux_rect_placement_offset_x : Option ℤ
  pub aux_rect_placement_offset_y : Option ℤ
  pub min_width : Option ℤ
  pub min_height : Option ℤ
  pub max_width : Option ℤ
  pub max_height : Option ℤ
  pub width_inc : Option ℤ
  pub height_inc : Option ℤ
  pub min_aspect : Option AspectRatio
  pub max_aspect : Option AspectRatio
  pub streams : Option (List ℕ)
  pub parent : Option (Option Window)
  pub input_shape : Option (List Rectangle)
  pub shell_chrome : Option ℕ
  pub confine_pointer : Option PointerConfinementState

-- mir::scene::SurfaceCreationParameters
pub record CreationParameters : Type 0 where
  pub top_left : Point
  pub size : Size
  pub pixel_format : ℕ
  pub buffer_usage : BufferUsage
  pub name : String
  pub output_id : ℤ
  pub type : Option WindowType
  pub state : Option WindowState
  pub preferred_orientation : Option ℕ
  pub content_id : Option ℕ
  pub aux_rect : Option Rectangle
  pub edge_attachment : Option EdgeAttachment
  pub placement_hints : Option PlacementHints
  pub surface_placement_gravity : Option PlacementGravity
  pub aux_rect_placement_gravity : Option PlacementGravity
  pub aux_rect_placement_offset_x : Option ℤ
  pub aux_rect_placement_offset_y : Option ℤ
  pub min_width : Option ℤ
  pub min_height : Option ℤ
  pub max_width : Option ℤ
  pub max_height : Option ℤ
  pub width_inc : Option ℤ
  pub height_inc : Option ℤ
  pub min_aspect : Option AspectRatio
  pub max_aspect : Option AspectRatio
  pub streams : Option (List ℕ)
  pub parent : Option Window
  pub input_shape : Option (List Rectangle)
  pub input_mode : InputReceptionMode
  pub shell_chrome : Option ℕ
  pub confine_pointer : Option PointerConfinementState

abbrev pub hints : Bool → Bool → Bool → PlacementHints
hints flip_x flip_y antipodes = record {
  flip_x = flip_x;
  flip_y = flip_y;
  slide_x = false;
  slide_y = false;
  resize_x = false;
  resize_y = false;
  antipodes = antipodes;
}

-- The three properties that an edge attachment stands for.
pub record Placement : Type 0 where
  pub placement_hints : Option PlacementHints
  pub window_gravity : Option PlacementGravity
  pub aux_rect_gravity : Option PlacementGravity

-- The switch on an edge attachment. The constructor from a `SurfaceSpecification` adds the antipodes
-- hint for `any`, the other one does not.
unfoldable pub attached : Bool → EdgeAttachment → Placement
attached antipodes vertical = record {
  placement_hints = some (hints true false false);
  window_gravity = some northwest;
  aux_rect_gravity = some northeast;
}
attached antipodes horizontal = record {
  placement_hints = some (hints false true false);
  window_gravity = some northwest;
  aux_rect_gravity = some southwest;
}
attached antipodes any = record {
  placement_hints = some (hints true true antipodes);
  window_gravity = some northwest;
  aux_rect_gravity = some northeast;
}

-- `if (edge_attachment.is_set() && !placement_hints.is_set())`
unfoldable pub attach : Bool → Option EdgeAttachment → Option PlacementHints → Placement → Placement
unfolding attached
attach antipodes (some edge) none p = attached antipodes edge
attach antipodes _ _ p = p

-- Both members of an optional struct are needed to set it.
unfoldable pub both : {A B C : Type 0} → (A → B → C) → Option A → Option B → Option C
both f (some a) (some b) = some (f a b)
both f _ _ = none

abbrev pub displacement : ℤ → ℤ → Displacement
displacement x y = record { dx = x; dy = y }

abbrev pub size : ℤ → ℤ → Size
size w h = record { width = w; height = h }

unfoldable pub of_surface_specification : SurfaceSpecification → WindowSpecification
unfolding attach both
of_surface_specification spec = record {
  top_left = none;
  size = both size spec.width spec.height;
  pixel_format = spec.pixel_format;
  buffer_usage = spec.buffer_usage;
  name = spec.name;
  output_id = spec.output_id;
  type = spec.type;
  state = spec.state;
  preferred_orientation = spec.preferred_orientation;
  content_id = none;
  aux_rect = spec.aux_rect;
  placement_hints = placement.placement_hints;
  window_placement_gravity = placement.window_gravity;
  aux_rect_placement_gravity = placement.aux_rect_gravity;
  aux_rect_placement_offset =
      both displacement spec.aux_rect_placement_offset_x spec.aux_rect_placement_offset_y;
  min_width = spec.min_width;
  min_height = spec.min_height;
  max_width = spec.max_width;
  max_height = spec.max_height;
  width_inc = spec.width_inc;
  height_inc = spec.height_inc;
  min_aspect = spec.min_aspect;
  max_aspect = spec.max_aspect;
  streams = spec.streams;
  parent = spec.parent;
  input_shape = spec.input_shape;
  input_mode = none;
  shell_chrome = spec.shell_chrome;
  confine_pointer = spec.confine_pointer;
  userdata = none;
}
  where
    placement : Placement
    placement = attach true spec.edge_attachment spec.placement_hints (record {
      placement_hints = spec.placement_hints;
      window_gravity = spec.surface_placement_gravity;
      aux_rect_gravity = spec.aux_rect_placement_gravity;
    })

unfoldable pub of_creation_parameters : CreationParameters → WindowSpecification
unfolding attach both
of_creation_parameters params = record {
  top_left = some params.top_left;
  size = some params.size;
  pixel_format = some params.pixel_format;
  buffer_usage = some params.buffer_usage;
  name = some params.name;
  output_id = some params.output_id;
  type = params.type;
  state = params.state;
  preferred_orientation = params.preferred_orientation;
  content_id = params.content_id;
  aux_rect = params.aux_rect;
  placement_hints = placement.placement_hints;
  window_placement_gravity = placement.window_gravity;
  aux_rect_placement_gravity = placement.aux_rect_gravity;
  aux_rect_placement_offset =
      both displacement params.aux_rect_placement_offset_x params.aux_rect_placement_offset_y;
  min_width = params.min_width;
  min_height = params.min_height;
  max_width = params.max_width;
  max_height = params.max_height;
  width_inc = params.width_inc;
  height_inc = params.height_inc;
  min_aspect = params.min_aspect;
  max_aspect = params.max_aspect;
  streams = params.streams;
  parent = some params.parent;
  input_shape = params.input_shape;
  input_mode = some params.input_mode;
  shell_chrome = params.shell_chrome;
  confine_pointer = params.confine_pointer;
  userdata = none;
}
  where
    placement : Placement
    placement = attach false params.edge_attachment params.placement_hints (record {
      placement_hints = params.placement_hints;
      window_gravity = params.surface_placement_gravity;
      aux_rect_gravity = params.aux_rect_placement_gravity;
    })

-- `copy_if_set(dest, source)`, for a destination that is no optional value and for one that is.
unfoldable pub copy_if_set : {A : Type 0} → A → Option A → A
copy_if_set dest none = dest
copy_if_set dest (some source) = source

unfoldable pub copy_if_set_optional : {A : Type 0} → Option A → Option A → Option A
copy_if_set_optional dest none = dest
copy_if_set_optional dest (some source) = some source

unfoldable pub update : WindowSpecification → CreationParameters → CreationParameters
update spec params = record params {
  top_left = copy_if_set params.top_left spec.top_left;
  size = copy_if_set params.size spec.size;
  pixel_format = copy_if_set params.pixel_format spec.pixel_format;
  buffer_usage = copy_if_set params.buffer_usage spec.buffer_usage;
  name = copy_if_set params.name spec.name;
  output_id = copy_if_set params.output_id spec.output_id;
  type = copy_if_set_optional params.type spec.type;
  state = copy_if_set_optional params.state spec.state;
  preferred_orientation =
      copy_if_set_optional params.preferred_orientation spec.preferred_orientation;
  content_id = copy_if_set_optional params.content_id spec.content_id;
  aux_rect = copy_if_set_optional params.aux_rect spec.aux_rect;
  min_width = copy_if_set_optional params.min_width spec.min_width;
  min_height = copy_if_set_optional params.min_height spec.min_height;
  max_width = copy_if_set_optional params.max_width spec.max_width;
  max_height = copy_if_set_optional params.max_height spec.max_height;
  width_inc = copy_if_set_optional params.width_inc spec.width_inc;
  height_inc = copy_if_set_optional params.height_inc spec.height_inc;
  min_aspect = copy_if_set_optional params.min_aspect spec.min_aspect;
  max_aspect = copy_if_set_optional params.max_aspect spec.max_aspect;
  streams = copy_if_set_optional params.streams spec.streams;
  parent = copy_if_set params.parent spec.parent;
  input_shape = copy_if_set_optional params.input_shape spec.input_shape;
  input_mode = copy_if_set params.input_mode spec.input_mode;
  shell_chrome = copy_if_set_optional params.shell_chrome spec.shell_chrome;
  confine_pointer = copy_if_set_optional params.confine_pointer spec.confine_pointer;
  placement_hints = copy_if_set_optional params.placement_hints spec.placement_hints;
  surface_placement_gravity =
      copy_if_set_optional params.surface_placement_gravity spec.window_placement_gravity;
  aux_rect_placement_gravity =
      copy_if_set_optional params.aux_rect_placement_gravity spec.aux_rect_placement_gravity;
  aux_rect_placement_offset_x =
      copy_if_set_optional params.aux_rect_placement_offset_x
        (Option.map (λ d. d.dx) spec.aux_rect_placement_offset);
  aux_rect_placement_offset_y =
      copy_if_set_optional params.aux_rect_placement_offset_y
        (Option.map (λ d. d.dy) spec.aux_rect_placement_offset);
}
