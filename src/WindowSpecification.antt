-- ===== src/WindowSpecification.antt =====
-- include/miral/window_specification.h and the struct `Self` of miral/window_specification.cpp: the
-- properties of a window that a client or a policy asks for, each set or not. Values that the
-- sources only copy (formats, stream ids, user data) are numbers.
pub mod Conversion
pub mod Update
use Prim.Native.String.{String}
use miral.Prelude.{ℕ, Option, none, List}
use miral.Prelude.Int.{ℤ}
use miral.Types.{WindowType, WindowState, PlacementGravity, PlacementHints, PointerConfinementState}
use miral.Geometry.{Point, Size, Displacement, Rectangle}
use miral.MruWindowList.{Window}

pub data BufferUsage : Type 0 where
  undefined hardware software : BufferUsage

pub data InputReceptionMode : Type 0 where
  normal receives_all_input : InputReceptionMode

-- Both members are `unsigned`.
pub record AspectRatio : Type 0 where
  pub width : ℕ
  pub height : ℕ

-- The parent is a weak pointer, which may be empty.
pub record WindowSpecification : Type 0 where
  pub top_left : Option Point
  pub size : Option Size
  pub pixel_format : Option ℕ
  pub buffer_usage : Option BufferUsage
  pub name : Option String
  pub output_id : Option ℤ
  pub type : Option WindowType
  pub state : Option WindowState
  pub preferred_orientation : Option ℕ
  pub content_id : Option ℕ
  pub aux_rect : Option Rectangle
  pub placement_hints : Option PlacementHints
  pub window_placement_gravity : Option PlacementGravity
  pub aux_rect_placement_gravity : Option PlacementGravity
  pub aux_rect_placement_offset : Option Displacement
  pub min_width : Option ℤ
  pub min_height : Option ℤ
  pub max_width : Option ℤ
  pub max_height : Option ℤ
  pub width_inc : Option ℤ
  pub height_inc : Option ℤ
  pub min_aspect : Option AspectRatio
  pub max_aspect : Option AspectRatio
  pub streams : Option (List ℕ)
  pub parent : Option (Option Window)
  pub input_shape : Option (List Rectangle)
  pub input_mode : Option InputReceptionMode
  pub shell_chrome : Option ℕ
  pub confine_pointer : Option PointerConfinementState
  pub userdata : Option ℕ

-- `WindowSpecification{}`
abbrev pub no_specification : WindowSpecification
no_specification = record {
  top_left = none;
  size = none;
  pixel_format = none;
  buffer_usage = none;
  name = none;
  output_id = none;
  type = none;
  state = none;
  preferred_orientation = none;
  content_id = none;
  aux_rect = none;
  placement_hints = none;
  window_placement_gravity = none;
  aux_rect_placement_gravity = none;
  aux_rect_placement_offset = none;
  min_width = none;
  min_height = none;
  max_width = none;
  max_height = none;
  width_inc = none;
  height_inc = none;
  min_aspect = none;
  max_aspect = none;
  streams = none;
  parent = none;
  input_shape = none;
  input_mode = none;
  shell_chrome = none;
  confine_pointer = none;
  userdata = none;
}
