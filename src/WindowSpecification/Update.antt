-- ===== src/WindowSpecification/Update.antt =====
-- miral/window_specification.cpp: from a creation request to a window specification and back.
use mathlib.Core.Option
use miral.Prelude.Int.{ℤ}
use miral.Types.{PlacementHints}
use miral.Geometry.{Displacement}
use miral.Prelude.{Bool, false, ◌≡◌, refl, ◌⊎◌, inl, inr, Option, none, some, ◌≢◌, arith}
use miral.WindowSpecification.{WindowSpecification, no_specification}
use miral.WindowSpecification.Conversion.{
  CreationParameters, EdgeAttachment, Placement, displacement, of_creation_parameters, copy_if_set,
  copy_if_set_optional, update, attach, both,
}

copy_if_set_self : {A : Type 0} (o : Option A) → copy_if_set_optional o o ≡ o
unfolding copy_if_set_optional
copy_if_set_self none = refl
copy_if_set_self (some a) = refl

-- The placement properties that the request itself sets.
abbrev asked : CreationParameters → Placement
asked params = record {
  placement_hints = params.placement_hints;
  window_gravity = params.surface_placement_gravity;
  aux_rect_gravity = params.aux_rect_placement_gravity;
}

attach_unchanged :
    (antipodes : Bool) (edge : Option EdgeAttachment) (hints : Option PlacementHints)
    (p : Placement)
    → (edge ≡ none) ⊎ (hints ≢ none)
    → attach antipodes edge hints p ≡ p
unfolding attach
attach_unchanged antipodes none hints p h = refl
attach_unchanged antipodes (some e) (some hints) p h = refl
attach_unchanged antipodes (some e) none p (inl h) = cc
attach_unchanged antipodes (some e) none p (inr h) = absurd (h refl)

copy_x :
    (x y : Option ℤ) → copy_if_set_optional x (Option.map (λ d. d.dx) (both displacement x y)) ≡ x
unfolding copy_if_set_optional both
copy_x x y = ground arith

copy_y :
    (x y : Option ℤ) → copy_if_set_optional y (Option.map (λ d. d.dy) (both displacement x y)) ≡ y
unfolding copy_if_set_optional both
copy_y x y = ground arith

update-of_creation_parameters :
    (params : CreationParameters)
    → (params.edge_attachment ≡ none) ⊎ (params.placement_hints ≢ none)
    → update (of_creation_parameters params) params ≡ params
unfolding update of_creation_parameters copy_if_set
update-of_creation_parameters params h = simp (
  attach_unchanged false params.edge_attachment params.placement_hints (asked params) h,
  copy_if_set_self,
  copy_x,
  copy_y,
)

-- A property that is set in the first is set to the same value in the second.
abbrev pub Kept : {A : Type 0} → Option A → Option A → Type 0
Kept a b = (a ≡ none) ⊎ (b ≡ a)

-- Every property but the user data, for which a request has no place.
pub record Carries (s t : WindowSpecification) : Type 0 where
  pub top_left : Kept s.top_left t.top_left
  pub size : Kept s.size t.size
  pub pixel_format : Kept s.pixel_format t.pixel_format
  pub buffer_usage : Kept s.buffer_usage t.buffer_usage
  pub name : Kept s.name t.name
  pub output_id : Kept s.output_id t.output_id
  pub type : Kept s.type t.type
  pub state : Kept s.state t.state
  pub preferred_orientation : Kept s.preferred_orientation t.preferred_orientation
  pub content_id : Kept s.content_id t.content_id
  pub aux_rect : Kept s.aux_rect t.aux_rect
  pub placement_hints : Kept s.placement_hints t.placement_hints
  pub window_placement_gravity : Kept s.window_placement_gravity t.window_placement_gravity
  pub aux_rect_placement_gravity : Kept s.aux_rect_placement_gravity t.aux_rect_placement_gravity
  pub aux_rect_placement_offset : Kept s.aux_rect_placement_offset t.aux_rect_placement_offset
  pub min_width : Kept s.min_width t.min_width
  pub min_height : Kept s.min_height t.min_height
  pub max_width : Kept s.max_width t.max_width
  pub max_height : Kept s.max_height t.max_height
  pub width_inc : Kept s.width_inc t.width_inc
  pub height_inc : Kept s.height_inc t.height_inc
  pub min_aspect : Kept s.min_aspect t.min_aspect
  pub max_aspect : Kept s.max_aspect t.max_aspect
  pub streams : Kept s.streams t.streams
  pub parent : Kept s.parent t.parent
  pub input_shape : Kept s.input_shape t.input_shape
  pub input_mode : Kept s.input_mode t.input_mode
  pub shell_chrome : Kept s.shell_chrome t.shell_chrome
  pub confine_pointer : Kept s.confine_pointer t.confine_pointer

Kept-copy : {A : Type 0} (dest source : Option A) → Kept source (copy_if_set_optional dest source)
unfolding copy_if_set_optional
Kept-copy dest none = inl refl
Kept-copy dest (some a) = inr refl

Kept-some :
    {A : Type 0} (dest : A) (source : Option A) → Kept source (some (copy_if_set dest source))
unfolding copy_if_set
Kept-some dest none = inl refl
Kept-some dest (some a) = inr refl

Kept-offset :
    (x y : Option ℤ) (source : Option Displacement)
    → Kept source (
        both displacement
          (copy_if_set_optional x (Option.map (λ d. d.dx) source))
          (copy_if_set_optional y (Option.map (λ d. d.dy) source)))
unfolding copy_if_set_optional both
Kept-offset x y none = inl refl
Kept-offset x y (some d) = inr refl

update-Carries :
    (spec : WindowSpecification) (params : CreationParameters)
    → params.edge_attachment ≡ none
    → Carries spec (of_creation_parameters (update spec params))
unfolding update of_creation_parameters
update-Carries spec params h =
    rw (h, attach)
      (record {
        top_left = Kept-some _ _;
        size = Kept-some _ _;
        pixel_format = Kept-some _ _;
        buffer_usage = Kept-some _ _;
        name = Kept-some _ _;
        output_id = Kept-some _ _;
        type = Kept-copy _ _;
        state = Kept-copy _ _;
        preferred_orientation = Kept-copy _ _;
        content_id = Kept-copy _ _;
        aux_rect = Kept-copy _ _;
        placement_hints = Kept-copy _ _;
        window_placement_gravity = Kept-copy _ _;
        aux_rect_placement_gravity = Kept-copy _ _;
        aux_rect_placement_offset = Kept-offset _ _ _;
        min_width = Kept-copy _ _;
        min_height = Kept-copy _ _;
        max_width = Kept-copy _ _;
        max_height = Kept-copy _ _;
        width_inc = Kept-copy _ _;
        height_inc = Kept-copy _ _;
        min_aspect = Kept-copy _ _;
        max_aspect = Kept-copy _ _;
        streams = Kept-copy _ _;
        parent = Kept-some _ _;
        input_shape = Kept-copy _ _;
        input_mode = Kept-some _ _;
        shell_chrome = Kept-copy _ _;
        confine_pointer = Kept-copy _ _;
      })

update-nothing : (params : CreationParameters) → update no_specification params ≡ params
unfolding update copy_if_set copy_if_set_optional
update-nothing params = refl

-- For a request that names no edge attachment: what is read from the request and written back changes nothing; what
-- is written, and then read back, has every property that was set, with its value, but for the user data, which is
-- not written; and where no property is set, nothing is written.
pub update-round_trip :
    (spec : WindowSpecification) (params : CreationParameters)
    → params.edge_attachment ≡ none
    → (update (of_creation_parameters params) params ≡ params)
      × Carries spec (of_creation_parameters (update spec params))
      × (update no_specification params ≡ params)
update-round_trip spec params h = (
  update-of_creation_parameters params (inl h),
  update-Carries spec params h,
  update-nothing params,
)
