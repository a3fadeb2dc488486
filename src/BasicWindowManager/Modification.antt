-- ===== src/BasicWindowManager/Modification.antt =====
-- miral/basic_window_manager.cpp: a window is modified (`modify_window`), by the policy, or at the request of a client
-- that the policy is asked about (`modify_surface`).
pub mod Edits
pub mod Moved
pub mod Family
pub mod Steps
pub mod Reparent
use miral.Prelude.{
  ℕ, Bool, true, false, not, ◌&&◌, ◌||◌, Option, none, some, List, [], ◌∷◌, ◌++◌, ◌==◌,
  if◌then◌else◌,
}
use miral.Prelude.Int.{◌-ℤ◌}
use miral.Types.{WindowState, type_eq, state_eq}
use miral.Geometry.{Geometry, Point, Size, Displacement, Rectangle, between, origin}
use miral.MruWindowList.{Window}
use miral.WindowSpecification.{WindowSpecification}
use miral.WindowInfo.{
  WindowInfo, value_or_default, can_morph_to, must_have_parent, must_not_have_parent, add_child,
  remove_child,
}
use miral.WindowInfo.Resize.{constrain_resize}
use miral.Placement.{place_relative}
use miral.BasicWindowManager.Surfaces.{SurfaceApi}
use miral.BasicWindowManager.State.{
  Manager, Call, configure_type, rename, set_input_region, set_confine_pointer_state,
  placed_relative, handle_modify_window, Result, ok, out_of_range, runtime_error, division_by_zero,
  ◌>>=◌, or_logic_error, set_info, tell, info_for, handle, alive, window_top_left, window_size,
}
use miral.BasicWindowManager.StateChange.{
  DisplayLayout, Surroundings, current_restore_rect, place_and_size_for_state,
}
use miral.BasicWindowManager.Removal.{leave_parent}
use miral.BasicWindowManager.Insertion.{is_set}
use miral.BasicWindowManager.Joining.{join_parent}
use miral.BasicWindowManager.Movement.{move_tree, place_and_size}
use miral.BasicWindowManager.Transition.{set_state}
use miral.BasicWindowManager.Validation.{validate_modification_request}

abbrev pub set_or_kept : {A : Type 0} → Option A → Option A → Option A
set_or_kept none present = present
set_or_kept (some requested) present = some requested

-- `COPY_IF_SET` for each property but the state.
unfoldable pub copied : WindowSpecification → WindowInfo → WindowInfo
copied modifications info = record info {
  name = value_or_default modifications.name info.name;
  type = value_or_default modifications.type info.type;
  min_width = value_or_default modifications.min_width info.min_width;
  min_height = value_or_default modifications.min_height info.min_height;
  max_width = value_or_default modifications.max_width info.max_width;
  max_height = value_or_default modifications.max_height info.max_height;
  width_inc = value_or_default modifications.width_inc info.width_inc;
  height_inc = value_or_default modifications.height_inc info.height_inc;
  min_aspect = value_or_default modifications.min_aspect info.min_aspect;
  max_aspect = value_or_default modifications.max_aspect info.max_aspect;
  output_id = set_or_kept modifications.output_id info.output_id;
  preferred_orientation =
      value_or_default modifications.preferred_orientation info.preferred_orientation;
  confine_pointer = value_or_default modifications.confine_pointer info.confine_pointer;
  userdata = set_or_kept modifications.userdata info.userdata;
  shell_chrome = value_or_default modifications.shell_chrome info.shell_chrome;
}

-- `==` on windows, which may be null.
abbrev pub same_window : Option Window → Option Window → Bool
same_window none none = true
same_window (some v) (some w) = v == w
same_window _ _ = false

-- A new type that forbids a parent, or needs one; `has_parent` tells of a parent that is alive.
unfoldable pub adapted : Bool → Bool → Bool → WindowInfo → Result WindowInfo
adapted morphs requests_parent has_parent tmp =
    let parentless = ok (record tmp { parent = none }) in
    if not morphs
    then runtime_error
    else if must_not_have_parent tmp.type
    then (if requests_parent then runtime_error else parentless)
    else (if must_have_parent tmp.type && not has_parent then runtime_error else ok tmp)

module _ {Surface : Type 0} where
  unfoldable pub requested_parent :
      Manager Surface → Option (Option Window) → Option Window → Result (Option Window)
  requested_parent m none present = ok present
  requested_parent m (some none) present = out_of_range
  requested_parent m (some (some w)) present = do info ← info_for m w; ok (some info.window)

  -- The record as it is to be, or the exception that leaves everything as it was.
  unfoldable pub modified_info :
      Manager Surface → WindowSpecification → WindowInfo → Result WindowInfo
  modified_info m modifications info = do
    parent ← requested_parent m modifications.parent info.parent
    let tmp = record (copied modifications info) { parent = parent }
    if type_eq info.type tmp.type
        then ok tmp
        else adapted (can_morph_to info.type tmp.type) (is_set modifications.parent)
            (is_set (handle m tmp.parent)) tmp

  -- The record is swapped, and the parents are told.
  unfoldable pub reparent : Manager Surface → WindowInfo → WindowInfo → Result (Manager Surface)
  reparent m info tmp =
      let swapped = record m { window_info = set_info tmp m.window_info } in
      let moved = (do
        left ← leave_parent swapped tmp.window (handle swapped info.parent)
        join_parent left (handle left tmp.parent) tmp.window) in
      if same_window tmp.parent info.parent then ok swapped else moved

-- `confirm` is the policy's `confirm_inherited_move`. `focus_fuel` is for the selection of a window, `tree_fuel` for the
-- movement of a tree.
module _ {Surface : Type 0} (api : SurfaceApi Surface)
    (confirm : Manager Surface → WindowInfo → Displacement → Rectangle) (g : Geometry)
    (active_display : Rectangle) (lives : ℕ → Bool) (focus_fuel tree_fuel : ℕ) where
  abbrev pub rect_of : Manager Surface → Window → Rectangle
  rect_of m w = record { top_left = window_top_left api m w; size = window_size api m w }

  -- What the surface itself is told.
  abbrev pub surface_calls : WindowSpecification → WindowInfo → WindowInfo → List Call
  surface_calls modifications info tmp =
      (if type_eq info.type tmp.type then [] else configure_type tmp.window tmp.type ∷ [])
      ++ elim modifications.name as (λ _. List Call) [
        | none ↦ []
        | some name ↦ rename tmp.window name ∷ []
      ]
      ++ elim modifications.input_shape as (λ _. List Call) [
        | none ↦ []
        | some shape ↦ set_input_region tmp.window shape ∷ []
      ]

  -- The rectangle to restore later is noted before the state changes.
  unfoldable pub cache_restore_rect :
      Manager Surface → Option WindowState → WindowInfo → Manager Surface
  cache_restore_rect m none info = m
  cache_restore_rect m (some value) info =
      let cached = current_restore_rect info.state (rect_of m info.window) info.restore_rect in
      if state_eq info.state value
      then m
      else record m { window_info = set_info (record info { restore_rect = cached }) m.window_info }

  abbrev pub constrains : WindowSpecification → Bool
  constrains modifications =
      is_set modifications.min_width
      || is_set modifications.min_height
      || is_set modifications.max_width
      || is_set modifications.max_height
      || is_set modifications.width_inc
      || is_set modifications.height_inc

  unfoldable pub place : Manager Surface → WindowInfo → Rectangle → Result (Manager Surface)
  place m info r =
      place_and_size api confirm (move_tree api confirm tree_fuel) m info r.top_left r.size

  -- A rectangle to be corrected, which fails on a division by zero.
  abbrev pub place_if_defined :
      Manager Surface → WindowInfo → Option Rectangle → Result (Manager Surface)
  place_if_defined m info none = division_by_zero
  place_if_defined m info (some r) = place m info r

  unfoldable pub place_modified :
      Manager Surface → WindowSpecification → WindowInfo → Result (Manager Surface)
  place_modified m modifications info =
      let present = rect_of m info.window in
      let new_pos = value_or_default modifications.top_left present.top_left in
      let requested : Rectangle = record {
        top_left = new_pos;
        size = value_or_default modifications.size present.size;
      } in
      if is_set modifications.size
      then place m info requested
      else if constrains modifications
      then place_if_defined m info (constrain_resize info present requested)
      else (if is_set modifications.top_left then place m info requested else ok m)

  abbrev pub relative_to : Rectangle → Rectangle → Rectangle
  relative_to parent r =
      let offset = between parent.top_left origin in
      record r {
        top_left = record { x = r.top_left.x -ℤ offset.dx; y = r.top_left.y -ℤ offset.dy };
      }

  -- `if (modifications.placement_hints().is_set())`, with the parent that is alive.
  unfoldable pub place_on_parent :
      Manager Surface
      → WindowSpecification
      → WindowInfo
      → Bool
      → Option Window
      → Result (Manager Surface)
  place_on_parent m modifications info false parent = ok m
  place_on_parent m modifications info true none = ok m
  place_on_parent m modifications info true (some parent) = do
    position ← or_logic_error (
        place_relative g active_display (rect_of m parent) modifications
          (window_size api m info.window))
    placed ← place m info position
    let relative = relative_to (rect_of placed parent) (rect_of placed info.window)
    ok (tell placed (placed_relative info.window relative ∷ []))

  unfoldable pub set_requested_state :
      Manager Surface → WindowInfo → Option WindowState → Result (Manager Surface)
  set_requested_state m info none = ok m
  set_requested_state m info (some value) = set_state api focus_fuel lives m info value

  unfoldable pub modify_window :
      Manager Surface → WindowInfo → WindowSpecification → Result (Manager Surface)
  modify_window m info modifications = do
    let w = info.window
    tmp ← modified_info m modifications info
    moved ← reparent m info tmp
    let told = tell moved (surface_calls modifications info tmp)
    swapped ← info_for told w
    let cached = cache_restore_rect told modifications.state swapped
    current ← info_for cached w
    placed ← place_modified cached modifications current
    beside ←
        place_on_parent placed modifications current (is_set modifications.placement_hints)
          (handle placed current.parent)
    last ← info_for beside w
    changed ← set_requested_state beside last modifications.state
    ok (
        tell changed (elim modifications.confine_pointer as (λ _. List Call) [
          | none ↦ []
          | some confinement ↦ set_confine_pointer_state w confinement ∷ []
        ]))

  -- A client's request goes to the policy, unless it is refused.
  unfoldable pub modify_surface :
      DisplayLayout → Manager Surface → Window → WindowSpecification → Result (Manager Surface)
  modify_surface layout m surface modifications = do
    info ← info_for m surface
    let surroundings : Surroundings = record {
      layout = layout;
      displays = m.displays;
      window = rect_of m info.window;
    }
    elim (validate_modification_request (alive m) modifications info)
        as (λ _. Result (Manager Surface)) [
          | some refusal ↦ runtime_error
          | none ↦ ok (
              tell m (
                handle_modify_window info.window
                  (place_and_size_for_state surroundings modifications info)
                ∷ []))
        ]
