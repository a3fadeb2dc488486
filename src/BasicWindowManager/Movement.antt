-- ===== src/BasicWindowManager/Movement.antt =====
-- miral/basic_window_manager.cpp: moving a window with the windows below it (`move_tree`, `place_and_size`), and
-- dragging a window (`drag_window`).
pub mod Trees
pub mod Drag
use miral.Prelude.{
  ℕ, zero, suc, Bool, true, false, Option, none, some, List, [], ◌∷◌, if◌then◌else◌,
}
use miral.Prelude.Int.{pos}
use miral.Types.{
  WindowType, normal, utility, dialog, satellite, freestyle, WindowState, restored, vertmaximized,
  horizmaximized,
}
use miral.Geometry.{
  Point, Size, Displacement, Rectangle, translate, between, size_eq, displacement_eq,
  no_displacement,
}
use miral.MruWindowList.{Window}
use miral.WindowInfo.{WindowInfo}
use miral.BasicWindowManager.Surfaces.{SurfaceApi}
use miral.BasicWindowManager.State.{
  Manager, Call, advise_move_to, advise_resize, Result, ok, out_of_fuel, out_of_range, ◌>>=◌, tell,
  info_for, handle, active_window, window_top_left, window_size, with_surface,
}

-- The types that a user may drag.
unfoldable pub is_draggable : WindowType → Bool
is_draggable normal = true
is_draggable utility = true
is_draggable dialog = true
is_draggable satellite = true
is_draggable freestyle = true
is_draggable _ = false

-- What the state of the window leaves of a movement: `none` if it is not moved at all.
unfoldable pub allowed_movement : WindowState → Displacement → Option Displacement
allowed_movement restored movement = some movement
allowed_movement vertmaximized movement = some (record movement { dy = pos 0 })
allowed_movement horizmaximized movement = some (record movement { dx = pos 0 })
allowed_movement _ movement = none

module _ {Surface : Type 0} (api : SurfaceApi Surface) where
  unfoldable pub resized_to : Manager Surface → Window → Size → Manager Surface
  resized_to m w new_size =
      if size_eq (window_size api m w) new_size
      then m
      else with_surface (api.resize new_size) (tell m (advise_resize w new_size ∷ [])) w

  unfoldable pub shifted : Manager Surface → Window → Displacement → Manager Surface
  shifted m w movement =
      let top_left = translate (window_top_left api m w) movement in
      with_surface (api.move_to top_left) (tell m (advise_move_to w top_left ∷ [])) w

-- `confirm` is the policy's `confirm_inherited_move`.
module _ {Surface : Type 0} (api : SurfaceApi Surface)
    (confirm : Manager Surface → WindowInfo → Displacement → Rectangle) where
  abbrev pub Mover : Type 0
  Mover = Manager Surface → WindowInfo → Displacement → Result (Manager Surface)

  -- With `next` for `move_tree`.
  unfoldable pub place_and_size :
      Mover → Manager Surface → WindowInfo → Point → Size → Result (Manager Surface)
  place_and_size next m root new_pos new_size =
      let resized = resized_to api m root.window new_size in
      next resized root (between new_pos (window_top_left api resized root.window))

  unfoldable pub move_children :
      Mover → Manager Surface → Displacement → List Window → Result (Manager Surface)
  move_children next m movement [] = ok m
  move_children next m movement (child ∷ children) = do
    info ← info_for m child
    let placement = confirm m info movement
    moved ← place_and_size next m info placement.top_left placement.size
    move_children next moved movement children

  unfoldable pub move_tree : ℕ → Mover
  move_tree zero m root movement = out_of_fuel
  move_tree (suc fuel) m root movement =
      let moved =
        move_children (move_tree fuel) (shifted api m root.window movement) movement
          root.children in
      if displacement_eq movement no_displacement then ok m else moved

  abbrev pub drag :
      ℕ
      → Manager Surface
      → WindowInfo
      → Displacement
      → Option Displacement
      → Result (Displacement × Manager Surface)
  drag fuel m info movement none = ok (movement, m)
  drag fuel m info movement (some allowed) = do
    moved ← move_tree fuel m info allowed
    ok (allowed, moved)

  -- `movement` is passed by reference, so its last value is part of the result.
  unfoldable pub drag_window :
      ℕ → Manager Surface → Option Window → Displacement → Result (Displacement × Manager Surface)
  drag_window fuel m none movement = ok (movement, m)
  drag_window fuel m (some w) movement = do
    info ← info_for m w
    drag fuel m info movement
        (if is_draggable info.type then allowed_movement info.state movement else none)

  unfoldable pub drag_active_window :
      ℕ → Manager Surface → Displacement → Result (Displacement × Manager Surface)
  drag_active_window fuel m movement = drag_window fuel m (active_window api m) movement
