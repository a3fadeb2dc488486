-- ===== src/BasicWindowManager/Hotplug.antt =====
-- miral/basic_window_manager.cpp: displays that come and go (`add_display`, `remove_display`), and what is under the
-- cursor (`window_at`).
pub mod Settled
pub mod Fitted
use miral.Prelude.{ℕ, Bool, true, false, Option, none, some, List, [], ◌∷◌, if◌then◌else◌}
use miral.Geometry.{Point, Rectangle, Displacement}
use miral.MruWindowList.{Window}
use miral.WindowInfo.{WindowInfo}
use miral.BasicWindowManager.Surfaces.{SurfaceApi}
use miral.BasicWindowManager.State.{
  Manager, Result, ok, out_of_range, ◌>>=◌, info_for, alive, window_top_left, window_size,
}
use miral.BasicWindowManager.StateChange.{DisplayLayout, fullscreen_rect_for}
use miral.BasicWindowManager.Movement.{move_tree, place_and_size}

-- mir::geometry::Rectangles, a collection of rectangles.
pub record Rectangles : Type 0 where
  pub add : Rectangle → List Rectangle → List Rectangle
  pub remove : Rectangle → List Rectangle → List Rectangle

module _ {Surface : Type 0} where
  -- What the focus controller finds at the cursor is an argument.
  unfoldable pub window_at :
      (Point → Option Window) → Manager Surface → Point → Result (Option Window)
  window_at surface_at m cursor = elim (surface_at cursor) as (λ _. Result (Option Window)) [
    | none ↦ ok none
    | some surface ↦ do info ← info_for m surface; ok (some info.window)
  ]

module _ {Surface : Type 0} (api : SurfaceApi Surface) (layout : DisplayLayout) where
  -- Where a window is to be when it is fullscreen.
  unfoldable pub fullscreen_rect : Manager Surface → WindowInfo → Rectangle
  fullscreen_rect m info =
      let rect : Rectangle = record {
        top_left = window_top_left api m info.window;
        size = window_size api m info.window;
      } in
      fullscreen_rect_for layout rect info.output_id

module _ {Surface : Type 0} (api : SurfaceApi Surface)
    (confirm : Manager Surface → WindowInfo → Displacement → Rectangle) (layout : DisplayLayout)
    (fuel : ℕ) where
  unfoldable pub refit : Manager Surface → Window → Result (Manager Surface)
  refit m window =
      let placed = (do
        info ← info_for m window
        let rect = fullscreen_rect api layout m info
        place_and_size api confirm (move_tree api confirm fuel) m info rect.top_left rect.size) in
      if alive m window then placed else ok m

  -- `for (auto window : fullscreen_surfaces)`
  unfoldable pub refit_all : List Window → Manager Surface → Result (Manager Surface)
  refit_all [] m = ok m
  refit_all (window ∷ windows) m = do placed ← refit m window; refit_all windows placed

  unfoldable pub add_display : Rectangles → Manager Surface → Rectangle → Result (Manager Surface)
  add_display rectangles m area =
      refit_all m.fullscreen_surfaces (record m { displays = rectangles.add area m.displays })

  unfoldable pub remove_display :
      Rectangles → Manager Surface → Rectangle → Result (Manager Surface)
  remove_display rectangles m area =
      refit_all m.fullscreen_surfaces (record m { displays = rectangles.remove area m.displays })
