-- ===== src/BasicWindowManager/Surfaces.antt =====
-- Mir's surfaces (mir::scene::Surface) as the window manager uses them: an argument of the model, with
-- the laws that Mir documents for the calls that set what others read.
use miral.Prelude.{Bool, false, ◌≡◌}
use miral.Types.{WindowState}
use miral.Geometry.{Point, Size}

pub record SurfaceApi (Surface : Type 0) : Type 0 where
  pub top_left : Surface → Point
  pub size : Surface → Size
  pub state : Surface → WindowState
  pub visible : Surface → Bool
  pub move_to : Point → Surface → Surface
  pub resize : Size → Surface → Surface
  -- `configure(mir_window_attrib_state, value)`
  pub configure_state : WindowState → Surface → Surface
  pub hide : Surface → Surface
  pub show : Surface → Surface
  pub top_left-move_to : (p : Point) (s : Surface) → top_left (move_to p s) ≡ p
  pub size-move_to : (p : Point) (s : Surface) → size (move_to p s) ≡ size s
  pub top_left-resize : (z : Size) (s : Surface) → top_left (resize z s) ≡ top_left s
  pub size-resize : (z : Size) (s : Surface) → size (resize z s) ≡ z
  pub state-configure_state : (v : WindowState) (s : Surface) → state (configure_state v s) ≡ v
  pub state-hide : (s : Surface) → state (hide s) ≡ state s
  pub visible-hide : (s : Surface) → visible (hide s) ≡ false
