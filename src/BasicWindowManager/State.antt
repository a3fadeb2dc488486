-- ===== src/BasicWindowManager/State.antt =====
-- miral/basic_window_manager.h: the state of the window manager, its maps, and the results of its
-- operations. The locks are not represented: each operation runs alone.
use mathlib.Core.Option
use miral.Prelude.{
  ℕ, ◌≡◌, ◌∙◌, ap, refl, subst, Bool, true, false, Option, none, some, List, [], ◌∷◌, ◌++◌, ◌==◌,
  if◌then◌else◌, find,
}
use Prim.Native.String.{String}
use miral.WindowSpecification.{WindowSpecification}
use miral.Types.{WindowType, PointerConfinementState, WindowState, hidden, minimized}
use miral.Geometry.{Point, Size, Rectangle, origin, empty_size}
use miral.MruWindowList.{Window, top}
use miral.WindowInfo.{WindowInfo, is_visible}
use miral.ApplicationInfo.{ApplicationInfo}
use miral.BasicWindowManager.Surfaces.{SurfaceApi}
use miral.BasicWindowManager.Input.{KeyboardEvent, PointerEvent, TouchEvent}

-- What the window manager tells its policy, the focus controller, the workspace policy, and the surfaces, where it
-- does not read it back.
pub data Call : Type 0 where
  focus_next_session : Call
  set_focus_to : Option Window → Call
  advise_new_app advise_delete_app : ℕ → Call
  advise_new_window : Window → Call
  placed_relative : Window → Rectangle → Call
  configure_type : Window → WindowType → Call
  rename : Window → String → Call
  set_input_region : Window → List Rectangle → Call
  set_confine_pointer_state : Window → PointerConfinementState → Call
  handle_modify_window : Window → WindowSpecification → Call
  advise_focus_lost advise_focus_gained advise_delete_window : Window → Call
  advise_state_change : Window → WindowState → Call
  advise_move_to : Window → Point → Call
  advise_resize : Window → Size → Call
  advise_raise raise : List Window → Call
  advise_adding_to_workspace advise_removing_from_workspace : ℕ → List Window → Call
  destroy_surface handle_raise_window : Window → Call
  handle_keyboard : KeyboardEvent → Call
  handle_pointer : PointerEvent → Call
  handle_touch : TouchEvent → Call

-- `window_info` maps a window to its record, under the record's own `window`. `surfaces` are those
-- that exist; `applications` are the sessions that the windows belong to. A workspace is a number.
pub record Manager (Surface : Type 0) : Type 0 where
  pub app_info : List ApplicationInfo
  pub window_info : List WindowInfo
  pub mru_active_windows : List Window
  pub fullscreen_surfaces : List Window
  pub workspaces_to_windows : List (ℕ × Window)
  pub displays : List Rectangle
  pub cursor : Point
  pub last_input_event_timestamp : ℕ
  pub surfaces : Window → Option Surface
  pub applications : Window → Option ℕ
  pub calls : List Call

-- `out_of_range` is the exception of `std::map::at`, `logic_error` that of a property that is not set, and
-- `runtime_error` the window manager's own. What a division by zero does is undefined, as is what is read behind the
-- last element (`past_the_end`); `out_of_fuel` is none of the program's, and theorems exclude it.
pub data Result (A : Type 0) : Type 0 where
  ok : A → Result A
  out_of_range logic_error runtime_error division_by_zero past_the_end out_of_fuel : Result A

infixl 5 ◌>>=◌
abbrev pub ◌>>=◌ : {A B : Type 0} → Result A → (A → Result B) → Result B
ok a >>= f = f a
out_of_range >>= f = out_of_range
logic_error >>= f = logic_error
runtime_error >>= f = runtime_error
division_by_zero >>= f = division_by_zero
past_the_end >>= f = past_the_end
out_of_fuel >>= f = out_of_fuel

-- What holds of the value of an operation that returns.
abbrev pub Ensures : {A : Type 0} → (A → Type 0) → Result A → Type 0
Ensures P (ok a) = P a
Ensures P _ = Unit

pub Ensures-bind :
    {A B : Type 0} (P : B → Type 0) (m : Result A) (f : A → Result B)
    → ((a : A) → m ≡ ok a → Ensures P (f a))
    → Ensures P (m >>= f)
Ensures-bind P (ok a) f h = h a refl
Ensures-bind P out_of_range f h = tt
Ensures-bind P logic_error f h = tt
Ensures-bind P runtime_error f h = tt
Ensures-bind P division_by_zero f h = tt
Ensures-bind P past_the_end f h = tt
Ensures-bind P out_of_fuel f h = tt

-- What is ensured of a call holds of its result.
pub ensured : {A : Type 0} (P : A → Type 0) (r : Result A) {a : A} → Ensures P r → r ≡ ok a → P a
ensured P r h e = subst (Ensures P) e h

pub Ensures-map :
    {A : Type 0} (P Q : A → Type 0) (r : Result A)
    → ((a : A) → P a → Q a)
    → Ensures P r
    → Ensures Q r
Ensures-map P Q (ok a) f h = f a h
Ensures-map P Q out_of_range f h = tt
Ensures-map P Q logic_error f h = tt
Ensures-map P Q runtime_error f h = tt
Ensures-map P Q division_by_zero f h = tt
Ensures-map P Q past_the_end f h = tt
Ensures-map P Q out_of_fuel f h = tt

-- `optional_value::value`
abbrev pub or_logic_error : {A : Type 0} → Option A → Result A
or_logic_error none = logic_error
or_logic_error (some a) = ok a

abbrev pub or_out_of_range : {A : Type 0} → Option A → Result A
or_out_of_range none = out_of_range
or_out_of_range (some a) = ok a

unfoldable pub find_info : Window → List WindowInfo → Option WindowInfo
find_info w infos = find (λ i. i.window == w) infos

-- A new value for one key of the map.
unfoldable pub set_info : WindowInfo → List WindowInfo → List WindowInfo
set_info info [] = []
set_info info (i ∷ infos) = (if i.window == info.window then info else i) ∷ set_info info infos

-- `==` of what may be null and a window.
abbrev pub is_window : Option Window → Window → Bool
is_window none w = false
is_window (some v) w = v == w

unfoldable pub set_application : ApplicationInfo → List ApplicationInfo → List ApplicationInfo
set_application info [] = []
set_application info (a ∷ infos) =
    (if a.application == info.application then info else a) ∷ set_application info infos

module _ {Surface : Type 0} where
  abbrev pub tell : Manager Surface → List Call → Manager Surface
  tell m calls = record m { calls = m.calls ++ calls }

  unfoldable pub info_for : Manager Surface → Window → Result WindowInfo
  info_for m w = or_out_of_range (find_info w m.window_info)

  -- `info_for(application)`
  unfoldable pub application_for : Manager Surface → ℕ → Result ApplicationInfo
  application_for m application =
      or_out_of_range (find (λ a. a.application == application) m.app_info)

  -- `Window::operator bool`: the surface exists.
  unfoldable pub alive : Manager Surface → Window → Bool
  alive m w = elim (m.surfaces w) [ none ↦ false | some s ↦ true ]

  -- A handle that is null, or whose surface is gone, is false.
  abbrev pub handle : Manager Surface → Option Window → Option Window
  handle m none = none
  handle m (some w) = if alive m w then some w else none

  -- A call of a surface changes that surface, if it exists.
  abbrev pub with_surface : (Surface → Surface) → Manager Surface → Window → Manager Surface
  with_surface f m w = record m {
    surfaces = λ v. if v == w then Option.map f (m.surfaces v) else m.surfaces v;
  }

module _ {Surface : Type 0} (api : SurfaceApi Surface) where
  -- miral/mru_window_list.cpp, `visible`. The source dereferences the surface without a test.
  state_shows : WindowState → Bool → Bool
  state_shows hidden visible = false
  state_shows minimized visible = false
  state_shows _ visible = visible

  unfoldable pub visible : Manager Surface → Window → Bool
  unfolding state_shows
  visible m w = elim (m.surfaces w) [
    | none ↦ false
    | some s ↦ state_shows (api.state s) (api.visible s)
  ]

  state_shows-false : (state_of : WindowState) → state_shows state_of false ≡ false
  unfolding state_shows
  state_shows-false hidden = refl
  state_shows-false minimized = refl
  state_shows-false _ = refl

  -- No surface, or one that Mir does not show.
  pub visible-none : (m : Manager Surface) (w : Window) → m.surfaces w ≡ none → visible m w ≡ false
  unfolding visible
  visible-none m w e =
      ap (λ o. elim o [ none ↦ false | some s ↦ state_shows (api.state s) (api.visible s) ]) e

  pub visible-hidden :
      (m : Manager Surface) (w : Window) (s : Surface)
      → m.surfaces w ≡ some s
      → api.visible s ≡ false
      → visible m w ≡ false
  unfolding visible
  visible-hidden m w s e h =
      ap (λ o. elim o [ none ↦ false | some s ↦ state_shows (api.state s) (api.visible s) ]) e
      ∙ ap (state_shows (api.state s)) h
      ∙ state_shows-false (api.state s)

  unfoldable pub active_window : Manager Surface → Option Window
  active_window m = top (visible m) m.mru_active_windows

  -- `WindowInfo::is_visible`
  unfoldable pub info_visible : Manager Surface → WindowInfo → Bool
  info_visible m info =
      is_visible info.state
        (elim (m.surfaces info.window) [ none ↦ none | some s ↦ some (api.visible s) ])

  -- miral/window.cpp, `top_left` and `size`
  unfoldable pub window_top_left : Manager Surface → Window → Point
  window_top_left m w = elim (m.surfaces w) [ none ↦ origin | some s ↦ api.top_left s ]

  unfoldable pub window_size : Manager Surface → Window → Size
  window_size m w = elim (m.surfaces w) [ none ↦ empty_size | some s ↦ api.size s ]
