-- ===== src/BasicWindowManager/Joining.antt =====
-- miral/basic_window_manager.cpp: applications come and go (`add_session`, `remove_session`), and a new window joins the
-- others (`add_surface`). The observer that waits for the surface to be ready is not represented.
pub mod Edits
pub mod Family
pub mod Joined
pub mod Linked
pub mod Whole
use miral.Prelude.{
  ℕ, Bool, true, false, not, ◌&&◌, Option, none, some, List, [], ◌∷◌, ◌++◌, ◌==◌, if◌then◌else◌,
  filter,
}
use miral.Prelude.Int.{◌-ℤ◌}
use miral.Types.{fullscreen, state_eq}
use miral.Geometry.{Geometry, Rectangle, translate, between, origin, Point}
use miral.MruWindowList.{Window}
use miral.WindowSpecification.{WindowSpecification}
use miral.WindowSpecification.Conversion.{CreationParameters, of_creation_parameters, update}
use miral.WindowInfo.{WindowInfo, Defaults, create, add_child}
use miral.ApplicationInfo.{ApplicationInfo, add_window}
use miral.BasicWindowManager.Surfaces.{SurfaceApi}
use miral.BasicWindowManager.State.{
  Manager, Call, advise_new_app, advise_delete_app, advise_new_window, placed_relative, Result, ok,
  ◌>>=◌, or_logic_error, find_info, set_info, tell, info_for, application_for, set_application,
  handle, window_top_left, window_size,
}
use miral.BasicWindowManager.StateChange.{DisplayLayout}
use miral.BasicWindowManager.Workspaces.{workspaces_containing, add_tree_to_workspace}
use miral.BasicWindowManager.Transition.{listed_fullscreen}
use miral.BasicWindowManager.Insertion.{place_new_surface, requested_parent, is_set}

-- `app_info[session] = ApplicationInfo(session)`
unfoldable pub put_application : ApplicationInfo → List ApplicationInfo → List ApplicationInfo
put_application info [] = info ∷ []
put_application info (a ∷ infos) =
    let rest = put_application info infos in
    if a.application == info.application then info ∷ infos else a ∷ rest

-- `window_info.emplace`: a record that is there already stays.
unfoldable pub emplace : WindowInfo → List WindowInfo → List WindowInfo
emplace info infos = elim (find_info info.window infos) [
  | none ↦ infos ++ info ∷ []
  | some old ↦ infos
]

-- What `build` makes: a window with its surface.
pub record Built (Surface : Type 0) : Type 0 where
  pub window : Window
  pub surface : Surface

-- Whom `add_surface` asks: Mir, with its default parameters and what builds a surface from parameters, the result of
-- `active_display`, and the policy's `place_new_window`.
pub record Host (Surface : Type 0) : Type 0 where
  pub geometry : Geometry
  pub layout : DisplayLayout
  pub active_display : Rectangle
  pub defaults : Defaults
  pub place_new_window : ApplicationInfo → WindowSpecification → WindowSpecification
  pub blank : CreationParameters
  pub build : CreationParameters → Built Surface

module _ {Surface : Type 0} where
  unfoldable pub add_session : Manager Surface → ℕ → Manager Surface
  add_session m session =
      tell
        (record m {
          app_info = put_application (record { application = session; windows = [] }) m.app_info;
        })
        (advise_new_app session ∷ [])

  -- The policy is told of an application that is made on the way if there is none.
  unfoldable pub remove_session : Manager Surface → ℕ → Manager Surface
  remove_session m session =
      tell (record m { app_info = filter (λ a. not (a.application == session)) m.app_info })
        (advise_delete_app session ∷ [])

  -- The window is known to Mir, and has a record.
  unfoldable pub emplaced : Manager Surface → ℕ → Built Surface → WindowInfo → Manager Surface
  emplaced m session built info = record m {
    surfaces = λ v. if v == built.window then some built.surface else m.surfaces v;
    applications = λ v. if v == built.window then some session else m.applications v;
    window_info = emplace info m.window_info;
  }

  -- `info_for(spec.parent().value()).window()`, if the parent is there.
  unfoldable pub parent_for : Manager Surface → Option Window → Result (Option Window)
  parent_for m none = ok none
  parent_for m (some w) = do info ← info_for m w; ok (some info.window)

  -- `if (parent) info_for(parent).add_child(window)`
  unfoldable pub join_parent : Manager Surface → Option Window → Window → Result (Manager Surface)
  join_parent m none w = ok m
  join_parent m (some parent) w = do
    info ← info_for m parent
    ok (record m { window_info = set_info (add_child info w) m.window_info })

  -- `for_each_workspace_containing(parent, …)`: the workspaces are those that the parent is in at first, since it is
  -- not added again to any of them.
  unfoldable pub join_workspaces : ℕ → Manager Surface → Window → List ℕ → Result (Manager Surface)
  join_workspaces fuel m w [] = ok m
  join_workspaces fuel m w (workspace ∷ workspaces) = do
    added ← add_tree_to_workspace fuel m (some w) workspace
    join_workspaces fuel added w workspaces

  abbrev pub workspaces_of_parent : (ℕ → Bool) → Manager Surface → Option Window → List ℕ
  workspaces_of_parent lives m none = []
  workspaces_of_parent lives m (some parent) = workspaces_containing lives m parent

module _ {Surface : Type 0} (api : SurfaceApi Surface) where
  -- `placed_relative` tells the client where the window is, from its parent.
  abbrev pub report_place :
      Manager Surface → Option Window → Window → WindowSpecification → Manager Surface
  report_place m none w spec = m
  report_place m (some parent) w spec =
      let offset = between (window_top_left api m parent) origin in
      let top_left = window_top_left api m w in
      let relative : Rectangle = record {
        top_left = record { x = top_left.x -ℤ offset.dx; y = top_left.y -ℤ offset.dy };
        size = window_size api m w;
      } in
      if is_set spec.aux_rect && is_set spec.placement_hints
      then tell m (placed_relative w relative ∷ [])
      else m

  -- What follows once the window has its own record: `info` is what the record is to be.
  unfoldable pub join :
      (ℕ → Bool)
      → ℕ
      → Manager Surface
      → ApplicationInfo
      → WindowInfo
      → WindowSpecification
      → Result (Manager Surface)
  join lives fuel m session_info info spec = do
    let w = info.window
    let listed = record m {
      window_info = set_info info m.window_info;
      app_info = set_application (add_window session_info w) m.app_info;
    }
    let parent = handle listed info.parent
    joined ← join_parent listed parent w
    linked ← join_workspaces fuel joined w (workspaces_of_parent lives joined parent)
    let full =
        if state_eq info.state fullscreen
        then listed_fullscreen fullscreen w linked.fullscreen_surfaces
        else linked.fullscreen_surfaces
    ok (
        report_place
          (tell (record linked { fullscreen_surfaces = full }) (advise_new_window w ∷ [])) parent w
          spec)

  unfoldable pub add_surface :
      Host Surface
      → (ℕ → Bool)
      → ℕ
      → Manager Surface
      → ℕ
      → CreationParameters
      → Result (Window × Manager Surface)
  add_surface host lives fuel m session params = do
    session_info ← application_for m session
    placed ←
        place_new_surface api host.geometry host.layout host.active_display m session_info
          (of_creation_parameters params)
    let spec = host.place_new_window session_info placed
    let built = host.build (update spec host.blank)
    info ← or_logic_error (create host.defaults built.window spec)
    let known = emplaced m session built info
    parent ← parent_for known (handle known (requested_parent spec))
    joined ← join lives fuel known session_info (record info { parent = parent }) spec
    ok (built.window, joined)
