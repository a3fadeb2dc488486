-- ===== src/BasicWindowManager/Removal.antt =====
-- miral/basic_window_manager.cpp: a window is removed (`erase`, `remove_window`, `remove_surface`, `force_close`).
pub mod Forgotten
pub mod Records
pub mod Returns
pub mod Family
pub mod Whole
pub mod Refocused
use miral.Prelude.{
  ℕ, Bool, true, false, not, Option, none, some, List, [], ◌∷◌, ◌++◌, ◌==◌, if◌then◌else◌, filter,
  find, map,
}
use miral.MruWindowList
use miral.MruWindowList.{Window}
use miral.WindowInfo.{WindowInfo, remove_child}
use miral.ApplicationInfo
use miral.ApplicationInfo.{ApplicationInfo}
use miral.BasicWindowManager.Surfaces.{SurfaceApi}
use miral.BasicWindowManager.Refocus.{FocusController, refocus}
use miral.BasicWindowManager.State.{
  application_for, set_application, active_window, is_window, Manager, Call,
  advise_removing_from_workspace, advise_delete_window, destroy_surface, Result, ok, out_of_range,
  out_of_fuel, ◌>>=◌, or_out_of_range, tell, info_for, handle, set_info,
}
use miral.BasicWindowManager.Workspaces.{workspaces_containing}

abbrev pub without : Window → List Window → List Window
without w windows = filter (λ v. not (v == w)) windows

module _ {Surface : Type 0} where
  unfoldable pub leave_parent : Manager Surface → Window → Option Window → Result (Manager Surface)
  leave_parent m w none = ok m
  leave_parent m w (some parent) = do
    info ← info_for m parent
    ok (record m { window_info = set_info (remove_child info w) m.window_info })

  -- `for (auto& child : info.children()) info_for(child).parent({});`
  unfoldable pub orphan : Manager Surface → List Window → Result (Manager Surface)
  orphan m [] = ok m
  orphan m (child ∷ children) = do
    info ← info_for m child
    orphan (record m { window_info = set_info (record info { parent = none }) m.window_info })
        children

  unfoldable pub erase : Manager Surface → WindowInfo → Result (Manager Surface)
  erase m info = do
    left ← leave_parent m info.window (handle m info.parent)
    orphaned ← orphan left info.children
    ok (record orphaned {
      window_info = filter (λ i. not (i.window == info.window)) orphaned.window_info;
    })

  -- The window is told of, and taken off the lists. `lives` tells which workspaces are still there, and `destroyed` is
  -- what Mir's `destroy_surface` does to the surfaces.
  abbrev pub unlisted :
      (ℕ → Bool)
      → (Window → (Window → Option Surface) → Window → Option Surface)
      → Manager Surface
      → Window
      → ApplicationInfo
      → Manager Surface
  unlisted lives destroyed m w session =
      let left =
        map (λ workspace. advise_removing_from_workspace workspace (w ∷ []))
          (workspaces_containing lives m w) in
      record (tell m (left ++ advise_delete_window w ∷ destroy_surface w ∷ [])) {
        workspaces_to_windows = filter (λ kv. not (kv.1 == w)) m.workspaces_to_windows;
        app_info = set_application (miral.ApplicationInfo.remove_window session w) m.app_info;
        mru_active_windows = miral.MruWindowList.erase w m.mru_active_windows;
        fullscreen_surfaces = without w m.fullscreen_surfaces;
        surfaces = destroyed w m.surfaces;
      }

  -- What `remove_window` does before it looks for the next window.
  unfoldable pub forget_window :
      (ℕ → Bool)
      → (Window → (Window → Option Surface) → Window → Option Surface)
      → Manager Surface
      → ℕ
      → WindowInfo
      → Result (Manager Surface)
  forget_window lives destroyed m application info = do
    session ← application_for m application
    erase (unlisted lives destroyed m info.window session) info

module _ {Surface : Type 0} (api : SurfaceApi Surface) (fuel : ℕ) (controller : FocusController)
    (lives : ℕ → Bool) (rounds : ℕ) where
  -- The focus is looked for only if the window had it.
  abbrev pub refocus_if :
      Bool → ℕ → Option Window → List ℕ → Manager Surface → Result (Manager Surface)
  refocus_if false application parent workspaces m = ok m
  refocus_if true application parent workspaces m = do
    (_, focused) ← refocus api fuel controller lives rounds application parent workspaces m
    ok focused

  module _ (destroyed : Window → (Window → Option Surface) → Window → Option Surface) where
    unfoldable pub remove_window : Manager Surface → ℕ → WindowInfo → Result (Manager Surface)
    remove_window m application info = do
      forgotten ← forget_window lives destroyed m application info
      refocus_if (is_window (active_window api m) info.window) application info.parent
          (workspaces_containing lives m info.window) forgotten

    unfoldable pub remove_surface : Manager Surface → ℕ → Window → Result (Manager Surface)
    remove_surface m session surface = do info ← info_for m surface; remove_window m session info

    -- `if (application && window)`
    unfoldable pub force_close : Manager Surface → Window → Result (Manager Surface)
    force_close m window = elim (handle m (some window)) [
      | none ↦ ok m
      | some w ↦ elim (m.applications w) [
        | none ↦ ok m
        | some application ↦ info_for m w >>= remove_window m application
      ]
    ]
