-- ===== src/BasicWindowManager/Cycling/Within.antt =====
-- miral/basic_window_manager.cpp: `focus_next_within_application` and `focus_prev_within_application` as a whole.
use miral.Prelude.{ℕ, suc, ◌+◌, ◌≡◌, ◌∙◌, ap, Bool, true, some, List, contains, reverse, All}
use miral.MruWindowList.{Window}
use miral.MruWindowList.Top.{All-reverse}
use miral.ApplicationInfo.{ApplicationInfo}
use miral.BasicWindowManager.Surfaces.{SurfaceApi}
use miral.BasicWindowManager.State.{Manager, ok, ◌>>=◌, application_for, active_window}
use miral.BasicWindowManager.Forest.{Known, IsForest}
use miral.BasicWindowManager.Cycling.{
  cycle_siblings, focus_within, within_application, among_windows, focus_next_within_application,
  focus_prev_within_application,
}
use miral.BasicWindowManager.Cycling.Cycled.{contains-reverse, Cycled, cycle_siblings-Searched}

-- A window that is active, of an application that lists it, and whose windows have records.
pub record IsActive {Surface : Type 0} (api : SurfaceApi Surface) (m : Manager Surface)
    (prev : Window) (application : ℕ) (info : ApplicationInfo) : Type 0 where
  pub active : active_window api m ≡ some prev
  pub owner : m.applications prev ≡ some application
  pub recorded : application_for m application ≡ ok info
  pub listed : contains prev info.windows ≡ true
  pub known : All (Known m) info.windows

module _ {Surface : Type 0} (api : SurfaceApi Surface) (m : Manager Surface) (depth : Window → ℕ)
    (limit : ℕ) (forest : IsForest m depth limit) (lives : ℕ → Bool) (prev : Window)
    (application : ℕ) (info : ApplicationInfo) (is : IsActive api m prev application info) where
  abbrev fuel : ℕ
  fuel = suc (suc (limit + limit))

  pub within :
      (order : List Window → List Window) (left : Bool) (n : Manager Surface)
      → cycle_siblings api fuel lives prev (order info.windows) m ≡ ok (left, n)
      → focus_within api fuel lives order (active_window api m) m ≡ ok n
  unfolding focus_within within_application among_windows
  within order left n cycled =
      ap (λ o. focus_within api fuel lives order o m) is.active
      ∙ ap (λ o. within_application api fuel lives order prev o m) is.owner
      ∙ ap (λ r. r >>= λ i. among_windows api fuel lives prev (order i.windows) m) is.recorded
      ∙ ap (λ r. r >>= λ searched. ok searched.1) cycled

  -- Where parents and children form a forest of a bounded depth, and a window is active that is listed by its
  -- application, whose windows have records: both functions return, and change nothing but the calls and the list of
  -- the windows that were active; the last window that was selected is one of the application, and its selection
  -- led to another window than the one that was active, or to none, or else the selection of each other window of the
  -- application led back to that one.
  pub focus_within_application-Cycled :
      ((n : Manager Surface) × (focus_next_within_application api fuel lives m ≡ ok n)
        × Cycled api m depth limit forest prev info.windows n)
      × ((n : Manager Surface) × (focus_prev_within_application api fuel lives m ≡ ok n)
          × Cycled api m depth limit forest prev (reverse info.windows) n)
  unfolding focus_next_within_application focus_prev_within_application
  focus_within_application-Cycled =
      let (left, n, next, cycled) =
        cycle_siblings-Searched api m depth limit forest prev lives info.windows is.listed
          is.known in
      let (left', n', previous, cycled') =
        cycle_siblings-Searched api m depth limit forest prev lives (reverse info.windows)
          (contains-reverse prev info.windows is.listed)
          (All-reverse (Known m) info.windows is.known) in
      ((n, within (λ ws. ws) left n next, cycled), (n', within reverse left' n' previous, cycled'))
