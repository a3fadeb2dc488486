-- ===== src/BasicWindowManager/Removal/Forgotten.antt =====
-- What is left of a window in the state once `remove_window` of miral/basic_window_manager.cpp has forgotten it.
use mathlib.Core.Option.{some-injective}
use miral.ApplicationInfo
use miral.ApplicationInfo.{ApplicationInfo}
use miral.BasicWindowManager.Family.{Distinct, contains-remove_first-same}
use miral.Prelude.{
  All, sym, subst, inl, inr, Bool-cases, ==_iff, ◌≢◌, ℕ, ◌≡◌, refl, ap, ◌∙◌, Bool, false, not,
  Option, none, some, List, [], ◌∷◌, ◌==◌, filter, find, contains, arith,
}
use miral.MruWindowList
use miral.MruWindowList.{Window, is_other}
use miral.WindowInfo.{WindowInfo, remove_first}
use miral.BasicWindowManager.State.{
  application_for, Manager, ok, Ensures, Ensures-bind, ensured, info_for, find_info, set_info,
  handle, set_application,
}
use miral.BasicWindowManager.Workspaces.{Links, workspaces_of}
use miral.BasicWindowManager.Removal.{without, leave_parent, orphan, erase, forget_window}

find-filter : {A : Type 0} (p : A → Bool) (xs : List A) → find p (filter (λ x. not (p x)) xs) ≡ none
find-filter p [] = refl
find-filter p (x ∷ xs) = ground (arith, find-filter p xs)

contains-without : (w : Window) (ws : List Window) → contains w (without w ws) ≡ false
contains-without w [] = refl
contains-without w (x ∷ ws) = ground (arith, contains-without w ws)

workspaces_of-filter :
    (w : Window) (links : Links) → workspaces_of w (filter (λ kv. not (kv.1 == w)) links) ≡ []
unfolding workspaces_of
workspaces_of-filter w [] = refl
workspaces_of-filter w (x ∷ links) = ground (arith, workspaces_of-filter w links)

-- The application does not list the window.
abbrev pub Unlisted : Window → ApplicationInfo → Type 0
Unlisted w a = contains w a.windows ≡ false

-- Only one application lists the window, and each window is listed once.
abbrev pub ListedBy : ℕ → Window → ApplicationInfo → Type 0
ListedBy application w a = Distinct a.windows × ((a.application ≢ application) → Unlisted w a)

set_application-Unlisted :
    (w : Window) (new : ApplicationInfo) (infos : List ApplicationInfo)
    → Unlisted w new
    → All (ListedBy new.application w) infos
    → All (Unlisted w) (set_application new infos)
unfolding set_application
set_application-Unlisted w new [] h owners = tt
set_application-Unlisted w new (a ∷ infos) h ((distinct, other), owners) = (
  elim (Bool-cases (a.application == new.application)) [
    | inl same ↦ rw same h
    | inr apart ↦ rw apart (other (λ e. ground (arith, apart, e)))
  ],
  set_application-Unlisted w new infos h owners,
)

-- The record that is found is one of the list.
found_application :
    (application : ℕ) (w : Window) (infos : List ApplicationInfo) (session : ApplicationInfo)
    → All (ListedBy application w) infos
    → find (λ a. a.application == application) infos ≡ some session
    → (session.application ≡ application) × Distinct session.windows
found_application application w [] session owners e = absurd (ground (arith, e))
found_application application w (a ∷ infos) session ((distinct, other), owners) e =
    elim (Bool-cases (a.application == application)) [
      | inl same ↦
          let is = some-injective a session (rw same at e) in
          subst (λ x. (x.application ≡ application) × Distinct x.windows) is
            ((==_iff a.application application).0 same, distinct)
      | inr apart ↦ found_application application w infos session owners (rw apart at e)
    ]

module _ {Surface : Type 0} where
  session-Unlisted :
      (m : Manager Surface) (application : ℕ) (w : Window) (session : ApplicationInfo)
      → All (ListedBy application w) m.app_info
      → application_for m application ≡ ok session
      → All
          (Unlisted w)
          (set_application (miral.ApplicationInfo.remove_window session w) m.app_info)
  unfolding application_for miral.ApplicationInfo.remove_window
  session-Unlisted m application w session owners known =
      let (is, distinct) =
        found_application application w m.app_info session owners (ground (arith, known)) in
      set_application-Unlisted w (record session { windows = remove_first w session.windows })
        m.app_info (contains-remove_first-same w session.windows distinct)
        (subst (λ a. All (ListedBy a w) m.app_info) (sym is) owners)

  -- The parts of the state but for the records of the windows.
  pub record Kept (m m' : Manager Surface) : Type 0 where
    pub app_info : m'.app_info ≡ m.app_info
    pub applications : m'.applications ≡ m.applications
    pub surfaces : m'.surfaces ≡ m.surfaces
    pub mru_active_windows : m'.mru_active_windows ≡ m.mru_active_windows
    pub fullscreen_surfaces : m'.fullscreen_surfaces ≡ m.fullscreen_surfaces
    pub workspaces_to_windows : m'.workspaces_to_windows ≡ m.workspaces_to_windows

  kept_infos :
      (m m' : Manager Surface) (infos : List WindowInfo)
      → Kept (record m { window_info = infos }) m'
      → Kept m m'
  kept_infos m m' infos k = record {
    app_info = k.app_info;
    applications = k.applications;
    surfaces = k.surfaces;
    mru_active_windows = k.mru_active_windows;
    fullscreen_surfaces = k.fullscreen_surfaces;
    workspaces_to_windows = k.workspaces_to_windows;
  }

  leave_parent-Kept :
      (m : Manager Surface) (w : Window) (parent : Option Window)
      → Ensures (Kept m) (leave_parent m w parent)
  unfolding leave_parent
  leave_parent-Kept m w none = record {
    app_info = refl;
    applications = refl;
    surfaces = refl;
    mru_active_windows = refl;
    fullscreen_surfaces = refl;
    workspaces_to_windows = refl;
  }
  leave_parent-Kept m w (some parent) = Ensures-bind (Kept m) (info_for m parent) _ (λ info e.
      record {
        app_info = refl;
        applications = refl;
        surfaces = refl;
        mru_active_windows = refl;
        fullscreen_surfaces = refl;
        workspaces_to_windows = refl;
      })

  orphan-Kept :
      (start m : Manager Surface) (children : List Window)
      → Kept start m
      → Ensures (Kept start) (orphan m children)
  unfolding orphan
  orphan-Kept start m [] k = k
  orphan-Kept start m (c ∷ cs) k = Ensures-bind (Kept start) (info_for m c) _ (λ info e.
      orphan-Kept start
        (record m { window_info = set_info (record info { parent = none }) m.window_info }) cs
        (record {
          app_info = k.app_info;
          applications = k.applications;
          surfaces = k.surfaces;
          mru_active_windows = k.mru_active_windows;
          fullscreen_surfaces = k.fullscreen_surfaces;
          workspaces_to_windows = k.workspaces_to_windows;
        }))

  pub erase-Kept : (m : Manager Surface) (info : WindowInfo) → Ensures (Kept m) (erase m info)
  unfolding erase
  erase-Kept m info =
      let parent = handle m info.parent in
      Ensures-bind (Kept m) (leave_parent m info.window parent) _ λ left e.
        let k =
          ensured (Kept m) (leave_parent m info.window parent)
            (leave_parent-Kept m info.window parent) e in
        Ensures-bind (Kept m) (orphan left info.children) _ λ orphaned f.
          let l =
            ensured (Kept m) (orphan left info.children) (orphan-Kept m left info.children k) f in
          record {
            app_info = l.app_info;
            applications = l.applications;
            surfaces = l.surfaces;
            mru_active_windows = l.mru_active_windows;
            fullscreen_surfaces = l.fullscreen_surfaces;
            workspaces_to_windows = l.workspaces_to_windows;
          }

  -- No record, list, workspace or application names the window.
  pub record Forgotten (w : Window) (m : Manager Surface) : Type 0 where
    pub window_info : find_info w m.window_info ≡ none
    pub mru_active_windows : contains w m.mru_active_windows ≡ false
    pub fullscreen_surfaces : contains w m.fullscreen_surfaces ≡ false
    pub workspaces : workspaces_of w m.workspaces_to_windows ≡ []
    pub app_info : All (Unlisted w) m.app_info

  erase-Forgotten :
      (m : Manager Surface) (info : WindowInfo)
      → contains info.window m.mru_active_windows ≡ false
      → contains info.window m.fullscreen_surfaces ≡ false
      → workspaces_of info.window m.workspaces_to_windows ≡ []
      → All (Unlisted info.window) m.app_info
      → Ensures (Forgotten info.window) (erase m info)
  unfolding erase find_info
  erase-Forgotten m info mru full spaces apps =
      let parent = handle m info.parent in
      Ensures-bind (Forgotten info.window) (leave_parent m info.window parent) _ λ left e.
        let k =
          ensured (Kept m) (leave_parent m info.window parent)
            (leave_parent-Kept m info.window parent) e in
        Ensures-bind (Forgotten info.window) (orphan left info.children) _ λ orphaned f.
          let l =
            ensured (Kept m) (orphan left info.children) (orphan-Kept m left info.children k) f in
          record {
            window_info = find-filter (λ i. i.window == info.window) orphaned.window_info;
            mru_active_windows = ap (contains info.window) l.mru_active_windows ∙ mru;
            fullscreen_surfaces = ap (contains info.window) l.fullscreen_surfaces ∙ full;
            workspaces = ap (workspaces_of info.window) l.workspaces_to_windows ∙ spaces;
            app_info = subst (All (Unlisted info.window)) (sym l.app_info) apps;
          }

  pub forget_window-Forgets :
      (lives : ℕ → Bool) (destroyed : Window → (Window → Option Surface) → Window → Option Surface)
      (m : Manager Surface) (application : ℕ) (info : WindowInfo) {m' : Manager Surface}
      → All (ListedBy application info.window) m.app_info
      → forget_window lives destroyed m application info ≡ ok m'
      → Forgotten info.window m'
  unfolding forget_window miral.MruWindowList.erase
  forget_window-Forgets lives destroyed m application info owners e =
      let w = info.window in
      ensured (Forgotten w) (forget_window lives destroyed m application info)
        (Ensures-bind (Forgotten w) (application_for _ application) _ λ session known.
          erase-Forgotten _ info (contains-without w m.mru_active_windows)
            (contains-without w m.fullscreen_surfaces)
            (workspaces_of-filter w m.workspaces_to_windows)
            (session-Unlisted m application w session owners known))
        e
