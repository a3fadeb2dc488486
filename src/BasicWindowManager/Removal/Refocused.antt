-- ===== src/BasicWindowManager/Removal/Refocused.antt =====
-- The whole of `remove_window` in miral/basic_window_manager.cpp, the search for the next focus with it.
use miral.Prelude.{
  All, ◌++◌, ℕ, suc, ◌+◌, ◌≡◌, ◌∙◌, refl, sym, subst, inl, inr, Bool, true, false, Option, none,
  some, List, [], ◌∷◌, ◌==◌, contains, Bool-cases, ==_iff, arith, if◌then◌else◌,
}
use miral.MruWindowList
use miral.MruWindowList.{Window, push}
use miral.WindowInfo.{WindowInfo}
use miral.ApplicationInfo.{ApplicationInfo}
use miral.BasicWindowManager.Surfaces.{SurfaceApi}
use miral.BasicWindowManager.State.{
  application_for, is_window, handle, Call, Manager, ok, find_info, info_for, active_window,
}
use miral.BasicWindowManager.Forest.{Known}
use miral.BasicWindowManager.Family.{IsFamily, pushed-IsFamily}
use miral.BasicWindowManager.Kin.{push-All}
use miral.BasicWindowManager.Refocus.{FocusController}
use miral.BasicWindowManager.Refocus.Attempts.{Focused}
use miral.BasicWindowManager.Refocus.Termination.{ComesRound, refocus-Returns}
use miral.BasicWindowManager.Focus.Termination.{active-Known}
use miral.BasicWindowManager.Workspaces.{workspaces_containing}
use miral.BasicWindowManager.Removal.{remove_window, refocus_if}
use miral.BasicWindowManager.Records.{found_info}
use miral.BasicWindowManager.Removal.Forgotten.{ListedBy, Forgotten}
use miral.BasicWindowManager.Removal.Family.{Known-kept, Known-was, handle_was}
use miral.BasicWindowManager.Removal.Whole.{forget_window-IsWithout}

contains-push :
    (w v : Window) (ws : List Window)
    → v == w ≡ false
    → contains w ws ≡ false
    → contains w (push v ws) ≡ false
unfolding push miral.MruWindowList.erase
contains-push w v [] other h = ground (arith, other)
contains-push w v (x ∷ ws) other h = ground (arith, contains-push w v ws other, other, h)

module _ {Surface : Type 0} (api : SurfaceApi Surface) where
  relisted-Forgotten :
      (m : Manager Surface) (w : Window) (windows : List Window) (calls : List Call)
      → Forgotten w m
      → contains w windows ≡ false
      → Forgotten w (record m { mru_active_windows = windows; calls = calls })
  relisted-Forgotten m w windows calls f h = record {
    window_info = f.window_info;
    mru_active_windows = h;
    fullscreen_surfaces = f.fullscreen_surfaces;
    workspaces = f.workspaces;
    app_info = f.app_info;
  }

  Forgotten-other :
      (m : Manager Surface) (w v : Window) → Forgotten w m → Known m v → v == w ≡ false
  Forgotten-other m w v f (info, known) = elim (Bool-cases (v == w)) [
    | inr other ↦ other
    | inl same ↦
        let found = found_info m v {info = info} known in
        let also = subst (λ x. find_info x m.window_info ≡ some info) ((==_iff v w).0 same) found in
        absurd (ground (arith, sym f.window_info ∙ also))
  ]

  -- What is forgotten stays so when another window gets the focus, and parents and children are the same.
  Focused-Forgotten :
      (m : Manager Surface) (depth : Window → ℕ) (limit : ℕ) (w : Window)
      (r : Option Window × Manager Surface) (family : IsFamily m depth limit)
      → Focused api m depth limit family.forest r
      → Forgotten w m
      → Forgotten w r.1 × IsFamily r.1 depth limit
  Focused-Forgotten m depth limit w (none, m') family (calls, is) f =
      subst (λ x. Forgotten w x × IsFamily x depth limit) (sym is)
        (
          relisted-Forgotten m w m.mru_active_windows (m.calls ++ calls) f f.mru_active_windows,
          pushed-IsFamily m depth limit m.mru_active_windows (m.calls ++ calls) family
              family.forest.active,
        )
  Focused-Forgotten m depth limit w (some v, m') family (known, (calls, is)) f =
      subst (λ x. Forgotten w x × IsFamily x depth limit) (sym is)
        (
          relisted-Forgotten m w (push v m.mru_active_windows) (m.calls ++ calls) f (
              contains-push w v m.mru_active_windows (Forgotten-other m w v f known)
                f.mru_active_windows),
          pushed-IsFamily m depth limit (push v m.mru_active_windows) (m.calls ++ calls) family
              (push-All m v m.mru_active_windows known family.forest.active),
        )

  -- Conditional on what `remove_window` found out before.
  refocus_if-Forgotten :
      (controller : FocusController) (m : Manager Surface) (depth : Window → ℕ) (limit : ℕ)
      (lives : ℕ → Bool) (rounds application : ℕ) (parent : Option Window) (workspaces : List ℕ)
      (w : Window)
      → IsFamily m depth limit
      → Forgotten w m
      → ((p : Window) → handle m parent ≡ some p → Known m p)
      → ((k : ℕ) (v : Window) → controller.focused_surface k ≡ some v → Known m v)
      → ((p : Window)
          → active_window api m ≡ some p
          → ComesRound controller 0 rounds (m.applications p))
      → (had_focus : Bool)
      → (m' : Manager Surface) × (refocus_if api
            (suc (suc (limit + limit)))
            controller
            lives
            rounds
            had_focus
            application
            parent
            workspaces
            m
          ≡ ok m')
        × Forgotten w m'
        × IsFamily m' depth limit
  refocus_if-Forgotten controller m depth limit lives rounds application parent workspaces w family
        f known surfaces_known comes false =
      (m, refl, f, family)
  refocus_if-Forgotten controller m depth limit lives rounds application parent workspaces w family
        f known surfaces_known comes true =
      let (r, is, focused) =
        refocus-Returns api controller m depth limit lives rounds application parent workspaces
          family.forest known surfaces_known comes in
      let (f', family') = Focused-Forgotten m depth limit w r family focused f in
      (r.1, rw is refl, f', family')

  -- Mir's `destroy_surface` ends the one surface. Parents and children name each other, without repetition, in a
  -- forest of a bounded depth; the window has the record that is given, and its application has one; each
  -- application lists a window once, and no other one lists this window. The focus controller names only other
  -- windows that have records, and comes round, within the given rounds, to the session
  -- of each window that has a record. Then `remove_window` returns, whichever window had the focus and gets it: no
  -- list, neither of the manager nor of an application, names the window any more, and parents and children still name each other in a forest of that depth.
  pub remove_window-Forgotten :
      (controller : FocusController) (lives : ℕ → Bool) (rounds : ℕ)
      (destroyed : Window → (Window → Option Surface) → Window → Option Surface)
      (m : Manager Surface) (depth : Window → ℕ) (limit application : ℕ) (info : WindowInfo)
      {session : ApplicationInfo}
      → ((w v : Window) (surfaces : Window → Option Surface)
          → destroyed w surfaces v ≡ (if v == w then none else surfaces v))
      → IsFamily m depth limit
      → info_for m info.window ≡ ok info
      → application_for m application ≡ ok session
      → All (ListedBy application info.window) m.app_info
      → ((k : ℕ) (v : Window)
          → controller.focused_surface k ≡ some v
          → (v == info.window ≡ false) × Known m v)
      → ((p : Window) → Known m p → ComesRound controller 0 rounds (m.applications p))
      → (m' : Manager Surface) × (remove_window api
            (suc (suc (limit + limit)))
            controller
            lives
            rounds
            destroyed
            m
            application
            info
          ≡ ok m')
        × Forgotten info.window m'
        × IsFamily m' depth limit
  unfolding remove_window
  remove_window-Forgotten controller lives rounds destroyed m depth limit application info {session}
        destroys family known has_session owners surfaces_known comes =
      let (n, is, f, family_n, without, same) =
        forget_window-IsWithout lives destroyed destroys m depth limit application info
          {session = session} family known has_session owners in
      let was = Known-was m n depth limit family info known without in
      let (m', refocused, f', family') =
        refocus_if-Forgotten controller n depth limit lives rounds application info.parent
          (workspaces_containing lives m info.window) info.window family_n f
          (λ p above.
            let (other, before) =
              handle_was m n depth limit family info known without info.parent p above in
            Known-kept m n depth limit family info known without p other
              (family.forest.parent info.window p info known before).0)
          (λ k v e.
            let (other, known_v) = surfaces_known k v e in
            Known-kept m n depth limit family info known without v other known_v)
          (λ p e.
            subst (λ x. ComesRound controller 0 rounds (x p)) (sym same)
              (comes p (was p (active-Known api n depth limit family_n.forest p e))))
          (is_window (active_window api m) info.window) in
      (m', rw (is, refocused) refl, f', family')
