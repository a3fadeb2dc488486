-- ===== src/BasicWindowManager/Refocus/Outcome.antt =====
-- `refocus` in miral/basic_window_manager.cpp finds a window where there is one, and ends where there is none.
use mathlib.Core.List.{reverse-reverse}
use miral.Prelude.{
  ℕ, suc, ◌+◌, ◌≡◌, ◌∙◌, sym, subst, inl, inr, Bool, true, Option, none, some, List, reverse, All,
  arith, contains,
}
use miral.MruWindowList.{Window}
use miral.MruWindowList.Top.{All-reverse}
use miral.WindowInfo.{WindowInfo}
use miral.BasicWindowManager.Surfaces.{SurfaceApi}
use miral.BasicWindowManager.State.{handle, Manager, ok, info_for, visible, alive, info_visible}
use miral.BasicWindowManager.Family.{All-contains}
use miral.BasicWindowManager.Forest.{Known, IsForest, Told, Told-refl}
use miral.BasicWindowManager.Focus.{can_have_focus}
use miral.BasicWindowManager.Focus.Liveness.{select-Selects}
use miral.BasicWindowManager.Activation.{activate_first}
use miral.BasicWindowManager.Activation.Search.{
  activate_first-Searched, Told-IsForest, Searched, Rejected,
}
use miral.BasicWindowManager.Refocus.{FocusController, focus_any, refocus}
use miral.BasicWindowManager.Refocus.Attempts.{Found, Found-bind, focus_recent-Found}

module _ {Surface : Type 0} (api : SurfaceApi Surface) where
  -- The window was active before, it is visible, and its type lets it be active.
  pub record IsCandidate (m : Manager Surface) (w : Window) : Type 0 where
    pub info : WindowInfo
    pub known : info_for m w ≡ ok info
    pub active : contains w m.mru_active_windows ≡ true
    pub is_visible : visible api m w ≡ true
    pub can_have_focus : can_have_focus api m info ≡ true

  Told-IsCandidate :
      (m n : Manager Surface) (w : Window) → Told m n → IsCandidate m w → IsCandidate n w
  unfolding visible can_have_focus info_for info_visible
  Told-IsCandidate m n w (calls, is) c =
      subst (λ x. IsCandidate x w) (sym is)
        (record {
          info = c.info;
          known = c.known;
          active = c.active;
          is_visible = c.is_visible;
          can_have_focus = c.can_have_focus;
        })

  visible-alive : (m : Manager Surface) (w : Window) → visible api m w ≡ true → alive m w ≡ true
  unfolding visible alive
  visible-alive m w h = ground (arith, h)

  module _ (depth : Window → ℕ) (limit : ℕ) where
    abbrev fuel : ℕ
    fuel = suc (suc (limit + limit))

    candidate_not-Rejected :
        (n : Manager Surface) (forest : IsForest n depth limit) (w : Window)
        → IsCandidate n w
        → ¬ Rejected api n depth limit forest (λ v. true) w
    candidate_not-Rejected n forest w c (inl fails) = ground (arith, fails, c.is_visible)
    candidate_not-Rejected n forest w c (inr (n', n'', told, failed)) =
        let c' = Told-IsCandidate n n' w told c in
        let forest' = Told-IsForest api n depth limit forest (λ v. true) n' told in
        let (v, n3, selected) =
          select-Selects api n' depth limit forest' fuel w c'.info c'.known
            (visible-alive n' w c'.is_visible) c'.can_have_focus (omega arith) in
        ground (arith, sym failed ∙ selected)

    focus_any-Found :
        (n : Manager Surface) (forest : IsForest n depth limit) (w : Window)
        → IsCandidate n w
        → Found api n depth limit forest (focus_any api fuel n)
    unfolding focus_any
    focus_any-Found n forest w c =
        let ws = reverse n.mru_active_windows in
        let (r, is, searched) =
          activate_first-Searched api n depth limit forest (λ v. true) ws n
            (All-reverse (Known n) n.mru_active_windows forest.active) (Told-refl n) in
        of_search r is searched
      where
        of_search :
            (r : Option Window × Manager Surface)
            → activate_first api fuel (λ v. true) (reverse n.mru_active_windows) n ≡ ok r
            → Searched api n depth limit forest (λ v. true) (reverse n.mru_active_windows) r
            → Found api n depth limit forest
                (activate_first api fuel (λ v. true) (reverse n.mru_active_windows) n)
        of_search (some v, n') is searched = (v, n', is)
        of_search (none, n') is (rejected, told) =
            let rejected' =
              subst (All (Rejected api n depth limit forest (λ v. true)))
                (reverse-reverse n.mru_active_windows)
                (All-reverse (Rejected api n depth limit forest (λ v. true))
                  (reverse n.mru_active_windows) rejected) in
            absurd (
              candidate_not-Rejected n forest w c (
                All-contains (Rejected api n depth limit forest (λ v. true)) w n.mru_active_windows
                  rejected' c.active))

  -- Where parents and children form a forest of a bounded depth, and the parent, if it is alive, has a record:
  -- if some window that was active before is visible and of a type that can be active, `refocus` returns and has
  -- given the focus to a window, whatever the focus controller does.
  pub refocus-Finds :
      (controller : FocusController) (m : Manager Surface) (depth : Window → ℕ) (limit : ℕ)
      (lives : ℕ → Bool) (rounds application : ℕ) (parent : Option Window) (workspaces : List ℕ)
      (w : Window)
      → IsForest m depth limit
      → ((p : Window) → handle m parent ≡ some p → Known m p)
      → IsCandidate m w
      → (v : Window) × (m' : Manager Surface) × (refocus api
            (suc (suc (limit + limit)))
            controller
            lives
            rounds
            application
            parent
            workspaces
            m
          ≡ ok (some v, m'))
  unfolding refocus
  refocus-Finds controller m depth limit lives rounds application parent workspaces w forest known
        c =
      Found-bind api m depth limit forest _ _ (
        focus_recent-Found api m depth limit forest lives application parent workspaces known
          (λ n told.
            focus_any-Found depth limit n
              (Told-IsForest api m depth limit forest (λ v. true) n told) w
              (Told-IsCandidate m n w told c)))
