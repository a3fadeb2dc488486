-- ===== src/BasicWindowManager/Activation/Search.antt =====
-- The search for a window to have the focus in miral/basic_window_manager.cpp: its result.
use mathlib.Core.Option.{some-injective}
use miral.Prelude.{
  ℕ, suc, ◌+◌, ◌≡◌, refl, sym, ap, subst, ◌⊎◌, inl, inr, Bool, true, false, ◌&&◌, Option, none,
  some, List, [], ◌∷◌, ◌++◌, reverse, All, Bool-cases,
}
use miral.MruWindowList.{Window}
use miral.MruWindowList.Top.{All-reverse}
use miral.BasicWindowManager.Surfaces.{SurfaceApi}
use miral.BasicWindowManager.State.{Manager, Result, ok, info_for, visible}
use miral.BasicWindowManager.Forest.{Known, IsForest, Told, Told-trans, Told-refl, tell-IsForest}
use miral.BasicWindowManager.Focus.{select_active_window}
use miral.BasicWindowManager.Focus.Outcome.{select_active_window-Selected}
use miral.BasicWindowManager.Focus.Termination.{select_active_window-Returns}
use miral.BasicWindowManager.Activation.{
  unless_found, activate_first, can_activate_window_for_session, session_eq,
}

module _ {Surface : Type 0} (api : SurfaceApi Surface) where
  module _ (m : Manager Surface) (depth : Window → ℕ) (limit : ℕ) (forest : IsForest m depth limit)
      (admits : Window → Bool) where
    abbrev fuel : ℕ
    fuel = suc (suc (limit + limit))

    -- The window fails the test, or it was tried and could not be selected.
    abbrev pub Rejected : Window → Type 0
    Rejected w =
        (visible api m w && admits w ≡ false)
        ⊎ ((n n' : Manager Surface) × Told m n
            × (select_active_window api fuel n (some w) ≡ ok (none, n')))

    -- Either every window was rejected and nothing but the calls has changed, or the focus was given to a window by the
    -- attempt to select one that passes the test, after all before it were rejected.
    abbrev pub Searched : List Window → Option Window × Manager Surface → Type 0
    Searched ws (none, m') = All Rejected ws × Told m m'
    Searched ws (some found, m') =
        (before : List Window) × (w : Window) × (after : List Window) × (ws ≡ before ++ w ∷ after)
        × All Rejected before
        × (visible api m w && admits w ≡ true)
        × (n : Manager Surface) × Told m n
        × (select_active_window api fuel n (some w) ≡ ok (some found, m'))

    Searched-skip :
        (w : Window) (ws : List Window) (r : Option Window × Manager Surface)
        → Rejected w
        → Searched ws r
        → Searched (w ∷ ws) r
    Searched-skip w ws (none, m') rejected (all, told) = ((rejected, all), told)
    Searched-skip w ws (some found, m') rejected
          (before, v, after, is, all, passes, n, told, found_by) =
        (w ∷ before, v, after, ap (◌∷◌ w) is, (rejected, all), passes, n, told, found_by)

    abbrev pub Search : List Window → Result (Option Window × Manager Surface) → Type 0
    Search ws result = (r : Option Window × Manager Surface) × (result ≡ ok r) × Searched ws r

    -- The attempt on the first window of those that are left.
    tried-Search :
        (w : Window) (ws : List Window) (n : Manager Surface) (r : Option Window × Manager Surface)
        → (visible api m w && admits w ≡ true)
        → Told m n
        → (select_active_window api fuel n (some w) ≡ ok r)
        → ((n' : Manager Surface) → Told m n' → Search ws (activate_first api fuel admits ws n'))
        → Search (w ∷ ws) (unless_found api (activate_first api fuel admits ws) r)
    tried-Search w ws n (some found, n') passes told selected later =
        ((some found, n'), refl, ([], w, ws, refl, tt, passes, n, told, selected))
    tried-Search w ws n (none, n') passes told selected later =
        let same : Told n n' =
          select_active_window-Selected api fuel n (some w) {r = (none, n')} selected in
        let (r, is, searched) = later n' (Told-trans m n n' told same) in
        (r, is, Searched-skip w ws r (inr (n, n', told, selected)) searched)

    pub Told-visible :
        (n : Manager Surface) (w : Window) → Told m n → visible api n w ≡ visible api m w
    unfolding visible
    Told-visible n w (calls, is) = ap (λ x. visible api x w) is

    pub Told-IsForest : (n : Manager Surface) → Told m n → IsForest n depth limit
    Told-IsForest n (calls, is) =
        subst (λ x. IsForest x depth limit) (sym is) (tell-IsForest m depth limit calls forest)

    Told-Known : (n : Manager Surface) (w : Window) → Told m n → Known m w → Known n w
    unfolding info_for
    Told-Known n w (calls, is) known = subst (λ x. Known x w) (sym is) known

    pub activate_first-Searched :
        (ws : List Window) (n : Manager Surface)
        → All (Known m) ws
        → Told m n
        → Search ws (activate_first api fuel admits ws n)
    unfolding activate_first
    activate_first-Searched [] n h told = ((none, n), refl, (tt, told))
    activate_first-Searched (w ∷ ws) n (known, h) told =
        elim (Bool-cases (visible api m w && admits w)) [
          | inr rejected ↦
              let (r, is, searched) = activate_first-Searched ws n h told in
              (
                r,
                rw (Told-visible n w told, rejected) is,
                Searched-skip w ws r (inl rejected) searched,
              )
          | inl passes ↦
              let (r0, selected) =
                select_active_window-Returns api n depth limit (Told-IsForest n told) (some w)
                  (λ v e. subst (Known n) (some-injective w v e) (Told-Known n w told known)) in
              let (r, is, searched) =
                tried-Search w ws n r0 passes told selected
                  (λ n' told'. activate_first-Searched ws n' h told') in
              (r, rw (Told-visible n w told, passes, selected) is, searched)
        ]

  -- Where parents and children form a forest of a bounded depth, the search for a window of a session returns. It
  -- tries the visible windows of the session, the one that was active last first, up to the first attempt that
  -- selects a window; if there is none, it changes nothing but the calls.
  pub can_activate_window_for_session-Searched :
      (m : Manager Surface) (depth : Window → ℕ) (limit : ℕ) (forest : IsForest m depth limit)
      (session : Option ℕ)
      → (r : Option Window × Manager Surface) × (can_activate_window_for_session api
            (suc (suc (limit + limit)))
            m
            session
          ≡ ok r)
        × Searched m depth limit forest
            (λ w. session_eq (m.applications w) session)
            (reverse m.mru_active_windows)
            r
  unfolding can_activate_window_for_session
  can_activate_window_for_session-Searched m depth limit forest session =
      activate_first-Searched m depth limit forest (λ w. session_eq (m.applications w) session)
        (reverse m.mru_active_windows) m (All-reverse (Known m) m.mru_active_windows forest.active)
        (Told-refl m)
