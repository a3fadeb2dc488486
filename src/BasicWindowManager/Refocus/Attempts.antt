-- ===== src/BasicWindowManager/Refocus/Attempts.antt =====
-- The attempts of `refocus` in miral/basic_window_manager.cpp, one after another.
use miral.Prelude.{
  ℕ, suc, ◌+◌, ◌≡◌, ◌∙◌, refl, sym, ap, subst, Bool, true, Option, none, some, List, reverse,
}
use miral.MruWindowList.{Window, push}
use miral.MruWindowList.Top.{All-reverse}
use miral.WindowInfo.{WindowInfo}
use miral.BasicWindowManager.Surfaces.{SurfaceApi}
use miral.BasicWindowManager.State.{Manager, Result, ok, ◌>>=◌, info_for, handle}
use miral.BasicWindowManager.Forest.{Known, IsForest, Told, Told-trans, Told-refl}
use miral.BasicWindowManager.Focus.{select_active_window}
use miral.BasicWindowManager.Focus.Outcome.{select_active_window-Selected}
use miral.BasicWindowManager.Focus.Termination.{select_active_window-Returns}
use miral.BasicWindowManager.Activation.{
  unless_found, activate_first, can_activate_window_for_session,
  can_activate_window_for_session_in_workspace,
}
use miral.BasicWindowManager.Activation.Search.{activate_first-Searched, Told-IsForest, Searched}
use miral.BasicWindowManager.Refocus.{Attempt, focus_parent, focus_shared, focus_any, focus_recent}

-- The window is the one active last.
abbrev pub pushed : {Surface : Type 0} → Window → Manager Surface → Manager Surface
pushed w m = record m { mru_active_windows = push w m.mru_active_windows }

module _ {Surface : Type 0} (api : SurfaceApi Surface) (m : Manager Surface) (depth : Window → ℕ)
    (limit : ℕ) (forest : IsForest m depth limit) where
  abbrev fuel : ℕ
  fuel = suc (suc (limit + limit))

  -- An attempt that names no window has changed nothing but the calls; a window that it names has a record, and is
  -- now the one active last.
  abbrev pub Focused : Option Window × Manager Surface → Type 0
  Focused (none, m') = Told m m'
  Focused (some w, m') = Known m w × Told (pushed w m) m'

  abbrev pub Attempted : Result (Option Window × Manager Surface) → Type 0
  Attempted result = (r : Option Window × Manager Surface) × (result ≡ ok r) × Focused r

  -- The attempt returns, also after others that named no window.
  abbrev pub IsAttempt : Attempt api fuel → Type 0
  IsAttempt f = (n : Manager Surface) → Told m n → Attempted (f n)

  abbrev pub Found : Result (Option Window × Manager Surface) → Type 0
  Found result = (w : Window) × (m' : Manager Surface) × (result ≡ ok (some w, m'))

  unless_found-Attempted :
      (f : Attempt api fuel)
      → IsAttempt f
      → (r : Option Window × Manager Surface) → Focused r
      → Attempted (unless_found api f r)
  unless_found-Attempted f is (none, n) told = is n told
  unless_found-Attempted f is (some w, n) told = ((some w, n), refl, told)

  pub bind-Attempted :
      (result : Result (Option Window × Manager Surface)) (f : Attempt api fuel)
      → Attempted result
      → IsAttempt f
      → Attempted (result >>= unless_found api f)
  bind-Attempted result f (r, e, told) is =
      subst (λ x. Attempted (x >>= unless_found api f)) (sym e) (unless_found-Attempted f is r told)

  unless_found-Found :
      (f : Attempt api fuel)
      → ((n : Manager Surface) → Told m n → Found (f n))
      → (r : Option Window × Manager Surface) → Focused r
      → Found (unless_found api f r)
  unless_found-Found f is (none, n) told = is n told
  unless_found-Found f is (some w, n) told = (w, n, refl)

  -- An attempt that is sure to name a window, after others.
  pub bind-Found :
      (result : Result (Option Window × Manager Surface)) (f : Attempt api fuel)
      → Attempted result
      → ((n : Manager Surface) → Told m n → Found (f n))
      → Found (result >>= unless_found api f)
  bind-Found result f (r, e, told) is =
      subst (λ x. Found (x >>= unless_found api f)) (sym e) (unless_found-Found f is r told)

  pub Found-bind :
      (result : Result (Option Window × Manager Surface)) (f : Attempt api fuel)
      → Found result
      → Found (result >>= unless_found api f)
  Found-bind result f (w, n, e) = subst (λ x. Found (x >>= unless_found api f)) (sym e) (w, n, refl)

  Told-info :
      (n : Manager Surface) (w : Window) (info : WindowInfo)
      → Told m n
      → info_for n w ≡ ok info
      → info_for m w ≡ ok info
  unfolding info_for
  Told-info n w info (calls, is) known = ap (λ x. info_for x w) (sym is) ∙ known

  selected-Focused :
      (n : Manager Surface) (hint : Option Window) (r : Option Window × Manager Surface)
      → Told m n
      → select_active_window api fuel n hint ≡ ok r
      → Focused r
  selected-Focused n hint (some w, n') (calls, is) e =
      let (info, known, _, _, lost, _, is_pushed) =
        select_active_window-Selected api fuel n hint {r = (some w, n')} e in
      let known_m : info_for m w ≡ ok info = Told-info n w info (calls, is) known in
      (
        (info, known_m),
        Told-trans (pushed w m) (pushed w n) n' (calls, ap (pushed w) is) (_, is_pushed),
      )
  selected-Focused n hint (none, n') told e =
      let same : Told n n' = select_active_window-Selected api fuel n hint {r = (none, n')} e in
      Told-trans m n n' told same

  pub Known-Told : (n : Manager Surface) (w : Window) → Told m n → Known m w → Known n w
  unfolding info_for
  Known-Told n w (calls, is) known = subst (λ x. Known x w) (sym is) known

  pub select-Attempted :
      (n : Manager Surface) (hint : Option Window)
      → Told m n
      → ((w : Window) → hint ≡ some w → Known m w)
      → Attempted (select_active_window api fuel n hint)
  select-Attempted n hint told known =
      let forest_n = Told-IsForest api m depth limit forest (λ w. true) n told in
      let (r, e) =
        select_active_window-Returns api n depth limit forest_n hint
          (λ w is. Known-Told n w told (known w is)) in
      (r, e, selected-Focused n hint r told e)

  Searched-Focused :
      (n : Manager Surface) (forest_n : IsForest n depth limit) (admits : Window → Bool)
      (ws : List Window) (r : Option Window × Manager Surface)
      → Told m n
      → Searched api n depth limit forest_n admits ws r
      → Focused r
  Searched-Focused n forest_n admits ws (some w, n') told
        (before, v, after, is, all, passes, n1, told1, found_by) =
      selected-Focused n1 (some v) (some w, n') (Told-trans m n n1 told told1) found_by
  Searched-Focused n forest_n admits ws (none, n') told searched = Told-trans m n n' told searched.1

  -- A search among the windows that were active, for those that pass a test.
  pub search-Attempted :
      (n : Manager Surface) (admits : Window → Bool)
      → Told m n
      → Attempted (activate_first api fuel admits (reverse n.mru_active_windows) n)
  search-Attempted n admits told =
      let forest_n = Told-IsForest api m depth limit forest admits n told in
      let ws = reverse n.mru_active_windows in
      let (r, is, searched) =
        activate_first-Searched api n depth limit forest_n admits ws n
          (All-reverse (Known n) n.mru_active_windows forest_n.active) (Told-refl n) in
      (r, is, Searched-Focused n forest_n admits ws r told searched)

  -- The parent that is tried, if there is one, has a record.
  focus_parent-Attempted :
      (n : Manager Surface) (parent : Option Window)
      → Told m n
      → ((w : Window) → parent ≡ some w → Known m w)
      → Attempted (focus_parent api fuel parent n)
  unfolding focus_parent
  focus_parent-Attempted n none told known = ((none, n), refl, told)
  focus_parent-Attempted n (some w) told known = select-Attempted n (some w) told known

  pub session-IsAttempt :
      (session : Option ℕ) → IsAttempt (λ n. can_activate_window_for_session api fuel n session)
  unfolding can_activate_window_for_session
  session-IsAttempt session n told = search-Attempted n _ told

  pub session_in_workspace-IsAttempt :
      (lives : ℕ → Bool) (session : Option ℕ) (workspaces : List ℕ)
      → IsAttempt
          (λ n. can_activate_window_for_session_in_workspace api fuel lives n session workspaces)
  unfolding can_activate_window_for_session_in_workspace
  session_in_workspace-IsAttempt lives session workspaces n told = search-Attempted n _ told

  focus_shared-IsAttempt :
      (lives : ℕ → Bool) (workspaces : List ℕ) → IsAttempt (focus_shared api fuel lives workspaces)
  unfolding focus_shared
  focus_shared-IsAttempt lives workspaces n told = search-Attempted n _ told

  focus_any-IsAttempt : IsAttempt (focus_any api fuel)
  unfolding focus_any
  focus_any-IsAttempt n told = search-Attempted n _ told

  -- The attempts up to the last search: what comes before it may name a window.
  module _ (lives : ℕ → Bool) (application : ℕ) (parent : Option Window) (workspaces : List ℕ)
      (known : (w : Window) → handle m parent ≡ some w → Known m w) where
    abbrev before_any : Result (Option Window × Manager Surface)
    before_any =
        focus_parent api fuel (handle m parent) m
        >>= unless_found api (λ n.
          can_activate_window_for_session_in_workspace api fuel lives n (some application)
            workspaces)
        >>= unless_found api (focus_shared api fuel lives workspaces)
        >>= unless_found api (λ n. can_activate_window_for_session api fuel n (some application))

    before_any-Attempted : Attempted before_any
    before_any-Attempted =
        bind-Attempted _ _
          (bind-Attempted _ _
            (bind-Attempted _ _ (focus_parent-Attempted m (handle m parent) (Told-refl m) known)
              (session_in_workspace-IsAttempt lives (some application) workspaces))
            (focus_shared-IsAttempt lives workspaces))
          (session-IsAttempt (some application))

    pub focus_recent-Attempted :
        Attempted (focus_recent api fuel lives application parent workspaces m)
    unfolding focus_recent
    focus_recent-Attempted =
        bind-Attempted before_any (focus_any api fuel) before_any-Attempted focus_any-IsAttempt

    pub focus_recent-Found :
        ((n : Manager Surface) → Told m n → Found (focus_any api fuel n))
        → Found (focus_recent api fuel lives application parent workspaces m)
    unfolding focus_recent
    focus_recent-Found found = bind-Found before_any (focus_any api fuel) before_any-Attempted found
