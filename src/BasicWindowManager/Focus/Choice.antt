-- ===== src/BasicWindowManager/Focus/Choice.antt =====
-- Which window `select_active_window` in miral/basic_window_manager.cpp chooses, and whom it tells.
use mathlib.Core.Option.{some-injective}
use miral.Prelude.{
  ℕ, zero, suc, ◌+◌, ◌≡◌, ◌∙◌, refl, sym, ap, subst, inl, inr, Bool, true, false, not, ◌&&◌, Option,
  none, some, List, [], ◌∷◌, ◌++◌, ◌==◌, if◌then◌else◌, any, Bool-cases, Option-cases, arith,
}
use miral.Types.{
  WindowType, normal, utility, dialog, freestyle, menu, WindowState, hidden, minimized, type_eq,
  state_eq,
}
use miral.MruWindowList.{Window, push}
use miral.WindowInfo.{WindowInfo, can_be_active, is_visible}
use miral.BasicWindowManager.Surfaces.{SurfaceApi}
use miral.BasicWindowManager.State.{
  Manager, Call, set_focus_to, advise_focus_lost, advise_focus_gained, Result, ok, Ensures,
  Ensures-bind, Ensures-map, ensured, find_info, info_for, handle, alive, tell, active_window,
  info_visible,
}
use miral.BasicWindowManager.Forest.{Known, IsForest, find_info-key}
use miral.BasicWindowManager.Records.{found_info}
use miral.BasicWindowManager.Focus.{
  can_have_focus, is_visible_dialog, visible_dialog, try_parent, try_window, try_child, try_hint,
  give_focus, select_active_window, focus_lost,
}
use miral.BasicWindowManager.Focus.Termination.{select_active_window-Returns}

module _ {Surface : Type 0} (api : SurfaceApi Surface) (m : Manager Surface) where
  -- The window is neither hidden nor minimised, and Mir shows its surface.
  abbrev pub shown : WindowInfo → Bool
  shown info =
      not (any (state_eq info.state) (hidden ∷ minimized ∷ []))
      && elim (m.surfaces info.window) as (λ _. Bool) [ none ↦ false | some s ↦ api.visible s ]

  -- Five types may have the focus.
  abbrev pub focusable : WindowInfo → Bool
  focusable info =
      any (type_eq info.type) (normal ∷ utility ∷ dialog ∷ freestyle ∷ menu ∷ []) && shown info

  abbrev pub shown_dialog : WindowInfo → Bool
  shown_dialog info = type_eq info.type dialog && shown info

  -- The first of some windows that is a dialog that is shown, if there is one.
  pub data FirstDialog : List Window → Option Window → Type 0 where
    no_window : FirstDialog [] none
    this_one :
        (c : Window) (cs : List Window) (info : WindowInfo)
        → find_info c m.window_info ≡ some info
        → shown_dialog info ≡ true
        → FirstDialog (c ∷ cs) (some c)
    later_one :
        (c : Window) (cs : List Window) (info : WindowInfo) (o : Option Window)
        → find_info c m.window_info ≡ some info
        → shown_dialog info ≡ false
        → FirstDialog cs o
        → FirstDialog (c ∷ cs) o

  -- From a window down to the first dialog that is shown; or to the window itself, if it may have the focus; or else up
  -- to its parent.
  pub data Leads : Window → Option Window → Type 0 where
    down :
        (w c : Window) (info : WindowInfo) (o : Option Window)
        → find_info w m.window_info ≡ some info
        → FirstDialog info.children (some c)
        → Leads c o
        → Leads w o
    here :
        (w : Window) (info : WindowInfo)
        → find_info w m.window_info ≡ some info
        → FirstDialog info.children none
        → focusable info ≡ true
        → Leads w (some w)
    up :
        (w p : Window) (info : WindowInfo) (o : Option Window)
        → find_info w m.window_info ≡ some info
        → FirstDialog info.children none
        → focusable info ≡ false
        → handle m info.parent ≡ some p
        → Leads p o
        → Leads w o
    nowhere :
        (w : Window) (info : WindowInfo)
        → find_info w m.window_info ≡ some info
        → FirstDialog info.children none
        → focusable info ≡ false
        → handle m info.parent ≡ none
        → Leads w none

  -- What is told when a window gets the focus, after the window that had it.
  abbrev pub told_of : Option Window → Window → List Call
  told_of none w = set_focus_to (some w) ∷ advise_focus_gained w ∷ []
  told_of (some prev) w =
      if prev == w
      then set_focus_to (some w) ∷ advise_focus_gained w ∷ []
      else set_focus_to (some w) ∷ advise_focus_lost prev ∷ advise_focus_gained w ∷ []

  -- The manager afterwards.
  abbrev pub After : Option Window → Manager Surface → Type 0
  After none m' = m' ≡ m
  After (some w) m' =
      m'
      ≡ tell (record m { mru_active_windows = push w m.mru_active_windows })
          (told_of (active_window api m) w)

  visible_lem :
      (now : WindowState) (o : Option Surface)
      → is_visible now
          (elim o as (λ _. Option Bool) [ none ↦ none | some s ↦ some (api.visible s) ])
        ≡ (not (any (state_eq now) (hidden ∷ minimized ∷ []))
            && elim o as (λ _. Bool) [ none ↦ false | some s ↦ api.visible s ])
  unfolding is_visible
  visible_lem now none = ground arith
  visible_lem now (some s) = ground arith

  shown_lem : (info : WindowInfo) → info_visible api m info ≡ shown info
  unfolding info_visible
  shown_lem info = visible_lem info.state (m.surfaces info.window)

  active_lem :
      (kind : WindowType)
      → can_be_active kind ≡ any (type_eq kind) (normal ∷ utility ∷ dialog ∷ freestyle ∷ menu ∷ [])
  unfolding can_be_active
  active_lem kind = ground arith

  focusable_lem : (info : WindowInfo) → can_have_focus api m info ≡ focusable info
  unfolding can_have_focus
  focusable_lem info =
      ap (λ b. b && info_visible api m info) (active_lem info.type)
      ∙ ap (λ b. any (type_eq info.type) (normal ∷ utility ∷ dialog ∷ freestyle ∷ menu ∷ []) && b)
          (shown_lem info)

  shown_dialog_lem : (info : WindowInfo) → is_visible_dialog api m info ≡ shown_dialog info
  unfolding is_visible_dialog
  shown_dialog_lem info = ap (λ b. type_eq info.type dialog && b) (shown_lem info)

  visible_dialog-FirstDialog :
      (cs : List Window) → Ensures (FirstDialog cs) (visible_dialog api m cs)
  unfolding visible_dialog
  visible_dialog-FirstDialog [] = no_window
  visible_dialog-FirstDialog (c ∷ cs) =
      Ensures-bind (FirstDialog (c ∷ cs)) (info_for m c) _ λ info known.
        let found = found_info m c {info = info} known in
        elim (Bool-cases (is_visible_dialog api m info)) [
          | inl is ↦ rw is (this_one c cs info found (sym (shown_dialog_lem info) ∙ is))
          | inr other ↦ rw other (
              Ensures-map (FirstDialog cs) (FirstDialog (c ∷ cs)) (visible_dialog api m cs)
                (λ o first. later_one c cs info o found (sym (shown_dialog_lem info) ∙ other) first)
                (visible_dialog-FirstDialog cs))
        ]

  lost_lem :
      (prev : Option Window) (w : Window)
      → Ensures
          (λ lost. set_focus_to (some w) ∷ lost ++ advise_focus_gained w ∷ [] ≡ told_of prev w)
          (focus_lost m prev w)
  unfolding focus_lost
  lost_lem none w = refl
  lost_lem (some prev) w = elim (Bool-cases (prev == w)) [
    | inl same ↦ rw same refl
    | inr other ↦ rw other (Ensures-bind _ (info_for m prev) _ (λ info known. refl))
  ]

  Chosen : Window → Option Window × Manager Surface → Type 0
  Chosen w (o, m') = Leads w o × After o m'

  give_focus-After :
      (w : Window) → Ensures (λ r. (r.0 ≡ some w) × After (some w) r.1) (give_focus api m w)
  unfolding give_focus
  give_focus-After w = Ensures-bind _ (focus_lost m (active_window api m) w) _ λ lost e.
      let calls =
        ensured
          (λ l.
            set_focus_to (some w) ∷ l ++ advise_focus_gained w ∷ []
            ≡ told_of (active_window api m) w)
          (focus_lost m (active_window api m) w) (lost_lem (active_window api m) w) e in
      (refl, ap (tell (record m { mru_active_windows = push w m.mru_active_windows })) calls)

  dialog_alive :
      (cs : List Window) (c : Window) → FirstDialog cs (some c) → handle m (some c) ≡ some c
  unfolding alive
  dialog_alive _ c (this_one _ cs info found is) =
      let key = find_info-key c m.window_info {info = info} found in
      elim (Option-cases (m.surfaces c)) [
        | inr (s, there) ↦ ground (arith, there)
        | inl gone ↦
            let none_there : shown info ≡ false =
              ap
                (λ o.
                  not (any (state_eq info.state) (hidden ∷ minimized ∷ []))
                  && elim o as (λ _. Bool) [ none ↦ false | some s ↦ api.visible s ])
                (ap m.surfaces key ∙ gone)
              ∙ ground arith in
            absurd (ground (arith, is, none_there))
      ]
  dialog_alive _ c (later_one _ cs info _ found is first) = dialog_alive cs c first

  handle_alive : (o : Option Window) (p : Window) → handle m o ≡ some p → handle m (some p) ≡ some p
  handle_alive none p e = absurd (ground (arith, e))
  handle_alive (some q) p e = elim (Bool-cases (alive m q)) [
    | inl there ↦
        let is : q ≡ p = some-injective q p (rw there at e) in
        subst (λ x. handle m (some x) ≡ some x) is (rw there refl)
    | inr gone ↦ absurd (ground (arith, e, gone))
  ]

  module _ (next : Option Window → Result (Option Window × Manager Surface))
      (later : (w : Window) → handle m (some w) ≡ some w → Ensures (Chosen w) (next (some w)))
      (w : Window) (info : WindowInfo) (found : find_info w m.window_info ≡ some info) where
    try_parent-Chosen :
        (o : Option Window)
        → handle m info.parent ≡ o
        → FirstDialog info.children none
        → focusable info ≡ false
        → Ensures (Chosen w) (try_parent api next m o)
    unfolding try_parent Chosen
    try_parent-Chosen none above leaf fixed = (nowhere w info found leaf fixed above, refl)
    try_parent-Chosen (some p) above leaf fixed =
        Ensures-map (Chosen p) (Chosen w) (next (some p))
          (λ r chosen. (up w p info r.0 found leaf fixed above chosen.0, chosen.1))
          (later p (handle_alive info.parent p above))

    try_window-Chosen :
        (may : Bool)
        → focusable info ≡ may
        → FirstDialog info.children none
        → Ensures (Chosen w) (try_window api next m info w may)
    unfolding try_window Chosen
    try_window-Chosen true may leaf =
        Ensures-map _ (Chosen w) (give_focus api m w)
          (λ r given. (
            subst (Leads w) (sym given.0) (here w info found leaf may),
            subst (λ o. After o r.1) (sym given.0) given.1,
          ))
          (give_focus-After w)
    try_window-Chosen false fixed leaf = try_parent-Chosen (handle m info.parent) refl leaf fixed

    try_child-Chosen :
        (o : Option Window)
        → FirstDialog info.children o
        → Ensures (Chosen w) (try_child api next m info w o)
    unfolding try_child Chosen
    try_child-Chosen none leaf =
        try_window-Chosen (can_have_focus api m info) (sym (focusable_lem info)) leaf
    try_child-Chosen (some c) first =
        Ensures-map (Chosen c) (Chosen w) (next (some c))
          (λ r chosen. (down w c info r.0 found first chosen.0, chosen.1))
          (later c (dialog_alive info.children c first))

  select-Chosen :
      (fuel : ℕ) (w : Window)
      → handle m (some w) ≡ some w
      → Ensures (Chosen w) (select_active_window api fuel m (some w))
  unfolding select_active_window try_hint
  select-Chosen zero w there = tt
  select-Chosen (suc fuel) w there =
      subst (λ o. Ensures (Chosen w) (try_hint api (select_active_window api fuel m) m o))
        (sym there)
        (Ensures-bind (Chosen w) (info_for m w) _ λ info known.
          Ensures-bind (Chosen w) (visible_dialog api m info.children) _ λ o looked.
            try_child-Chosen (select_active_window api fuel m) (select-Chosen fuel) w info
              (found_info m w {info = info} known) o
              (ensured (FirstDialog info.children) (visible_dialog api m info.children)
                (visible_dialog-FirstDialog info.children) looked))

  -- Where parents and children form a forest of a bounded depth, a call for a live window that has a record returns. It
  -- goes down to the first dialog that is shown; where there is none it chooses the window, if that may have the
  -- focus, and else goes up to the parent, if that is alive. The window that is chosen becomes the one active last and
  -- gets the focus, after another window that was active was told of its loss; where no window is chosen, nothing has
  -- changed.
  pub select_active_window-Leads :
      (depth : Window → ℕ) (limit : ℕ) (w : Window)
      → IsForest m depth limit
      → Known m w
      → handle m (some w) ≡ some w
      → (o : Option Window) × (m' : Manager Surface) × (select_active_window api
            (suc (suc (limit + limit)))
            m
            (some w)
          ≡ ok (o, m'))
        × Leads w o
        × After o m'
  unfolding Chosen
  select_active_window-Leads depth limit w forest known there =
      let fuel = suc (suc (limit + limit)) in
      let (r, is) =
        select_active_window-Returns api m depth limit forest (some w)
          (λ v e. subst (Known m) (some-injective w v e) known) in
      let (leads, after) =
        ensured (Chosen w) (select_active_window api fuel m (some w)) (select-Chosen fuel w there)
          is in
      (r.0, r.1, is, leads, after)
