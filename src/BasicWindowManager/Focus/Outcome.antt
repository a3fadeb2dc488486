-- ===== src/BasicWindowManager/Focus/Outcome.antt =====
-- The effect of `select_active_window` in miral/basic_window_manager.cpp.
use mathlib.Core.List.{append-nil}
use miral.Prelude.{
  ℕ, zero, suc, ◌≡◌, refl, sym, subst, Bool, true, false, Option, none, some, List, [], ◌∷◌, ◌++◌,
}
use miral.MruWindowList.{Window, push}
use miral.WindowInfo.{WindowInfo}
use miral.BasicWindowManager.Surfaces.{SurfaceApi}
use miral.BasicWindowManager.State.{
  Manager, Call, set_focus_to, advise_focus_lost, advise_focus_gained, Result, ok, Ensures,
  Ensures-bind, tell, info_for, handle, active_window,
}
use miral.BasicWindowManager.Focus.{
  can_have_focus, visible_dialog, try_parent, try_window, try_child, try_hint, give_focus,
  clear_focus, select_active_window, focus_lost,
}

module _ {Surface : Type 0} (api : SurfaceApi Surface) where
  -- With no window selected nothing but the calls has changed. A selected window may have the focus, none
  -- of its children is a visible dialog, and it was given the focus.
  abbrev pub Selected : Manager Surface → Option Window × Manager Surface → Type 0
  Selected m (none, m') = (calls : List Call) × (m' ≡ tell m calls)
  Selected m (some w, m') =
      (info : WindowInfo) × (info_for m w ≡ ok info)
      × (can_have_focus api m info ≡ true)
      × (visible_dialog api m info.children ≡ ok none)
      × (lost : List Call) × (focus_lost m (active_window api m) w ≡ ok lost)
      × (m'
          ≡ tell (record m { mru_active_windows = push w m.mru_active_windows })
              (set_focus_to (some w) ∷ lost ++ advise_focus_gained w ∷ []))

  tell-nil : (m : Manager Surface) → m ≡ tell m []
  tell-nil m = λ i. record m { calls = sym (append-nil m.calls) i }

  clear_focus-Selected :
      (m : Manager Surface) (prev : Option Window) → Ensures (Selected m) (clear_focus m prev)
  unfolding clear_focus
  clear_focus-Selected m none = ([], tell-nil m)
  clear_focus-Selected m (some prev) =
      Ensures-bind (Selected m) (info_for m prev) _
        (λ _ _. (set_focus_to none ∷ advise_focus_lost prev ∷ [], refl))

  give_focus-Selected :
      (m : Manager Surface) (w : Window) (info : WindowInfo)
      → info_for m w ≡ ok info
      → can_have_focus api m info ≡ true
      → visible_dialog api m info.children ≡ ok none
      → Ensures (Selected m) (give_focus api m w)
  unfolding give_focus
  give_focus-Selected m w info known may leaf =
      Ensures-bind (Selected m) (focus_lost m (active_window api m) w) _
        (λ lost e. (info, known, may, leaf, lost, e, refl))

  module _ (next : Option Window → Result (Option Window × Manager Surface)) (m : Manager Surface)
      (later : (hint : Option Window) → Ensures (Selected m) (next hint)) where
    try_parent-Selected :
        (parent : Option Window) → Ensures (Selected m) (try_parent api next m parent)
    unfolding try_parent
    try_parent-Selected none = ([], tell-nil m)
    try_parent-Selected (some parent) = later (some parent)

    try_window-Selected :
        (info : WindowInfo) (w : Window) (may : Bool)
        → info_for m w ≡ ok info
        → can_have_focus api m info ≡ may
        → visible_dialog api m info.children ≡ ok none
        → Ensures (Selected m) (try_window api next m info w may)
    unfolding try_window
    try_window-Selected info w true known may leaf = give_focus-Selected m w info known may leaf
    try_window-Selected info w false known may leaf = try_parent-Selected (handle m info.parent)

    try_child-Selected :
        (info : WindowInfo) (w : Window) (child : Option Window)
        → info_for m w ≡ ok info
        → visible_dialog api m info.children ≡ ok child
        → Ensures (Selected m) (try_child api next m info w child)
    unfolding try_child
    try_child-Selected info w (some child) known looked = later (some child)
    try_child-Selected info w none known leaf =
        try_window-Selected info w (can_have_focus api m info) known refl leaf

    try_hint-Selected : (hint : Option Window) → Ensures (Selected m) (try_hint api next m hint)
    unfolding try_hint
    try_hint-Selected none = clear_focus-Selected m (active_window api m)
    try_hint-Selected (some w) = Ensures-bind (Selected m) (info_for m w) _ λ info known.
        Ensures-bind (Selected m) (visible_dialog api m info.children) _
          λ child looked. try_child-Selected info w child known looked

  select-Selected :
      (fuel : ℕ) (m : Manager Surface) (hint : Option Window)
      → Ensures (Selected m) (select_active_window api fuel m hint)
  unfolding select_active_window
  select-Selected zero m hint = tt
  select-Selected (suc fuel) m hint =
      try_hint-Selected (select_active_window api fuel m) m (select-Selected fuel m) (handle m hint)

  -- A call that returns either selects no window, and changes nothing but what it reports, or gives
  -- the focus to a window that may have it and that has no visible dialog: that window becomes the
  -- one active last, and the window that was active before, if it is another one, is told of its
  -- loss before the new one is told of its gain.
  pub select_active_window-Selected :
      (fuel : ℕ) (m : Manager Surface) (hint : Option Window) {r : Option Window × Manager Surface}
      → select_active_window api fuel m hint ≡ ok r
      → Selected m r
  select_active_window-Selected fuel m hint e =
      subst (Ensures (Selected m)) e (select-Selected fuel m hint)
