-- ===== src/BasicWindowManager/Focus/Liveness.antt =====
-- `select_active_window` in miral/basic_window_manager.cpp, for a window that can have the focus.
use miral.Prelude.{
  ℕ, zero, suc, ◌+◌, ◌<◌, ◌≡◌, refl, subst, inl, inr, true, false, Option, none, some, arith,
}
use miral.MruWindowList.{Window}
use miral.Types.{WindowState, hidden, minimized}
use miral.WindowInfo.{WindowInfo, is_visible}
use miral.BasicWindowManager.Surfaces.{SurfaceApi}
use miral.BasicWindowManager.State.{
  Manager, Result, ok, info_for, alive, active_window, info_visible,
}
use miral.BasicWindowManager.Forest.{IsForest, info_for-key}
use miral.BasicWindowManager.Focus.{
  is_visible_dialog, can_have_focus, give_focus, try_child, try_window, try_hint,
  select_active_window,
}
use miral.BasicWindowManager.Focus.Termination.{
  visible_dialog-cases, dialog-can_have_focus, focus_lost-Returns,
}

is_visible-none : (state_of : WindowState) → is_visible state_of none ≡ false
unfolding is_visible
is_visible-none hidden = refl
is_visible-none minimized = refl
is_visible-none _ = refl

module _ {Surface : Type 0} (api : SurfaceApi Surface) (m : Manager Surface) (depth : Window → ℕ)
    (limit : ℕ) (forest : IsForest m depth limit) where
  -- The call returns, and has given the focus to a window.
  abbrev pub Selects : Result (Option Window × Manager Surface) → Type 0
  Selects result = (w : Window) × (m' : Manager Surface) × (result ≡ ok (some w, m'))

  give_focus-Selects : (w : Window) → Selects (give_focus api m w)
  unfolding give_focus
  give_focus-Selects w =
      let (lost, e) = focus_lost-Returns api m depth limit forest w (active_window api m) refl in
      rw e (w, _, refl)

  -- A dialog that is visible has a surface.
  dialog-alive :
      (c : Window) (info : WindowInfo)
      → info_for m c ≡ ok info
      → is_visible_dialog api m info ≡ true
      → alive m c ≡ true
  unfolding is_visible_dialog info_visible alive
  dialog-alive c info known yes_dialog =
      subst (λ w. alive m w ≡ true) (info_for-key m c known)
        (ground (arith, yes_dialog, is_visible-none info.state))

  pub select-Selects :
      (fuel : ℕ) (w : Window) (info : WindowInfo)
      → info_for m w ≡ ok info
      → alive m w ≡ true
      → can_have_focus api m info ≡ true
      → limit < fuel + depth w
      → Selects (select_active_window api fuel m (some w))
  unfolding select_active_window try_hint try_child try_window
  select-Selects zero w info known there may h = absurd (omega (arith, forest.bounded w))
  select-Selects (suc fuel) w info known there may h =
      elim (visible_dialog-cases api m depth limit forest (depth w) info.children
        (forest.children w info known)) [
          | inl leaf ↦ rw (there, known, leaf, may) (give_focus-Selects w)
          | inr (c, found, (info_c, known_c, yes_dialog), deeper) ↦
              rw (there, known, found)
                (select-Selects fuel c info_c known_c (dialog-alive c info_c known_c yes_dialog)
                  (dialog-can_have_focus api m depth limit forest info_c yes_dialog) (omega arith))
        ]
