-- ===== src/BasicWindowManager/Focus/Termination.antt =====
-- The recursion of `select_active_window` in miral/basic_window_manager.cpp, up to a parent and down to a dialog.
use miral.Prelude.{
  ℕ, zero, suc, ◌+◌, ◌<◌, ◌≡◌, refl, ◌⊎◌, inl, inr, Bool, true, false, Option, none, some, List, [],
  ◌∷◌, arith, All, ◌==◌, Bool-cases, Option-cases,
}
use miral.Types.{dialog, type_eq_iff}
use miral.MruWindowList.{Window}
use miral.MruWindowList.Top.{top-All}
use miral.WindowInfo.{WindowInfo, can_be_active}
use miral.BasicWindowManager.Surfaces.{SurfaceApi}
use miral.BasicWindowManager.State.{
  Manager, Result, ok, info_for, alive, handle, active_window, visible,
}
use miral.BasicWindowManager.Forest.{Known, IsForest, Returns, Returns-bind}
use miral.BasicWindowManager.Focus.{
  is_visible_dialog, can_have_focus, visible_dialog, focus_lost, clear_focus, give_focus,
  try_parent, try_window, try_child, try_hint, select_active_window,
}

module _ {Surface : Type 0} (api : SurfaceApi Surface) (m : Manager Surface) (depth : Window → ℕ)
    (limit : ℕ) (forest : IsForest m depth limit) where
  abbrev pub IsDialog : Window → Type 0
  IsDialog w =
      (info : WindowInfo) × (info_for m w ≡ ok info) × (is_visible_dialog api m info ≡ true)

  pub active-Known : (w : Window) → active_window api m ≡ some w → Known m w
  unfolding active_window
  active-Known w e = top-All (visible api m) (Known m) m.mru_active_windows forest.active e

  pub focus_lost-Returns :
      (w : Window) (prev : Option Window)
      → active_window api m ≡ prev
      → Returns (focus_lost m prev w)
  unfolding focus_lost
  focus_lost-Returns w none e = ([], refl)
  focus_lost-Returns w (some prev) e = elim (Bool-cases (prev == w)) [
    | inl same ↦ rw same ([], refl)
    | inr other ↦
        rw other (Returns-bind (info_for m prev) _ (active-Known prev e) (λ _ _. (_, refl)))
  ]

  clear_focus-Returns :
      (prev : Option Window) → active_window api m ≡ prev → Returns (clear_focus m prev)
  unfolding clear_focus
  clear_focus-Returns none e = (_, refl)
  clear_focus-Returns (some prev) e =
      Returns-bind (info_for m prev) _ (active-Known prev e) (λ _ _. (_, refl))

  give_focus-Returns : (w : Window) → Returns (give_focus api m w)
  unfolding give_focus
  give_focus-Returns w =
      Returns-bind (focus_lost m (active_window api m) w) _
        (focus_lost-Returns w (active_window api m) refl) (λ _ _. (_, refl))

  -- The search among the children returns, and what it finds is a dialog that is deeper.
  pub visible_dialog-cases :
      (d : ℕ) (cs : List Window)
      → All (λ c. Known m c × (d < depth c)) cs
      → (visible_dialog api m cs ≡ ok none)
        ⊎ ((c : Window) × (visible_dialog api m cs ≡ ok (some c)) × IsDialog c × (d < depth c))
  unfolding visible_dialog
  visible_dialog-cases d [] h = inl refl
  visible_dialog-cases d (c ∷ cs) (((info, known), deeper), h) =
      elim (Bool-cases (is_visible_dialog api m info)) [
        | inl yes_dialog ↦ inr (c, rw (known, yes_dialog), (info, known, yes_dialog), deeper)
        | inr no_dialog ↦ rw (known, no_dialog) (visible_dialog-cases d cs h)
      ]

  pub dialog-can_have_focus :
      (info : WindowInfo) → is_visible_dialog api m info ≡ true → can_have_focus api m info ≡ true
  unfolding is_visible_dialog can_have_focus can_be_active
  dialog-can_have_focus info h = ground (arith, type_eq_iff info.type dialog)

  -- Once the window is known to exist, it or a child is selected, or the search goes on above.
  module _ (next : Option Window → Result (Option Window × Manager Surface)) where
    try_window-Returns :
        (info : WindowInfo) (w : Window)
        → ((p : Window) → handle m info.parent ≡ some p → Returns (next (some p)))
        → (may : Bool) → Returns (try_window api next m info w may)
    unfolding try_window try_parent
    try_window-Returns info w up true = give_focus-Returns w
    try_window-Returns info w up false = elim (Option-cases (handle m info.parent)) [
      | inl root ↦ rw root (_, refl)
      | inr (p, above) ↦ rw above (up p above)
    ]

    -- For a hint that exists.
    found_hint-Returns :
        (w : Window) (info : WindowInfo)
        → info_for m w ≡ ok info
        → ((c : Window) → IsDialog c → depth w < depth c → Returns (next (some c)))
        → (can_have_focus api m info ≡ true)
          ⊎ ((p : Window) → handle m info.parent ≡ some p → Returns (next (some p)))
        → Returns (try_hint api next m (some w))
    unfolding try_hint try_child try_window
    found_hint-Returns w info known below above =
        elim (visible_dialog-cases (depth w) info.children (forest.children w info known)) [
          | inr (c, found, is_dialog, deeper) ↦ rw (known, found) (below c is_dialog deeper)
          | inl leaf ↦
              rw (known, leaf)
                (elim above [
                  | inl may ↦ rw may (give_focus-Returns w)
                  | inr up ↦ try_window-Returns info w up (can_have_focus api m info)
                ])
        ]

    try_hint-Returns :
        (w : Window) (info : WindowInfo)
        → info_for m w ≡ ok info
        → ((c : Window) → IsDialog c → depth w < depth c → Returns (next (some c)))
        → ((can_have_focus api m info ≡ true)
            ⊎ ((p : Window) → handle m info.parent ≡ some p → Returns (next (some p))))
        → Returns (try_hint api next m (handle m (some w)))
    unfolding try_hint
    try_hint-Returns w info known below above = elim (Bool-cases (alive m w)) [
      | inl there ↦ rw there (found_hint-Returns w info known below above)
      | inr gone ↦ rw gone (clear_focus-Returns (active_window api m) refl)
    ]

  -- Going down.
  down :
      (fuel : ℕ) (w : Window)
      → IsDialog w
      → limit < fuel + depth w
      → Returns (select_active_window api fuel m (some w))
  unfolding select_active_window
  down zero w d h = absurd (omega (arith, forest.bounded w))
  down (suc fuel) w (info, known, is_dialog) h =
      try_hint-Returns (select_active_window api fuel m) w info known
        (λ c d deeper. down fuel c d (omega arith)) (inl (dialog-can_have_focus info is_dialog))

  -- Going up, until the way leads down.
  up :
      (fuel : ℕ) (w : Window)
      → Known m w
      → suc (limit + depth w) < fuel
      → Returns (select_active_window api fuel m (some w))
  unfolding select_active_window
  up zero w k h = absurd (omega arith)
  up (suc fuel) w (info, known) h =
      try_hint-Returns (select_active_window api fuel m) w info known
        (λ c d deeper. down fuel c d (omega (arith, forest.bounded c)))
        (inr λ p above.
          let (k, higher) = forest.parent w p info known above in up fuel p k (omega arith))

  -- Where parents and children form a forest of a bounded depth, and the hint has a record, `select_active_window`
  -- returns: it throws nothing, and twice the bound and two calls are enough.
  pub select_active_window-Returns :
      (hint : Option Window)
      → ((w : Window) → hint ≡ some w → Known m w)
      → Returns (select_active_window api (suc (suc (limit + limit))) m hint)
  unfolding select_active_window try_hint
  select_active_window-Returns none known = clear_focus-Returns (active_window api m) refl
  select_active_window-Returns (some w) known =
      up (suc (suc (limit + limit))) w (known w refl) (omega (arith, forest.bounded w))
