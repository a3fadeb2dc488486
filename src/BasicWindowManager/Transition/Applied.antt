-- ===== src/BasicWindowManager/Transition/Applied.antt =====
-- `set_state` in miral/basic_window_manager.cpp: the state that it leaves.
use miral.Prelude.{
  ℕ, suc, ◌+◌, ◌≡◌, ◌∙◌, refl, sym, ap, subst, inl, inr, Bool, true, false, not, ◌&&◌, some, List,
  [], ◌∷◌, ◌++◌, ◌==◌, Bool-cases, arith, contains, filter, ==_iff, if◌then◌else◌, Option-cases,
}
use miral.Types.{WindowState, fullscreen, state_eq, state_eq_iff}
use miral.MruWindowList.{Window}
use miral.WindowInfo.{WindowInfo}
use miral.BasicWindowManager.Surfaces.{SurfaceApi}
use miral.BasicWindowManager.State.{
  Manager, ok, info_for, tell, active_window, advise_state_change, visible, visible-none,
  visible-hidden, with_surface, is_window,
}
use miral.BasicWindowManager.Forest.{Known, IsForest, Told-refl}
use miral.BasicWindowManager.Kin.{
  SameKin, SameKin-trans, kin-IsForest, relisted-SameKin, surface-SameKin, with_info-SameKin,
  with_info-info_for,
}
use miral.BasicWindowManager.Refocus.Attempts.{select-Attempted}
use miral.BasicWindowManager.Transition.{
  listed_fullscreen, hides, handle_set, with_state, leave_if_active, hide_window, enter_if,
  show_window, change_to, set_state,
}
use miral.BasicWindowManager.Transition.Reached.{
  Reached, Reached-refl, Reached-SameKin, Reached-same, Focused-Reached, give_up_focus-Reached,
}

contains-others :
    (v w : Window) (ws : List Window)
    → contains v (filter (λ x. not (x == w)) ws) ≡ (if v == w then false else contains v ws)
contains-others v w [] = ground arith
contains-others v w (x ∷ ws) = ground (arith, contains-others v w ws)

contains-added :
    (v w : Window) (ws : List Window)
    → contains v (ws ++ w ∷ []) ≡ (if v == w then true else contains v ws)
contains-added v w [] = ground arith
contains-added v w (x ∷ ws) = ground (arith, contains-added v w ws)

-- The list after the change: the window if it is fullscreen, and the others as before.
contains-listed :
    (v : Window) (value : WindowState) (w : Window) (ws : List Window)
    → contains v (listed_fullscreen value w ws)
      ≡ (if v == w then state_eq value fullscreen else contains v ws)
unfolding listed_fullscreen
contains-listed v value w ws = elim (Bool-cases (state_eq value fullscreen)) [
  | inr not_full ↦ rw not_full (contains-others v w ws)
  | inl full ↦ elim (Bool-cases (contains w ws)) [
    | inr new ↦ rw (full, new) (contains-added v w ws)
    | inl listed ↦
        rw (full, listed)
          (elim (Bool-cases (v == w)) [
            | inr other ↦ rw other refl
            | inl same ↦
                rw same (subst (λ x. contains x ws ≡ true) (sym ((==_iff v w).0 same)) listed)
          ])
  ]
]

module _ {Surface : Type 0} (api : SurfaceApi Surface) where
  -- The window has the new state, it is listed as fullscreen only in that state, parents and children are the
  -- same, and a window that was made to hide is invisible.
  pub record IsApplied (m n : Manager Surface) (info : WindowInfo) (value : WindowState)
      : Type 0 where
    pub changed : info_for n info.window ≡ ok (record info { state = value })
    pub is_fullscreen :
        (v : Window)
        → contains v n.fullscreen_surfaces ≡ (
            if v == info.window
            then state_eq value fullscreen
            else contains v m.fullscreen_surfaces)
    pub kin : SameKin m n
    pub unseen :
        visible api n info.window && (hides value && not (state_eq info.state value)) ≡ false

  -- A surface that is configured and hidden does not show.
  hidden-visible :
      (f : Surface → Surface) (m : Manager Surface) (w : Window)
      → ((s : Surface) → api.visible (f s) ≡ false)
      → visible api (with_surface f m w) w ≡ false
  hidden-visible f m w unseen =
      let same : w == w ≡ true = (==_iff w w).1 refl in
      elim (Option-cases (m.surfaces w)) [
        | inl gone ↦ visible-none api (with_surface f m w) w (rw (same, gone) refl)
        | inr (s, there) ↦
            visible-hidden api (with_surface f m w) w (f s) (rw (same, there) refl) (unseen s)
      ]

  module _ (depth : Window → ℕ) (limit : ℕ) where
    abbrev fuel : ℕ
    fuel = suc (suc (limit + limit))

    leave_if_active-Reached :
        (lives : ℕ → Bool) (m : Manager Surface) (w : Window) (is_active : Bool)
        → IsForest m depth limit
        → Known m w
        → (n : Manager Surface) × (leave_if_active api fuel lives is_active w m ≡ ok n)
          × Reached m n
    leave_if_active-Reached lives m w true forest known =
        give_up_focus-Reached api depth limit lives m w forest known
    leave_if_active-Reached lives m w false forest known = (m, refl, Reached-refl m forest.active)

    enter_if-Reached :
        (m : Manager Surface) (w : Window) (enters : Bool)
        → IsForest m depth limit
        → Known m w
        → (n : Manager Surface) × (enter_if api fuel enters w m ≡ ok n) × Reached m n
    enter_if-Reached m w false forest known = (m, refl, Reached-refl m forest.active)
    enter_if-Reached m w true forest known =
        let (r, e, f) =
          select-Attempted api m depth limit forest m (some w) (Told-refl m)
            (λ v is. subst (Known m) (ground (arith, is)) known) in
        (
          r.1,
          rw e refl,
          Focused-Reached api depth limit m m forest r (Reached-refl m forest.active) f,
        )

    -- The record of the window in its new state.
    changed-SameKin :
        (m : Manager Surface) (info : WindowInfo) (value : WindowState)
        → IsForest m depth limit
        → info_for m info.window ≡ ok info
        → (info_for (with_state api fuel value m info) info.window
            ≡ ok (record info { state = value }))
          × SameKin m (with_state api fuel value m info)
    changed-SameKin m info value forest known = (
      with_info-info_for (λ i. record i { state = value }) (λ i. (refl, refl, refl)) m info known,
      with_info-SameKin (λ i. record i { state = value }) (λ i. (refl, refl, refl)) m info known
          forest.active,
    )

    hide_window-Applied :
        (lives : ℕ → Bool) (m : Manager Surface) (info : WindowInfo) (value : WindowState)
        → IsForest m depth limit
        → info_for m info.window ≡ ok info
        → (n : Manager Surface) × (hide_window api fuel lives value m info ≡ ok n)
          × (info_for n info.window ≡ ok (record info { state = value }))
          × (n.fullscreen_surfaces ≡ m.fullscreen_surfaces)
          × SameKin m n
          × (visible api n info.window ≡ false)
    unfolding hide_window info_for
    hide_window-Applied lives m info value forest known =
        let w = info.window in
        let changed = with_state api fuel value m info in
        let (is_changed, kin) = changed-SameKin m info value forest known in
        let forest' = kin-IsForest m changed depth limit kin forest in
        let (left, e, reached) =
          leave_if_active-Reached lives changed w (is_window (active_window api changed) w) forest'
            (_, is_changed) in
        let kin' = SameKin-trans m changed left kin (Reached-SameKin changed left reached) in
        let (same_info, same_full, _) = Reached-same changed left w reached in
        let f = λ (s : Surface). api.hide (api.configure_state value s) in
        (
          with_surface f left w,
          rw e refl,
          same_info ∙ is_changed,
          same_full,
          SameKin-trans m left (with_surface f left w) kin'
              (surface-SameKin f left w (kin-IsForest m left depth limit kin' forest).active),
          hidden-visible f left w (λ s. api.visible-hide (api.configure_state value s)),
        )

    show_window-Applied :
        (m : Manager Surface) (info : WindowInfo) (value : WindowState)
        → IsForest m depth limit
        → info_for m info.window ≡ ok info
        → (n : Manager Surface) × (show_window api fuel value m info ≡ ok n)
          × (info_for n info.window ≡ ok (record info { state = value }))
          × (n.fullscreen_surfaces ≡ m.fullscreen_surfaces)
          × SameKin m n
    unfolding show_window info_for
    show_window-Applied m info value forest known =
        let w = info.window in
        let changed = with_state api fuel value m info in
        let (is_changed, kin) = changed-SameKin m info value forest known in
        let f = λ (s : Surface). api.show (api.configure_state value s) in
        let shown = with_surface f changed w in
        let kin_shown =
          SameKin-trans m changed shown kin
            (surface-SameKin f changed w (kin-IsForest m changed depth limit kin forest).active) in
        let (entered, e, reached) =
          enter_if-Reached shown w (hides info.state && not (handle_set (active_window api m)))
            (kin-IsForest m shown depth limit kin_shown forest) (_, is_changed) in
        let (same_info, same_full, _) = Reached-same shown entered w reached in
        (
          entered,
          e,
          same_info ∙ is_changed,
          same_full,
          SameKin-trans m shown entered kin_shown (Reached-SameKin shown entered reached),
        )

    change_to-Applied :
        (lives : ℕ → Bool) (m : Manager Surface) (info : WindowInfo) (value : WindowState)
        (b : Bool)
        → hides value ≡ b
        → IsForest m depth limit
        → info_for m info.window ≡ ok info
        → (n : Manager Surface) × (change_to api fuel lives b value m info ≡ ok n)
          × (info_for n info.window ≡ ok (record info { state = value }))
          × (n.fullscreen_surfaces ≡ m.fullscreen_surfaces)
          × SameKin m n
          × (visible api n info.window && hides value ≡ false)
    change_to-Applied lives m info value true is_hiding forest known =
        let (n, e, changed, full, kin, unseen) =
          hide_window-Applied lives m info value forest known in
        (n, e, changed, full, kin, ap (λ x. x && hides value) unseen)
    change_to-Applied lives m info value false is_showing forest known =
        let (n, e, changed, full, kin) = show_window-Applied m info value forest known in
        (n, e, changed, full, kin, ground (arith, is_showing))

  -- For a window that has the given record, where parents and children form a forest of a bounded depth,
  -- `set_state` returns. The record of the window differs only in the new state; the window is listed as fullscreen
  -- only in that state, and otherwise that list is as before; parents and children are the same; and a window that
  -- was not in that state, and hides in it, is invisible.
  pub set_state-Applied :
      (lives : ℕ → Bool) (m : Manager Surface) (depth : Window → ℕ) (limit : ℕ) (info : WindowInfo)
      (value : WindowState)
      → IsForest m depth limit
      → info_for m info.window ≡ ok info
      → (n : Manager Surface) × (set_state api (suc (suc (limit + limit))) lives m info value
          ≡ ok n)
        × IsApplied m n info value
  unfolding set_state info_for
  set_state-Applied lives m depth limit info value forest known =
      let full = listed_fullscreen value info.window m.fullscreen_surfaces in
      let listed = record m { fullscreen_surfaces = full } in
      elim (Bool-cases (state_eq info.state value)) [
        | inl same ↦ (
          listed,
          rw same refl,
          record {
            changed =
                known
                ∙ ap (λ x. ok (record info { state = x })) ((state_eq_iff info.state value).0 same);
            is_fullscreen = λ v. contains-listed v value info.window m.fullscreen_surfaces;
            kin = relisted-SameKin m m.mru_active_windows full m.calls forest.active;
            unseen = ground (arith, same);
          },
        )
        | inr other ↦
            let told = tell listed (advise_state_change info.window value ∷ []) in
            let kin0 : SameKin m told =
              relisted-SameKin m m.mru_active_windows full told.calls forest.active in
            let (n, e, changed, same_full, kin, unseen) =
              change_to-Applied depth limit lives told info value (hides value) refl
                (kin-IsForest m told depth limit kin0 forest) known in
            (
              n,
              rw other e,
              record {
                changed = changed;
                is_fullscreen = λ v.
                    ap (contains v) same_full
                    ∙ contains-listed v value info.window m.fullscreen_surfaces;
                kin = SameKin-trans m told n kin0 kin;
                unseen = ground (arith, unseen);
              },
            )
      ]
