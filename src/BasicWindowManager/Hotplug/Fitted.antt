-- ===== src/BasicWindowManager/Hotplug/Fitted.antt =====
-- miral/basic_window_manager.cpp: what `add_display` and `remove_display` do to fullscreen windows.
use miral.Prelude.{
  ℕ, suc, ◌≤◌, ◌≡◌, ◌∙◌, refl, sym, ap, subst, inl, inr, Bool, true, false, none, some, List, [],
  ◌∷◌, arith, ◌==◌, contains, Bool-cases, Option-cases, ==_iff, All,
}
use miral.Geometry.{Rectangle, Displacement}
use miral.MruWindowList.{Window}
use miral.WindowInfo.{WindowInfo}
use miral.BasicWindowManager.Surfaces.{SurfaceApi}
use miral.BasicWindowManager.State.{
  Manager, ok, ◌>>=◌, info_for, alive, window_top_left, window_size,
}
use miral.BasicWindowManager.Forest.{Known, IsForest, info_for-key}
use miral.BasicWindowManager.Family.{Distinct, All-contains, All-of-contained}
use miral.BasicWindowManager.StateChange.{DisplayLayout, fullscreen_rect_for}
use miral.BasicWindowManager.Movement.Drag.{placed, sized, alike}
use miral.BasicWindowManager.Hotplug.{
  Rectangles, fullscreen_rect, refit, refit_all, add_display, remove_display,
}
use miral.BasicWindowManager.Hotplug.Settled.{Surfaces, Settled, place_and_size-Settled}

-- A window fills a rectangle.
abbrev pub Fills :
    {Surface : Type 0} → SurfaceApi Surface → Window → Rectangle → Manager Surface → Type 0
Fills api w r m = (window_top_left api m w ≡ r.top_left) × (window_size api m w ≡ r.size)

module _ {Surface : Type 0} (api : SurfaceApi Surface)
    (confirm : Manager Surface → WindowInfo → Displacement → Rectangle) (layout : DisplayLayout)
    (start : Manager Surface) (depth : Window → ℕ) (limit : ℕ)
    (forest : IsForest start depth limit) where
  alive-surface :
      (m : Manager Surface) (w : Window)
      → alive m w ≡ true
      → (s : Surface) × (m.surfaces w ≡ some s)
  unfolding alive
  alive-surface m w h = elim (Option-cases (m.surfaces w)) [
    | inl gone ↦ absurd (ground (arith, h, gone))
    | inr (s, there) ↦ (s, there)
  ]

  -- A window of the list, with its surface, in a later state.
  known_later :
      (m : Manager Surface) (w : Window) {info : WindowInfo}
      → m.window_info ≡ start.window_info
      → info_for start w ≡ ok info
      → info_for m w ≡ ok info
  unfolding info_for
  known_later m w same known = rw same known

  refit-Settled :
      (m : Manager Surface) (w : Window) (info : WindowInfo)
      → m.window_info ≡ start.window_info
      → info_for start w ≡ ok info
      → alive m w ≡ true
      → (m' : Manager Surface) × (refit api confirm layout (suc limit) m w ≡ ok m')
        × Settled api confirm start depth limit forest m w (fullscreen_rect api layout m info) m'
  unfolding refit
  refit-Settled m w info same known there =
      let (s, at) = alive-surface m w there in
      let (m', is, settled) =
        place_and_size-Settled api confirm start depth limit forest m w info s
          (fullscreen_rect api layout m info) same known at in
      (m', rw (there, known_later m w {info = info} same known) is, settled)

  refit-gone :
      (m : Manager Surface) (w : Window)
      → alive m w ≡ false
      → refit api confirm layout (suc limit) m w ≡ ok m
  unfolding refit
  refit-gone m w gone = rw gone refl

  module _ (w : Window) where
    -- The records are the same, and so is the surface of the window.
    abbrev Unmoved : Manager Surface → Manager Surface → Type 0
    Unmoved m m' = (m'.window_info ≡ m.window_info) × (m'.surfaces w ≡ m.surfaces w)

    -- A window that has a record and is another one, no less deep.
    abbrev Deeper : Window → Type 0
    Deeper v = Known start v × (w == v ≡ false) × (depth w ≤ depth v)

    refit-Unmoved :
        (m : Manager Surface) (v : Window)
        → m.window_info ≡ start.window_info
        → Deeper v
        → (m' : Manager Surface) × (refit api confirm layout (suc limit) m v ≡ ok m') × Unmoved m m'
    refit-Unmoved m v same ((info, known), other, deeper) = elim (Bool-cases (alive m v)) [
      | inr gone ↦ (m, refit-gone m v gone, (refl, refl))
      | inl there ↦
          let (m', is, (records, _, others)) = refit-Settled m v info same known there in
          (m', is, (records, others w other deeper))
    ]

    refit_all-Unmoved :
        (ws : List Window) (m : Manager Surface)
        → m.window_info ≡ start.window_info
        → All Deeper ws
        → (m' : Manager Surface) × (refit_all api confirm layout (suc limit) ws m ≡ ok m')
          × Unmoved m m'
    unfolding refit_all
    refit_all-Unmoved [] m same h = (m, refl, (refl, refl))
    refit_all-Unmoved (v ∷ vs) m same (deeper, h) =
        let (n, is, (records, surface)) = refit-Unmoved m v same deeper in
        let (m', is', (records', surface')) = refit_all-Unmoved vs n (records ∙ same) h in
        (
          m',
          ap (λ r. r >>= refit_all api confirm layout (suc limit) vs) is ∙ is',
          (records' ∙ records, surface' ∙ surface),
        )

    -- The window has a record, and is no less deep.
    abbrev Below : Window → Type 0
    Below v = Known start v × (depth w ≤ depth v)

    all-Deeper : (ws : List Window) → contains w ws ≡ false → All Below ws → All Deeper ws
    all-Deeper ws missing h = All-of-contained Deeper ws λ v there.
        let (known, deeper) = All-contains Below v ws h there in
        elim (Bool-cases (w == v)) [
          | inr other ↦ (known, other, deeper)
          | inl same ↦ absurd (
              ground (
                arith,
                missing,
                subst (λ u. contains u ws ≡ true) (sym ((==_iff w v).0 same)) there,
              ))
        ]

    alive_same :
        (n m : Manager Surface) → n.surfaces w ≡ m.surfaces w → alive m w ≡ true → alive n w ≡ true
    unfolding alive
    alive_same n m same there =
        ap (λ o. elim o as (λ _. Bool) [ none ↦ false | some s ↦ true ]) same ∙ there

    module _ (info : WindowInfo) (known : info_for start w ≡ ok info) where
      rect-Unmoved :
          (m m' : Manager Surface)
          → m'.surfaces w ≡ m.surfaces w
          → fullscreen_rect api layout m' info ≡ fullscreen_rect api layout m info
      unfolding fullscreen_rect
      rect-Unmoved m m' same =
          let own = info_for-key start w {info = info} known in
          let (top, wide) =
            alike api m m' info.window (subst (λ u. m'.surfaces u ≡ m.surfaces u) (sym own) same) in
          λ i.
            fullscreen_rect_for layout (record { top_left = top i; size = wide i }) info.output_id

      Surfaces-Fills :
          (m : Manager Surface) (r : Rectangle)
          → Surfaces api m w r.top_left r.size
          → Fills api w r m
      Surfaces-Fills m r (t, there, top, wide) =
          (placed api m w there ∙ top, sized api m w there ∙ wide)

      refit_all-Fills :
          (ws : List Window) (m : Manager Surface)
          → m.window_info ≡ start.window_info
          → alive m w ≡ true
          → contains w ws ≡ true
          → Distinct ws
          → All Below ws
          → (m' : Manager Surface) × (refit_all api confirm layout (suc limit) ws m ≡ ok m')
            × Fills api w (fullscreen_rect api layout m info) m'
      unfolding refit_all alive
      refit_all-Fills [] m same there listed distinct h = absurd (ground (arith, listed))
      refit_all-Fills (v ∷ vs) m same there listed (fresh, distinct) (below, h) =
          elim (Bool-cases (v == w)) [
            | inl here ↦
                let is_w = (==_iff v w).0 here in
                let (n, is, (records, surface, _)) = refit-Settled m w info same known there in
                let (m', is', (_, kept)) =
                  refit_all-Unmoved vs n (records ∙ same)
                    (all-Deeper vs (subst (λ u. contains u vs ≡ false) is_w fresh) h) in
                let (t, at, top, wide) = surface in
                (
                  m',
                  ap
                        (λ u.
                          refit api confirm layout (suc limit) m u
                          >>= refit_all api confirm layout (suc limit) vs)
                        is_w
                      ∙ ap (λ r. r >>= refit_all api confirm layout (suc limit) vs) is
                      ∙ is',
                  Surfaces-Fills m' (fullscreen_rect api layout m info) (t, kept ∙ at, top, wide),
                )
            | inr other ↦
                let (n, is, (records, surface)) =
                  refit-Unmoved m v same (below.0, ground (arith, other), below.1) in
                let (m', is', fills) =
                  refit_all-Fills vs n (records ∙ same) (alive_same n m surface there)
                    (ground (arith, listed, other)) distinct h in
                (
                  m',
                  ap (λ r. r >>= refit_all api confirm layout (suc limit) vs) is ∙ is',
                  subst (λ r. Fills api w r m') (rect-Unmoved m n surface) fills,
                )
          ]

      -- Where parents and children form a forest of a bounded depth, the fullscreen windows have records, and each is
      -- listed once: when a display comes or goes, `add_display` and `remove_display` return, and a fullscreen
      -- window that is alive, and is no deeper than the others, fills the rectangle that the layout has for it.
      pub displays-Fill :
          (rectangles : Rectangles) (area : Rectangle)
          → alive start w ≡ true
          → contains w start.fullscreen_surfaces ≡ true
          → Distinct start.fullscreen_surfaces
          → All Below start.fullscreen_surfaces
          → ((m' : Manager Surface) × (add_display api confirm layout
                  (suc limit)
                  rectangles
                  start
                  area
                ≡ ok m')
              × Fills api w (fullscreen_rect api layout start info) m')
            × ((m' : Manager Surface) × (remove_display api confirm layout
                    (suc limit)
                    rectangles
                    start
                    area
                  ≡ ok m')
                × Fills api w (fullscreen_rect api layout start info) m')
      unfolding add_display remove_display alive
      displays-Fill rectangles area there listed distinct below =
          let added : Manager Surface = record start {
            displays = rectangles.add area start.displays;
          } in
          let removed : Manager Surface = record start {
            displays = rectangles.remove area start.displays;
          } in
          let (m, is, fills) =
            refit_all-Fills start.fullscreen_surfaces added refl there listed distinct below in
          let (m', is', fills') =
            refit_all-Fills start.fullscreen_surfaces removed refl there listed distinct below in
          (
            (m, is, subst (λ r. Fills api w r m) (rect-Unmoved start added refl) fills),
            (m', is', subst (λ r. Fills api w r m') (rect-Unmoved start removed refl) fills'),
          )
