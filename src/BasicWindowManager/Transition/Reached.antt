-- ===== src/BasicWindowManager/Transition/Reached.antt =====
-- `set_state` in miral/basic_window_manager.cpp: what giving up the focus changes.
use miral.Prelude.{
  ℕ, suc, ◌+◌, ◌≡◌, ◌∙◌, refl, sym, ap, subst, Bool, true, false, Option, none, some, List, ◌++◌,
  All, arith,
}
use miral.MruWindowList.{Window, push}
use miral.BasicWindowManager.Surfaces.{SurfaceApi}
use miral.BasicWindowManager.State.{Call, Manager, ok, info_for, tell, active_window, is_window}
use miral.BasicWindowManager.Forest.{Known, IsForest, Told-refl}
use miral.BasicWindowManager.Kin.{SameKin, push-All, relisted-SameKin, kin-IsForest}
use miral.BasicWindowManager.Focus.{select_active_window}
use miral.BasicWindowManager.Refocus.{Attempt}
use miral.BasicWindowManager.Refocus.Attempts.{
  Focused, Attempted, pushed, select-Attempted, search-Attempted,
}
use miral.BasicWindowManager.Transition.{
  attempt_if, unsettled, focus_other, focus_neighbour, give_up_focus,
}

module _ {Surface : Type 0} where
  abbrev pub relisted : Manager Surface → List Window → List Call → Manager Surface
  relisted m windows calls = record m { mru_active_windows = windows; calls = calls }

  -- Nothing but the order of the windows that were active and the calls differs.
  pub record Reached (m n : Manager Surface) : Type 0 where
    pub windows : List Window
    pub calls : List Call
    pub known : All (Known m) windows
    pub is_relisted : n ≡ relisted m windows calls

  pub Reached-refl : (m : Manager Surface) → All (Known m) m.mru_active_windows → Reached m m
  Reached-refl m known = record {
    windows = m.mru_active_windows;
    calls = m.calls;
    known = known;
    is_relisted = refl;
  }

  pub Reached-IsForest :
      (m n : Manager Surface) (depth : Window → ℕ) (limit : ℕ)
      → IsForest m depth limit
      → Reached m n
      → IsForest n depth limit
  Reached-IsForest m n depth limit forest r =
      subst (λ x. IsForest x depth limit) (sym r.is_relisted)
        (kin-IsForest m (relisted m r.windows r.calls) depth limit
          (relisted-SameKin m r.windows m.fullscreen_surfaces r.calls r.known) forest)

  Known-reached : (m n : Manager Surface) (v : Window) → Reached m n → Known n v → Known m v
  unfolding info_for
  Known-reached m n v r known = subst (λ x. Known x v) r.is_relisted known

  pub Reached-SameKin : (m n : Manager Surface) → Reached m n → SameKin m n
  Reached-SameKin m n r =
      subst (SameKin m) (sym r.is_relisted)
        (relisted-SameKin m r.windows m.fullscreen_surfaces r.calls r.known)

  -- The records, the fullscreen windows and the surfaces are the same.
  pub Reached-same :
      (m n : Manager Surface) (v : Window)
      → Reached m n
      → (info_for n v ≡ info_for m v)
        × (n.fullscreen_surfaces ≡ m.fullscreen_surfaces)
        × (n.surfaces ≡ m.surfaces)
  unfolding info_for
  Reached-same m n v r = (
    ap (λ x. info_for x v) r.is_relisted,
    ap (λ x. x.fullscreen_surfaces) r.is_relisted,
    ap (λ x. x.surfaces) r.is_relisted,
  )

module _ {Surface : Type 0} (api : SurfaceApi Surface) (depth : Window → ℕ) (limit : ℕ) where
  abbrev fuel : ℕ
  fuel = suc (suc (limit + limit))

  pub Focused-Reached :
      (m n : Manager Surface) (forest : IsForest n depth limit)
      (r : Option Window × Manager Surface)
      → Reached m n
      → Focused api n depth limit forest r
      → Reached m r.1
  Focused-Reached m n forest (none, n') r (calls, is) = record {
    windows = r.windows;
    calls = r.calls ++ calls;
    known = r.known;
    is_relisted = is ∙ ap (λ x. tell x calls) r.is_relisted;
  }
  Focused-Reached m n forest (some v, n') r (known, (calls, is)) = record {
    windows = push v r.windows;
    calls = r.calls ++ calls;
    known = push-All m v r.windows (Known-reached m n v r known) r.known;
    is_relisted = is ∙ ap (λ x. tell (pushed v x) calls) r.is_relisted;
  }

  attempt_if-Attempted :
      (n : Manager Surface) (forest : IsForest n depth limit) (b : Bool) (f : Attempt api fuel)
      → Attempted api n depth limit forest (f n)
      → Attempted api n depth limit forest (attempt_if api fuel b f n)
  attempt_if-Attempted n forest true f a = a
  attempt_if-Attempted n forest false f a = ((none, n), refl, Told-refl n)

  -- Giving up the focus returns.
  pub give_up_focus-Reached :
      (lives : ℕ → Bool) (m : Manager Surface) (w : Window)
      → IsForest m depth limit
      → Known m w
      → (n : Manager Surface) × (give_up_focus api fuel lives w m ≡ ok n) × Reached m n
  unfolding give_up_focus focus_neighbour focus_other
  give_up_focus-Reached lives m w forest known =
      let (r1, e1, f1) =
        select-Attempted api m depth limit forest m (some w) (Told-refl m)
          (λ v is. subst (Known m) (ground (arith, is)) known) in
      let reached1 = Focused-Reached m m forest r1 (Reached-refl m forest.active) f1 in
      let forest1 = Reached-IsForest m r1.1 depth limit forest reached1 in
      let (r2, e2, f2) =
        attempt_if-Attempted r1.1 forest1 (unsettled (active_window api r1.1) w)
          (focus_neighbour api fuel lives w)
          (search-Attempted api r1.1 depth limit forest1 r1.1 _ (Told-refl r1.1)) in
      let reached2 = Focused-Reached m r1.1 forest1 r2 reached1 f2 in
      let forest2 = Reached-IsForest m r2.1 depth limit forest reached2 in
      let (r3, e3, f3) =
        attempt_if-Attempted r2.1 forest2 (unsettled (active_window api r2.1) w)
          (focus_other api fuel w)
          (search-Attempted api r2.1 depth limit forest2 r2.1 _ (Told-refl r2.1)) in
      let reached3 = Focused-Reached m r2.1 forest2 r3 reached2 f3 in
      let forest3 = Reached-IsForest m r3.1 depth limit forest reached3 in
      let (r4, e4, f4) =
        attempt_if-Attempted r3.1 forest3 (is_window (active_window api r3.1) w)
          (λ x. select_active_window api fuel x none)
          (select-Attempted api r3.1 depth limit forest3 r3.1 none (Told-refl r3.1)
            (λ v is. absurd (ground (arith, is)))) in
      (r4.1, rw (e1, e2, e3, e4) refl, Focused-Reached m r3.1 forest3 r4 reached3 f4)
