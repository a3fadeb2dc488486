-- ===== src/BasicWindowManager/Movement/Drag.antt =====
-- The effect of `drag_window` in miral/basic_window_manager.cpp.
use miral.Prelude.{
  ℕ, suc, ◌≤◌, ◌≡◌, ◌≢◌, refl, sym, ap, subst, ◌∙◌, inl, inr, Bool, true, false, ◌&&◌, ◌||◌, none,
  some, [], ◌∷◌, any, arith, if◌then◌else◌, ◌==◌, Bool-cases, ==_iff,
}
use miral.Prelude.Int.{pos, ◌+ℤ◌, +ℤ-zero, eq_of_parts}
use mathlib.Core.Option
use miral.Types.{
  WindowType, normal, utility, dialog, satellite, freestyle, WindowState, restored, vertmaximized,
  horizmaximized, type_eq, state_eq,
}
use miral.Geometry.{
  origin, empty_size, Point, Displacement, Rectangle, translate, displacement_eq, no_displacement,
}
use miral.MruWindowList.{Window}
use miral.WindowInfo.{WindowInfo}
use miral.BasicWindowManager.Surfaces.{SurfaceApi}
use miral.BasicWindowManager.State.{Manager, ok, info_for, window_top_left, window_size}
use miral.BasicWindowManager.Forest.{IsForest}
use miral.BasicWindowManager.Movement.{is_draggable, allowed_movement, shifted, drag, drag_window}
use miral.BasicWindowManager.Movement.Trees.{destination, move_tree-Moves}

differ : (v w : Window) → v ≢ w → v == w ≡ false
differ v w other = ground (arith, other)

module _ {Surface : Type 0} (api : SurfaceApi Surface) where
  pub placed :
      (m : Manager Surface) (w : Window) {s : Surface}
      → m.surfaces w ≡ some s
      → window_top_left api m w ≡ api.top_left s
  unfolding window_top_left
  placed m w there = ap (λ o. elim o [ none ↦ origin | some s ↦ api.top_left s ]) there

  pub sized :
      (m : Manager Surface) (w : Window) {s : Surface}
      → m.surfaces w ≡ some s
      → window_size api m w ≡ api.size s
  unfolding window_size
  sized m w there = ap (λ o. elim o [ none ↦ empty_size | some s ↦ api.size s ]) there

  -- A window is where its surface is.
  pub alike :
      (m m' : Manager Surface) (w : Window)
      → m'.surfaces w ≡ m.surfaces w
      → (window_top_left api m' w ≡ window_top_left api m w)
        × (window_size api m' w ≡ window_size api m w)
  unfolding window_top_left window_size
  alike m m' w e = (
    ap (λ o. elim o [ none ↦ origin | some s ↦ api.top_left s ]) e,
    ap (λ o. elim o [ none ↦ empty_size | some s ↦ api.size s ]) e,
  )

-- The types that may be dragged, and the states that may be moved at all, across and down.
abbrev pub draggable : WindowType → Bool
draggable kind = any (type_eq kind) (normal ∷ utility ∷ dialog ∷ satellite ∷ freestyle ∷ [])

abbrev pub moves_across : WindowType → WindowState → Bool
moves_across kind now = draggable kind && any (state_eq now) (restored ∷ vertmaximized ∷ [])

abbrev pub moves_down : WindowType → WindowState → Bool
moves_down kind now = draggable kind && any (state_eq now) (restored ∷ horizmaximized ∷ [])

abbrev pub moves : WindowType → WindowState → Bool
moves kind now = moves_across kind now || moves_down kind now

-- What is left of a movement: a window that is maximised in one direction moves in the other only.
abbrev pub permitted : WindowType → WindowState → Displacement → Displacement
permitted kind now requested = record {
  dx = if moves_across kind now then requested.dx else pos 0;
  dy = if moves_down kind now then requested.dy else pos 0;
}

draggable_lem : (kind : WindowType) → is_draggable kind ≡ draggable kind
unfolding is_draggable
draggable_lem kind = ground arith

-- For a window that may be dragged, or not.
allowed_if :
    (may : Bool) (now : WindowState) (requested : Displacement)
    → (if may then allowed_movement now requested else none) ≡ (
        if may && any (state_eq now) (restored ∷ vertmaximized ∷ [])
          || may && any (state_eq now) (restored ∷ horizmaximized ∷ [])
        then some (record {
          dx =
              if may && any (state_eq now) (restored ∷ vertmaximized ∷ [])
              then requested.dx
              else pos 0;
          dy =
              if may && any (state_eq now) (restored ∷ horizmaximized ∷ [])
              then requested.dy
              else pos 0;
        })
        else none)
unfolding allowed_movement
allowed_if false now requested = refl
allowed_if true now requested = ground arith

allowed_lem :
    (kind : WindowType) (now : WindowState) (requested : Displacement)
    → (if is_draggable kind then allowed_movement now requested else none)
      ≡ (if moves kind now then some (permitted kind now requested) else none)
allowed_lem kind now requested =
    ap (λ b. if b then allowed_movement now requested else none) (draggable_lem kind)
    ∙ allowed_if (draggable kind) now requested

not_moved :
    (kind : WindowType) (now : WindowState) (requested : Displacement) (p : Point)
    → moves kind now ≡ false
    → translate p (permitted kind now requested) ≡ p
not_moved kind now requested p fixed =
    let across : moves_across kind now ≡ false = ground (arith, fixed) in
    let down : moves_down kind now ≡ false = ground (arith, fixed) in
    λ i. record {
      x = (ap (λ b. p.x +ℤ (if b then requested.dx else pos 0)) across ∙ +ℤ-zero p.x) i;
      y = (ap (λ b. p.y +ℤ (if b then requested.dy else pos 0)) down ∙ +ℤ-zero p.y) i;
    }

module _ {Surface : Type 0} (api : SurfaceApi Surface)
    (confirm : Manager Surface → WindowInfo → Displacement → Rectangle) (start : Manager Surface)
    (depth : Window → ℕ) (limit : ℕ) (forest : IsForest start depth limit) where
  -- The root itself.
  module _ (w : Window) (s : Surface) (there : start.surfaces w ≡ some s)
      (movement : Displacement) where
    still_lem :
        (p : Point) → displacement_eq movement no_displacement ≡ true → translate p movement ≡ p
    still_lem p still =
        let dx : movement.dx ≡ pos 0 = ground (arith, eq_of_parts movement.dx (pos 0)) in
        let dy : movement.dy ≡ pos 0 = ground (arith, eq_of_parts movement.dy (pos 0)) in
        λ i. record {
          x = (ap (λ d. p.x +ℤ d) dx ∙ +ℤ-zero p.x) i;
          y = (ap (λ d. p.y +ℤ d) dy ∙ +ℤ-zero p.y) i;
        }

    abbrev target : Point
    target = translate (window_top_left api start w) movement

    shifted-surfaces : (shifted api start w movement).surfaces w ≡ some (api.move_to target s)
    unfolding shifted
    shifted-surfaces = rw ((==_iff w w).1 refl) (ap (Option.map (api.move_to target)) there)

    -- The root is shifted by the movement and keeps its size.
    destination_lem :
        (window_top_left api (destination api confirm start depth limit forest start w movement) w
          ≡ translate (api.top_left s) movement)
        × (window_size api (destination api confirm start depth limit forest start w movement) w
            ≡ api.size s)
    destination_lem = elim (Bool-cases (displacement_eq movement no_displacement)) [
      | inl still ↦ rw still (
        placed api start w there ∙ sym (still_lem (api.top_left s) still),
        sized api start w there,
      )
      | inr moving ↦
          let now = api.move_to target s in
          rw moving (
            placed api (shifted api start w movement) w shifted-surfaces
                ∙ api.top_left-move_to target s
                ∙ ap (λ p. translate p movement) (placed api start w there),
            sized api (shifted api start w movement) w shifted-surfaces ∙ api.size-move_to target s,
          )
    ]

    destination-other :
        (v : Window)
        → v ≢ w
        → (destination api confirm start depth limit forest start w movement).surfaces v
          ≡ start.surfaces v
    unfolding shifted
    destination-other v other = elim (Bool-cases (displacement_eq movement no_displacement)) [
      | inl still ↦ rw still refl
      | inr moving ↦ rw (moving, differ v w other) refl
    ]

    drag_window-some :
        {info : WindowInfo} (requested : Displacement) (v : Window)
        → info_for start w ≡ ok info
        → (if is_draggable info.type then allowed_movement info.state requested else none)
          ≡ some movement
        → v ≢ w
        → depth v ≤ depth w
        → (m : Manager Surface) × (drag_window api confirm (suc limit) start (some w) requested
            ≡ ok (movement, m))
          × (window_top_left api m w ≡ translate (api.top_left s) movement)
          × (window_size api m w ≡ api.size s)
          × (m.surfaces v ≡ start.surfaces v)
    unfolding drag_window
    drag_window-some {info} requested v known permitted other no_deeper =
        let (m, is, (same, above)) =
          move_tree-Moves api confirm start depth limit forest (suc limit) w (omega arith) start
            info movement refl known in
        let at_w = above w (omega arith) in
        let moved : drag api confirm (suc limit) start info requested (some movement)
            ≡ ok (movement, m) =
          rw is refl in
        (
          m,
          rw known (
              subst (λ o. drag api confirm (suc limit) start info requested o ≡ ok (movement, m))
                (sym permitted) moved),
          (alike api (destination api confirm start depth limit forest start w movement) m w at_w).0
              ∙ destination_lem.0,
          (alike api (destination api confirm start depth limit forest start w movement) m w at_w).1
              ∙ destination_lem.1,
          above v no_deeper ∙ destination-other v other,
        )

  -- Whatever the type and the state of the window are, where parents and children form a forest of a bounded depth, a
  -- drag returns. A window of one of the five types that may be dragged moves as requested if it is restored, across only
  -- if it is vertically maximised, and down only if it is horizontally maximised; every other window stays where it is.
  -- The window keeps its size, and each other window that is no deeper is left alone. The movement that is handed back
  -- is the one that was made, or the one requested for a window of another type or in another state.
  pub drag_window-allowed :
      (w v : Window) (s : Surface) {info : WindowInfo} (requested : Displacement)
      → start.surfaces w ≡ some s
      → info_for start w ≡ ok info
      → v ≢ w
      → depth v ≤ depth w
      → (m : Manager Surface) × (drag_window api confirm (suc limit) start (some w) requested
          ≡ ok (
            if moves info.type info.state
                then permitted info.type info.state requested
                else requested,
            m,
          ))
        × (window_top_left api m w
            ≡ translate (api.top_left s) (permitted info.type info.state requested))
        × (window_size api m w ≡ api.size s)
        × (m.surfaces v ≡ start.surfaces v)
  unfolding drag_window
  drag_window-allowed w v s {info} requested there known other no_deeper =
      let movement = permitted info.type info.state requested in
      let table = allowed_lem info.type info.state requested in
      elim (Bool-cases (moves info.type info.state)) [
        | inl may ↦ rw may (
            drag_window-some w s there movement {info = info} requested v known
              (table ∙ ap (λ b. if b then some movement else none) may) other no_deeper)
        | inr fixed ↦
            let none_allowed : (if is_draggable info.type
                  then allowed_movement info.state requested
                  else none)
                ≡ none =
              table ∙ ap (λ b. if b then some movement else none) fixed in
            rw fixed (
              start,
              rw known (ap (drag api confirm (suc limit) start info requested) none_allowed),
              placed api start w there
                  ∙ sym (not_moved info.type info.state requested (api.top_left s) fixed),
              sized api start w there,
              refl,
            )
      ]
