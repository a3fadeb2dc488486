-- ===== src/BasicWindowManager/Insertion/Rules.antt =====
-- The rules of `place_new_surface` in miral/basic_window_manager.cpp, apart from their order.
use miral.Prelude.{
  ◌≡◌, ◌≢◌, [], ◌∷◌, any, if◌then◌else◌, refl, ap, inl, inr, Bool, true, false, ◌&&◌, Option, none,
  some, Bool-cases, arith, ◌⊎◌,
}
use miral.Prelude.Int.{ℤ, pos, ltb_ℤ, eqb_ℤ, eq_of_parts}
use miral.Types.{
  WindowState, normal, fullscreen, maximized, vertmaximized, horizmaximized, state_eq,
}
use miral.Geometry.{Geometry, Point, Size, Rectangle}
use miral.WindowSpecification.{WindowSpecification}
use miral.WindowInfo.{value_or_default}
use miral.Placement.{place_relative}
use miral.BasicWindowManager.Insertion.{is_set, default_place, not_above, names_output}

pub is_set-some : {A : Type 0} (o : Option A) → is_set o ≡ true → (a : A) × (o ≡ some a)
is_set-some none e = absurd (ground (arith, e))
is_set-some (some a) e = (a, refl)

pub place_relative-set :
    (g : Geometry) (area parent : Rectangle) (parameters : WindowSpecification) (size : Size)
    → is_set parameters.placement_hints ≡ true
    → is_set parameters.window_placement_gravity ≡ true
    → is_set parameters.aux_rect ≡ true
    → is_set parameters.aux_rect_placement_gravity ≡ true
    → (r : Rectangle) × (place_relative g area parent parameters size ≡ some r)
unfolding place_relative
place_relative-set g area parent parameters size hints window aux_rect aux =
    let (_, a) = is_set-some parameters.placement_hints hints in
    let (_, b) = is_set-some parameters.window_placement_gravity window in
    let (_, c) = is_set-some parameters.aux_rect aux_rect in
    let (_, d) = is_set-some parameters.aux_rect_placement_gravity aux in rw (a, b, c, d) (_, refl)

-- The request with another position, size and state, and with its type or the default one.
abbrev pub replaced : WindowSpecification → Option Point → Size → WindowState → WindowSpecification
replaced parameters top_left size state = record parameters {
  type = some (value_or_default parameters.type normal);
  top_left = top_left;
  size = some size;
  state = some state;
}

-- What a placement relative to a parent reads is set if that placement is asked for.
abbrev pub AsksInFull : WindowSpecification → Type 0
AsksInFull parameters =
    (is_set parameters.aux_rect && is_set parameters.placement_hints ≡ false)
    ⊎ ((is_set parameters.window_placement_gravity ≡ true)
        × (is_set parameters.aux_rect_placement_gravity ≡ true))

-- The client names no output: none, or the one with the number zero.
abbrev pub Unnamed : Option ℤ → Type 0
Unnamed id = (id ≡ none) ⊎ (id ≡ some (pos 0))

-- A client that names an output names a position too.
abbrev pub HasPosition : WindowSpecification → Type 0
HasPosition parameters =
    Unnamed parameters.output_id ⊎ ((p : Point) × (parameters.top_left ≡ some p))

pub names_output_lem :
    (o : Option ℤ)
    → ((names_output o ≡ false) × Unnamed o)
      ⊎ ((names_output o ≡ true) × ((id : ℤ) × (o ≡ some id) × (id ≢ pos 0)))
names_output_lem none = inl (refl, inl refl)
names_output_lem (some id) = elim (Bool-cases (eqb_ℤ id (pos 0))) [
  | inl zero ↦ inl (rw zero refl, inr (ap some (eq_of_parts id (pos 0) (ground (arith, zero)))))
  | inr other ↦
      inr (rw other refl, (id, refl, (λ e. ground (arith, other, ap (λ x. eqb_ℤ x (pos 0)) e))))
]

-- The states in which a window reaches from side to side of its display, and from top to bottom.
abbrev pub across : WindowState → Bool
across now = any (state_eq now) (fullscreen ∷ maximized ∷ horizmaximized ∷ [])

abbrev pub down : WindowState → Bool
down now = any (state_eq now) (fullscreen ∷ maximized ∷ vertmaximized ∷ [])

-- A place on a display around a middle.
abbrev pub filling : WindowState → Rectangle → Point → Size → Rectangle
filling now area middle size = record {
  top_left = record {
    x = if across now then area.top_left.x else middle.x;
    y = if down now then area.top_left.y else middle.y;
  };
  size = record {
    width = if across now then area.size.width else size.width;
    height = if down now then area.size.height else size.height;
  };
}

pub filling_lem :
    (now : WindowState) (area : Rectangle) (middle : Point) (size : Size)
    → default_place now area middle size ≡ filling now area middle size
unfolding default_place
filling_lem now area middle size = ground arith

abbrev pub lowered : ℤ → Point → Point
lowered least p = record p { y = if ltb_ℤ p.y least then least else p.y }

pub lowered_lem : (area : Rectangle) (p : Point) → not_above area p ≡ lowered area.top_left.y p
unfolding not_above
lowered_lem area p = ground arith
