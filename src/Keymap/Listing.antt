-- ===== src/Keymap/Listing.antt =====
-- miral/keymap.cpp: which devices are listed as keyboards.
use miral.Prelude.{
  ℕ, ◌≡◌, ◌∙◌, refl, sym, ap, subst, inl, inr, Bool, true, false, ◌||◌, some, List, [], ◌∷◌, ◌++◌,
  ◌==◌, if◌then◌else◌, contains, Bool-cases, ==_iff, arith,
}
use mathlib.Core.Option.{some-injective}
use miral.WindowInfo.{remove_first}
use miral.BasicWindowManager.Family.{contains-remove_first-other, contains-remove_first-same}
use miral.Keymap.{
  Keymap, InputKeymap, Event, keymap_set, added, changed, removed, apply_keymap, set_keymap,
  add_keyboard, device_added, device_changed, device_removed, handle_event,
}
use miral.Keymap.Keyboards.{IsApplied, Expected, apply_all-Alike}

-- Whether a device is a keyboard after an event.
unfoldable pub listed_after : ℕ → Event → Bool → Bool
listed_after d (keymap_set keymap) before = before
listed_after d (added e is_keyboard) before = if d == e then is_keyboard || before else before
listed_after d (changed e is_keyboard) before = if d == e then is_keyboard else before
listed_after d (removed e true) before = if d == e then false else before
listed_after d (removed e false) before = before

-- Whether it is one after some events.
unfoldable pub listed_by : ℕ → List Event → Bool → Bool
listed_by d [] before = before
listed_by d (event ∷ events) before = listed_by d events (listed_after d event before)

append-lists :
    (d e : ℕ) (ds : List ℕ) → contains d (ds ++ e ∷ []) ≡ (if d == e then true else contains d ds)
append-lists d e [] = ground arith
append-lists d e (x ∷ ds) = ground (arith, append-lists d e ds)

remove-lists :
    (d e : ℕ) (self : Keymap)
    → IsApplied self
    → contains d (remove_first e self.keyboards)
      ≡ (if d == e then false else contains d self.keyboards)
remove-lists d e self is = elim (Bool-cases (d == e)) [
  | inl same ↦ rw same (
      subst (λ u. contains u (remove_first e self.keyboards) ≡ false) (sym ((==_iff d e).0 same))
        (contains-remove_first-same e self.keyboards is.distinct))
  | inr other ↦ rw other (contains-remove_first-other d e self.keyboards other)
]

-- A device that is listed, or is not, as it is to be.
as_before :
    (d e : ℕ) (ds : List ℕ) (listed : Bool)
    → contains e ds ≡ listed
    → contains d ds ≡ (if d == e then listed else contains d ds)
as_before d e ds listed h = elim (Bool-cases (d == e)) [
  | inl same ↦ rw same (subst (λ u. contains u ds ≡ listed) (sym ((==_iff d e).0 same)) h)
  | inr other ↦ rw other refl
]

module _ (default : InputKeymap) (d : ℕ) where
  add-lists :
      (self : Keymap) (e : ℕ)
      → contains d (add_keyboard default self e).keyboards
        ≡ (if d == e then true else contains d self.keyboards)
  unfolding add_keyboard apply_keymap
  add-lists self e = append-lists d e self.keyboards

  changed_on-lists :
      (self : Keymap) (e : ℕ)
      → contains d
          (if contains e self.keyboards then self else add_keyboard default self e).keyboards
        ≡ (if d == e then true else contains d self.keyboards)
  changed_on-lists self e = elim (Bool-cases (contains e self.keyboards)) [
    | inl listed ↦ rw listed (as_before d e self.keyboards true listed)
    | inr fresh ↦ rw fresh (add-lists self e)
  ]

  changed_off-lists :
      (self : Keymap) (e : ℕ)
      → IsApplied self
      → contains d
          (if contains e self.keyboards
            then record self { keyboards = remove_first e self.keyboards }
            else self).keyboards
        ≡ (if d == e then false else contains d self.keyboards)
  changed_off-lists self e is = elim (Bool-cases (contains e self.keyboards)) [
    | inl listed ↦ rw listed (remove-lists d e self is)
    | inr fresh ↦ rw fresh (as_before d e self.keyboards false fresh)
  ]

  pub event-lists :
      (self next : Keymap) (event : Event)
      → Expected self event
      → IsApplied self
      → handle_event default self event ≡ some next
      → contains d next.keyboards ≡ listed_after d event (contains d self.keyboards)
  unfolding handle_event listed_after device_added device_changed device_removed set_keymap
  event-lists self next (keymap_set keymap) h is e =
      let (_, _, _, same) = apply_all-Alike default self.keyboards _ in
      ap (λ x. contains d x.keyboards) (sym (some-injective _ next e)) ∙ ap (contains d) same
  event-lists self next (added v true) h is e =
      ap (λ x. contains d x.keyboards) (sym (some-injective _ next e)) ∙ add-lists self v
  event-lists self next (added v false) h is e =
      ap (λ x. contains d x.keyboards) (sym (some-injective _ next e)) ∙ ground arith
  event-lists self next (changed v true) h is e =
      ap (λ x. contains d x.keyboards) (sym (some-injective _ next e)) ∙ changed_on-lists self v
  event-lists self next (changed v false) h is e =
      ap (λ x. contains d x.keyboards) (sym (some-injective _ next e)) ∙ changed_off-lists self v is
  event-lists self next (removed v true) h is e =
      ap (λ x. contains d x.keyboards)
        (some-injective next (record self { keyboards = remove_first v self.keyboards })
          (sym e ∙ rw h refl))
      ∙ remove-lists d v self is
  event-lists self next (removed v false) h is e =
      ap (λ x. contains d x.keyboards) (sym (some-injective _ next e))
