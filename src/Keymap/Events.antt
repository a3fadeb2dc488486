-- ===== src/Keymap/Events.antt =====
-- miral/keymap.cpp, over its life.
use mathlib.Core.Option.{some-injective}
use miral.Prelude.{
  ℕ, ◌≡◌, ◌∙◌, refl, sym, ap, subst, inl, inr, Bool, true, false, contains, Option, none, some,
  List, [], ◌∷◌, Bool-cases, arith,
}
use miral.WindowInfo.{remove_first}
use miral.Keymap.{
  Text, Keymap, InputKeymap, Event, keymap_set, added, changed, removed, token, remainder,
  handle_next, handle_event, handle_events, constructed, set_keymap, apply_all, apply_keymap,
  add_keyboard, device_added, device_changed, device_removed,
}
use miral.Keymap.Names.{set_keymap-tokens}
use miral.Keymap.Listing.{listed_by, event-lists}
use miral.Keymap.Keyboards.{IsApplied, Expected, event-IsApplied}

-- The name that was set last.
abbrev pub last_name : Text → List Event → Text
last_name name [] = name
last_name name (keymap_set keymap ∷ events) = last_name keymap events
last_name name (event ∷ events) = last_name name events

-- The layout, the variant and the options are those of the name.
abbrev pub IsNamed : Keymap → Text → Type 0
IsNamed self name =
    (self.layout ≡ token name)
    × (self.variant ≡ token (remainder name))
    × (self.options ≡ token (remainder (remainder name)))

module _ (default : InputKeymap) where
  add_keyboard-IsNamed :
      (self : Keymap) (device : ℕ) (name : Text)
      → IsNamed self name
      → IsNamed (add_keyboard default self device) name
  unfolding add_keyboard apply_keymap
  add_keyboard-IsNamed self device name is = is

  device_changed-IsNamed :
      (self : Keymap) (device : ℕ) (is_keyboard : Bool) (name : Text)
      → IsNamed self name
      → IsNamed (device_changed default self device is_keyboard) name
  unfolding device_changed
  device_changed-IsNamed self device true name is =
      elim (Bool-cases (contains device self.keyboards)) [
        | inl listed ↦ rw listed is
        | inr fresh ↦ rw fresh (add_keyboard-IsNamed self device name is)
      ]
  device_changed-IsNamed self device false name is =
      elim (Bool-cases (contains device self.keyboards)) [
        | inl listed ↦ rw listed is
        | inr fresh ↦ rw fresh is
      ]

  device_added-IsNamed :
      (self : Keymap) (device : ℕ) (is_keyboard : Bool) (name : Text)
      → IsNamed self name
      → IsNamed (device_added default self device is_keyboard) name
  unfolding device_added
  device_added-IsNamed self device true name is = add_keyboard-IsNamed self device name is
  device_added-IsNamed self device false name is = is

  device_removed-IsNamed :
      (self next : Keymap) (device : ℕ) (is_keyboard : Bool) (name : Text)
      → device_removed default self device is_keyboard ≡ some next
      → IsNamed self name
      → IsNamed next name
  unfolding device_removed
  device_removed-IsNamed self next device true name e is =
      elim (Bool-cases (contains device self.keyboards)) [
        | inl listed ↦
            subst (λ x. IsNamed x name)
              (some-injective (record self { keyboards = remove_first device self.keyboards }) next
                (rw listed at e))
              is
        | inr fresh ↦ absurd (ground (arith, e, fresh))
      ]
  device_removed-IsNamed self next device false name e is =
      subst (λ x. IsNamed x name) (some-injective self next e) is

  event-IsNamed :
      (self next : Keymap) (event : Event) (events : List Event) (name : Text)
      → handle_event default self event ≡ some next
      → IsNamed self name
      → (new : Text) × IsNamed next new × (last_name name (event ∷ events) ≡ last_name new events)
  unfolding handle_event
  event-IsNamed self next (keymap_set keymap) events name e is = (
    keymap,
    subst (λ x. IsNamed x keymap) (some-injective _ next e) (set_keymap-tokens default self keymap),
    refl,
  )
  event-IsNamed self next (added device is_keyboard) events name e is = (
    name,
    subst (λ x. IsNamed x name) (some-injective _ next e)
        (device_added-IsNamed self device is_keyboard name is),
    refl,
  )
  event-IsNamed self next (changed device is_keyboard) events name e is = (
    name,
    subst (λ x. IsNamed x name) (some-injective _ next e)
        (device_changed-IsNamed self device is_keyboard name is),
    refl,
  )
  event-IsNamed self next (removed device is_keyboard) events name e is =
      (name, device_removed-IsNamed self next device is_keyboard name e is, refl)

  abbrev pub NextExpected : (Keymap → Type 0) → Option Keymap → Type 0
  NextExpected expected none = Unit
  NextExpected expected (some next) = expected next

  -- Each event is what is expected of Mir when it comes.
  abbrev pub AllExpected : List Event → Keymap → Type 0
  AllExpected [] self = Unit
  AllExpected (event ∷ events) self =
      Expected self event × NextExpected (AllExpected events) (handle_event default self event)

  run-IsApplied :
      (events : List Event) (self : Keymap) (name : Text)
      → AllExpected events self
      → IsApplied self
      → IsNamed self name
      → (last : Keymap) × (handle_events default events self ≡ some last)
        × IsApplied last
        × ((d : ℕ) → contains d last.keyboards ≡ listed_by d events (contains d self.keyboards))
        × IsNamed last (last_name name events)
  unfolding handle_events listed_by
  run-IsApplied [] self name h is named = (self, refl, is, (λ d. refl), named)
  run-IsApplied (event ∷ events) self name (expected, h) is named =
      let (next, handled, is_next) = event-IsApplied default self event expected is in
      let (new, named', same) = event-IsNamed self next event events name handled named in
      let (last, run, is_last, lists, named_last) =
        run-IsApplied events next new (subst (NextExpected (AllExpected events)) handled h) is_next
          named' in
      (
        last,
        ap (handle_next default (handle_events default events)) handled ∙ run,
        is_last,
        (λ d.
            lists d
            ∙ ap (listed_by d events) (event-lists default d self next event expected is handled)),
        subst (IsNamed last) (sym same) named_last,
      )

  abbrev unnamed : (ℕ → Option InputKeymap) → Keymap
  unnamed configurations = record {
    layout = [];
    variant = [];
    options = [];
    keyboards = [];
    configurations = configurations;
  }

  constructed-IsApplied :
      (configurations : ℕ → Option InputKeymap) (keymap : Text)
      → IsApplied (constructed default configurations keymap)
  unfolding constructed set_keymap apply_all
  constructed-IsApplied configurations keymap = record { applied = tt; distinct = tt }

  -- From its construction on, whatever keymaps are set and whatever devices come, change and go, as long as each that
  -- is added is new and each keyboard that is removed is known: nothing undefined happens; each keyboard is listed
  -- once, and has the layout, the variant and the options that were set last; and listed are the devices that the
  -- events make keyboards, and no others.
  pub handle_events-IsApplied :
      (configurations : ℕ → Option InputKeymap) (keymap : Text) (events : List Event)
      → AllExpected events (constructed default configurations keymap)
      → (last : Keymap) × (handle_events default events (constructed default configurations keymap)
          ≡ some last)
        × IsApplied last
        × ((d : ℕ) → contains d last.keyboards ≡ listed_by d events false)
        × IsNamed last (last_name keymap events)
  unfolding constructed set_keymap apply_all
  handle_events-IsApplied configurations keymap events h =
      run-IsApplied events (constructed default configurations keymap) keymap h
        (constructed-IsApplied configurations keymap)
        (set_keymap-tokens default (unnamed configurations) keymap)
