-- ===== src/Tests/Keymaps.antt =====
-- miral/keymap.cpp at concrete inputs.
use miral.Prelude.{ℕ, contains, ◌≡◌, refl, none, some, [], ◌∷◌, ◌++◌, List, true, false}
use miral.Keymap.{
  Text, Keymap, InputKeymap, Event, keymap_set, added, changed, removed, plus, apply_keymap,
  apply_all, set_keymap, add_keyboard, device_added, device_changed, device_removed, handle_event,
  handle_events, constructed,
}
use miral.WindowInfo.{remove_first}
use miral.Keymap.Keyboards.{IsApplied}
use miral.Keymap.Listing.{listed_by}
use miral.Keymap.Names.{set_keymap-names}
use miral.Keymap.Events.{IsNamed, last_name, handle_events-IsApplied}

-- `us`, `cz` and `qwerty`
abbrev us : Text
us = 117 ∷ 115 ∷ []

abbrev cz : Text
cz = 99 ∷ 122 ∷ []

abbrev qwerty : Text
qwerty = 113 ∷ 119 ∷ 101 ∷ 114 ∷ 116 ∷ 121 ∷ []

abbrev default : InputKeymap
default = record { model = []; layout = us; variant = []; options = [] }

abbrev keymap : Keymap
keymap = record {
  layout = us;
  variant = [];
  options = [];
  keyboards = 1 ∷ [];
  configurations = λ d. none;
}

set_keymap-names_example :
    (((set_keymap default keymap (cz ++ plus ∷ (qwerty ++ plus ∷ []))).layout ≡ cz)
      × ((set_keymap default keymap (cz ++ plus ∷ (qwerty ++ plus ∷ []))).variant ≡ qwerty)
      × ((set_keymap default keymap (cz ++ plus ∷ (qwerty ++ plus ∷ []))).options ≡ []))
    × (((set_keymap default keymap cz).layout ≡ cz)
        × ((set_keymap default keymap cz).variant ≡ [])
        × ((set_keymap default keymap cz).options ≡ []))
set_keymap-names_example = set_keymap-names default keymap cz qwerty [] refl refl refl

-- Two keyboards come, the keymap is set, one of them goes, and the other is a keyboard no longer.
abbrev events : List Event
events = added 1 true ∷ added 2 true ∷ keymap_set cz ∷ removed 1 true ∷ changed 2 false ∷ []

handle_events-IsApplied_example :
    (last : Keymap) × (handle_events default events (constructed default (λ d. none) us)
      ≡ some last)
    × IsApplied last
    × ((d : ℕ) → contains d last.keyboards ≡ listed_by d events false)
    × IsNamed last (last_name us events)
unfolding handle_event device_added device_changed device_removed add_keyboard set_keymap apply_all
    apply_keymap constructed remove_first
handle_events-IsApplied_example =
    handle_events-IsApplied default (λ d. none) us events (refl, (refl, (tt, (refl, (tt, tt)))))
