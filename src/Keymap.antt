-- ===== src/Keymap.antt =====
-- miral/keymap.cpp: the keymap of the keyboards, set by name, and the keyboards that come and go.
pub mod Names
pub mod Keyboards
pub mod Listing
pub mod Events
use miral.Prelude.{
  ℕ, Bool, true, false, Option, none, some, List, [], ◌∷◌, ◌++◌, ◌==◌, if◌then◌else◌, contains,
}
use miral.WindowInfo.{remove_first}

-- A text is the list of its character codes.
abbrev pub Text : Type 0
Text = List ℕ

-- `'+'`
abbrev pub plus : ℕ
plus = 43

-- mir::input::Keymap
pub record InputKeymap : Type 0 where
  pub model : Text
  pub layout : Text
  pub variant : Text
  pub options : Text

-- Miral's own state, and the configuration of each device, if it has one. A device is a number.
pub record Keymap : Type 0 where
  pub layout : Text
  pub variant : Text
  pub options : Text
  pub keyboards : List ℕ
  pub configurations : ℕ → Option InputKeymap

-- `km.substr(0, km.find('+'))`
unfoldable pub token : Text → Text
token [] = []
token (c ∷ cs) = if c == plus then [] else c ∷ token cs

-- What is left of the text behind the token.
unfoldable pub remainder : Text → Text
remainder [] = []
remainder (c ∷ cs) = if c == plus then cs else remainder cs

abbrev pub keymap_or : InputKeymap → Option InputKeymap → InputKeymap
keymap_or default none = default
keymap_or default (some keymap) = keymap

-- The calls of Mir, and those of the shell.
pub data Event : Type 0 where
  keymap_set : Text → Event
  added changed removed : ℕ → Bool → Event

-- `default` is a keymap as Mir makes it.
module _ (default : InputKeymap) where
  unfoldable pub apply_keymap : Keymap → ℕ → Keymap
  apply_keymap self keyboard =
      let keymap : InputKeymap = record (keymap_or default (self.configurations keyboard)) {
        layout = self.layout;
        variant = self.variant;
        options = self.options;
      } in
      record self {
        configurations = λ d. if d == keyboard then some keymap else self.configurations d;
      }

  unfoldable pub apply_all : List ℕ → Keymap → Keymap
  apply_all [] self = self
  apply_all (keyboard ∷ keyboards) self = apply_all keyboards (apply_keymap self keyboard)

  unfoldable pub set_keymap : Keymap → Text → Keymap
  set_keymap self keymap = apply_all self.keyboards (record self {
    layout = token keymap;
    variant = token (remainder keymap);
    options = token (remainder (remainder keymap));
  })

  unfoldable pub add_keyboard : Keymap → ℕ → Keymap
  add_keyboard self keyboard =
      apply_keymap (record self { keyboards = self.keyboards ++ keyboard ∷ [] }) keyboard

  -- `is_keyboard` tells whether the device has the capability of a keyboard.
  unfoldable pub device_added : Keymap → ℕ → Bool → Keymap
  device_added self device is_keyboard = if is_keyboard then add_keyboard self device else self

  unfoldable pub device_changed : Keymap → ℕ → Bool → Keymap
  device_changed self device is_keyboard =
      if is_keyboard
      then (if contains device self.keyboards then self else add_keyboard self device)
      else (if contains device self.keyboards
          then record self { keyboards = remove_first device self.keyboards }
          else self)

  -- To erase at the end of the list is undefined.
  unfoldable pub device_removed : Keymap → ℕ → Bool → Option Keymap
  device_removed self device is_keyboard =
      let erased =
        if contains device self.keyboards
        then some (record self { keyboards = remove_first device self.keyboards })
        else none in
      if is_keyboard then erased else some self

  unfoldable pub handle_event : Keymap → Event → Option Keymap
  handle_event self (keymap_set keymap) = some (set_keymap self keymap)
  handle_event self (added device is_keyboard) = some (device_added self device is_keyboard)
  handle_event self (changed device is_keyboard) = some (device_changed self device is_keyboard)
  handle_event self (removed device is_keyboard) = device_removed self device is_keyboard

  abbrev pub handle_next : (Keymap → Option Keymap) → Option Keymap → Option Keymap
  handle_next rest none = none
  handle_next rest (some next) = rest next

  -- One event after another.
  unfoldable pub handle_events : List Event → Keymap → Option Keymap
  handle_events [] self = some self
  handle_events (event ∷ events) self = handle_next (handle_events events) (handle_event self event)

  -- `Self::Self(keymap)`, with the configurations that the devices have.
  unfoldable pub constructed : (ℕ → Option InputKeymap) → Text → Keymap
  constructed configurations keymap =
      set_keymap
        (record {
          layout = [];
          variant = [];
          options = [];
          keyboards = [];
          configurations = configurations;
        })
        keymap
