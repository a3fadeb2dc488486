-- ===== src/BasicWindowManager/Events/Timestamp.antt =====
-- The timestamp of the latest event over a history of events, in miral/basic_window_manager.cpp.
use miral.Prelude.{
  ℕ, ◌≡◌, refl, Bool, true, false, Option, none, some, List, [], ◌∷◌, leb, if◌then◌else◌, any, find,
  arith, Bool-cases, inl, inr,
}
use miral.MruWindowList.{Window}
use miral.WindowInfo.{WindowInfo}
use miral.BasicWindowManager.Input.{
  KeyboardEvent, PointerEvent, TouchEvent, PointerAction, other_action, TouchAction, up, down,
  change,
}
use miral.BasicWindowManager.State.{Manager, ok, info_for, tell, handle_raise_window}
use miral.BasicWindowManager.Events.{
  update_by_keyboard, update_by_pointer, update_by_touch, touch_loop, handle_keyboard_event,
  handle_pointer_event, handle_touch_event, handle_raise_surface,
}

pub data Event : Type 0 where
  keyboard : KeyboardEvent → Event
  pointer : PointerEvent → Event
  touch : TouchEvent → Event

abbrev time : Event → ℕ
time (keyboard e) = e.event_time
time (pointer e) = e.event_time
time (touch e) = e.event_time

abbrev is_press : PointerAction → Bool
is_press other_action = false
is_press _ = true

abbrev is_change : TouchAction → Bool
is_change change = false
is_change _ = true

-- A key, a button, or a finger that comes or goes; not a motion.
abbrev counts : Event → Bool
counts (keyboard e) = true
counts (pointer e) = is_press e.action
counts (touch e) = any is_change e.actions

abbrev time_or : ℕ → Option Event → ℕ
time_or last none = last
time_or last (some e) = time e

-- The time of the latest event that counts, of a history whose latest event stands first.
abbrev pub latest : ℕ → List Event → ℕ
latest last history = time_or last (find counts history)

touch_loop_lem :
    (actions : List TouchAction) (t last : ℕ)
    → touch_loop actions t last ≡ (if any is_change actions then t else last)
unfolding touch_loop
touch_loop_lem [] t last = refl
touch_loop_lem (up ∷ actions) t last = refl
touch_loop_lem (down ∷ actions) t last = refl
touch_loop_lem (change ∷ actions) t last = touch_loop_lem actions t last

module _ {Surface : Type 0} (answer : Event → Bool) where
  abbrev pub handled : Manager Surface → Event → Manager Surface
  handled m (keyboard e) = (handle_keyboard_event (answer (keyboard e)) m e).1
  handled m (pointer e) = (handle_pointer_event (answer (pointer e)) m e).1
  handled m (touch e) = (handle_touch_event (answer (touch e)) m e).1

  abbrev pub after_events : Manager Surface → List Event → Manager Surface
  after_events m [] = m
  after_events m (e ∷ history) = handled (after_events m history) e

  handled_lem :
      (m : Manager Surface) (e : Event)
      → (handled m e).last_input_event_timestamp
        ≡ (if counts e then time e else m.last_input_event_timestamp)
  unfolding handle_keyboard_event handle_pointer_event handle_touch_event update_by_keyboard
      update_by_pointer update_by_touch
  handled_lem m (keyboard e) = refl
  handled_lem m (pointer e) = ground arith
  handled_lem m (touch e) = touch_loop_lem e.actions e.event_time m.last_input_event_timestamp

  timestamp_lem :
      (m : Manager Surface) (history : List Event)
      → (after_events m history).last_input_event_timestamp
        ≡ latest m.last_input_event_timestamp history
  timestamp_lem m [] = refl
  timestamp_lem m (e ∷ history) =
      rw (handled_lem (after_events m history) e) (ground (arith, timestamp_lem m history))

  -- After any history of events, a request to raise a window that has a record reaches the policy exactly if
  -- it is no older than the latest key press, button or touch that comes or goes; nothing else changes.
  pub handle_raise_surface-latest :
      (m : Manager Surface) (history : List Event) (w : Window) (timestamp : ℕ) {info : WindowInfo}
      → info_for (after_events m history) w ≡ ok info
      → handle_raise_surface (after_events m history) w timestamp
        ≡ ok (
            if leb (latest m.last_input_event_timestamp history) timestamp
            then tell (after_events m history) (handle_raise_window w ∷ [])
            else after_events m history)
  unfolding handle_raise_surface
  handle_raise_surface-latest m history w timestamp known =
      elim (Bool-cases (leb (latest m.last_input_event_timestamp history) timestamp)) [
        | inl newer ↦ rw (timestamp_lem m history, newer, known) refl
        | inr older ↦ rw (timestamp_lem m history, older) refl
      ]
