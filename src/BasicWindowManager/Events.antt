-- ===== src/BasicWindowManager/Events.antt =====
-- miral/basic_window_manager.cpp: the input events, the time of the latest one that counts, and a client's
-- request to be raised, which is granted only if no such event is newer.
pub mod Timestamp
use miral.Prelude.{ℕ, Bool, List, [], ◌∷◌, ◌++◌, leb, if◌then◌else◌}
use miral.MruWindowList.{Window}
use miral.BasicWindowManager.Input.{
  KeyboardEvent, PointerEvent, TouchEvent, PointerAction, button_up, button_down, other_action,
  TouchAction, up, down, change,
}
use miral.BasicWindowManager.State.{
  Manager, Call, handle_keyboard, handle_pointer, handle_touch, handle_raise_window, Result, ok,
  out_of_range, out_of_fuel, ◌>>=◌, tell, info_for,
}

-- The three overloads of `update_event_timestamp`, on the timestamp alone.
unfoldable pub update_by_keyboard : KeyboardEvent → ℕ → ℕ
update_by_keyboard kev last = kev.event_time

update_by_action : PointerAction → ℕ → ℕ → ℕ
update_by_action button_up time last = time
update_by_action button_down time last = time
update_by_action other_action time last = last

unfoldable pub update_by_pointer : PointerEvent → ℕ → ℕ
unfolding update_by_action
update_by_pointer pev last = update_by_action pev.action pev.event_time last

-- The loop over the touch points, up to the first that goes up or down.
unfoldable pub touch_loop : List TouchAction → ℕ → ℕ → ℕ
touch_loop [] time last = last
touch_loop (up ∷ actions) time last = time
touch_loop (down ∷ actions) time last = time
touch_loop (change ∷ actions) time last = touch_loop actions time last

unfoldable pub update_by_touch : TouchEvent → ℕ → ℕ
unfolding touch_loop
update_by_touch tev last = touch_loop tev.actions tev.event_time last

module _ {Surface : Type 0} where
  abbrev stamp : (ℕ → ℕ) → Manager Surface → Manager Surface
  stamp update m = record m { last_input_event_timestamp = update m.last_input_event_timestamp }

  -- Each handler is given the policy's answer, which it returns.
  unfoldable pub handle_keyboard_event :
      Bool → Manager Surface → KeyboardEvent → Bool × Manager Surface
  handle_keyboard_event answer m event =
      (answer, tell (stamp (update_by_keyboard event) m) (handle_keyboard event ∷ []))

  unfoldable pub handle_touch_event : Bool → Manager Surface → TouchEvent → Bool × Manager Surface
  handle_touch_event answer m event =
      (answer, tell (stamp (update_by_touch event) m) (handle_touch event ∷ []))

  unfoldable pub handle_pointer_event :
      Bool → Manager Surface → PointerEvent → Bool × Manager Surface
  handle_pointer_event answer m event = (
    answer,
    tell (record (stamp (update_by_pointer event) m) { cursor = event.position })
        (handle_pointer event ∷ []),
  )

  unfoldable pub handle_raise_surface : Manager Surface → Window → ℕ → Result (Manager Surface)
  handle_raise_surface m surface timestamp =
      if leb m.last_input_event_timestamp timestamp
      then (do _ ← info_for m surface; ok (tell m (handle_raise_window surface ∷ [])))
      else ok m
