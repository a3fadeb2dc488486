-- ===== src/BasicWindowManager/Input.antt =====
-- Mir's input events, as the sources read them: the time of an event, and the actions that they test for.
use miral.Prelude.{ℕ, List}
use miral.Geometry.{Point}

pub record KeyboardEvent : Type 0 where
  pub event_time : ℕ

pub data PointerAction : Type 0 where
  button_up button_down other_action : PointerAction

pub record PointerEvent : Type 0 where
  pub event_time : ℕ
  pub action : PointerAction
  pub position : Point

pub data TouchAction : Type 0 where
  up down change : TouchAction

-- One action for each point of the touch.
pub record TouchEvent : Type 0 where
  pub event_time : ℕ
  pub actions : List TouchAction
