-- ===== src/BasicWindowManager/Focus.antt =====
-- miral/basic_window_manager.cpp, `select_active_window`: which window gets the focus.
pub mod Outcome
pub mod Choice
pub mod Termination
pub mod Liveness
use miral.Prelude.{
  ℕ, zero, suc, Bool, true, false, not, ◌&&◌, Option, none, some, List, [], ◌∷◌, ◌++◌, ◌==◌,
  if◌then◌else◌,
}
use miral.Types.{dialog, type_eq}
use miral.MruWindowList.{Window, push}
use miral.WindowInfo.{WindowInfo, can_be_active}
use miral.BasicWindowManager.Surfaces.{SurfaceApi}
use miral.BasicWindowManager.State.{
  Manager, Call, set_focus_to, advise_focus_lost, advise_focus_gained, Result, ok, out_of_fuel,
  out_of_range, ◌>>=◌, tell, info_for, handle, active_window, info_visible,
}

module _ {Surface : Type 0} where
  unfoldable pub clear_focus :
      Manager Surface → Option Window → Result (Option Window × Manager Surface)
  clear_focus m none = ok (none, m)
  clear_focus m (some prev) = do
    _ ← info_for m prev
    ok (none, tell m (set_focus_to none ∷ advise_focus_lost prev ∷ []))

  -- `if (prev_window && prev_window != hint) policy->advise_focus_lost(info_for(prev_window))`
  unfoldable pub focus_lost : Manager Surface → Option Window → Window → Result (List Call)
  focus_lost m none hint = ok []
  focus_lost m (some prev) hint =
      if prev == hint then ok [] else (do _ ← info_for m prev; ok (advise_focus_lost prev ∷ []))

module _ {Surface : Type 0} (api : SurfaceApi Surface) where
  unfoldable pub is_visible_dialog : Manager Surface → WindowInfo → Bool
  is_visible_dialog m info = type_eq info.type dialog && info_visible api m info

  unfoldable pub can_have_focus : Manager Surface → WindowInfo → Bool
  can_have_focus m info = can_be_active info.type && info_visible api m info

  -- The loop over the children: the first that is a visible dialog.
  unfoldable pub visible_dialog : Manager Surface → List Window → Result (Option Window)
  visible_dialog m [] = ok none
  visible_dialog m (child ∷ children) = do
    let rest = visible_dialog m children
    info_for_child ← info_for m child
    if is_visible_dialog m info_for_child then ok (some child) else rest

  unfoldable pub give_focus : Manager Surface → Window → Result (Option Window × Manager Surface)
  give_focus m hint = do
    let focused = record m { mru_active_windows = push hint m.mru_active_windows }
    lost ← focus_lost m (active_window api m) hint
    ok (some hint, tell focused (set_focus_to (some hint) ∷ lost ++ advise_focus_gained hint ∷ []))

  -- The parts of `select_active_window`, with `next` for its recursive calls.
  abbrev pub Next : Type 0
  Next = Option Window → Result (Option Window × Manager Surface)

  -- `if (auto const parent = info_for_hint.parent())`
  unfoldable pub try_parent :
      Next → Manager Surface → Option Window → Result (Option Window × Manager Surface)
  try_parent next m none = ok (none, m)
  try_parent next m (some parent) = next (some parent)

  -- `if (info_for_hint.can_be_active() && info_for_hint.is_visible())`
  unfoldable pub try_window :
      Next → Manager Surface → WindowInfo → Window → Bool → Result (Option Window × Manager Surface)
  try_window next m info w true = give_focus m w
  try_window next m info w false = try_parent next m (handle m info.parent)

  -- A child that is a visible dialog comes first.
  unfoldable pub try_child :
      Next
      → Manager Surface
      → WindowInfo
      → Window
      → Option Window
      → Result (Option Window × Manager Surface)
  try_child next m info w none = try_window next m info w (can_have_focus m info)
  try_child next m info w (some child) = next (some child)

  unfoldable pub try_hint :
      Next → Manager Surface → Option Window → Result (Option Window × Manager Surface)
  try_hint next m none = clear_focus m (active_window api m)
  try_hint next m (some w) = do
    info ← info_for m w
    child ← visible_dialog m info.children
    try_child next m info w child

  -- The calls go down to a dialog or up to a parent; the fuel bounds their number.
  unfoldable pub select_active_window : ℕ → Manager Surface → Next
  select_active_window zero m hint = out_of_fuel
  select_active_window (suc fuel) m hint = try_hint (select_active_window fuel m) m (handle m hint)
