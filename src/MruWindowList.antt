-- ===== src/MruWindowList.antt =====
-- miral/mru_window_list.cpp: the windows in the order in which they were last active, oldest first.
-- `visible` is the file's test on a window, which reads the window's surface; the callback of
-- `enumerate` may change what it reads, so there it depends on the state.
pub mod Order
pub mod Top
use miral.Prelude.{
  ℕ, Bool, true, false, not, Option, List, [], ◌∷◌, ◌++◌, reverse, ◌==◌, filter, find,
}

-- A window is named by the object that its handles share (`Window::self`). A handle that may be
-- null is an `Option Window`.
abbrev pub Window : Type 0
Window = ℕ

-- `remove(begin(windows), end(windows), window)` keeps the windows that pass this.
abbrev pub is_other : Window → Window → Bool
is_other window w = not (w == window)

unfoldable pub erase : Window → List Window → List Window
erase window windows = filter (is_other window) windows

unfoldable pub push : Window → List Window → List Window
unfolding erase
push window windows = erase window windows ++ window ∷ []

unfoldable pub top : (Window → Bool) → List Window → Option Window
top visible windows = find visible (reverse windows)

-- What `if (!enumerator(window)) break;` does with the callback's answer.
abbrev pub resume : {S : Type 0} → Bool × S → (S → S) → S
resume (true, s) rest = rest s
resume (false, s) rest = s

module _ {S : Type 0} (visible : S → Window → Bool) (enumerator : Window → S → Bool × S) where
  -- From the given window on, until the callback returns false.
  unfoldable pub enumerate_from : List Window → S → S
  enumerate_from [] s = s
  enumerate_from (w ∷ ws) s = elim (visible s w) [
    | true ↦ resume (enumerator w s) (enumerate_from ws)
    | false ↦ enumerate_from ws s
  ]

  unfoldable pub enumerate : List Window → S → S
  unfolding enumerate_from
  enumerate windows s = enumerate_from (reverse windows) s
