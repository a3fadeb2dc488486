-- ===== src/WindowInfo/Roles.antt =====
-- `can_morph_to` and `needs_titlebar` of miral/window_info.cpp together.
use miral.Prelude.{◌≡◌, ◌≢◌, true, arith}
use miral.Types.{WindowType, menu}
use miral.WindowInfo.{can_morph_to, needs_titlebar}

-- A change of the type of a window that is no menu leads from a type with a title bar to another, can be undone,
-- and leaves open the same changes as before.
pub can_morph_to-titlebar :
    (s t u : WindowType)
    → s ≢ menu
    → can_morph_to s t ≡ true
    → (needs_titlebar s ≡ true)
      × (needs_titlebar t ≡ true)
      × (can_morph_to t s ≡ true)
      × (can_morph_to t u ≡ can_morph_to s u)
unfolding can_morph_to needs_titlebar
can_morph_to-titlebar s t u n h = ground arith
