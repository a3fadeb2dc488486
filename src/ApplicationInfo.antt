-- ===== src/ApplicationInfo.antt =====
-- miral/application_info.cpp: the windows of an application, the first one made first.
use miral.Prelude.{ℕ, List, [], ◌∷◌, ◌++◌}
use miral.MruWindowList.{Window}
use miral.WindowInfo.{remove_first}

pub record ApplicationInfo : Type 0 where
  pub application : ℕ
  pub windows : List Window

unfoldable pub add_window : ApplicationInfo → Window → ApplicationInfo
add_window info window = record info { windows = info.windows ++ window ∷ [] }

-- Only the first occurrence goes.
unfoldable pub remove_window : ApplicationInfo → Window → ApplicationInfo
remove_window info window = record info { windows = remove_first window info.windows }
