-- ===== src/Tests/Hotplugs.antt =====
-- Displays that come and go in miral/basic_window_manager.cpp, at a concrete input.
use miral.Prelude.{◌≡◌, refl, arith, [], ◌∷◌, ◌++◌}
use miral.Prelude.Int.{pos}
use miral.Geometry.{Rectangle}
use miral.BasicWindowManager.State.{Manager, ok, info_for, find_info, alive}
use miral.BasicWindowManager.Forest.{IsForest}
use miral.BasicWindowManager.Kin.{kin-IsForest, relisted-SameKin}
use miral.BasicWindowManager.Hotplug.{Rectangles, fullscreen_rect, add_display, remove_display}
use miral.BasicWindowManager.Hotplug.Fitted.{Fills, displays-Fill}
use miral.Tests.Samples.{SampleSurface, surfaces, rect}
use miral.Tests.Managers.{manager, manager-IsForest, depth, parent_window, child_window}
use miral.Tests.Desktop.{layout, follows}

abbrev rectangles : Rectangles
rectangles = record { add = λ r rs. rs ++ r ∷ []; remove = λ r rs. [] }

abbrev layout_area : Rectangle
layout_area = rect (pos 0) (pos 0) (pos 640) (pos 480)

-- Both windows are fullscreen.
abbrev screen : Manager SampleSurface
screen = record manager { fullscreen_surfaces = 1 ∷ 2 ∷ [] }

screen-IsForest : IsForest screen depth 1
unfolding info_for find_info
screen-IsForest =
    kin-IsForest manager screen depth 1
      (relisted-SameKin manager (1 ∷ []) (1 ∷ 2 ∷ []) [] ((parent_window, refl), tt))
      manager-IsForest

displays-Fill_example :
    ((m' : Manager SampleSurface) × (add_display surfaces follows layout 2 rectangles screen
          layout_area
        ≡ ok m')
      × Fills surfaces 1 (fullscreen_rect surfaces layout screen parent_window) m')
    × ((m' : Manager SampleSurface) × (remove_display surfaces follows layout 2 rectangles screen
            layout_area
          ≡ ok m')
        × Fills surfaces 1 (fullscreen_rect surfaces layout screen parent_window) m')
unfolding info_for find_info alive
displays-Fill_example =
    displays-Fill surfaces follows layout screen depth 1 screen-IsForest 1 parent_window refl
      rectangles layout_area refl refl (refl, (refl, tt))
      (((parent_window, refl), omega arith), (((child_window, refl), omega arith), tt))
