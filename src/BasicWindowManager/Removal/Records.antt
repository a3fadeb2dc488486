-- ===== src/BasicWindowManager/Removal/Records.antt =====
-- The records of the windows after `erase` in miral/basic_window_manager.cpp.
use miral.Prelude.{
  ◌≡◌, ◌∙◌, refl, ap, inl, inr, Bool, true, false, Option, none, some, List, [], ◌∷◌, ◌==◌,
  if◌then◌else◌, contains, Bool-cases, arith,
}
use miral.MruWindowList.{Window}
use miral.WindowInfo.{WindowInfo, remove_child}
use miral.BasicWindowManager.State.{
  Manager, Ensures, Ensures-bind, Ensures-map, ensured, find_info, set_info, info_for, handle,
}
use miral.BasicWindowManager.Forest.{info_for-key}
use miral.BasicWindowManager.Records.{
  edited, find_info-filter, set_info-edited, edited-id, edited-edited, found_info,
}
use miral.BasicWindowManager.Removal.{leave_parent, orphan, erase}

-- The two edits of `erase`: the parent loses the window from its children, and the children lose their parent.
unfoldable pub left_by : Window → Option Window → WindowInfo → WindowInfo
left_by w none i = i
left_by w (some parent) i = if i.window == parent then remove_child i w else i

unfoldable pub orphaned_in : List Window → WindowInfo → WindowInfo
orphaned_in children i = if contains i.window children then record i { parent = none } else i

orphaned_in-[] : (o : Option WindowInfo) → o ≡ edited (orphaned_in []) o
unfolding orphaned_in
orphaned_in-[] none = refl
orphaned_in-[] (some i) = refl

orphaned_in-∷ :
    (c : Window) (cs : List Window) (o : Option WindowInfo)
    → edited
        (orphaned_in cs)
        (edited (λ i. if i.window == c then record i { parent = none } else i) o)
      ≡ edited (orphaned_in (c ∷ cs)) o
unfolding orphaned_in
orphaned_in-∷ c cs none = refl
orphaned_in-∷ c cs (some i) = elim (Bool-cases (i.window == c)) [
  | inl mine ↦
      let turned : c == i.window ≡ true = ground (arith, mine) in
      rw (mine, turned) (ap some (again (contains i.window cs)))
  | inr other ↦
      let turned : c == i.window ≡ false = ground (arith, other) in rw (other, turned) refl
]
  where
    again :
        (b : Bool)
        → (if b then record i { parent = none } else record i { parent = none })
          ≡ record i { parent = none }
    again true = refl
    again false = refl

module _ {Surface : Type 0} where
  -- The edits have been made.
  abbrev pub Edited :
      (WindowInfo → WindowInfo) → Window → Manager Surface → Manager Surface → Type 0
  Edited f v m m' = find_info v m'.window_info ≡ edited f (find_info v m.window_info)

  pub leave_parent-Edited :
      (m : Manager Surface) (w v : Window) (parent : Option Window)
      → Ensures (Edited (left_by w parent) v m) (leave_parent m w parent)
  unfolding leave_parent left_by remove_child
  leave_parent-Edited m w v none = edited-id (find_info v m.window_info)
  leave_parent-Edited m w v (some parent) =
      Ensures-bind (Edited (left_by w (some parent)) v m) (info_for m parent) _ λ info e.
        set_info-edited parent v (λ i. remove_child i w) info m.window_info
          (found_info m parent {info = info} e) (info_for-key m parent {info = info} e)

  orphan-Edited :
      (m : Manager Surface) (v : Window) (children : List Window)
      → Ensures (Edited (orphaned_in children) v m) (orphan m children)
  unfolding orphan
  orphan-Edited m v [] = orphaned_in-[] (find_info v m.window_info)
  orphan-Edited m v (c ∷ cs) =
      Ensures-bind (Edited (orphaned_in (c ∷ cs)) v m) (info_for m c) _ λ info e.
        let m1 = record m {
          window_info = set_info (record info { parent = none }) m.window_info;
        } in
        let once =
          set_info-edited c v (λ i. record i { parent = none }) info m.window_info
            (found_info m c {info = info} e) (info_for-key m c {info = info} e) in
        Ensures-map (Edited (orphaned_in cs) v m1) (Edited (orphaned_in (c ∷ cs)) v m)
          (orphan m1 cs)
          (λ m' later.
            later
            ∙ ap (edited (orphaned_in cs)) once
            ∙ orphaned_in-∷ c cs (find_info v m.window_info))
          (orphan-Edited m1 v cs)

  pub erase-edited :
      (m : Manager Surface) (info : WindowInfo) (v : Window)
      → v == info.window ≡ false
      → Ensures
          (λ m'.
            find_info v m'.window_info
            ≡ edited
                (λ i. orphaned_in info.children (left_by info.window (handle m info.parent) i))
                (find_info v m.window_info))
          (erase m info)
  unfolding erase
  erase-edited m info v other =
      let parent = handle m info.parent in
      let w = info.window in
      Ensures-bind _ (leave_parent m w parent) _ λ left e.
        let one =
          ensured (Edited (left_by w parent) v m) (leave_parent m w parent)
            (leave_parent-Edited m w v parent) e in
        Ensures-bind _ (orphan left info.children) _ λ orphaned f.
          let two =
            ensured (Edited (orphaned_in info.children) v left) (orphan left info.children)
              (orphan-Edited left v info.children) f in
          find_info-filter v w orphaned.window_info other
          ∙ two
          ∙ ap (edited (orphaned_in info.children)) one
          ∙ edited-edited (orphaned_in info.children) (left_by w parent) (find_info v m.window_info)
