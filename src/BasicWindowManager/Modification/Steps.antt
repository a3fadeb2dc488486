-- ===== src/BasicWindowManager/Modification/Steps.antt =====
-- `modify_window` in miral/basic_window_manager.cpp: what telling the parents makes of the records.
use miral.Prelude.{◌≡◌, refl, ap, true, false, Option, none, some, List, ◌==◌, ==_iff, arith}
use miral.MruWindowList.{Window}
use miral.WindowInfo.{WindowInfo, remove_child, add_child}
use miral.BasicWindowManager.State.{Manager, Result, ok, find_info, set_info, info_for}
use miral.BasicWindowManager.Forest.{Known, info_for-key}
use miral.BasicWindowManager.Records.{edited, edited-id, set_info-edited, found_info}
use miral.BasicWindowManager.Removal.{leave_parent}
use miral.BasicWindowManager.Removal.Records.{left_by}
use miral.BasicWindowManager.Joining.{join_parent}
use miral.BasicWindowManager.Joining.Edits.{joined_by}
use miral.BasicWindowManager.Modification.{same_window}
use miral.BasicWindowManager.Modification.Edits.{moved_by}

pub same_window_iff : (o p : Option Window) → same_window o p ≡ true → o ≡ p
same_window_iff none none h = refl
same_window_iff none (some w) h = absurd (ground (arith, h))
same_window_iff (some v) none h = absurd (ground (arith, h))
same_window_iff (some v) (some w) h = ap some ((==_iff v w).0 h)

-- A window that is neither parent keeps its record.
pub moved_by-other :
    (w : Window) (old new : Option Window) (i : WindowInfo)
    → ((p : Window) → old ≡ some p → i.window == p ≡ false)
    → ((p : Window) → new ≡ some p → i.window == p ≡ false)
    → moved_by w old new i ≡ i
unfolding moved_by joined_by left_by
moved_by-other w none none i h k = refl
moved_by-other w none (some q) i h k = rw (k q refl) refl
moved_by-other w (some p) none i h k = rw (h p refl) refl
moved_by-other w (some p) (some q) i h k = rw (h p refl) (rw (k q refl) refl)

module _ {Surface : Type 0} where
  abbrev pub with_infos : List WindowInfo → Manager Surface → Manager Surface
  with_infos infos m = record m { window_info = infos }

  -- A step that edits the records.
  abbrev pub Steps : Manager Surface → (WindowInfo → WindowInfo) → Result (Manager Surface) → Type 0
  Steps m f result =
      (infos : List WindowInfo) × (result ≡ ok (with_infos infos m))
      × ((v : Window) → find_info v infos ≡ edited f (find_info v m.window_info))

  pub leave_parent-Steps :
      (m : Manager Surface) (w : Window) (o : Option Window)
      → ((p : Window) → o ≡ some p → Known m p)
      → Steps m (left_by w o) (leave_parent m w o)
  unfolding leave_parent left_by remove_child
  leave_parent-Steps m w none known =
      (m.window_info, refl, λ v. edited-id (find_info v m.window_info))
  leave_parent-Steps m w (some p) known =
      let (i, there) = known p refl in
      (
        set_info (remove_child i w) m.window_info,
        rw there refl,
        λ v.
            set_info-edited p v (λ j. remove_child j w) i m.window_info
              (found_info m p {info = i} there) (info_for-key m p {info = i} there),
      )

  pub join_parent-Steps :
      (m : Manager Surface) (w : Window) (o : Option Window)
      → ((p : Window) → o ≡ some p → Known m p)
      → Steps m (joined_by w o) (join_parent m o w)
  unfolding join_parent joined_by add_child
  join_parent-Steps m w none known =
      (m.window_info, refl, λ v. edited-id (find_info v m.window_info))
  join_parent-Steps m w (some p) known =
      let (i, there) = known p refl in
      (
        set_info (add_child i w) m.window_info,
        rw there refl,
        λ v.
            set_info-edited p v (λ j. add_child j w) i m.window_info
              (found_info m p {info = i} there) (info_for-key m p {info = i} there),
      )

  -- An edit leaves each window its record.
  pub Known-edited :
      (m : Manager Surface) (infos : List WindowInfo) (f : WindowInfo → WindowInfo) (v : Window)
      → find_info v infos ≡ edited f (find_info v m.window_info)
      → Known m v
      → Known (with_infos infos m) v
  unfolding info_for
  Known-edited m infos f v e (i, is) = (f i, rw (e, found_info m v {info = i} is) refl)
