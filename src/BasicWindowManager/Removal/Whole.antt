-- ===== src/BasicWindowManager/Removal/Whole.antt =====
-- `remove_window` in miral/basic_window_manager.cpp, and the records of parents and children.
use miral.Prelude.{
  All, ℕ, ◌≡◌, ◌∙◌, refl, sym, ap, subst, inl, inr, Bool, true, false, Option, none, some, ◌==◌,
  if◌then◌else◌, Bool-cases, ==_iff, arith,
}
use miral.MruWindowList.{Window}
use miral.WindowInfo.{WindowInfo}
use miral.ApplicationInfo.{ApplicationInfo}
use miral.BasicWindowManager.State.{
  application_for, Manager, ok, ensured, find_info, info_for, handle, alive,
}
use miral.BasicWindowManager.Forest.{Known, IsForest}
use miral.BasicWindowManager.Family.{IsFamily, All-imp}
use miral.BasicWindowManager.Removal.Returns.{HasParent, erase-Returns, HasParent-alike, All-alike}
use miral.BasicWindowManager.Removal.{forget_window, unlisted, erase}
use miral.BasicWindowManager.Records.{edited}
use miral.BasicWindowManager.Removal.Records.{left_by, orphaned_in, erase-edited}
use miral.BasicWindowManager.Removal.Forgotten.{
  ListedBy, Forgotten, Kept, erase-Kept, forget_window-Forgets,
}
use miral.BasicWindowManager.Removal.Family.{IsWithout, family_edit, without-IsFamily}

module _ {Surface : Type 0} (lives : ℕ → Bool)
    (destroyed : Window → (Window → Option Surface) → Window → Option Surface)
    (destroys : (w v : Window) (surfaces : Window → Option Surface)
      → destroyed w surfaces v ≡ (if v == w then none else surfaces v)) where
  unlisted-alive :
      (m : Manager Surface) (w p : Window) (session : ApplicationInfo)
      → alive (unlisted lives destroyed m w session) p ≡ (if p == w then false else alive m p)
  unfolding alive
  unlisted-alive m w p session =
      ap (λ o. elim o [ none ↦ false | some s ↦ true ]) (destroys w p m.surfaces)
      ∙ elim (Bool-cases (p == w)) [ inl same ↦ rw same refl | inr other ↦ rw other refl ]

  unlisted-handle :
      (m : Manager Surface) (depth : Window → ℕ) (limit : ℕ) (info : WindowInfo)
      (session : ApplicationInfo) (o : Option Window)
      → IsForest m depth limit
      → info_for m info.window ≡ ok info
      → info.parent ≡ o
      → handle (unlisted lives destroyed m info.window session) o ≡ handle m o
  unlisted-handle m depth limit info session none forest known e = refl
  unlisted-handle m depth limit info session (some p) forest known e =
      elim (Bool-cases (p == info.window)) [
        | inr other ↦ rw (unlisted-alive m info.window p session, other) refl
        | inl same ↦ elim (Bool-cases (alive m p)) [
          | inr dead ↦ rw (unlisted-alive m info.window p session, same, dead) refl
          | inl there ↦
              let above : handle m info.parent ≡ some p = rw (e, there) refl in
              let (_, higher) = forest.parent info.window p info known above in
              let is = (==_iff p info.window).0 same in absurd (omega (arith, ap depth is, higher))
        ]
      ]

  erased-IsWithout :
      (m : Manager Surface) (depth : Window → ℕ) (limit : ℕ) (info : WindowInfo)
      (session : ApplicationInfo)
      → IsForest m depth limit
      → info_for m info.window ≡ ok info
      → (m' : Manager Surface) → erase (unlisted lives destroyed m info.window session) info ≡ ok m'
      → find_info info.window m'.window_info ≡ none
      → IsWithout m m' info
  unfolding family_edit
  erased-IsWithout m depth limit info session forest known m' e gone =
      let u = unlisted lives destroyed m info.window session in
      let k = ensured (Kept u) (erase u info) (erase-Kept u info) e in
      record {
        gone = gone;
        kept = λ v other.
            subst
              (λ o.
                find_info v m'.window_info
                ≡ edited (λ i. orphaned_in info.children (left_by info.window o i))
                    (find_info v m.window_info))
              (unlisted-handle m depth limit info session info.parent forest known refl)
              (ensured _ (erase u info) (erase-edited u info v other) e);
        surfaces = λ v. ap (λ s. s v) k.surfaces ∙ destroys info.window v m.surfaces;
        active = k.mru_active_windows;
      }

  parent-HasParent :
      (m : Manager Surface) (depth : Window → ℕ) (limit : ℕ) (info : WindowInfo)
      → IsForest m depth limit
      → info_for m info.window ≡ ok info
      → (o : Option Window) → handle m info.parent ≡ o
      → HasParent m o
  parent-HasParent m depth limit info forest known none e = tt
  parent-HasParent m depth limit info forest known (some p) e =
      (forest.parent info.window p info known e).0

  -- The removal up to the search for the next window to have the focus.
  pub forget_window-IsWithout :
      (m : Manager Surface) (depth : Window → ℕ) (limit application : ℕ) (info : WindowInfo)
      {session : ApplicationInfo}
      → IsFamily m depth limit
      → info_for m info.window ≡ ok info
      → application_for m application ≡ ok session
      → All (ListedBy application info.window) m.app_info
      → (m' : Manager Surface) × (forget_window lives destroyed m application info ≡ ok m')
        × Forgotten info.window m'
        × IsFamily m' depth limit
        × IsWithout m m' info
        × (m'.applications ≡ m.applications)
  unfolding forget_window
  forget_window-IsWithout m depth limit application info {session} family known has_session owners =
      let u = unlisted lives destroyed m info.window session in
      let same = unlisted-handle m depth limit info session info.parent family.forest known refl in
      let (m', is) =
        erase-Returns u info
          (subst (HasParent u) (sym same) (
            HasParent-alike m u (handle m info.parent) refl (
              parent-HasParent m depth limit info family.forest known (handle m info.parent) refl)))
          (All-alike m u info.children refl (
            All-imp _ (Known m) info.children (λ c h. h.0)
              (family.forest.children info.window info known))) in
      let returns : forget_window lives destroyed m application info ≡ ok m' = rw has_session is in
      let forgotten : Forgotten info.window m' =
        forget_window-Forgets lives destroyed m application info owners returns in
      let without =
        erased-IsWithout m depth limit info session family.forest known m' is
          forgotten.window_info in
      (
        m',
        returns,
        forgotten,
        without-IsFamily m m' depth limit family info known without,
        without,
        (ensured (Kept u) (erase u info) (erase-Kept u info) is).applications,
      )
