-- ===== src/BasicWindowManager/Modification/Reparent.antt =====
-- `modify_window` in miral/basic_window_manager.cpp: the record is swapped, and both parents are told.
use miral.Prelude.{
  ℕ, ◌<◌, ◌≡◌, ◌∙◌, refl, sym, ap, subst, inl, inr, false, Option, none, some, List, ◌==◌,
  if◌then◌else◌, Bool-cases, ==_iff, arith,
}
use miral.MruWindowList.{Window}
use miral.WindowInfo.{WindowInfo}
use miral.BasicWindowManager.State.{
  Manager, ok, ◌>>=◌, find_info, set_info, info_for, handle, alive,
}
use miral.BasicWindowManager.Forest.{Known}
use miral.BasicWindowManager.Family.{IsFamily}
use miral.BasicWindowManager.Kin.{with_info, with_info-SameKin, with_info-info_for, kin-IsFamily}
use miral.BasicWindowManager.Records.{
  edited, edited-edited, edited-other, find_info-set_info, found_info,
}
use miral.BasicWindowManager.Removal.Records.{left_by}
use miral.BasicWindowManager.Joining.{join_parent}
use miral.BasicWindowManager.Joining.Edits.{joined_by}
use miral.BasicWindowManager.Modification.{same_window, reparent}
use miral.BasicWindowManager.Modification.Edits.{moved_by, shared}
use miral.BasicWindowManager.Modification.Family.{moved-IsFamily}
use miral.BasicWindowManager.Modification.Steps.{
  same_window_iff, moved_by-other, with_infos, leave_parent-Steps, join_parent-Steps, Known-edited,
}

module _ {Surface : Type 0} where
  -- The record keeps its window and its children; a parent that it is given has a record, and is less deep.
  pub record Reparents (m : Manager Surface) (depth : Window → ℕ) (info tmp : WindowInfo)
      : Type 0 where
    pub known : info_for m info.window ≡ ok info
    pub window : tmp.window ≡ info.window
    pub children : tmp.children ≡ info.children
    pub above :
        (p : Window)
        → handle m tmp.parent ≡ some p
        → (p == info.window ≡ false) × Known m p × (depth p < depth info.window)

  module _ (m : Manager Surface) (depth : Window → ℕ) (limit : ℕ) (info tmp : WindowInfo)
      (family : IsFamily m depth limit) (request : Reparents m depth info tmp) where
    abbrev Done : Manager Surface → Type 0
    Done n = IsFamily n depth limit × (info_for n info.window ≡ ok tmp)

    -- Another record with the same parent and children.
    abbrev like : WindowInfo → WindowInfo
    like i = record tmp { window = i.window; parent = i.parent; children = i.children }

    same_parent : tmp.parent ≡ info.parent → Done (with_info tmp m)
    same_parent same =
        let window = λ (x : Window). record tmp {
          window = x;
          parent = info.parent;
          children = info.children;
        } in
        let parent = λ (x : Option Window). record tmp { parent = x; children = info.children } in
        let children = λ (x : List Window). record tmp { children = x } in
        subst
          (λ t.
            IsFamily (with_info t m) depth limit × (info_for (with_info t m) info.window ≡ ok t))
          (ap window (sym request.window)
            ∙ ap parent (sym same)
            ∙ ap children (sym request.children))
          (
            kin-IsFamily m (with_info (like info) m) depth limit
                (with_info-SameKin like (λ i. (refl, refl, refl)) m info request.known
                  family.forest.active)
                family,
            with_info-info_for like (λ i. (refl, refl, refl)) m info request.known,
          )

    abbrev old : Option Window
    old = handle m info.parent

    abbrev new : Option Window
    new = handle m tmp.parent

    parents_apart :
        (o p : Option Window) → same_window p o ≡ false → shared (handle m o) (handle m p) ≡ false
    unfolding alive
    parents_apart none p h = refl
    parents_apart (some v) none h = ground arith
    parents_apart (some v) (some u) h = ground (arith, h)

    old_other : (p : Window) → old ≡ some p → (p == info.window ≡ false) × Known m p
    old_other p at =
        let (known, higher) = family.forest.parent info.window p info request.known at in
        elim (Bool-cases (p == info.window)) [
          | inr other ↦ (other, known)
          | inl same ↦ absurd (omega (arith, higher, ap depth ((==_iff p info.window).0 same)))
        ]

    elsewhere : (p : Window) → p == info.window ≡ false → tmp.window == p ≡ false
    elsewhere p other = ground (arith, other, request.window)

    -- The records once both parents have been told.
    module _ (infos : List WindowInfo) (apart : shared old new ≡ false)
        (told : (v : Window)
          → find_info v infos
            ≡ edited (moved_by tmp.window old new) (find_info v (set_info tmp m.window_info))) where
      told_others :
          (v : Window)
          → v == info.window ≡ false
          → find_info v infos ≡ edited (moved_by info.window old new) (find_info v m.window_info)
      told_others v other =
          let key : v == tmp.window ≡ false = ap (λ x. v == x) request.window ∙ other in
          told v
          ∙ ap (edited (moved_by tmp.window old new)) (
              find_info-set_info v tmp m.window_info
              ∙ edited-other v tmp m.window_info (find_info v m.window_info) refl key)
          ∙ ap (λ x. edited (moved_by x old new) (find_info v m.window_info)) request.window

      own_told : find_info info.window infos ≡ some tmp
      own_told =
          told info.window
          ∙ ap (edited (moved_by tmp.window old new)) (
              find_info-set_info info.window tmp m.window_info
              ∙ ap (edited (λ i. if i.window == tmp.window then tmp else i))
                  (found_info m info.window {info = info} request.known))
          ∙ ap (λ b. some (moved_by tmp.window old new (if b then tmp else info)))
              ((==_iff info.window tmp.window).1 (sym request.window))
          ∙ ap some (
              moved_by-other tmp.window old new tmp (λ p at. elsewhere p (old_other p at).0)
                (λ p at. elsewhere p (request.above p at).0))

      told_own : info_for (with_infos infos m) info.window ≡ ok tmp
      unfolding info_for
      told_own = rw own_told refl

      told-Done : Done (with_infos infos m)
      unfolding alive
      told-Done = (
        moved-IsFamily record {
          family = family;
          known = request.known;
          moved = record {
            own = told_own;
            others = told_others;
            alive = λ v. refl;
            active = refl;
            old_handle = refl;
            new_handle = refl;
            children = request.children;
          };
          apart = apart;
          above = request.above;
        },
        told_own,
      )

    Known-swapped : (p : Window) → Known m p → Known (with_info tmp m) p
    Known-swapped p =
        Known-edited m (set_info tmp m.window_info) (λ i. if i.window == tmp.window then tmp else i)
          p (find_info-set_info p tmp m.window_info)

    other_parent :
        same_window tmp.parent info.parent ≡ false
        → (n : Manager Surface) × (reparent m info tmp ≡ ok n) × Done n
    unfolding reparent alive moved_by
    other_parent other =
        let swapped = with_info tmp m in
        let (infos, left, one) =
          leave_parent-Steps swapped tmp.window old (λ p at. Known-swapped p (old_other p at).1) in
        let (infos', joined, two) = join_parent-Steps (with_infos infos m) tmp.window new (λ p at.
          Known-edited swapped infos (left_by tmp.window old) p (one p)
            (Known-swapped p (request.above p at).1)) in
        let told = λ (v : Window).
          two v
          ∙ ap (edited (joined_by tmp.window new)) (one v)
          ∙ edited-edited (joined_by tmp.window new) (left_by tmp.window old)
              (find_info v (set_info tmp m.window_info)) in
        (
          with_infos infos' m,
          rw other
              (ap (λ r. r >>= λ n. join_parent n (handle n tmp.parent) tmp.window) left ∙ joined),
          told-Done infos' (parents_apart info.parent tmp.parent other) told,
        )

    -- A record that keeps its window and its children is swapped in, and the two parents are told, without an
    -- exception, where each window is listed by the parents that it has, once, and by no other, and where the new
    -- parent, if it is alive, has a record and is less deep: afterwards this holds again, and the window has the new
    -- record.
    pub reparent-IsFamily :
        (n : Manager Surface) × (reparent m info tmp ≡ ok n)
        × IsFamily n depth limit
        × (info_for n info.window ≡ ok tmp)
    unfolding reparent
    reparent-IsFamily = elim (Bool-cases (same_window tmp.parent info.parent)) [
      | inr other ↦ let (n, is, done) = other_parent other in (n, is, done.0, done.1)
      | inl same ↦ (
        with_info tmp m,
        rw same refl,
        (same_parent (same_window_iff tmp.parent info.parent same)).0,
        (same_parent (same_window_iff tmp.parent info.parent same)).1,
      )
    ]
