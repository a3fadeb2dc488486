-- ===== src/BasicWindowManager/Joining/Joined.antt =====
-- `add_surface` in miral/basic_window_manager.cpp: the state in which the new window has joined the others.
use miral.Prelude.{
  ℕ, ◌≡◌, ◌∙◌, refl, sym, ap, subst, inl, inr, true, false, Option, none, some, List, [], ◌∷◌, ◌++◌,
  ◌==◌, if◌then◌else◌, Bool-cases, ==_iff, arith,
}
use miral.MruWindowList.{Window}
use miral.WindowInfo.{WindowInfo, add_child}
use miral.ApplicationInfo.{ApplicationInfo}
use miral.BasicWindowManager.State.{Manager, ok, find_info, set_info, info_for, handle, alive}
use miral.BasicWindowManager.Forest.{Known, find_info-key}
use miral.BasicWindowManager.Records.{
  edited-other, edited, edited-id, found_info, find_info-set_info, set_info-edited,
}
use miral.BasicWindowManager.Joining.{Built, emplace, emplaced, join_parent}
use miral.BasicWindowManager.Joining.Edits.{joined_by, IsJoined}

pub find_info-append :
    (v : Window) (infos : List WindowInfo) (info : WindowInfo)
    → find_info info.window infos ≡ none
    → find_info v (infos ++ info ∷ []) ≡ (if v == info.window then some info else find_info v infos)
unfolding find_info
find_info-append v [] info unknown = ground arith
find_info-append v (i ∷ infos) info unknown = ground (arith, unknown, find_info-append v infos info)

pub emplace-new :
    (infos : List WindowInfo) (info : WindowInfo)
    → find_info info.window infos ≡ none
    → emplace info infos ≡ infos ++ info ∷ []
unfolding emplace
emplace-new infos info unknown =
    ap (λ o. elim o [ none ↦ infos ++ info ∷ [] | some old ↦ infos ]) unknown

-- The record of the new window, put in and then changed.
put_info :
    (v : Window) (infos : List WindowInfo) (info new : WindowInfo)
    → find_info info.window infos ≡ none
    → new.window ≡ info.window
    → find_info v (set_info new (emplace info infos))
      ≡ (if v == new.window then some new else find_info v infos)
put_info v infos info new unknown same =
    find_info-set_info v new (emplace info infos)
    ∙ ap (λ l. edited (λ i. if i.window == new.window then new else i) (find_info v l))
        (emplace-new infos info unknown)
    ∙ ap (edited (λ i. if i.window == new.window then new else i)) (
        find_info-append v infos info unknown
        ∙ ap (λ k. if v == k then some info else find_info v infos) (sym same))
    ∙ elim (Bool-cases (v == new.window)) [
      | inl mine ↦
          let own : info.window == new.window ≡ true =
            (==_iff info.window new.window).1 (sym same) in
          rw mine (rw own refl)
      | inr other ↦ rw other (edited-other v new infos (find_info v infos) refl other)
    ]

module _ {Surface : Type 0} (m : Manager Surface) (session : ℕ) (built : Built Surface)
    (info new : WindowInfo) (app_infos : List ApplicationInfo) (own : info.window ≡ built.window)
    (same : new.window ≡ info.window) (unknown : find_info info.window m.window_info ≡ none) where
  -- The window has its record, and is listed with its application.
  abbrev pub with_record : Manager Surface
  with_record =
      let known = emplaced m session built info in
      record known { window_info = set_info new known.window_info; app_info = app_infos }

  with_record-find :
      (v : Window)
      → find_info v with_record.window_info
        ≡ (if v == new.window then some new else find_info v m.window_info)
  unfolding emplaced
  with_record-find v = put_info v m.window_info info new unknown same

  with_record-alive :
      (v : Window) → alive with_record v ≡ (if v == new.window then true else alive m v)
  unfolding emplaced alive
  with_record-alive v =
      subst
        (λ k.
          elim (if v == k then some built.surface else m.surfaces v) [
            | none ↦ false
            | some s ↦ true
          ]
          ≡ (if v == new.window then true else alive m v))
        (same ∙ own) (ground arith)

  with_record-own : info_for with_record new.window ≡ ok new
  unfolding info_for
  with_record-own = rw (with_record-find new.window, (==_iff new.window new.window).1 refl) refl

  abbrev pub with_child : Window → WindowInfo → Manager Surface
  with_child p i = record with_record {
    window_info = set_info (add_child i new.window) with_record.window_info;
  }

  with_child-find :
      (p v : Window) (i : WindowInfo)
      → p == new.window ≡ false
      → info_for m p ≡ ok i
      → find_info v (with_child p i).window_info
        ≡ edited
            (joined_by new.window (some p))
            (if v == new.window then some new else find_info v m.window_info)
  unfolding joined_by add_child
  with_child-find p v i apart known =
      let found : find_info p with_record.window_info ≡ some i =
        with_record-find p ∙ rw apart (found_info m p {info = i} known) in
      set_info-edited p v (λ j. record j { children = j.children ++ new.window ∷ [] }) i
        with_record.window_info found (find_info-key p with_record.window_info {info = i} found)
      ∙ ap (edited _) (with_record-find v)

  with_child-own :
      (p : Window) (i : WindowInfo)
      → p == new.window ≡ false
      → info_for m p ≡ ok i
      → info_for (with_child p i) new.window ≡ ok new
  unfolding info_for joined_by
  with_child-own p i apart known =
      let turned : new.window == p ≡ false = ground (arith, apart) in
      rw (with_child-find p new.window i apart known, (==_iff new.window new.window).1 refl)
        (rw turned refl)

  pub join_parent-Joined :
      (parent : Option Window)
      → handle with_record new.parent ≡ parent
      → new.children ≡ []
      → ((p : Window) → parent ≡ some p → (p == new.window ≡ false) × Known m p)
      → (n : Manager Surface) × (join_parent with_record parent new.window ≡ ok n)
        × IsJoined m n new parent
  unfolding join_parent joined_by info_for alive emplaced
  join_parent-Joined none at_parent no_children above = (
    with_record,
    refl,
    record {
      own = with_record-own;
      others = λ v other. with_record-find v ∙ rw other (edited-id (find_info v m.window_info));
      alive = with_record-alive;
      active = refl;
      parent_handle = at_parent;
      no_children = no_children;
    },
  )
  join_parent-Joined (some p) at_parent no_children above =
      let (apart, (i, known)) = above p refl in
      (
        with_child p i,
        rw (with_record-find p, apart, found_info m p {info = i} known) refl,
        record {
          own = with_child-own p i apart known;
          others = λ v other. with_child-find p v i apart known ∙ rw other refl;
          alive = with_record-alive;
          active = refl;
          parent_handle = at_parent;
          no_children = no_children;
        },
      )
