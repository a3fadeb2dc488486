-- ===== src/BasicWindowManager/Removal/Returns.antt =====
-- The returns of `erase` and `remove_window` in miral/basic_window_manager.cpp.
use miral.Prelude.{
  ◌≡◌, refl, ap, ◌∙◌, inl, inr, Option, none, some, List, [], ◌∷◌, ◌==◌, if◌then◌else◌, filter, not,
  All, arith, Bool-cases, Option-cases,
}
use miral.MruWindowList.{Window}
use miral.WindowInfo.{WindowInfo, remove_child}
use miral.BasicWindowManager.State.{
  Manager, ok, info_for, find_info, set_info, handle, or_out_of_range,
}
use miral.BasicWindowManager.Forest.{Known, Returns}
use miral.BasicWindowManager.Removal.{leave_parent, orphan, erase}
use miral.BasicWindowManager.Records.{same_key}

HasInfo : Window → List WindowInfo → Type 0
HasInfo v infos = (info : WindowInfo) × (find_info v infos ≡ some info)

-- A record that is replaced under its own key leaves each window its record.
HasInfo-set_info :
    (v : Window) (new : WindowInfo) (infos : List WindowInfo)
    → HasInfo v infos
    → HasInfo v (set_info new infos)
unfolding HasInfo find_info set_info
HasInfo-set_info v new [] h = h
HasInfo-set_info v new (i ∷ infos) (info, found) = elim (Bool-cases (i.window == v)) [
  | inl mine ↦ (if i.window == new.window then new else i, rw (same_key v new i ∙ mine) refl)
  | inr other ↦
      let (j, later) = HasInfo-set_info v new infos (info, rw other at found) in
      (j, rw (same_key v new i ∙ other) later)
]

module _ {Surface : Type 0} where
  find_info-Known : (m : Manager Surface) (v : Window) → HasInfo v m.window_info → Known m v
  unfolding info_for HasInfo
  find_info-Known m v (info, found) = (info, rw found refl)

  Known-find_info : (m : Manager Surface) (v : Window) → Known m v → HasInfo v m.window_info
  unfolding info_for HasInfo
  Known-find_info m v (info, known) = elim (Option-cases (find_info v m.window_info)) [
    | inl none_found ↦ absurd (ground (arith, known, none_found))
    | inr found ↦ found
  ]

  Known-set_info :
      (m : Manager Surface) (v : Window) (new : WindowInfo)
      → Known m v
      → Known (record m { window_info = set_info new m.window_info }) v
  Known-set_info m v new known =
      find_info-Known (record m { window_info = set_info new m.window_info }) v
        (HasInfo-set_info v new m.window_info (Known-find_info m v known))

  All-set_info :
      (m : Manager Surface) (new : WindowInfo) (vs : List Window)
      → All (Known m) vs
      → All (Known (record m { window_info = set_info new m.window_info })) vs
  All-set_info m new [] h = tt
  All-set_info m new (v ∷ vs) (known, h) = (Known-set_info m v new known, All-set_info m new vs h)

  orphan-Returns :
      (m : Manager Surface) (children : List Window)
      → All (Known m) children
      → Returns (orphan m children)
  unfolding orphan
  orphan-Returns m [] h = (m, refl)
  orphan-Returns m (c ∷ cs) ((info, known), h) =
      let new = record info { parent = none } in
      let (m', is) =
        orphan-Returns (record m { window_info = set_info new m.window_info }) cs
          (All-set_info m new cs h) in
      (m', rw known is)

  -- What the removal needs of the parent that is alive, and of the children.
  abbrev pub HasParent : Manager Surface → Option Window → Type 0
  HasParent m none = Unit
  HasParent m (some p) = Known m p

  leave_parent-Returns :
      (m : Manager Surface) (w : Window) (parent : Option Window) (children : List Window)
      → HasParent m parent
      → All (Known m) children
      → (m' : Manager Surface) × (leave_parent m w parent ≡ ok m') × All (Known m') children
  unfolding leave_parent
  leave_parent-Returns m w none children p h = (m, refl, h)
  leave_parent-Returns m w (some p) children (info, known) h =
      let new = remove_child info w in
      (
        record m { window_info = set_info new m.window_info },
        rw known refl,
        All-set_info m new children h,
      )

  pub erase-Returns :
      (m : Manager Surface) (info : WindowInfo)
      → HasParent m (handle m info.parent)
      → All (Known m) info.children
      → Returns (erase m info)
  unfolding erase
  erase-Returns m info p h =
      let (left, is_left, h') =
        leave_parent-Returns m info.window (handle m info.parent) info.children p h in
      let (orphaned, is_orphaned) = orphan-Returns left info.children h' in
      (
        record orphaned {
          window_info = filter (λ i. not (i.window == info.window)) orphaned.window_info;
        },
        rw (is_left, is_orphaned) refl,
      )

  -- Only the records of the windows count.
  pub Known-alike :
      (m n : Manager Surface) (v : Window) → n.window_info ≡ m.window_info → Known m v → Known n v
  unfolding info_for
  Known-alike m n v same (info, known) =
      (info, ap (λ infos. or_out_of_range (find_info v infos)) same ∙ known)

  pub HasParent-alike :
      (m n : Manager Surface) (parent : Option Window)
      → n.window_info ≡ m.window_info
      → HasParent m parent
      → HasParent n parent
  HasParent-alike m n none same p = tt
  HasParent-alike m n (some w) same p = Known-alike m n w same p

  pub All-alike :
      (m n : Manager Surface) (vs : List Window)
      → n.window_info ≡ m.window_info
      → All (Known m) vs
      → All (Known n) vs
  All-alike m n [] same h = tt
  All-alike m n (v ∷ vs) same (known, h) = (Known-alike m n v same known, All-alike m n vs same h)
