-- ===== src/BasicWindowManager/Joining/Edits.antt =====
-- What `add_surface` of miral/basic_window_manager.cpp makes of the records of the windows.
use miral.Prelude.{
  ◌≡◌, ◌∙◌, refl, sym, subst, inl, inr, ◌⊎◌, true, false, ◌||◌, Option, none, some, List, [], ◌∷◌,
  ◌++◌, ◌==◌, if◌then◌else◌, contains, Bool-cases, arith,
}
use miral.MruWindowList.{Window}
use miral.WindowInfo.{WindowInfo, add_child}
use miral.BasicWindowManager.State.{Manager, ok, find_info, info_for, handle, alive, is_window}
use miral.BasicWindowManager.Family.{Distinct}
use miral.BasicWindowManager.Records.{edited}

-- The edit of a record where a window comes below a parent.
unfoldable pub joined_by : Window → Option Window → WindowInfo → WindowInfo
joined_by w none i = i
joined_by w (some parent) i = if i.window == parent then add_child i w else i

pub contains-append :
    (v w : Window) (ws : List Window) → contains v (ws ++ w ∷ []) ≡ (contains v ws || w == v)
contains-append v w [] = ground arith
contains-append v w (x ∷ ws) = ground (arith, contains-append v w ws)

pub Distinct-append :
    (w : Window) (ws : List Window) → contains w ws ≡ false → Distinct ws → Distinct (ws ++ w ∷ [])
Distinct-append w [] fresh d = (refl, tt)
Distinct-append w (x ∷ ws) fresh (first, d) = (
  ground (arith, contains-append x w ws, first, fresh),
  Distinct-append w ws (ground (arith, fresh)) d,
)

module _ (w : Window) (parent : Option Window) where
  abbrev edit : WindowInfo → WindowInfo
  edit = joined_by w parent

  pub edit-parent : (i : WindowInfo) → (edit i).parent ≡ i.parent
  unfolding joined_by add_child
  edit-parent i = ground arith

  -- The parent has one child more.
  pub edit-children :
      (i : WindowInfo)
      → (((edit i).children ≡ i.children) × (is_window parent i.window ≡ false))
        ⊎ (((edit i).children ≡ i.children ++ w ∷ []) × (parent ≡ some i.window))
  unfolding joined_by add_child
  edit-children i = ground arith

  -- An element of the children after the edit.
  pub child_was :
      (c : Window) (i : WindowInfo)
      → contains c (edit i).children ≡ true
      → (contains c i.children ≡ true) ⊎ ((w ≡ c) × (parent ≡ some i.window))
  child_was c i h = elim (edit-children i) [
    | inl (same, _) ↦ inl (subst (λ cs. contains c cs ≡ true) same h)
    | inr (more, mine) ↦
        let listed =
          sym (contains-append c w i.children) ∙ subst (λ cs. contains c cs ≡ true) more h in
        elim (Bool-cases (contains c i.children)) [
          | inl before ↦ inl before
          | inr not_before ↦ inr (ground (arith, listed, not_before), mine)
        ]
  ]

  pub child_kept :
      (c : Window) (i : WindowInfo)
      → contains c i.children ≡ true
      → contains c (edit i).children ≡ true
  child_kept c i h = elim (edit-children i) [
    | inl (same, _) ↦ subst (λ cs. contains c cs ≡ true) (sym same) h
    | inr (more, _) ↦
        subst (λ cs. contains c cs ≡ true) (sym more)
          (contains-append c w i.children ∙ ground (arith, h))
  ]

module _ {Surface : Type 0} where
  -- The second state is the first one with the window of the record below the parent.
  pub record IsJoined (m n : Manager Surface) (info : WindowInfo) (parent : Option Window)
      : Type 0 where
    pub own : info_for n info.window ≡ ok info
    pub others :
        (v : Window)
        → v == info.window ≡ false
        → find_info v n.window_info
          ≡ edited (joined_by info.window parent) (find_info v m.window_info)
    pub alive : (v : Window) → alive n v ≡ (if v == info.window then true else alive m v)
    pub active : n.mru_active_windows ≡ m.mru_active_windows
    pub parent_handle : handle n info.parent ≡ parent
    pub no_children : info.children ≡ []

  -- A window that is new to the records: none of them is about it or has it as its parent.
  pub record IsNew (m : Manager Surface) (w : Window) : Type 0 where
    pub unknown : find_info w m.window_info ≡ none
    pub no_parent :
        (v : Window) (i : WindowInfo) → info_for m v ≡ ok i → is_window i.parent w ≡ false
