-- ===== src/Keymap/Keyboards.antt =====
-- miral/keymap.cpp: each keyboard has the keymap that was set last.
use miral.Prelude.{
  ℕ, ◌≡◌, refl, sym, subst, inl, inr, true, false, some, List, [], ◌∷◌, ◌++◌, ◌==◌, contains,
  Bool-cases, ==_iff, All, All-append,
}
use miral.WindowInfo.{remove_first}
use miral.BasicWindowManager.Family.{Distinct, Distinct-remove_first}
use miral.BasicWindowManager.Joining.Edits.{Distinct-append}
use miral.Keymap.{
  Text, Keymap, InputKeymap, Event, keymap_set, added, changed, removed, keymap_or, apply_keymap,
  apply_all, set_keymap, add_keyboard, device_added, device_changed, device_removed, handle_event,
  token, remainder,
}

-- The device has the keymap that was set.
pub record Applied (self : Keymap) (device : ℕ) : Type 0 where
  pub keymap : InputKeymap
  pub configured : self.configurations device ≡ some keymap
  pub layout : keymap.layout ≡ self.layout
  pub variant : keymap.variant ≡ self.variant
  pub options : keymap.options ≡ self.options

-- Each keyboard is listed once, and has the keymap.
pub record IsApplied (self : Keymap) : Type 0 where
  pub applied : All (Applied self) self.keyboards
  pub distinct : Distinct self.keyboards

-- What Mir's device hub promises: a device that it adds is new, and a keyboard that it removes was added.
abbrev pub Expected : Keymap → Event → Type 0
Expected self (keymap_set keymap) = Unit
Expected self (added device is_keyboard) = contains device self.keyboards ≡ false
Expected self (changed device is_keyboard) = Unit
Expected self (removed device false) = Unit
Expected self (removed device true) = contains device self.keyboards ≡ true

-- The same names and keyboards.
abbrev pub Alike : Keymap → Keymap → Type 0
Alike a b =
    (b.layout ≡ a.layout)
    × (b.variant ≡ a.variant)
    × (b.options ≡ a.options)
    × (b.keyboards ≡ a.keyboards)

All-remove_first : (P : ℕ → Type 0) (w : ℕ) (ws : List ℕ) → All P ws → All P (remove_first w ws)
unfolding remove_first
All-remove_first P w [] h = tt
All-remove_first P w (x ∷ ws) (here, h) = elim (Bool-cases (w == x)) [
  | inl same ↦ rw same h
  | inr other ↦ rw other (here, All-remove_first P w ws h)
]

-- Other keyboards, the same keymaps.
abbrev with_keyboards : List ℕ → Keymap → Keymap
with_keyboards keyboards self = record self { keyboards = keyboards }

All-relisted :
    (self : Keymap) (keyboards ds : List ℕ)
    → All (Applied self) ds
    → All (Applied (with_keyboards keyboards self)) ds
All-relisted self keyboards [] h = tt
All-relisted self keyboards (d ∷ ds) (a, h) = (
  record {
    keymap = a.keymap;
    configured = a.configured;
    layout = a.layout;
    variant = a.variant;
    options = a.options;
  },
  All-relisted self keyboards ds h,
)

module _ (default : InputKeymap) where
  apply_keymap-Applied :
      (self : Keymap) (device : ℕ) → Applied (apply_keymap default self device) device
  unfolding apply_keymap
  apply_keymap-Applied self device = record {
    keymap = record (keymap_or default (self.configurations device)) {
      layout = self.layout;
      variant = self.variant;
      options = self.options;
    };
    configured = rw ((==_iff device device).1 refl) refl;
    layout = refl;
    variant = refl;
    options = refl;
  }

  apply_keymap-kept :
      (self : Keymap) (device other : ℕ)
      → Applied self device
      → Applied (apply_keymap default self other) device
  unfolding apply_keymap
  apply_keymap-kept self device other a = elim (Bool-cases (device == other)) [
    | inl same ↦
        subst (Applied (apply_keymap default self other)) (sym ((==_iff device other).0 same))
          (apply_keymap-Applied self other)
    | inr apart ↦ record {
      keymap = a.keymap;
      configured = rw apart a.configured;
      layout = a.layout;
      variant = a.variant;
      options = a.options;
    }
  ]

  apply_all-kept :
      (ds : List ℕ) (self : Keymap) (device : ℕ)
      → Applied self device
      → Applied (apply_all default ds self) device
  unfolding apply_all
  apply_all-kept [] self device a = a
  apply_all-kept (d ∷ ds) self device a =
      apply_all-kept ds (apply_keymap default self d) device (apply_keymap-kept self device d a)

  apply_all-Applied : (ds : List ℕ) (self : Keymap) → All (Applied (apply_all default ds self)) ds
  unfolding apply_all
  apply_all-Applied [] self = tt
  apply_all-Applied (d ∷ ds) self = (
    apply_all-kept ds (apply_keymap default self d) d (apply_keymap-Applied self d),
    apply_all-Applied ds (apply_keymap default self d),
  )

  pub apply_all-Alike : (ds : List ℕ) (self : Keymap) → Alike self (apply_all default ds self)
  unfolding apply_all apply_keymap
  apply_all-Alike [] self = (refl, refl, refl, refl)
  apply_all-Alike (d ∷ ds) self = apply_all-Alike ds (apply_keymap default self d)

  all_kept :
      (self : Keymap) (other : ℕ) (ds : List ℕ)
      → All (Applied self) ds
      → All (Applied (apply_keymap default self other)) ds
  all_kept self other [] h = tt
  all_kept self other (d ∷ ds) (a, h) = (apply_keymap-kept self d other a, all_kept self other ds h)

  set_keymap-IsApplied :
      (self : Keymap) (keymap : Text) → IsApplied self → IsApplied (set_keymap default self keymap)
  unfolding set_keymap
  set_keymap-IsApplied self keymap is =
      let named : Keymap = record self {
        layout = token keymap;
        variant = token (remainder keymap);
        options = token (remainder (remainder keymap));
      } in
      let (_, _, _, same) = apply_all-Alike self.keyboards named in
      record {
        applied =
            subst (All (Applied (apply_all default self.keyboards named))) (sym same)
              (apply_all-Applied self.keyboards named);
        distinct = subst Distinct (sym same) is.distinct;
      }

  add_keyboard-IsApplied :
      (self : Keymap) (device : ℕ)
      → contains device self.keyboards ≡ false
      → IsApplied self
      → IsApplied (add_keyboard default self device)
  unfolding add_keyboard apply_keymap
  add_keyboard-IsApplied self device fresh is =
      let listed : Keymap = record self { keyboards = self.keyboards ++ device ∷ [] } in
      record {
        applied =
            All-append (Applied (apply_keymap default listed device)) self.keyboards (device ∷ [])
              (apply_keymap-Applied listed device, tt)
              (all_kept listed device self.keyboards
                (All-relisted self (self.keyboards ++ device ∷ []) self.keyboards is.applied));
        distinct = Distinct-append device self.keyboards fresh is.distinct;
      }

  without :
      (self : Keymap) (device : ℕ)
      → IsApplied self
      → IsApplied (record self { keyboards = remove_first device self.keyboards })
  without self device is = record {
    applied =
        All-relisted self (remove_first device self.keyboards) (remove_first device self.keyboards)
          (All-remove_first (Applied self) device self.keyboards is.applied);
    distinct = Distinct-remove_first device self.keyboards is.distinct;
  }

  pub event-IsApplied :
      (self : Keymap) (event : Event)
      → Expected self event
      → IsApplied self
      → (next : Keymap) × (handle_event default self event ≡ some next) × IsApplied next
  unfolding handle_event device_added device_changed device_removed
  event-IsApplied self (keymap_set keymap) h is =
      (set_keymap default self keymap, refl, set_keymap-IsApplied self keymap is)
  event-IsApplied self (added device true) h is =
      (add_keyboard default self device, refl, add_keyboard-IsApplied self device h is)
  event-IsApplied self (added device false) h is = (self, refl, is)
  event-IsApplied self (changed device true) h is =
      elim (Bool-cases (contains device self.keyboards)) [
        | inl listed ↦ (self, rw listed refl, is)
        | inr fresh ↦ (
          add_keyboard default self device,
          rw fresh refl,
          add_keyboard-IsApplied self device fresh is,
        )
      ]
  event-IsApplied self (changed device false) h is =
      elim (Bool-cases (contains device self.keyboards)) [
        | inl listed ↦ (_, rw listed refl, without self device is)
        | inr fresh ↦ (self, rw fresh refl, is)
      ]
  event-IsApplied self (removed device true) h is = (_, rw h refl, without self device is)
  event-IsApplied self (removed device false) h is = (self, refl, is)
