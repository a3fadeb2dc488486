-- ===== src/Keymap/Names.antt =====
-- miral/keymap.cpp: the name of a keymap is taken apart.
use miral.Prelude.{◌≡◌, ◌∙◌, refl, ap, false, [], ◌∷◌, ◌++◌, contains, arith}
use miral.Keymap.Keyboards.{apply_all-Alike}
use miral.Keymap.{Text, Keymap, InputKeymap, plus, token, remainder, set_keymap}

token-append : (a b : Text) → contains plus a ≡ false → token (a ++ plus ∷ b) ≡ a
unfolding token
token-append [] b h = refl
token-append (c ∷ a) b h = ground (arith, h, token-append a b)

remainder-append : (a b : Text) → contains plus a ≡ false → remainder (a ++ plus ∷ b) ≡ b
unfolding remainder
remainder-append [] b h = refl
remainder-append (c ∷ a) b h = ground (arith, h, remainder-append a b)

token-whole : (a : Text) → contains plus a ≡ false → token a ≡ a
unfolding token
token-whole [] h = refl
token-whole (c ∷ a) h = ground (arith, h, token-whole a)

remainder-whole : (a : Text) → contains plus a ≡ false → remainder a ≡ []
unfolding remainder
remainder-whole [] h = refl
remainder-whole (c ∷ a) h = ground (arith, h, remainder-whole a)

token-nothing : token [] ≡ []
unfolding token
token-nothing = refl

remainder-nothing : remainder [] ≡ []
unfolding remainder
remainder-nothing = refl

pub set_keymap-tokens :
    (default : InputKeymap) (self : Keymap) (name : Text)
    → ((set_keymap default self name).layout ≡ token name)
      × ((set_keymap default self name).variant ≡ token (remainder name))
      × ((set_keymap default self name).options ≡ token (remainder (remainder name)))
unfolding set_keymap
set_keymap-tokens default self name =
    let named : Keymap = record self {
      layout = token name;
      variant = token (remainder name);
      options = token (remainder (remainder name));
    } in
    let (la, va, op, _) = apply_all-Alike default self.keyboards named in (la, va, op)

-- A layout, a variant and options, each without a plus, are what `set_keymap` reads back from their name; an empty
-- variant and empty options may stay away.
pub set_keymap-names :
    (default : InputKeymap) (self : Keymap) (layout variant options : Text)
    → contains plus layout ≡ false
    → contains plus variant ≡ false
    → contains plus options ≡ false
    → (((set_keymap default self (layout ++ plus ∷ (variant ++ plus ∷ options))).layout ≡ layout)
        × ((set_keymap default self (layout ++ plus ∷ (variant ++ plus ∷ options))).variant
            ≡ variant)
        × ((set_keymap default self (layout ++ plus ∷ (variant ++ plus ∷ options))).options
            ≡ options))
      × (((set_keymap default self layout).layout ≡ layout)
          × ((set_keymap default self layout).variant ≡ [])
          × ((set_keymap default self layout).options ≡ []))
set_keymap-names default self layout variant options h k l =
    let whole = layout ++ plus ∷ (variant ++ plus ∷ options) in
    let (la, va, op) = set_keymap-tokens default self whole in
    let (la', va', op') = set_keymap-tokens default self layout in
    let rest = remainder-append layout (variant ++ plus ∷ options) h in
    (
      (
        la ∙ token-append layout (variant ++ plus ∷ options) h,
        va ∙ ap token rest ∙ token-append variant options k,
        op
            ∙ ap (λ t. token (remainder t)) rest
            ∙ ap token (remainder-append variant options k)
            ∙ token-whole options l,
      ),
      (
        la' ∙ token-whole layout h,
        va' ∙ ap token (remainder-whole layout h) ∙ token-nothing,
        op'
            ∙ ap (λ t. token (remainder t)) (remainder-whole layout h)
            ∙ ap token remainder-nothing
            ∙ token-nothing,
      ),
    )
