-- ===== src/ActiveOutputs/View.antt =====
-- The listeners of miral/active_outputs.cpp: the view that one has of the outputs if it follows the advice.
use miral.Prelude.{
  ℕ, ◌≡◌, refl, sym, ap, ◌∙◌, inl, inr, Bool, true, false, ◌&&◌, Option, none, some, List, [], ◌∷◌,
  ◌++◌, arith, ◌==◌, if◌then◌else◌, find, Bool-cases,
}
use miral.Output.{Output, is_same_output, equivalent_display_area}
use miral.Output.Equivalence.{
  equivalent_display_area_refl, equivalent_display_area_sym, equivalent_display_area_trans,
}
use miral.ActiveOutputs.{
  Advice, output_create, output_delete, output_update, find_output, is_active, advice_for,
  appearing, current_outputs, disappearing, changes,
}

-- What identifies an output.
pub record Key : Type 0 where
  pub card_id : ℕ
  pub id : ℕ

unfoldable pub has_key : Key → Output → Bool
has_key k o = o.card_id == k.card_id && o.id == k.id

abbrev pub key_of : Output → Key
key_of o = record { card_id = o.card_id; id = o.id }

-- What a listener knows of each output.
abbrev pub View : Type 0
View = Key → Option Output

abbrev follow_at : Key → Option Output → Advice → Option Output
follow_at k v (output_create o) = if has_key k o then some o else v
follow_at k v (output_update o old) = if has_key k o then some o else v
follow_at k v (output_delete o) = if has_key k o then none else v
follow_at k v _ = v

-- What it knows of the output `k` once it has followed some advice.
abbrev pub follow : Key → Option Output → List Advice → Option Output
follow k v [] = v
follow k v (a ∷ advice) = follow k (follow_at k v a) advice

-- Both know of no output, or of two whose display areas are equivalent.
abbrev pub Agree : Option Output → Option Output → Type 0
Agree none none = Unit
Agree (some a) (some b) = equivalent_display_area a b ≡ true
Agree _ _ = ⊥

unfoldable pub lookup : Key → List Output → Option Output
lookup k outputs = find (has_key k) outputs

-- No two outputs of a configuration have the same key.
abbrev pub IsDistinct : List Output → Type 0
IsDistinct [] = Unit
IsDistinct (o ∷ outputs) = (find_output o outputs ≡ none) × IsDistinct outputs

pub follow-append :
    (k : Key) (v : Option Output) (xs ys : List Advice)
    → follow k v (xs ++ ys) ≡ follow k (follow k v xs) ys
follow-append k v [] ys = refl
follow-append k v (a ∷ xs) ys = follow-append k (follow_at k v a) xs ys

-- An output with another key makes no difference.
advice_for-other :
    (k : Key) (v : Option Output) (o : Output) (found : Option Output)
    → has_key k o ≡ false
    → follow k v (advice_for o found) ≡ v
unfolding advice_for
advice_for-other k v o found h = ground arith

key_of-eq : (k : Key) (o : Output) → has_key k o ≡ true → key_of o ≡ k
unfolding has_key
key_of-eq k o h = ground arith

-- The code looks an output up by its own key.
find_output-lookup :
    (k : Key) (o : Output) (outputs : List Output)
    → has_key k o ≡ true
    → find_output o outputs ≡ lookup k outputs
unfolding find_output lookup is_same_output has_key
find_output-lookup k o outputs h = ap (λ j. find (has_key j) outputs) (key_of-eq k o h)

lookup-has_key :
    (k : Key) (outputs : List Output) {o : Output} → lookup k outputs ≡ some o → has_key k o ≡ true
unfolding lookup
lookup-has_key k [] e = cc
lookup-has_key k (x ∷ outputs) {o} e = ground (arith, lookup-has_key k outputs {o = o})

-- What the first loop does to the output `k`, by what the new configuration has under that key.
settle : Key → Option Output → Option Output → Option Output → Option Output
settle k v known none = v
settle k v known (some o) = follow k v (advice_for o known)

appearing-settle :
    (k : Key) (v : Option Output) (outputs config : List Output)
    → IsDistinct (current_outputs config)
    → follow k v (appearing outputs config)
      ≡ settle k v (lookup k outputs) (lookup k (current_outputs config))
unfolding appearing current_outputs lookup settle
appearing-settle k v outputs [] d = refl
appearing-settle k v outputs (o ∷ config) d = elim (Bool-cases (is_active o)) [
  | inl active ↦
      rw
        (
          active,
          follow-append k v (advice_for o (find_output o outputs)) (appearing outputs config),
        )
        (let d' : (find_output o (current_outputs config) ≡ none)
              × IsDistinct (current_outputs config) =
            rw active at d in
          let known = lookup k outputs in
          let w = follow k v (advice_for o (find_output o outputs)) in
          elim (Bool-cases (has_key k o)) [
            | inl mine ↦ rw mine (
                appearing-settle k w outputs config d'.1
                ∙ ap (settle k w known)
                    (sym (find_output-lookup k o (current_outputs config) mine) ∙ d'.0)
                ∙ ap (λ f. follow k v (advice_for o f)) (find_output-lookup k o outputs mine))
            | inr other ↦ rw other (
                ap (λ x. follow k x (appearing outputs config))
                  (advice_for-other k v o (find_output o outputs) other)
                ∙ appearing-settle k v outputs config d'.1)
          ])
  | inr passed ↦ rw passed (appearing-settle k v outputs config (rw passed at d))
]

-- What the second loop does to it.
gone : Option Output → Option Output → Option Output → Option Output
gone v (some known) none = none
gone v _ _ = v

disappearing-gone :
    (k : Key) (v : Option Output) (current outputs : List Output)
    → follow k v (disappearing current outputs) ≡ gone v (lookup k outputs) (lookup k current)
unfolding disappearing gone lookup
disappearing-gone k v current [] = refl
disappearing-gone k v current (o ∷ outputs) = ground (
  arith,
  find_output-lookup k o current,
  disappearing-gone k v current outputs,
  disappearing-gone k none current outputs,
)

settle-Agree :
    (k : Key) (v known next : Option Output)
    → ((o : Output) → next ≡ some o → has_key k o ≡ true)
    → Agree v known
    → Agree (gone (settle k v known next) known next) next
unfolding gone settle advice_for
settle-Agree k none none none keyed h = tt
settle-Agree k none none (some o) keyed h = rw (keyed o refl) (equivalent_display_area_refl o)
settle-Agree k (some a) (some p) none keyed h = tt
settle-Agree k (some a) (some p) (some o) keyed h =
    elim (Bool-cases (equivalent_display_area o p)) [
      | inl same ↦
          rw same (equivalent_display_area_trans a p o h (equivalent_display_area_sym o p same))
      | inr differs ↦ rw (differs, keyed o refl) (equivalent_display_area_refl o)
    ]
settle-Agree k none (some p) next keyed h = absurd h
settle-Agree k (some a) none next keyed h = absurd h

-- The view agrees with the outputs under every key.
abbrev pub Tracks : View → List Output → Type 0
Tracks view outputs = (k : Key) → Agree (view k) (lookup k outputs)

-- If a view agrees with the outputs that the monitor knows, then once it has followed the advice on a
-- configuration it agrees with the active outputs of that configuration, which are distinct.
pub changes-Tracks :
    (view : View) (outputs config : List Output)
    → IsDistinct (current_outputs config)
    → Tracks view outputs
    → Tracks (λ k. follow k (view k) (changes outputs config)) (current_outputs config)
unfolding changes
changes-Tracks view outputs config distinct tracks k =
    let current = current_outputs config in
    let settled = follow k (view k) (appearing outputs config) in
    rw
      (
        follow-append k (view k) (appearing outputs config) (disappearing current outputs),
        disappearing-gone k settled current outputs,
        appearing-settle k (view k) outputs config distinct,
      )
      (settle-Agree k (view k) (lookup k outputs) (lookup k current)
        (λ o e. lookup-has_key k current e) (tracks k))
