-- ===== src/ActiveOutputs/Broadcast.antt =====
-- miral/active_outputs.cpp: what a registered listener is told over a history of configurations.
use miral.Prelude.{
  ◌⊎◌, ℕ, ◌≡◌, refl, ap, inl, inr, true, false, List, [], ◌∷◌, ◌++◌, map, arith, ◌==◌,
  if◌then◌else◌, contains,
}
use miral.Output.{Output}
use miral.ActiveOutputs.{
  Monitor, Advice, output_begin, output_end, changes, current_outputs, broadcast,
  configuration_applied,
}
use miral.ActiveOutputs.View.{View, follow, follow-append, Tracks, IsDistinct, changes-Tracks}

-- The calls of one listener, in their order.
abbrev pub received : ℕ → List (ℕ × Advice) → List Advice
received l [] = []
received l ((m, a) ∷ trace) = let rest = received l trace in if m == l then a ∷ rest else rest

-- The listener is registered, and once.
abbrev pub IsRegistered : ℕ → List ℕ → Type 0
IsRegistered l [] = ⊥
IsRegistered l (m ∷ listeners) =
    (m == l ≡ true) × (contains l listeners ≡ false) ⊎ (m == l ≡ false) × IsRegistered l listeners

received-append :
    (l : ℕ) (xs ys : List (ℕ × Advice)) → received l (xs ++ ys) ≡ received l xs ++ received l ys
received-append l [] ys = refl
received-append l ((m, a) ∷ xs) ys = ground (arith, received-append l xs ys)

received-absent :
    (l : ℕ) (a : Advice) (listeners : List ℕ)
    → contains l listeners ≡ false
    → received l (map (λ m. (m, a)) listeners) ≡ []
received-absent l a [] h = refl
received-absent l a (m ∷ listeners) h = ground (arith, received-absent l a listeners)

received-once :
    (l : ℕ) (a : Advice) (listeners : List ℕ)
    → IsRegistered l listeners
    → received l (map (λ m. (m, a)) listeners) ≡ a ∷ []
received-once l a [] h = absurd h
received-once l a (m ∷ listeners) (inl (mine, rest)) = rw (mine, received-absent l a listeners rest)
received-once l a (m ∷ listeners) (inr (other, rest)) = rw other (received-once l a listeners rest)

-- A registered listener is given each piece of advice once, in the order in which it is given.
received-broadcast :
    (l : ℕ) (listeners : List ℕ) (advice : List Advice)
    → IsRegistered l listeners
    → received l (broadcast listeners advice) ≡ advice
unfolding broadcast
received-broadcast l listeners [] h = refl
received-broadcast l listeners (a ∷ advice) h =
    rw
      (
        received-append l (map (λ m. (m, a)) listeners) (broadcast listeners advice),
        received-once l a listeners h,
      )
      (ap (◌∷◌ a) (received-broadcast l listeners advice h))

-- A history of configurations.
pub applied : Monitor → List (List Output) → Monitor
applied self [] = self
applied self (config ∷ configs) = applied (configuration_applied self config).0 configs

pub trace : Monitor → List (List Output) → List (ℕ × Advice)
trace self [] = []
trace self (config ∷ configs) =
    let (next, calls) = configuration_applied self config in calls ++ trace next configs

abbrev pub AllDistinct : List (List Output) → Type 0
AllDistinct [] = Unit
AllDistinct (config ∷ configs) = IsDistinct (current_outputs config) × AllDistinct configs

one :
    (l : ℕ) (self : Monitor) (config : List Output)
    → IsRegistered l self.listeners
    → received l (configuration_applied self config).1
      ≡ output_begin ∷ (changes self.outputs config ++ output_end ∷ [])
unfolding configuration_applied
one l self config h = received-broadcast l self.listeners _ h

-- A listener that is registered once and follows the calls that it gets, over any history of
-- configurations with distinct active outputs, agrees with the monitor about the outputs, if it did
-- so before: both know of an output or neither does, and what they know of it has an equivalent
-- display area.
pub trace-Tracks :
    (l : ℕ) (self : Monitor) (view : View) (configs : List (List Output))
    → IsRegistered l self.listeners
    → AllDistinct configs
    → Tracks view self.outputs
    → Tracks
        (λ k. follow k (view k) (received l (trace self configs)))
        (applied self configs).outputs
unfolding applied trace configuration_applied
trace-Tracks l self view [] h d t k = t k
trace-Tracks l self view (config ∷ configs) h d t k =
    let (next, calls) = configuration_applied self config in
    let advice = changes self.outputs config in
    let later = trace next configs in
    let view' : View = λ j. follow j (view j) advice in
    rw
      (
        received-append l calls later,
        one l self config h,
        follow-append k (view k) (advice ++ output_end ∷ []) (received l later),
        follow-append k (view k) advice (output_end ∷ []),
      )
      (trace-Tracks l next view' configs h d.1 (changes-Tracks view self.outputs config d.0 t) k)
