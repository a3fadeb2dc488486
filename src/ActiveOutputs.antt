-- ===== src/ActiveOutputs.antt =====
-- miral/active_outputs.cpp: the monitor that tells its listeners which outputs of the display
-- configuration come, change and go (the branch for Mir 0.26 and later; the older one is the same
-- code). A listener is a number, and a call of a listener is an entry of a trace.
pub mod View
pub mod Broadcast
use mathlib.Core.List.{flat_map}
use miral.Prelude.{
  ℕ, Bool, true, false, not, ◌&&◌, Option, none, some, List, [], ◌∷◌, ◌++◌, map, ◌==◌,
  if◌then◌else◌, filter, find,
}
use miral.Output.{Output, is_same_output, equivalent_display_area}

-- The virtual functions of `ActiveOutputsListener`.
pub data Advice : Type 0 where
  output_begin output_end : Advice
  output_create output_delete : Output → Advice
  output_update : (updated original : Output) → Advice

pub record Monitor : Type 0 where
  pub listeners : List ℕ
  pub outputs : List Output

unfoldable pub add_listener : Monitor → ℕ → Monitor
add_listener self listener = record self { listeners = self.listeners ++ listener ∷ [] }

-- `std::remove` and `erase`: every entry of the listener goes.
unfoldable pub delete_listener : Monitor → ℕ → Monitor
delete_listener self listener = record self {
  listeners = filter (λ l. not (l == listener)) self.listeners;
}

-- `find_if(begin(outputs), end(outputs), [&](Output const& oo) { return oo.is_same_output(o); })`
unfoldable pub find_output : Output → List Output → Option Output
find_output o outputs = find (λ oo. is_same_output oo o) outputs

-- `if (!o.connected() || !o.valid()) return;`
abbrev pub is_active : Output → Bool
is_active o = o.connected && o.valid

-- What is said of an output of the configuration, after it was looked up among the known ones.
unfoldable pub advice_for : Output → Option Output → List Advice
advice_for o none = output_create o ∷ []
advice_for o (some op) = if equivalent_display_area o op then [] else output_update o op ∷ []

-- The callback of `for_each_output`: the advice, and the outputs that it keeps.
unfoldable pub appearing : List Output → List Output → List Advice
appearing outputs [] = []
appearing outputs (o ∷ config) =
    let rest = appearing outputs config in
    if is_active o then advice_for o (find_output o outputs) ++ rest else rest

unfoldable pub current_outputs : List Output → List Output
current_outputs config = filter is_active config

-- The loop over the outputs that were known.
unfoldable pub disappearing : List Output → List Output → List Advice
disappearing current [] = []
disappearing current (o ∷ outputs) =
    let rest = disappearing current outputs in
    elim (find_output o current) [ none ↦ output_delete o ∷ rest | some op ↦ rest ]

unfoldable pub changes : List Output → List Output → List Advice
changes outputs config = appearing outputs config ++ disappearing (current_outputs config) outputs

-- `for (auto const l : listeners) l->advise…`
unfoldable pub broadcast : List ℕ → List Advice → List (ℕ × Advice)
broadcast listeners [] = []
broadcast listeners (a ∷ advice) = map (λ l. (l, a)) listeners ++ broadcast listeners advice

-- `configuration_applied`: the new state, and the calls of the listeners in their order.
unfoldable pub configuration_applied : Monitor → List Output → Monitor × List (ℕ × Advice)
configuration_applied self config = (
  record self { outputs = current_outputs config },
  broadcast self.listeners (output_begin ∷ (changes self.outputs config ++ output_end ∷ [])),
)
