-- ===== src/Filter/Registry.antt =====
-- chain.go: filters that are made by their name.
use agent_sets.Prelude.{List, Option, none, some}
use agent_sets.Prelude.Int.{pos, ℤ}
use agent_sets.Text.{Bytes, equal}
use agent_sets.Maps.{put, lookup}

-- A factory makes a filter of its options, or fails.
unfoldable pub register :
    {F O : Type 0}
    → Bytes
    → (O → Option F)
    → List (Bytes × (O → Option F))
    → List (Bytes × (O → Option F))
unfolding put
register name factory registry = put equal name factory registry

unfoldable pub create : {F O : Type 0} → List (Bytes × (O → Option F)) → Bytes → O → Option F
unfolding lookup
create registry name options = elim (lookup equal name registry) [
  | none ↦ none
  | some factory ↦ factory options
]

-- register.go: the value of `max_len`, a float already cut to an int.
pub data MaxLen : Type 0 where
  len_int len_float : ℤ → MaxLen
  len_other : MaxLen

unfoldable pub max_len_of : Option MaxLen → ℤ
max_len_of none = pos 100000
max_len_of (some (len_int n)) = n
max_len_of (some (len_float n)) = n
max_len_of (some len_other) = pos 100000

-- The factory of "truncate", with `NewResponseFilter` and the reading of the options.
unfoldable pub truncate_factory : {F O : Type 0} → (ℤ → F) → (O → Option MaxLen) → O → Option F
unfolding max_len_of
truncate_factory new_filter max_len options = some (new_filter (max_len_of (max_len options)))
