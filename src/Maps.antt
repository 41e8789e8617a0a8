-- ===== src/Maps.antt =====
-- Go's maps as lists of their entries, and slices that grow under a key.
pub mod Laws
use agent_sets.Prelude.{Bool, List, Option, [], if◌then◌else◌, none, some, ◌∷◌}
use agent_sets.Text.{Bytes, equal}

module _ {K V : Type 0} (same : K → K → Bool) where
  -- `v, ok := m[k]`
  unfoldable pub lookup : K → List (K × V) → Option V
  lookup k [] = none
  lookup k ((j, v) ∷ m) = let rest = lookup k m in if same k j then some v else rest

  -- `m[k] = v`
  unfoldable pub put : K → V → List (K × V) → List (K × V)
  put k v [] = (k, v) ∷ []
  put k v ((j, w) ∷ m) = let rest = put k v m in if same k j then (k, v) ∷ m else (j, w) ∷ rest

  -- `delete(m, k)`
  unfoldable pub remove : K → List (K × V) → List (K × V)
  remove k [] = []
  remove k ((j, v) ∷ m) = let rest = remove k m in if same k j then rest else (j, v) ∷ rest

abbrev pub or_nil : {V : Type 0} → Option (List V) → List V
or_nil none = []
or_nil (some vs) = vs

-- `m[k]` of a map to slices or maps, whose zero value has no element
unfoldable pub at_key : {V : Type 0} → Bytes → List (Bytes × List V) → List V
unfolding lookup
at_key k m = or_nil (lookup equal k m)
