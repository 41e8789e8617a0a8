-- ===== src/Filter/Chain.antt =====
-- chain.go: filters that are applied one behind the other.
use agent_sets.Prelude.{List, [], refl, ◌++◌, ◌∷◌, ◌≡◌}
use agent_sets.Text.{Bytes}

unfoldable pub chain_filter : {A : Type 0} → List (Bytes → A → A) → Bytes → A → A
chain_filter [] tool_name result = result
chain_filter (f ∷ fs) tool_name result = chain_filter fs tool_name (f tool_name result)

unfoldable pub chain_add :
    {A : Type 0} → List (Bytes → A → A) → (Bytes → A → A) → List (Bytes → A → A)
chain_add filters f = filters ++ f ∷ []

-- What a filter that is added last does.
pub chain_filter-chain_add :
    {A : Type 0} (fs : List (Bytes → A → A)) (f : Bytes → A → A) (tool_name : Bytes) (result : A)
    → chain_filter (chain_add fs f) tool_name result
      ≡ f tool_name (chain_filter fs tool_name result)
unfolding chain_filter chain_add
chain_filter-chain_add [] f tool_name result = refl
chain_filter-chain_add (g ∷ fs) f tool_name result =
    chain_filter-chain_add fs f tool_name (g tool_name result)
