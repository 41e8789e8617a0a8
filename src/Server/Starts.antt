-- ===== src/Server/Starts.antt =====
-- cmd/server/main.go: what holds when the server is reached.
use agent_sets.Prelude.{Bool, none, true, ◌≡◌, ◌≢◌}
use agent_sets.Text.{Bytes, lit}
use agent_sets.Config.{Config}
use agent_sets.Client.Model.{new_llm, ping}
use agent_sets.Server.{Store, World, Parts, no_store, broken_store, sqlite_store}
use agent_sets.Client.Startup.Enabled.{Started}

-- The store for a driver: SQLite by its name, and none for any other.
abbrev pub StoreFor : (Bytes → Bool) → Config → Store → Type 0
StoreFor opens c broken_store = ⊥
StoreFor opens c no_store = c.storage.driver ≢ lit "sqlite"
StoreFor opens c (sqlite_store dsn) =
    (c.storage.driver ≡ lit "sqlite") × (dsn ≡ c.storage.dsn) × (opens dsn ≡ true)

module _ {F : Type 0} (w : World F) where
  -- The parts that a configuration comes to.
  abbrev pub Assembled : Config → Parts F → Type 0
  Assembled c p =
      (ping p.part_llm w.send ≡ none)
      × (p.part_config ≡ c)
      × (p.part_llm ≡ new_llm c)
      × Started c.mcp (p.part_client.tool_state, p.part_client.fetched)
      × StoreFor w.opens c p.part_store
