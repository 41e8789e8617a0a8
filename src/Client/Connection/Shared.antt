-- ===== src/Client/Connection/Shared.antt =====
-- `getOrReconnect` of mcp_conn.go for callers that come together: those that find no session and are not
-- rejected share one run of the function that they hand to the package singleflight, and each of them gets
-- what it gave. The run is one step; a caller is the time at which it looks at its error.
pub mod Failed
use agent_sets.Prelude.{List, Option, [], none, some, ℕ, ◌∷◌}
use agent_sets.Client.Connection.{CircuitBreaker, usable, record_failure, Connection, reconnect}

-- the function that is handed over, with its second look at the session
unfoldable pub flight : Option ℕ → Connection → Connection × Option ℕ
unfolding usable reconnect
flight made c = elim (usable c) [ some s ↦ (c, some s) | none ↦ reconnect made c ]

module _ (cfg : CircuitBreaker) where
  -- Each caller records the error for itself.
  unfoldable pub record_each : List ℕ → Connection → Connection
  unfolding record_failure
  record_each [] c = c
  record_each (t ∷ ts) c = record_each ts (record_failure cfg t c)

  unfoldable pub after_flight : List ℕ → Connection × Option ℕ → Connection × Option ℕ
  unfolding record_each
  after_flight callers (c, none) = (record_each callers c, none)
  after_flight callers (c, some s) = (c, some s)

  unfoldable pub get_together : List ℕ → Option ℕ → Connection → Connection × Option ℕ
  unfolding after_flight flight
  get_together callers made c = after_flight callers (flight made c)
