-- ===== src/Client/Connection.antt =====
-- mcp_conn.go, mcp_executor.go and `reconnect` of mcp.go, for one server: the entries that the maps of the
-- client have for its name. A session is a number; the clock, the connecting and the tools are
-- parameters. A time is a number, and the zero time is `none`. An attempt at a
-- session reads the clock once.
pub mod Breaker
pub mod Shared
use agent_sets.Prelude.{
  Bool, Option, false, if◌then◌else◌, leb, ltb, none, not, some, suc, true, ℕ, ◌&&◌, ◌+◌,
}

pub record CircuitState : Type 0 where
  pub failures : ℕ
  pub last_failure : ℕ
  pub open_until : Option ℕ

pub record Connection : Type 0 where
  pub configured : Bool  -- whether there is an endpoint
  pub transport : Bool
  pub session : Option ℕ
  pub stale : Bool
  pub circuit : Option CircuitState

pub record CircuitBreaker : Type 0 where
  pub failure_threshold : ℕ
  pub open_duration : ℕ

unfoldable pub is_open : ℕ → CircuitState → Bool
is_open now cs = elim cs.open_until [ none ↦ false | some until ↦ ltb now until ]

unfoldable pub is_rejecting : ℕ → Option CircuitState → Bool
unfolding is_open
is_rejecting now none = false
is_rejecting now (some cs) = is_open now cs

unfoldable pub is_healthy : Connection → Bool
is_healthy c = if c.configured then not c.stale && c.transport else true

unfoldable pub or_new : Option CircuitState → CircuitState
or_new none = record { failures = 0; last_failure = 0; open_until = none }
or_new (some cs) = cs

-- `reconnect` with what connecting gives
unfoldable pub reconnect : Option ℕ → Connection → Connection × Option ℕ
reconnect made c =
    if c.configured
    then elim made [
      | none ↦ (record c { transport = false; session = none }, none)
      | some s ↦
          (record c { transport = true; session = some s; stale = false; circuit = none }, some s)
    ]
    else (c, none)

-- the session that is used again
unfoldable pub usable : Connection → Option ℕ
usable c = if c.stale then none else c.session

module _ (cfg : CircuitBreaker) where
  unfoldable pub count_failure : ℕ → CircuitState → CircuitState
  count_failure now cs = record {
    failures = suc cs.failures;
    last_failure = now;
    open_until =
        if leb cfg.failure_threshold (suc cs.failures)
        then some (now + cfg.open_duration)
        else cs.open_until;
  }

  unfoldable pub record_failure : ℕ → Connection → Connection
  unfolding count_failure or_new
  record_failure now c = record c { circuit = some (count_failure now (or_new c.circuit)) }

  unfoldable pub after_reconnect : ℕ → Connection × Option ℕ → Connection × Option ℕ
  unfolding record_failure
  after_reconnect now (c, none) = (record_failure now c, none)
  after_reconnect now (c, some s) = (c, some s)

  unfoldable pub get_or_reconnect : ℕ → Option ℕ → Connection → Connection × Option ℕ
  unfolding is_rejecting usable reconnect after_reconnect
  get_or_reconnect now made c =
      if is_rejecting now c.circuit
      then (c, none)
      else elim (usable c) [ some s ↦ (c, some s) | none ↦ after_reconnect now (reconnect made c) ]

unfoldable pub force_reconnect : Connection → Connection
force_reconnect c = record c { stale = true }

-- What an attempt sees: the clock, what connecting would give, and what the tool answers on a session.
pub record CallAttempt : Type 0 where
  pub now : ℕ
  pub made : Option ℕ
  pub tool : ℕ → Option ℕ

module _ (cfg : CircuitBreaker) where
  unfoldable pub use_session : CallAttempt → Connection × Option ℕ → Connection × Option ℕ
  use_session a (c, none) = (c, none)
  use_session a (c, some s) = (c, a.tool s)

  unfoldable pub attempt_call : CallAttempt → Connection → Connection × Option ℕ
  unfolding get_or_reconnect use_session
  attempt_call a c = use_session a (get_or_reconnect cfg a.now a.made c)

  -- the second attempt, where the first gave nothing
  unfoldable pub try_again : CallAttempt → Connection × Option ℕ → Connection × Option ℕ
  unfolding attempt_call force_reconnect
  try_again b (c, some r) = (c, some r)
  try_again b (c, none) = attempt_call b (force_reconnect c)

  -- `CallTool`, with the connection behind it; `none` is an error.
  unfoldable pub call_tool : CallAttempt → CallAttempt → Connection → Connection × Option ℕ
  unfolding attempt_call try_again
  call_tool a b c = try_again b (attempt_call a c)
