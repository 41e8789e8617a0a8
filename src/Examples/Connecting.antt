-- ===== src/Examples/Connecting.antt =====
-- A connection that fails until its circuit opens.
use agent_sets.Prelude.{[], arith, false, none, refl, some, true, ℕ, ◌∷◌, ◌≡◌}
use agent_sets.Client.Connection.Shared.Failed.{get_together-failed}
use agent_sets.Client.Connection.Shared.{get_together}
use agent_sets.Client.Connection.Breaker.{breaker, tripped, Consistent, get_or_reconnect-Consistent}
use agent_sets.Text.{is_some}
use agent_sets.Client.Connection.{
  CircuitBreaker, Connection, CircuitState, call_tool, usable, get_or_reconnect, CallAttempt,
  or_new, is_rejecting,
}

abbrev cfg : CircuitBreaker
cfg = record { failure_threshold = 2; open_duration = 30 }

abbrev fresh : Connection
fresh = record {
  configured = true;
  transport = false;
  session = none;
  stale = false;
  circuit = none;
}

abbrev failing : ℕ → CallAttempt
failing now = record { now = now; made = none; tool = λ s. none }

abbrev failed_once : CircuitState
failed_once = record { failures = 1; last_failure = 5; open_until = none }

-- the second attempt of the call opens the circuit, and it rejects
opened :
    (call_tool cfg (failing 5) (failing 6) fresh).0.circuit
    ≡ some (record { failures = 2; last_failure = 6; open_until = some 36 })
unfolding call_tool
opened = refl

get_or_reconnect-Consistent_example :
    (breaker (get_or_reconnect cfg 6 none (record fresh { circuit = some failed_once })).0.circuit
      ≡ tripped 36)
    × Consistent cfg
        (get_or_reconnect cfg 6 none (record fresh { circuit = some failed_once })).0.circuit
    × (is_some (get_or_reconnect cfg 6 none (record fresh { circuit = some failed_once })).1
        ≡ false)
unfolding is_some usable
get_or_reconnect-Consistent_example =
    get_or_reconnect-Consistent cfg 6 none (record fresh { circuit = some failed_once })
      (omega arith)

-- Two callers of the first connection that fails, the second at 7: the circuit rejects at 20.
get_together-failed_example :
    let (after, got) = get_together cfg (5 ∷ 7 ∷ []) none fresh in
    (got ≡ none) × ((or_new after.circuit).failures ≡ 2) × (is_rejecting 20 after.circuit ≡ true)
unfolding usable or_new
get_together-failed_example = get_together-failed cfg (5 ∷ []) 7 20 fresh tt refl
