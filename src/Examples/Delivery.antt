-- ===== src/Examples/Delivery.antt =====
-- Runs of the webhook's goroutines.
use agent_sets.Prelude.{[], arith, false, if◌then◌else◌, none, refl, some, true, ◌∷◌, ◌≡◌}
use agent_sets.Webhook.System.Runs.{Run, stored-crash, stored-queued}
use agent_sets.Maps.{put, lookup}
use agent_sets.Webhook.System.Covered.Steps.{Reach-Covered}
use agent_sets.Webhook.System.Exclusion.{holders, Reach-LockedRight, Reach-unlock}
use agent_sets.Webhook.System.Counts.Steps.{Counted, Reach-Counted}
use agent_sets.Webhook.System.Covered.{Covered}
use agent_sets.Sync.Lock.{KeyLock, unlock, is_locked, lock}
use agent_sets.Webhook.Pool.{Job, new_worker_pool}
use agent_sets.Sync.Debounce.{Timer, add, fire, cleanup, holds_timer}
use agent_sets.Text.{Bytes, lit, equal}
use agent_sets.Webhook.System.{
  hand_over, take_payload, receive, arm, run_out, enter, call, take_job, acquire, stop, start,
  later, System, store_payload, Reach, init, submit_job,
}

abbrev key : Bytes
key = lit "P/r/7"

abbrev body : Bytes
body = lit "{}"

abbrev timer : Timer
timer = record { id = 0; key = key }

abbrev job : Job
job = record { key = key; payload = body }

abbrev taken : KeyLock
taken = record { locks = (key, true) ∷ [] }

-- a pool of one worker and a queue of one place, and a request that goes through it
abbrev stored_state : System
stored_state = store_payload key body (init 1)

abbrev armed_state : System
armed_state = record stored_state { arriving = []; debouncer = add key stored_state.debouncer }

abbrev fired_state : System
fired_state = record armed_state { debouncer = fire timer armed_state.debouncer }

abbrev entered_state : System
entered_state = record fired_state {
  debouncer = cleanup timer fired_state.debouncer;
  calling = key ∷ [];
}

abbrev carried_state : System
carried_state = take_payload key (record entered_state { calling = [] })

abbrev queued_state : System
queued_state = submit_job job (record carried_state { carrying = [] })

abbrev waiting_state : System
waiting_state = record queued_state {
  pool = record (queued_state.pool) { queue = [] };
  waiting = job ∷ [];
}

abbrev active_state : System
active_state = record waiting_state { waiting = []; active = job ∷ []; locks = taken }

abbrev stopped_state : System
stopped_state = record stored_state {
  pool = record (stored_state.pool) { closed = true };
  crashed = false;
}

stored_reach : Reach 1 1 stored_state
unfolding store_payload take_payload submit_job equal new_worker_pool lock holds_timer add fire
    is_locked lookup
stored_reach = later start refl (receive key body)

armed_reach : Reach 1 1 armed_state
unfolding store_payload take_payload submit_job equal new_worker_pool lock holds_timer add fire
    is_locked lookup
armed_reach = later stored_reach refl (arm [] [] key refl)

entered_reach : Reach 1 1 entered_state
unfolding store_payload take_payload submit_job equal new_worker_pool lock holds_timer add fire
    is_locked lookup
entered_reach = later (later armed_reach refl (run_out timer refl)) refl (enter timer refl)

active_reach : Reach 1 1 active_state
unfolding store_payload take_payload submit_job equal new_worker_pool lock holds_timer add fire
    is_locked lookup
active_reach =
    later
      (later
        (later (later entered_reach refl (call [] [] key refl)) refl (hand_over [] [] job refl))
        refl (take_job job [] refl (omega arith)))
      refl (acquire [] [] job taken refl refl)

stopped_reach : Reach 1 1 stopped_state
unfolding store_payload take_payload submit_job equal new_worker_pool lock holds_timer add fire
    is_locked lookup
stopped_reach = later stored_reach refl stop

Reach-Covered_example : Covered armed_state
Reach-Covered_example = Reach-Covered 1 1 armed_state armed_reach

Reach-Counted_example : Counted 1 1 0 active_state
Reach-Counted_example = Reach-Counted 1 1 active_state active_reach

Reach-LockedRight_example :
    holders key active_state.active ≡ (if is_locked active_state.locks key then 1 else 0)
Reach-LockedRight_example = Reach-LockedRight 1 1 active_state active_reach key

Reach-unlock_example :
    unlock active_state.locks key
    ≡ some (record { locks = put equal key false active_state.locks.locks })
unfolding store_payload take_payload submit_job equal new_worker_pool lock holds_timer add fire
    is_locked lookup
Reach-unlock_example = Reach-unlock 1 1 active_state [] [] job active_reach refl

stored-queued_example :
    (t : System) × Run 1 armed_state t
    × (lookup equal key t.payloads ≡ none)
    × (t.pool.queue ≡ job ∷ [])
unfolding store_payload take_payload submit_job equal new_worker_pool lock holds_timer add fire
    is_locked lookup
stored-queued_example =
    stored-queued 1 1 armed_state key body armed_reach refl refl refl (omega arith)

stored-crash_example : (t : System) × Run 1 stopped_state t × (t.crashed ≡ true)
unfolding store_payload take_payload submit_job equal new_worker_pool lock holds_timer add fire
    is_locked lookup
stored-crash_example = stored-crash 1 1 stopped_state key body stopped_reach refl refl refl
