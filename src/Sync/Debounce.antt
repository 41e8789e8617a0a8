-- ===== src/Sync/Debounce.antt =====
-- debounce.go. A timer that has run out starts its callback in a goroutine of its own, which first
-- waits for the mutex: until it gets it, `Add` and `Cancel` can come in between, and stopping the
-- timer has no effect any more.

use agent_sets.Prelude.{
  Bool, List, [], false, if◌then◌else◌, none, some, suc, ℕ, ◌&&◌, ◌==◌, ◌||◌, ◌∷◌,
}
use agent_sets.Maps.{lookup, put, remove}
use agent_sets.Text.{Bytes, equal}

-- A `*time.Timer` with the key that its callback holds; the number tells two pointers apart.
pub record Timer : Type 0 where
  pub id : ℕ
  pub key : Bytes

pub record Debouncer : Type 0 where
  pub pending : List (Bytes × Timer)
  pub armed : List Timer  -- timers that run
  pub fired : List Timer  -- callbacks that wait for the mutex
  pub next_id : ℕ

abbrev pub new_debouncer : Debouncer
new_debouncer = record { pending = []; armed = []; fired = []; next_id = 0 }

unfoldable pub same_timer : Timer → Timer → Bool
unfolding equal
same_timer t u = t.id == u.id && equal t.key u.key

unfoldable pub holds_timer : Timer → List Timer → Bool
unfolding same_timer
holds_timer t [] = false
holds_timer t (u ∷ us) = same_timer t u || holds_timer t us

unfoldable pub drop_timer : Timer → List Timer → List Timer
unfolding same_timer
drop_timer t [] = []
drop_timer t (u ∷ us) = let rest = drop_timer t us in if same_timer t u then us else u ∷ rest

-- `timer.Stop()` of the pending timer
unfoldable pub stop_pending : Bytes → Debouncer → List Timer
unfolding drop_timer lookup
stop_pending key d = elim (lookup equal key d.pending) [
  | none ↦ d.armed
  | some t ↦ drop_timer t d.armed
]

unfoldable pub add : Bytes → Debouncer → Debouncer
unfolding stop_pending put
add key d =
    let timer : Timer = record { id = d.next_id; key = key } in
    record {
      pending = put equal key timer d.pending;
      armed = timer ∷ stop_pending key d;
      fired = d.fired;
      next_id = suc d.next_id;
    }

unfoldable pub cancel : Bytes → Debouncer → Debouncer
unfolding stop_pending lookup remove
cancel key d = record d { armed = stop_pending key d; pending = remove equal key d.pending }

-- A timer runs out.
unfoldable pub fire : Timer → Debouncer → Debouncer
unfolding drop_timer
fire t d = record d { armed = drop_timer t d.armed; fired = t ∷ d.fired }

-- The part of the callback under the mutex; `fn` is called behind it.
unfoldable pub cleanup : Timer → Debouncer → Debouncer
unfolding drop_timer remove
cleanup t d = record d { fired = drop_timer t d.fired; pending = remove equal t.key d.pending }
