-- ===== src/Webhook/Pool.antt =====
-- worker.go. A job is the closure that `submitJob` makes, as the key and the payload that it holds.

use agent_sets.Prelude.{
  Bool, List, Option, [], false, if◌then◌else◌, length, ltb, none, some, ℕ, ◌&&◌, ◌*◌, ◌++◌, ◌-◌,
  ◌||◌, ◌∷◌,
}
use agent_sets.Text.{Bytes, contains, lit}

pub record Job : Type 0 where
  pub key : Bytes
  pub payload : Bytes

pub record WorkerPool : Type 0 where
  pub queue : List Job
  pub queue_size : ℕ
  pub closed : Bool

unfoldable pub new_worker_pool : ℕ → WorkerPool
new_worker_pool queue_size = record { queue = []; queue_size = queue_size; closed = false }

-- What a send in a `select` with a default case does; a send on a closed channel panics.
pub data Sent : Type 0 where
  queued : WorkerPool → Sent
  queue_full panicked : Sent

-- `Submit`, and the send of the requeue
unfoldable pub submit : WorkerPool → Job → Sent
submit p job =
    if p.closed
    then panicked
    else if ltb (length p.queue) p.queue_size
    then queued (record p { queue = p.queue ++ (job ∷ []) })
    else queue_full

-- An error of a job: its text, and what `errors.Is(err, context.DeadlineExceeded)` says.
pub record JobError : Type 0 where
  pub text : Bytes
  pub deadline_exceeded : Bool

unfoldable pub is_timeout : JobError → Bool
unfolding contains
is_timeout err =
    err.deadline_exceeded
    || (contains err.text (lit "timeout") || contains err.text (lit "deadline"))

-- `free > cap*0.5`
unfoldable pub has_room : WorkerPool → Bool
has_room p = ltb p.queue_size ((p.queue_size - length p.queue) * 2)

unfoldable pub back_in : Sent → Option WorkerPool
back_in (queued p) = some p
back_in queue_full = none
back_in panicked = none

-- What the worker does behind a job: the pool with the job back in its queue, or `none`. The panic of
-- a send on the closed queue is recovered.
unfoldable pub requeue : WorkerPool → Job → Option JobError → Option WorkerPool
unfolding is_timeout has_room submit back_in
requeue p job none = none
requeue p job (some err) = if is_timeout err && has_room p then back_in (submit p job) else none
