-- ===== src/Webhook/System.antt =====
-- The goroutines of the webhook over their shared state: handlers of requests, timers of the
-- debouncer, workers of the pool, and the shutdown. A step is one access to what they share.

use agent_sets.Prelude.{
  Bool, List, Option, [], false, if◌then◌else◌, length, none, some, suc, true, ℕ, ◌++◌, ◌+◌, ◌<◌,
  ◌∷◌, ◌≡◌,
}
use agent_sets.Webhook.Pool.{
  queued, queue_full, panicked, Sent, requeue, new_worker_pool, Job, WorkerPool, submit, JobError,
}
use agent_sets.Sync.Lock.{KeyLock, lock, unlock}
use agent_sets.Maps.{put, lookup, remove}
use agent_sets.Sync.Debounce.{new_debouncer, Debouncer, add, Timer, holds_timer, fire, cleanup}
use agent_sets.Text.{Bytes, is_some, equal}
pub mod Counts
pub mod Runs
pub mod Covered
pub mod Exclusion

-- A job that has ended and unlocked its key, with its error.
pub record EndedJob : Type 0 where
  pub job : Job
  pub err : Option JobError

pub record System : Type 0 where
  pub payloads : List (Bytes × Bytes)  -- `latestPayloads`
  pub arriving : List Bytes  -- handlers between `Store` and `Add`
  pub debouncer : Debouncer
  pub calling : List Bytes  -- callbacks in front of `submitJob`
  pub carrying : List Job  -- jobs of callbacks in front of `Submit`
  pub pool : WorkerPool
  pub waiting : List Job  -- jobs of workers that wait for their key
  pub active : List Job  -- jobs that hold their key
  pub leaving : List EndedJob  -- jobs of workers that look at the error
  pub locks : KeyLock
  pub crashed : Bool
  -- requests that were stored, and what became of those that left
  pub received : ℕ
  pub replaced : ℕ
  pub lost : ℕ
  pub ended : ℕ

abbrev pub init : ℕ → System
init queue_size = record {
  payloads = [];
  arriving = [];
  debouncer = new_debouncer;
  calling = [];
  carrying = [];
  pool = new_worker_pool queue_size;
  waiting = [];
  active = [];
  leaving = [];
  locks = record { locks = [] };
  crashed = false;
  received = 0;
  replaced = 0;
  lost = 0;
  ended = 0;
}

-- `h.latestPayloads.Store(uniqueKey, body)`
unfoldable pub store_payload : Bytes → Bytes → System → System
unfolding put lookup is_some
store_payload key body s = record s {
  payloads = put equal key body s.payloads;
  arriving = key ∷ s.arriving;
  received = suc s.received;
  replaced = if is_some (lookup equal key s.payloads) then suc s.replaced else s.replaced;
}

-- what the send of a job leaves; the panic of a send on the closed queue ends the program, for the
-- callback of a timer recovers none.
unfoldable pub sent_job : Sent → System → System
sent_job (queued pool) s = record s { pool = pool }
sent_job queue_full s = record s { lost = suc s.lost }
sent_job panicked s = record s { lost = suc s.lost; crashed = true }

-- `LoadAndDelete` of `submitJob`, and the job that is made of the payload
unfoldable pub take_payload : Bytes → System → System
unfolding lookup remove
take_payload key s = elim (lookup equal key s.payloads) [
  | none ↦ s
  | some payload ↦ record s {
    payloads = remove equal key s.payloads;
    carrying = record { key = key; payload = payload } ∷ s.carrying;
  }
]

-- `Submit` of the job
unfoldable pub submit_job : Job → System → System
unfolding submit sent_job
submit_job job s = sent_job (submit s.pool job) s

unfoldable pub put_back : Option WorkerPool → System → System
put_back none s = record s { ended = suc s.ended }
put_back (some pool) s = record s { pool = pool }

-- what the worker does behind a job
unfoldable pub finish_job : Job → Option JobError → System → System
unfolding requeue put_back
finish_job job err s = put_back (requeue s.pool job err) s

pub data Step (workers : ℕ) (s : System) : System → Type 0 where
  receive : (key body : Bytes) → Step workers s (store_payload key body s)
  arm :
      (pre post : List Bytes) (key : Bytes)
      → s.arriving ≡ pre ++ key ∷ post
      → Step workers s (record s { arriving = pre ++ post; debouncer = add key s.debouncer })
  run_out :
      (t : Timer)
      → holds_timer t s.debouncer.armed ≡ true
      → Step workers s (record s { debouncer = fire t s.debouncer })
  enter :
      (t : Timer)
      → holds_timer t s.debouncer.fired ≡ true
      → Step workers s (record s { debouncer = cleanup t s.debouncer; calling = t.key ∷ s.calling })
  call :
      (pre post : List Bytes) (key : Bytes)
      → s.calling ≡ pre ++ key ∷ post
      → Step workers s (take_payload key (record s { calling = pre ++ post }))
  hand_over :
      (pre post : List Job) (job : Job)
      → s.carrying ≡ pre ++ job ∷ post
      → Step workers s (submit_job job (record s { carrying = pre ++ post }))
  take_job :
      (job : Job) (rest : List Job)
      → s.pool.queue ≡ job ∷ rest
      → length s.waiting + length s.active + length s.leaving < workers
      → Step workers s
          (record s { pool = record (s.pool) { queue = rest }; waiting = job ∷ s.waiting })
  acquire :
      (pre post : List Job) (job : Job) (l : KeyLock)
      → s.waiting ≡ pre ++ job ∷ post
      → lock s.locks job.key ≡ some l
      → Step workers s (record s { waiting = pre ++ post; active = job ∷ s.active; locks = l })
  finish :
      (pre post : List Job) (job : Job) (l : KeyLock) (err : Option JobError)
      → s.active ≡ pre ++ job ∷ post
      → unlock s.locks job.key ≡ some l
      → Step workers s (record s {
        active = pre ++ post;
        locks = l;
        leaving = record { job = job; err = err } ∷ s.leaving;
      })
  look :
      (pre post : List EndedJob) (e : EndedJob)
      → s.leaving ≡ pre ++ e ∷ post
      → Step workers s (finish_job e.job e.err (record s { leaving = pre ++ post }))
  -- A second `Stop` closes a closed channel, which panics.
  stop :
      Step workers s
        (record s { pool = record (s.pool) { closed = true }; crashed = s.pool.closed })

-- The states that the program can come to; a program that has crashed takes no step.
pub data Reach (workers queue_size : ℕ) : System → Type 0 where
  start : Reach workers queue_size (init queue_size)
  later :
      {s t : System}
      → Reach workers queue_size s
      → s.crashed ≡ false
      → Step workers s t
      → Reach workers queue_size t
