-- ===== src/Webhook/System/Counts/Steps.antt =====
-- Every step keeps the counts.
use agent_sets.Prelude.{
  Bool-cases, List, Option, Option-cases, ap, arith, inl, inr, length, length_middle, none, refl,
  some, ℕ, ◌++◌, ◌+◌, ◌∙◌, ◌≡◌, ◌≤◌,
}
use agent_sets.Maps.{lookup}
use agent_sets.Text.{Bytes, is_some, equal}
use agent_sets.Webhook.System.Counts.{
  OneEach, SentRight, PutBackRight, put-OneEach, length-put, remove-OneEach, length-remove,
  submit-SentRight, requeue-PutBackRight,
}
use agent_sets.Webhook.Pool.{
  queued, queue_full, panicked, Sent, WorkerPool, submit, Job, requeue, new_worker_pool,
}
use agent_sets.Webhook.System.{
  hand_over, look, take_payload, EndedJob, receive, arm, run_out, enter, call, take_job, acquire,
  finish, stop, System, sent_job, put_back, store_payload, submit_job, finish_job, Step, start,
  later, Reach,
}

-- where the requests are that were not replaced, and are in none of the lists any more
abbrev pub settled : System → ℕ
settled s = s.replaced + s.lost + s.ended

-- `held` requests are in the hands of the goroutine that makes the step.
pub record Counts (workers queue_size held : ℕ) (payloads : List (Bytes × Bytes))
    (pool : WorkerPool) (waiting active : List Job) (leaving : List EndedJob) (received gone : ℕ)
    : Type 0 where
  pub one_each : OneEach payloads
  pub balance :
      received
      ≡ held
        + gone
        + length payloads
        + length pool.queue
        + length waiting
        + length active
        + length leaving
  pub size : pool.queue_size ≡ queue_size
  pub queue_bound : length pool.queue ≤ queue_size
  pub busy : length waiting + length active + length leaving ≤ workers

abbrev pub Counted : ℕ → ℕ → ℕ → System → Type 0
Counted workers queue_size held s =
    Counts workers queue_size (held + length s.carrying) s.payloads s.pool s.waiting s.active
      s.leaving s.received (settled s)

module _ {workers queue_size : ℕ} where
  sent_job-Counted :
      (r : Sent) (s : System)
      → SentRight s.pool r
      → Counted workers queue_size 1 s
      → Counted workers queue_size 0 (sent_job r s)
  unfolding sent_job
  sent_job-Counted (queued pool) s (more, (fits, same)) h = record {
    one_each = h.one_each;
    balance = omega (arith, h.balance, more);
    size = same ∙ h.size;
    queue_bound = omega (arith, fits, same, h.size);
    busy = h.busy;
  }
  sent_job-Counted queue_full s r h = record {
    one_each = h.one_each;
    balance = omega (arith, h.balance);
    size = h.size;
    queue_bound = h.queue_bound;
    busy = h.busy;
  }
  sent_job-Counted panicked s r h = record {
    one_each = h.one_each;
    balance = omega (arith, h.balance);
    size = h.size;
    queue_bound = h.queue_bound;
    busy = h.busy;
  }

  put_back-Counted :
      (o : Option WorkerPool) (s : System)
      → PutBackRight s.pool o
      → Counted workers queue_size 1 s
      → Counted workers queue_size 0 (put_back o s)
  unfolding put_back
  put_back-Counted none s r h = record {
    one_each = h.one_each;
    balance = omega (arith, h.balance);
    size = h.size;
    queue_bound = h.queue_bound;
    busy = h.busy;
  }
  put_back-Counted (some pool) s (more, (fits, same)) h = record {
    one_each = h.one_each;
    balance = omega (arith, h.balance, more);
    size = same ∙ h.size;
    queue_bound = omega (arith, fits, same, h.size);
    busy = h.busy;
  }

  store_payload-Counted :
      (key body : Bytes) (s : System)
      → Counted workers queue_size 0 s
      → Counted workers queue_size 0 (store_payload key body s)
  unfolding store_payload
  store_payload-Counted key body s h = record {
    one_each = put-OneEach key body s.payloads h.one_each;
    balance = elim (Bool-cases (is_some (lookup equal key s.payloads))) [
      | inl e ↦ rw e (let l = length-put key body s.payloads in omega (arith, h.balance, rw e at l))
      | inr e ↦ rw e (let l = length-put key body s.payloads in omega (arith, h.balance, rw e at l))
    ];
    size = h.size;
    queue_bound = h.queue_bound;
    busy = h.busy;
  }

  take_payload-Counted :
      (key : Bytes) (s : System)
      → Counted workers queue_size 0 s
      → Counted workers queue_size 0 (take_payload key s)
  unfolding take_payload
  take_payload-Counted key s h = elim (Option-cases (lookup equal key s.payloads)) [
    | inl e ↦ rw (e, take_payload) h
    | inr (payload, e) ↦
        rw (e, take_payload)
          (record {
            one_each = remove-OneEach key s.payloads h.one_each;
            balance = omega (arith, h.balance, length-remove key payload s.payloads h.one_each e);
            size = h.size;
            queue_bound = h.queue_bound;
            busy = h.busy;
          })
  ]

  Step-Counted :
      {s t : System}
      → Step workers s t
      → Counted workers queue_size 0 s
      → Counted workers queue_size 0 t
  unfolding finish_job submit_job
  Step-Counted {s} (receive key body) h = store_payload-Counted key body s h
  Step-Counted {s} (arm pre post key e) h = h
  Step-Counted {s} (run_out t e) h = h
  Step-Counted {s} (enter t e) h = h
  Step-Counted {s} (call pre post key e) h =
      take_payload-Counted key (record s { calling = pre ++ post }) h
  Step-Counted {s} (hand_over pre post job e) h =
      let less = length_middle s.carrying pre post job e in
      sent_job-Counted (submit s.pool job) (record s { carrying = pre ++ post })
        (submit-SentRight s.pool job)
        (record {
          one_each = h.one_each;
          balance = omega (arith, h.balance, less);
          size = h.size;
          queue_bound = h.queue_bound;
          busy = h.busy;
        })
  Step-Counted {s} (take_job job rest e k) h = record {
    one_each = h.one_each;
    balance = omega (arith, h.balance, ap length e);
    size = h.size;
    queue_bound = omega (arith, h.queue_bound, ap length e);
    busy = omega (arith, k);
  }
  Step-Counted {s} (acquire pre post job l e k) h =
      let less = length_middle s.waiting pre post job e in
      record {
        one_each = h.one_each;
        balance = omega (arith, h.balance, less);
        size = h.size;
        queue_bound = h.queue_bound;
        busy = omega (arith, h.busy, less);
      }
  Step-Counted {s} (finish pre post job l err e k) h =
      let less = length_middle s.active pre post job e in
      record {
        one_each = h.one_each;
        balance = omega (arith, h.balance, less);
        size = h.size;
        queue_bound = h.queue_bound;
        busy = omega (arith, h.busy, less);
      }
  Step-Counted {s} (look pre post ended e) h =
      let less = length_middle s.leaving pre post ended e in
      put_back-Counted (requeue s.pool ended.job ended.err) (record s { leaving = pre ++ post })
        (requeue-PutBackRight s.pool ended.job ended.err)
        (record {
          one_each = h.one_each;
          balance = omega (arith, h.balance, less);
          size = h.size;
          queue_bound = h.queue_bound;
          busy = omega (arith, h.busy, less);
        })
  Step-Counted {s} stop h = record {
    one_each = h.one_each;
    balance = h.balance;
    size = h.size;
    queue_bound = h.queue_bound;
    busy = h.busy;
  }

-- In every state that the program can come to: the requests that were stored are those that were
-- replaced, dropped with a full or closed queue, or finished, and those that are stored, with a
-- callback, in the queue, or with a worker; the queue holds no more than its size, and no more jobs are with workers than there
-- are workers.
pub Reach-Counted :
    (workers queue_size : ℕ) (s : System)
    → Reach workers queue_size s
    → Counted workers queue_size 0 s
unfolding new_worker_pool
Reach-Counted workers queue_size s start = record {
  one_each = tt;
  balance = refl;
  size = refl;
  queue_bound = omega arith;
  busy = omega arith;
}
Reach-Counted workers queue_size t (later r up step) =
    Step-Counted step (Reach-Counted workers queue_size _ r)
