-- ===== src/Webhook/System/Covered/Steps.antt =====
-- Every step keeps what is stored covered.

use agent_sets.Prelude.{
  Bool-cases, List, Option, Option-cases, arith, false, inl, inr, none, none-ne-some, refl, some,
  total_middle, true, ℕ, ◌++◌, ◌∷◌, ◌≡◌,
}
use agent_sets.Webhook.System.{
  hand_over, look, take_payload, receive, arm, run_out, enter, call, take_job, acquire, finish,
  stop, start, later, sent_job, put_back, finish_job, Reach, Step, init, store_payload, submit_job,
  System,
}
use agent_sets.Webhook.Pool.{queued, queue_full, panicked, submit, Sent, WorkerPool, requeue}
use agent_sets.Maps.Laws.{lookup-put, lookup-remove_self, lookup-remove}
use agent_sets.Text.Search.{equal_iff}
use agent_sets.Maps.{lookup, remove}
use agent_sets.Webhook.System.Covered.{
  Covered, owners-put, is_key, timers-drop_timer, owners-remove, timers-stop_pending,
}
use agent_sets.Text.{is_some, Bytes, equal}
use agent_sets.Sync.Debounce.{add, fire, cleanup, Timer, holds_timer}

store_payload-Covered :
    (key body : Bytes) (s : System) → Covered s → Covered (store_payload key body s)
unfolding store_payload
store_payload-Covered key body s h = record {
  owners = h.owners;
  held = λ k stored. elim (Bool-cases (equal k key)) [
    | inl e ↦ let own : is_key k key ≡ 1 = rw e refl in omega (arith, own)
    | inr e ↦
        omega (arith, h.held k (rw (lookup-put equal key k body s.payloads equal_iff, e) at stored))
  ];
}

arm-Covered :
    (s : System) (pre post : List Bytes) (key : Bytes)
    → s.arriving ≡ pre ++ key ∷ post
    → Covered s
    → Covered (record s { arriving = pre ++ post; debouncer = add key s.debouncer })
unfolding add
arm-Covered s pre post key e h = record {
  owners =
      owners-put key (record { id = s.debouncer.next_id; key = key }) s.debouncer.pending refl
        h.owners;
  held = λ k stored. elim (Bool-cases (equal k key)) [
    | inl d ↦ let own : is_key k key ≡ 1 = rw d refl in omega (arith, own)
    | inr d ↦
        let other : is_key k key ≡ 0 = rw d refl in
        omega (
          arith,
          h.held k stored,
          total_middle (is_key k) s.arriving pre post key e,
          other,
          timers-stop_pending k key s.debouncer h.owners other,
        )
  ];
}

fire-Covered :
    (s : System) (t : Timer)
    → holds_timer t s.debouncer.armed ≡ true
    → Covered s
    → Covered (record s { debouncer = fire t s.debouncer })
unfolding fire
fire-Covered s t e h = record {
  owners = h.owners;
  held = λ k stored. omega (arith, h.held k stored, timers-drop_timer k t s.debouncer.armed e);
}

cleanup-Covered :
    (s : System) (t : Timer)
    → holds_timer t s.debouncer.fired ≡ true
    → Covered s
    → Covered (record s { debouncer = cleanup t s.debouncer; calling = t.key ∷ s.calling })
unfolding cleanup
cleanup-Covered s t e h = record {
  owners = owners-remove t.key s.debouncer.pending h.owners;
  held = λ k stored. omega (arith, h.held k stored, timers-drop_timer k t s.debouncer.fired e);
}

-- the callback has taken the payload of its key, if there was one
called-Covered :
    (s : System) (pre post : List Bytes) (key : Bytes) (m : List (Bytes × Bytes))
    → s.calling ≡ pre ++ key ∷ post
    → lookup equal key m ≡ none
    → ((k : Bytes) → equal k key ≡ false → lookup equal k m ≡ lookup equal k s.payloads)
    → Covered s
    → Covered (record s { calling = pre ++ post; payloads = m })
unfolding is_some
called-Covered s pre post key m e gone rest h = record {
  owners = h.owners;
  held = λ k stored. elim (Bool-cases (equal k key)) [
    | inl d ↦
        let no : false ≡ true = rw ((equal_iff k key).0 d, gone) at stored in
        absurd (ground (arith, no))
    | inr d ↦
        let other : is_key k key ≡ 0 = rw d refl in
        omega (
          arith,
          h.held k (rw (rest k d) at stored),
          total_middle (is_key k) s.calling pre post key e,
          other,
        )
  ];
}

sent_job-Covered : (r : Sent) (s : System) → Covered s → Covered (sent_job r s)
unfolding sent_job
sent_job-Covered (queued pool) s h = record { owners = h.owners; held = h.held }
sent_job-Covered queue_full s h = record { owners = h.owners; held = h.held }
sent_job-Covered panicked s h = record { owners = h.owners; held = h.held }

put_back-Covered : (o : Option WorkerPool) (s : System) → Covered s → Covered (put_back o s)
unfolding put_back
put_back-Covered none s h = record { owners = h.owners; held = h.held }
put_back-Covered (some pool) s h = record { owners = h.owners; held = h.held }

take_payload-Covered :
    (s : System) (pre post : List Bytes) (key : Bytes)
    → s.calling ≡ pre ++ key ∷ post
    → Covered s
    → Covered (take_payload key (record s { calling = pre ++ post }))
unfolding take_payload
take_payload-Covered s pre post key e h = elim (Option-cases (lookup equal key s.payloads)) [
  | inl gone ↦
      rw (gone, take_payload) (called-Covered s pre post key s.payloads e gone (λ k d. refl) h)
  | inr (payload, found) ↦
      let taken : Covered
          (record s { calling = pre ++ post; payloads = remove equal key s.payloads }) =
        called-Covered s pre post key (remove equal key s.payloads) e
          (lookup-remove_self equal key s.payloads)
          (λ k d. lookup-remove equal key k s.payloads equal_iff d) h in
      rw (found, take_payload) (record { owners = taken.owners; held = taken.held })
]

Step-Covered : {workers : ℕ} {s t : System} → Step workers s t → Covered s → Covered t
unfolding finish_job submit_job
Step-Covered {workers} {s} (receive key body) h = store_payload-Covered key body s h
Step-Covered {workers} {s} (arm pre post key e) h = arm-Covered s pre post key e h
Step-Covered {workers} {s} (run_out t e) h = fire-Covered s t e h
Step-Covered {workers} {s} (enter t e) h = cleanup-Covered s t e h
Step-Covered {workers} {s} (call pre post key e) h = take_payload-Covered s pre post key e h
Step-Covered {workers} {s} (hand_over pre post job e) h =
    sent_job-Covered (submit s.pool job) (record s { carrying = pre ++ post })
      (record { owners = h.owners; held = h.held })
Step-Covered {workers} {s} (take_job job rest e k) h = record { owners = h.owners; held = h.held }
Step-Covered {workers} {s} (acquire pre post job l e k) h = record {
  owners = h.owners;
  held = h.held;
}
Step-Covered {workers} {s} (finish pre post job l err e k) h = record {
  owners = h.owners;
  held = h.held;
}
Step-Covered {workers} {s} (look pre post ended e) h =
    put_back-Covered (requeue s.pool ended.job ended.err) (record s { leaving = pre ++ post })
      (record { owners = h.owners; held = h.held })
Step-Covered {workers} {s} stop h = record { owners = h.owners; held = h.held }

init-Covered : (queue_size : ℕ) → Covered (init queue_size)
unfolding lookup is_some
init-Covered queue_size = record {
  owners = λ k t h. absurd (none-ne-some t h);
  held = λ k stored. absurd (ground (arith, stored));
}

-- In every state that the program can come to, at any interleaving of its goroutines: a pending timer
-- belongs to the key that it is pending under, and for every stored payload a handler, a running
-- timer, or a callback of its key is still on the way.
pub Reach-Covered : (workers queue_size : ℕ) (s : System) → Reach workers queue_size s → Covered s
Reach-Covered workers queue_size s start = init-Covered queue_size
Reach-Covered workers queue_size t (later r up step) =
    Step-Covered step (Reach-Covered workers queue_size _ r)
