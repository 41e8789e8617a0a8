-- ===== src/Webhook/System/Runs.antt =====
-- What can become of a payload that is stored: its callback can come to hand it over.

use agent_sets.Prelude.{
  Bool-cases, List, [], ap, arith, false, inl, inr, length, ltb, lt→ltb, none, refl, some, subst,
  sym, total, true, ℕ, ◌++◌, ◌<◌, ◌∙◌, ◌∷◌, ◌≡◌, ◌⊎◌,
}
use agent_sets.Maps.Laws.{lookup-remove_self}
use agent_sets.Webhook.System.Covered.Steps.{Reach-Covered}
use agent_sets.Maps.{lookup, remove}
use agent_sets.Webhook.Pool.{submit, WorkerPool, Job}
use agent_sets.Text.Search.{equal_iff}
use agent_sets.Webhook.System.Covered.{is_key, on_the_way, equal_self, timers}
use agent_sets.Sync.Debounce.{same_timer, holds_timer, Timer, fire, add, cleanup}
use agent_sets.Text.{Bytes, equal, is_some}
use agent_sets.Webhook.System.{
  hand_over, take_payload, arm, run_out, enter, System, Step, call, submit_job, Reach, sent_job,
}

-- Steps of the program, one after the other; none is made behind a crash.
pub data Run (workers : ℕ) (s : System) : System → Type 0 where
  done : Run workers s s
  next : {t u : System} → Run workers s t → t.crashed ≡ false → Step workers t u → Run workers s u

zero_or_more : (n : ℕ) → (n ≡ 0) ⊎ (0 < n)
zero_or_more n = ground arith

find_key :
    (k : Bytes) (ks : List Bytes)
    → 0 < total (is_key k) ks
    → (pre : List Bytes) × (post : List Bytes) × (ks ≡ pre ++ k ∷ post)
find_key k [] h = absurd (omega (arith, h))
find_key k (j ∷ js) h = elim (Bool-cases (equal k j)) [
  | inl e ↦ ([], js, ap (λ (i : Bytes). i ∷ js) (sym ((equal_iff k j).0 e)))
  | inr e ↦
      let (pre, post, d) = find_key k js (omega (arith, rw e at h)) in (j ∷ pre, post, ap (◌∷◌ j) d)
]

same_timer_self : (t : Timer) → same_timer t t ≡ true
unfolding same_timer
same_timer_self t = rw (equal_self t.key) (ground arith)

find_timer :
    (k : Bytes) (ts : List Timer)
    → 0 < timers k ts
    → (t : Timer) × (t.key ≡ k) × (holds_timer t ts ≡ true)
unfolding holds_timer
find_timer k [] h = absurd (omega (arith, h))
find_timer k (u ∷ us) h = elim (Bool-cases (equal k u.key)) [
  | inl e ↦ (u, sym ((equal_iff k u.key).0 e), rw (same_timer_self u) refl)
  | inr e ↦
      let (t, own, d) = find_timer k us (omega (arith, rw e at h)) in (t, own, rw d (ground arith))
]

-- A state that the program can come to from another with the same payloads and pool.
record Quiet (workers : ℕ) (s t : System) : Type 0 where
  run : Run workers s t
  payloads : t.payloads ≡ s.payloads
  pool : t.pool ≡ s.pool
  up : t.crashed ≡ false

-- A callback of the key stands in front of `submitJob`.
record Ready (workers : ℕ) (key : Bytes) (s : System) : Type 0 where
  at : System
  quiet : Quiet workers s at
  pre : List Bytes
  post : List Bytes
  calling : at.calling ≡ pre ++ key ∷ post

module _ (workers : ℕ) (s : System) where
  from_fired :
      (t : System) (u : Timer)
      → Quiet workers s t
      → holds_timer u t.debouncer.fired ≡ true
      → Ready workers u.key s
  from_fired t u q held = record {
    at = record t { debouncer = cleanup u t.debouncer; calling = u.key ∷ t.calling };
    quiet = record {
      run = next q.run q.up (enter u held);
      payloads = q.payloads;
      pool = q.pool;
      up = q.up;
    };
    pre = [];
    post = t.calling;
    calling = refl;
  }

  from_armed :
      (t : System) (u : Timer)
      → Quiet workers s t
      → holds_timer u t.debouncer.armed ≡ true
      → Ready workers u.key s
  unfolding fire holds_timer
  from_armed t u q held =
      from_fired (record t { debouncer = fire u t.debouncer }) u
        (record {
          run = next q.run q.up (run_out u held);
          payloads = q.payloads;
          pool = q.pool;
          up = q.up;
        })
        (rw (same_timer_self u) refl)

  from_arriving :
      (t : System) (pre post : List Bytes) (key : Bytes)
      → Quiet workers s t
      → t.arriving ≡ pre ++ key ∷ post
      → Ready workers key s
  unfolding add holds_timer
  from_arriving t pre post key q e =
      let u : Timer = record { id = t.debouncer.next_id; key = key } in
      from_armed (record t { arriving = pre ++ post; debouncer = add key t.debouncer }) u
        (record {
          run = next q.run q.up (arm pre post key e);
          payloads = q.payloads;
          pool = q.pool;
          up = q.up;
        })
        (rw (same_timer_self u) refl)

-- What is on the way to a key can come to its callback.
on_the_way-Ready :
    (workers : ℕ) (key : Bytes) (s : System)
    → s.crashed ≡ false
    → 0 < on_the_way key s
    → Ready workers key s
on_the_way-Ready workers key s up h =
    let here : Quiet workers s s = record { run = done; payloads = refl; pool = refl; up = up } in
    elim (zero_or_more (total (is_key key) s.arriving)) [
      | inr some_arrive ↦
          let (pre, post, e) = find_key key s.arriving some_arrive in
          from_arriving workers s s pre post key here e
      | inl no_arrive ↦ elim (zero_or_more (timers key s.debouncer.armed)) [
        | inr some_armed ↦
            let (t, own, held) = find_timer key s.debouncer.armed some_armed in
            subst (λ (k : Bytes). Ready workers k s) own (from_armed workers s s t here held)
        | inl no_armed ↦ elim (zero_or_more (timers key s.debouncer.fired)) [
          | inr some_fired ↦
              let (t, own, held) = find_timer key s.debouncer.fired some_fired in
              subst (λ (k : Bytes). Ready workers k s) own (from_fired workers s s t here held)
          | inl no_fired ↦
              let (pre, post, e) =
                find_key key s.calling (omega (arith, h, no_arrive, no_armed, no_fired)) in
              record { at = s; quiet = here; pre = pre; post = post; calling = e }
        ]
      ]
    ]

-- The callback hands the payload to the pool.
record Handed (workers : ℕ) (key payload : Bytes) (s : System) : Type 0 where
  before : System
  payloads : before.payloads ≡ remove equal key s.payloads
  pool : before.pool ≡ s.pool
  run : Run workers s (submit_job (record { key = key; payload = payload }) before)

take_payload_stored :
    (s : System) (key payload : Bytes)
    → lookup equal key s.payloads ≡ some payload
    → take_payload key s ≡ record s {
      payloads = remove equal key s.payloads;
      carrying = record { key = key; payload = payload } ∷ s.carrying;
    }
unfolding take_payload
take_payload_stored s key payload e = rw (take_payload, e) refl

stored-Handed :
    (workers queue_size : ℕ) (s : System) (key payload : Bytes)
    → Reach workers queue_size s
    → s.crashed ≡ false
    → lookup equal key s.payloads ≡ some payload
    → Handed workers key payload s
unfolding is_some
stored-Handed workers queue_size s key payload r up stored =
    let c = Reach-Covered workers queue_size s r in
    let ready = on_the_way-Ready workers key s up (c.held key (rw stored refl)) in
    let called : System = record (ready.at) { calling = ready.pre ++ ready.post } in
    let found : lookup equal key called.payloads ≡ some payload = rw ready.quiet.payloads stored in
    let job : Job = record { key = key; payload = payload } in
    let carried : System = record called {
      payloads = remove equal key called.payloads;
      carrying = job ∷ called.carrying;
    } in
    let to_carried : Run workers s carried =
      subst (Run workers s) (take_payload_stored called key payload found)
        (next ready.quiet.run ready.quiet.up (call ready.pre ready.post key ready.calling)) in
    record {
      before = record carried { carrying = called.carrying };
      payloads = ap (remove equal key) ready.quiet.payloads;
      pool = ready.quiet.pool;
      run = next to_carried ready.quiet.up (hand_over [] called.carrying job refl);
    }

-- In every state that the program can come to and that has a payload stored, while the pool is open and
-- its queue has room, the program has a run that takes the payload out and puts its job at the end of
-- the queue.
pub stored-queued :
    (workers queue_size : ℕ) (s : System) (key payload : Bytes)
    → Reach workers queue_size s
    → s.crashed ≡ false
    → lookup equal key s.payloads ≡ some payload
    → s.pool.closed ≡ false
    → length s.pool.queue < s.pool.queue_size
    → (t : System) × Run workers s t
      × (lookup equal key t.payloads ≡ none)
      × (t.pool.queue ≡ s.pool.queue ++ record { key = key; payload = payload } ∷ [])
unfolding submit_job submit sent_job
stored-queued workers queue_size s key payload r up stored opened room =
    let h = stored-Handed workers queue_size s key payload r up stored in
    let job : Job = record { key = key; payload = payload } in
    let open_pool : h.before.pool.closed ≡ false =
      ap (λ (p : WorkerPool). p.closed) h.pool ∙ opened in
    let fits : ltb (length h.before.pool.queue) h.before.pool.queue_size ≡ true =
      rw h.pool (lt→ltb _ _ room) in
    (
      submit_job job h.before,
      h.run,
      rw (submit_job, submit, open_pool, fits)
          (ap (lookup equal key) h.payloads ∙ lookup-remove_self equal key s.payloads),
      rw (submit_job, submit, open_pool, fits)
          (ap (λ (p : WorkerPool). p.queue ++ job ∷ []) h.pool),
    )

-- In every state that the program can come to and that has a payload stored, when the pool was stopped,
-- the program has a run that ends in the panic of a send on the closed queue.
pub stored-crash :
    (workers queue_size : ℕ) (s : System) (key payload : Bytes)
    → Reach workers queue_size s
    → s.crashed ≡ false
    → lookup equal key s.payloads ≡ some payload
    → s.pool.closed ≡ true
    → (t : System) × Run workers s t × (t.crashed ≡ true)
unfolding submit_job submit sent_job
stored-crash workers queue_size s key payload r up stored stopped =
    let h = stored-Handed workers queue_size s key payload r up stored in
    let closed_pool : h.before.pool.closed ≡ true =
      ap (λ (p : WorkerPool). p.closed) h.pool ∙ stopped in
    (
      submit_job (record { key = key; payload = payload }) h.before,
      h.run,
      rw (submit_job, submit, closed_pool) refl,
    )
