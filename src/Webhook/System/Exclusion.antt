-- ===== src/Webhook/System/Exclusion.antt =====
-- The lock of a key: a key is locked just when a job holds it, and one job does at most.
use agent_sets.Prelude.{
  Bool, Bool-cases, List, Option, Option-cases, ap, arith, false, if◌then◌else◌, inl, inr, none,
  none-ne-some, refl, some, some-inj, subst, sym, total, total_middle, true, ℕ, ◌++◌, ◌∙◌, ◌∷◌, ◌≡◌,
}
use agent_sets.Webhook.System.{
  hand_over, look, take_payload, receive, arm, run_out, enter, call, take_job, acquire, finish,
  stop, start, later, System, sent_job, put_back, submit_job, finish_job, init, Reach,
  store_payload, Step,
}
use agent_sets.Webhook.Pool.{queued, queue_full, panicked, Job, Sent, WorkerPool, submit, requeue}
use agent_sets.Text.Search.{equal_iff}
use agent_sets.Maps.Laws.{lookup-put}
use agent_sets.Maps.{put, lookup}
use agent_sets.Webhook.System.Covered.{is_key, equal_self}
use agent_sets.Sync.Lock.{is_locked, lock, or_false, KeyLock, unlock}
use agent_sets.Text.{Bytes, equal}

abbrev pub holders : Bytes → List Job → ℕ
holders k jobs = total (λ (job : Job). is_key k job.key) jobs

-- The jobs of a key that run, as the lock of the key has them.
abbrev pub LockedRight : System → Type 0
LockedRight s = (k : Bytes) → holders k s.active ≡ (if is_locked s.locks k then 1 else 0)

is_locked-put :
    (l : KeyLock) (k key : Bytes) (b : Bool)
    → is_locked (record { locks = put equal key b l.locks }) k
      ≡ (if equal k key then b else is_locked l k)
unfolding is_locked or_false
is_locked-put l k key b = elim (Bool-cases (equal k key)) [
  | inl e ↦ rw (e, lookup-put equal key k b l.locks equal_iff, e) refl
  | inr e ↦ rw (e, lookup-put equal key k b l.locks equal_iff, e) refl
]

-- A lock that is taken was free, and is taken now; the others stay as they are.
pub lock-is_locked :
    (l l' : KeyLock) (key : Bytes)
    → lock l key ≡ some l'
    → (is_locked l key ≡ false)
      × ((k : Bytes) → is_locked l' k ≡ (if equal k key then true else is_locked l k))
unfolding lock
lock-is_locked l l' key h = elim (Bool-cases (is_locked l key)) [
  | inl e ↦ absurd (none-ne-some l' (rw (lock, e) at h))
  | inr e ↦
      let taken : some (record { locks = put equal key true l.locks }) ≡ some l' =
        rw (lock, e) at h in
      let same : record { locks = put equal key true l.locks } ≡ l' = some-inj _ l' taken in
      (
        e,
        subst
            (λ (m : KeyLock).
              (k : Bytes) → is_locked m k ≡ (if equal k key then true else is_locked l k))
            same (λ k. is_locked-put l k key true),
      )
]

lookup_held :
    (l : KeyLock) (key : Bytes) → is_locked l key ≡ true → lookup equal key l.locks ≡ some true
unfolding is_locked or_false
lookup_held l key h = elim (Option-cases (lookup equal key l.locks)) [
  | inl e ↦ let no : false ≡ true = rw (is_locked, e) at h in absurd (ground (arith, no))
  | inr (b, e) ↦ let held : b ≡ true = rw (is_locked, e) at h in e ∙ ap some held
]

unlock_held :
    (l : KeyLock) (key : Bytes)
    → is_locked l key ≡ true
    → unlock l key ≡ some (record { locks = put equal key false l.locks })
unfolding unlock
unlock_held l key h = rw (unlock, lookup_held l key h) refl

unlock-is_locked :
    (l l' : KeyLock) (key : Bytes)
    → is_locked l key ≡ true
    → unlock l key ≡ some l'
    → (k : Bytes) → is_locked l' k ≡ (if equal k key then false else is_locked l k)
unlock-is_locked l l' key held h =
    subst
      (λ (m : KeyLock).
        (k : Bytes) → is_locked m k ≡ (if equal k key then false else is_locked l k))
      (some-inj _ l' (sym (unlock_held l key held) ∙ h)) (λ k. is_locked-put l k key false)

holders_when :
    (s : System) (k : Bytes) (b : Bool)
    → is_locked s.locks k ≡ b
    → LockedRight s
    → holders k s.active ≡ (if b then 1 else 0)
holders_when s k b e right = right k ∙ ap (λ (c : Bool). if c then 1 else 0) e

-- a job that runs holds the lock of its key
pub active_locked :
    (s : System) (pre post : List Job) (job : Job)
    → s.active ≡ pre ++ job ∷ post
    → LockedRight s
    → is_locked s.locks job.key ≡ true
active_locked s pre post job e right = elim (Bool-cases (is_locked s.locks job.key)) [
  | inl d ↦ d
  | inr d ↦
      let none_runs : holders job.key s.active ≡ 0 = holders_when s job.key false d right in
      let own : is_key job.key job.key ≡ 1 = rw (equal_self job.key) refl in
      absurd (
        omega (
          arith,
          none_runs,
          own,
          total_middle (λ (j : Job). is_key job.key j.key) s.active pre post job e,
        ))
]

acquire-LockedRight :
    (s : System) (post : List Job) (job : Job) (l : KeyLock)
    → lock s.locks job.key ≡ some l
    → LockedRight s
    → LockedRight (record s { waiting = post; active = job ∷ s.active; locks = l })
acquire-LockedRight s post job l h right k =
    let (free, now) = lock-is_locked s.locks l job.key h in
    elim (Bool-cases (equal k job.key)) [
      | inl e ↦
          let own : is_locked s.locks k ≡ false =
            ap (is_locked s.locks) ((equal_iff k job.key).0 e) ∙ free in
          rw (now k, e) (omega (arith, holders_when s k false own right))
      | inr e ↦ rw (now k, e) (omega (arith, right k))
    ]

finish-LockedRight :
    (s : System) (pre post : List Job) (job : Job) (l : KeyLock)
    → s.active ≡ pre ++ job ∷ post
    → unlock s.locks job.key ≡ some l
    → LockedRight s
    → LockedRight (record s { active = pre ++ post; locks = l })
finish-LockedRight s pre post job l e h right k =
    let held = active_locked s pre post job e right in
    let now = unlock-is_locked s.locks l job.key held h k in
    let less = total_middle (λ (j : Job). is_key k j.key) s.active pre post job e in
    elim (Bool-cases (equal k job.key)) [
      | inl d ↦
          let own : is_locked s.locks k ≡ true =
            ap (is_locked s.locks) ((equal_iff k job.key).0 d) ∙ held in
          rw (now, d) (omega (arith, holders_when s k true own right, rw d at less))
      | inr d ↦ rw (now, d) (omega (arith, right k, rw d at less))
    ]

sent_job-LockedRight : (r : Sent) (s : System) → LockedRight s → LockedRight (sent_job r s)
unfolding sent_job
sent_job-LockedRight (queued pool) s h = h
sent_job-LockedRight queue_full s h = h
sent_job-LockedRight panicked s h = h

put_back-LockedRight :
    (o : Option WorkerPool) (s : System) → LockedRight s → LockedRight (put_back o s)
unfolding put_back
put_back-LockedRight none s h = h
put_back-LockedRight (some pool) s h = h

take_payload-LockedRight :
    (key : Bytes) (s : System) → LockedRight s → LockedRight (take_payload key s)
unfolding take_payload
take_payload-LockedRight key s h = elim (Option-cases (lookup equal key s.payloads)) [
  | inl e ↦ rw (e, take_payload) h
  | inr (payload, e) ↦ rw (e, take_payload) h
]

Step-LockedRight : {workers : ℕ} {s t : System} → Step workers s t → LockedRight s → LockedRight t
unfolding finish_job submit_job store_payload
Step-LockedRight {workers} {s} (receive key body) h = h
Step-LockedRight {workers} {s} (arm pre post key e) h = h
Step-LockedRight {workers} {s} (run_out t e) h = h
Step-LockedRight {workers} {s} (enter t e) h = h
Step-LockedRight {workers} {s} (call pre post key e) h =
    take_payload-LockedRight key (record s { calling = pre ++ post }) h
Step-LockedRight {workers} {s} (hand_over pre post job e) h =
    sent_job-LockedRight (submit s.pool job) (record s { carrying = pre ++ post }) h
Step-LockedRight {workers} {s} (take_job job rest e k) h = h
Step-LockedRight {workers} {s} (acquire pre post job l e k) h =
    acquire-LockedRight s (pre ++ post) job l k h
Step-LockedRight {workers} {s} (finish pre post job l err e k) h =
    finish-LockedRight s pre post job l e k h
Step-LockedRight {workers} {s} (look pre post ended e) h =
    put_back-LockedRight (requeue s.pool ended.job ended.err) (record s { leaving = pre ++ post }) h
Step-LockedRight {workers} {s} stop h = h

init-LockedRight : (queue_size : ℕ) → LockedRight (init queue_size)
unfolding is_locked lookup or_false
init-LockedRight queue_size k = refl

-- In every state that the program can come to: of the jobs of a key, one runs while the key is locked,
-- and none while it is not.
pub Reach-LockedRight :
    (workers queue_size : ℕ) (s : System)
    → Reach workers queue_size s
    → (k : Bytes) → holders k s.active ≡ (if is_locked s.locks k then 1 else 0)
Reach-LockedRight workers queue_size s start = init-LockedRight queue_size
Reach-LockedRight workers queue_size t (later r up step) =
    Step-LockedRight step (Reach-LockedRight workers queue_size _ r)

-- In every state that the program can come to, a job that runs can unlock its key: the mutex is not
-- found unlocked, which would end the program.
pub Reach-unlock :
    (workers queue_size : ℕ) (s : System) (pre post : List Job) (job : Job)
    → Reach workers queue_size s
    → s.active ≡ pre ++ job ∷ post
    → unlock s.locks job.key ≡ some (record { locks = put equal job.key false s.locks.locks })
Reach-unlock workers queue_size s pre post job r e =
    unlock_held s.locks job.key
      (active_locked s pre post job e (Reach-LockedRight workers queue_size s r))
