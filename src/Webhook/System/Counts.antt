-- ===== src/Webhook/System/Counts.antt =====
-- Where the requests are: each is replaced, stored, queued, with a worker, dropped or finished, and the
-- queue and the workers keep their bounds.
pub mod Steps
use agent_sets.Prelude.{
  Bool-cases, List, Option, [], ap, arith, false, if◌then◌else◌, inl, inr, length, length-append,
  ltb, ltb→lt, none, none-ne-some, refl, some, subst, suc, sym, true, ◌&&◌, ◌∙◌, ◌∷◌, ◌≡◌, ◌≤◌,
}
use agent_sets.Webhook.Pool.{
  WorkerPool, submit, requeue, Sent, Job, queued, JobError, is_timeout, has_room, panicked, back_in,
  queue_full,
}
use agent_sets.Maps.Laws.{lookup-remove, lookup-put}
use agent_sets.Text.Search.{equal_iff}
use agent_sets.Maps.{put, remove, lookup}
use agent_sets.Text.{Bytes, equal, is_some}

-- A Go map has one entry for a key.
abbrev pub OneEach : List (Bytes × Bytes) → Type 0
OneEach [] = Unit
OneEach ((k, v) ∷ m) = (lookup equal k m ≡ none) × OneEach m

length-put :
    (k v : Bytes) (m : List (Bytes × Bytes))
    → length (put equal k v m) ≡ (if is_some (lookup equal k m) then length m else suc (length m))
unfolding put lookup is_some
length-put k v [] = refl
length-put k v ((j, w) ∷ m) = elim (Bool-cases (equal k j)) [
  | inl e ↦ rw e refl
  | inr e ↦ rw e (elim (Bool-cases (is_some (lookup equal k m))) [
    | inl d ↦ rw d (let h = length-put k v m in omega (arith, rw d at h))
    | inr d ↦ rw d (let h = length-put k v m in omega (arith, rw d at h))
  ])
]

not_equal_sym : (k j : Bytes) → equal k j ≡ false → equal j k ≡ false
not_equal_sym k j e = elim (Bool-cases (equal j k)) [
  | inl d ↦
      let same : equal k j ≡ true = (equal_iff k j).1 (sym ((equal_iff j k).0 d)) in
      absurd (ground (arith, same, e))
  | inr d ↦ d
]

put-OneEach : (k v : Bytes) (m : List (Bytes × Bytes)) → OneEach m → OneEach (put equal k v m)
unfolding put lookup
put-OneEach k v [] h = (refl, tt)
put-OneEach k v ((j, w) ∷ m) (new, h) = elim (Bool-cases (equal k j)) [
  | inl e ↦
      let gone : lookup equal k m ≡ none =
        ap (λ (i : Bytes). lookup equal i m) ((equal_iff k j).0 e) ∙ new in
      rw e (gone, h)
  | inr e ↦
      let gone : lookup equal j (put equal k v m) ≡ none =
        lookup-put equal k j v m equal_iff ∙ (rw (not_equal_sym k j e) new) in
      rw e (gone, put-OneEach k v m h)
]

remove-OneEach : (k : Bytes) (m : List (Bytes × Bytes)) → OneEach m → OneEach (remove equal k m)
unfolding remove lookup
remove-OneEach k [] h = tt
remove-OneEach k ((j, w) ∷ m) (new, h) = elim (Bool-cases (equal k j)) [
  | inl e ↦ rw e (remove-OneEach k m h)
  | inr e ↦
      rw e (lookup-remove equal k j m equal_iff (not_equal_sym k j e) ∙ new, remove-OneEach k m h)
]

remove_absent :
    (k : Bytes) (m : List (Bytes × Bytes))
    → lookup equal k m ≡ none
    → length (remove equal k m) ≡ length m
unfolding remove lookup
remove_absent k [] h = refl
remove_absent k ((j, w) ∷ m) h = elim (Bool-cases (equal k j)) [
  | inl e ↦ absurd (none-ne-some w (sym (rw e at h)))
  | inr e ↦ rw e (ap suc (remove_absent k m (rw e at h)))
]

length-remove :
    (k v : Bytes) (m : List (Bytes × Bytes))
    → OneEach m
    → lookup equal k m ≡ some v
    → length m ≡ suc (length (remove equal k m))
unfolding remove lookup
length-remove k v [] one h = absurd (none-ne-some v h)
length-remove k v ((j, w) ∷ m) (new, one) h = elim (Bool-cases (equal k j)) [
  | inl e ↦ rw e (
      ap suc (
        sym (remove_absent k m (ap (λ (i : Bytes). lookup equal i m) ((equal_iff k j).0 e) ∙ new))))
  | inr e ↦ rw e (ap suc (length-remove k v m one (rw e at h)))
]

-- What a send of the pool did with a job.
abbrev pub SentRight : WorkerPool → Sent → Type 0
SentRight p (queued q) =
    (length q.queue ≡ suc (length p.queue))
    × ((length q.queue ≤ q.queue_size) × (q.queue_size ≡ p.queue_size))
SentRight p queue_full = Unit
SentRight p panicked = p.closed ≡ true

submit_closed : (p : WorkerPool) (job : Job) → p.closed ≡ true → submit p job ≡ panicked
unfolding submit
submit_closed p job e = rw (submit, e) refl

submit-SentRight : (p : WorkerPool) (job : Job) → SentRight p (submit p job)
unfolding submit
submit-SentRight p job = elim (Bool-cases p.closed) [
  | inl e ↦ subst (SentRight p) (sym (submit_closed p job e)) e
  | inr e ↦ elim (Bool-cases (ltb (length p.queue) p.queue_size)) [
    | inl d ↦
        let more = length-append p.queue (job ∷ []) in
        rw (submit, e, d) (omega (arith, more), (omega (arith, more, ltb→lt _ _ d), refl))
    | inr d ↦ rw (submit, e, d) tt
  ]
]

abbrev pub PutBackRight : WorkerPool → Option WorkerPool → Type 0
PutBackRight p none = Unit
PutBackRight p (some q) = SentRight p (queued q)

back_in-PutBackRight : (p : WorkerPool) (r : Sent) → SentRight p r → PutBackRight p (back_in r)
unfolding back_in
back_in-PutBackRight p (queued q) h = h
back_in-PutBackRight p queue_full h = tt
back_in-PutBackRight p panicked h = tt

requeue-PutBackRight :
    (p : WorkerPool) (job : Job) (err : Option JobError) → PutBackRight p (requeue p job err)
unfolding requeue
requeue-PutBackRight p job none = tt
requeue-PutBackRight p job (some err) = elim (Bool-cases (is_timeout err && has_room p)) [
  | inl e ↦ rw (requeue, e) (back_in-PutBackRight p (submit p job) (submit-SentRight p job))
  | inr e ↦ rw (requeue, e) tt
]
