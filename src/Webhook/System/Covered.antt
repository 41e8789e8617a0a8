-- ===== src/Webhook/System/Covered.antt =====
-- A payload that is stored is always waited for: a handler, a timer or a callback will come for it.
pub mod Steps
use agent_sets.Prelude.{
  Bool-cases, List, Option-cases, [], ap, arith, if◌then◌else◌, inl, inr, none-ne-some, refl, some,
  some-inj, sym, total, true, ℕ, ◌+◌, ◌<◌, ◌∙◌, ◌∷◌, ◌≡◌,
}
use agent_sets.Maps.Laws.{lookup-put, lookup-remove, lookup-remove_self}
use agent_sets.Text.Search.{equal_iff}
use agent_sets.Maps.{lookup, put, remove}
use agent_sets.Sync.Debounce.{same_timer, holds_timer, drop_timer, stop_pending, Timer, Debouncer}
use agent_sets.Webhook.System.{System}
use agent_sets.Text.{Bytes, equal, is_some}

abbrev pub is_key : Bytes → Bytes → ℕ
is_key k j = if equal k j then 1 else 0

abbrev pub timers : Bytes → List Timer → ℕ
timers k ts = total (λ (t : Timer). is_key k t.key) ts

-- the handlers, timers and callbacks of a key
abbrev pub on_the_way : Bytes → System → ℕ
on_the_way k s =
    total (is_key k) s.arriving
    + timers k s.debouncer.armed
    + timers k s.debouncer.fired
    + total (is_key k) s.calling

-- A pending timer belongs to its key, and a stored payload has something that comes for it.
pub record Covered (s : System) : Type 0 where
  pub owners : (k : Bytes) (t : Timer) → lookup equal k s.debouncer.pending ≡ some t → t.key ≡ k
  pub held : (k : Bytes) → is_some (lookup equal k s.payloads) ≡ true → 0 < on_the_way k s

pub equal_self : (k : Bytes) → equal k k ≡ true
equal_self k = (equal_iff k k).1 refl

same_timer-key : (t u : Timer) → same_timer t u ≡ true → t.key ≡ u.key
unfolding same_timer
same_timer-key t u h = (equal_iff t.key u.key).0 (ground arith)

pub timers-drop_timer :
    (k : Bytes) (t : Timer) (ts : List Timer)
    → holds_timer t ts ≡ true
    → timers k (drop_timer t ts) + is_key k t.key ≡ timers k ts
unfolding holds_timer drop_timer
timers-drop_timer k t [] h = absurd (ground (arith, h))
timers-drop_timer k t (u ∷ us) h = elim (Bool-cases (same_timer t u)) [
  | inl e ↦ rw e (omega (arith, ap (is_key k) (same_timer-key t u e)))
  | inr e ↦ rw e (omega (arith, timers-drop_timer k t us (rw e at h)))
]

timers-drop_other :
    (k : Bytes) (t : Timer) (ts : List Timer)
    → is_key k t.key ≡ 0
    → timers k (drop_timer t ts) ≡ timers k ts
unfolding drop_timer
timers-drop_other k t [] h = refl
timers-drop_other k t (u ∷ us) h = elim (Bool-cases (same_timer t u)) [
  | inl e ↦ rw e (omega (arith, h, ap (is_key k) (same_timer-key t u e)))
  | inr e ↦ rw e (omega (arith, timers-drop_other k t us h))
]

-- what `Add` leaves of the timers of another key
pub timers-stop_pending :
    (k key : Bytes) (d : Debouncer)
    → ((j : Bytes) (t : Timer) → lookup equal j d.pending ≡ some t → t.key ≡ j)
    → is_key k key ≡ 0
    → timers k (stop_pending key d) ≡ timers k d.armed
unfolding stop_pending
timers-stop_pending k key d owners h = elim (Option-cases (lookup equal key d.pending)) [
  | inl e ↦ rw (e, stop_pending) refl
  | inr (t, e) ↦
      rw (e, stop_pending)
        (timers-drop_other k t d.armed (omega (arith, h, ap (is_key k) (owners key t e))))
]

pub owners-put :
    (key : Bytes) (u : Timer) (m : List (Bytes × Timer))
    → u.key ≡ key
    → ((j : Bytes) (t : Timer) → lookup equal j m ≡ some t → t.key ≡ j)
    → (j : Bytes) (t : Timer) → lookup equal j (put equal key u m) ≡ some t
    → t.key ≡ j
owners-put key u m own owners j t h = elim (Bool-cases (equal j key)) [
  | inl e ↦
      let p : some u ≡ some t = rw (lookup-put equal key j u m equal_iff, e) at h in
      ap (λ (v : Timer). v.key) (sym (some-inj u t p)) ∙ own ∙ sym ((equal_iff j key).0 e)
  | inr e ↦ owners j t (rw (lookup-put equal key j u m equal_iff, e) at h)
]

pub owners-remove :
    (key : Bytes) (m : List (Bytes × Timer))
    → ((j : Bytes) (t : Timer) → lookup equal j m ≡ some t → t.key ≡ j)
    → (j : Bytes) (t : Timer) → lookup equal j (remove equal key m) ≡ some t
    → t.key ≡ j
owners-remove key m owners j t h = elim (Bool-cases (equal j key)) [
  | inl e ↦
      absurd (none-ne-some t (rw ((equal_iff j key).0 e, lookup-remove_self equal key m) at h))
  | inr e ↦ owners j t (rw (lookup-remove equal key j m equal_iff e) at h)
]
