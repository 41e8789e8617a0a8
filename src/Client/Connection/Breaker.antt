-- ===== src/Client/Connection/Breaker.antt =====
-- The breaker that a connection's circuit is: it counts failures until it trips, and rejects until its
-- time is over.

use agent_sets.Prelude.{
  Bool, Bool-cases, Option, Option-cases, ap, arith, false, if◌then◌else◌, inl, inr, leb, leb→le,
  ltb, ltb→lt, none, not, refl, some, suc, true, ℕ, ◌&&◌, ◌+◌, ◌<◌, ◌||◌, ◌∙◌, ◌≡◌, ◌≤◌,
}
use agent_sets.Text.{is_some}
use agent_sets.Client.Connection.{
  CircuitBreaker, CircuitState, is_rejecting, is_open, count_failure, Connection, reconnect,
  get_or_reconnect, or_new, after_reconnect, usable, record_failure,
}

pub data Breaker : Type 0 where
  ready : ℕ → Breaker  -- so many failures one after the other
  tripped : ℕ → Breaker  -- until when

-- The abstract steps.
abbrev pub may_connect : ℕ → Breaker → Bool
may_connect now (ready n) = true
may_connect now (tripped until) = leb until now

abbrev pub failed_at : CircuitBreaker → ℕ → Breaker → Breaker
failed_at cfg now (ready n) =
    if ltb (suc n) cfg.failure_threshold then ready (suc n) else tripped (now + cfg.open_duration)
failed_at cfg now (tripped until) = tripped (now + cfg.open_duration)

abbrev until_of : ℕ → Option ℕ → Breaker
until_of n none = ready n
until_of n (some until) = tripped until

-- The breaker of a circuit.
abbrev pub breaker : Option CircuitState → Breaker
breaker none = ready 0
breaker (some cs) = until_of cs.failures cs.open_until

abbrev pub Trips : ℕ → ℕ → Option ℕ → Type 0
Trips threshold n none = n < threshold
Trips threshold n (some until) = threshold ≤ n

-- A circuit has a time just when its failures have reached the threshold.
abbrev pub Consistent : CircuitBreaker → Option CircuitState → Type 0
Consistent cfg none = Unit
Consistent cfg (some cs) = Trips cfg.failure_threshold cs.failures cs.open_until

is_rejecting-breaker :
    (now : ℕ) (o : Option CircuitState) → is_rejecting now o ≡ not (may_connect now (breaker o))
unfolding is_rejecting is_open
is_rejecting-breaker now none = refl
is_rejecting-breaker now (some cs) = go cs.open_until
  where
    go :
        (o : Option ℕ)
        → elim o [ none ↦ false | some until ↦ ltb now until ]
          ≡ not (may_connect now (until_of cs.failures o))
    go none = refl
    go (some until) = ground arith

module _ (cfg : CircuitBreaker) where
  tripped_again :
      (now n : ℕ) (o : Option ℕ)
      → ltb (suc n) cfg.failure_threshold ≡ false
      → tripped (now + cfg.open_duration) ≡ failed_at cfg now (until_of n o)
  tripped_again now n none d = rw d refl
  tripped_again now n (some until) d = refl

  counted_on :
      (now n : ℕ) (o : Option ℕ)
      → ltb (suc n) cfg.failure_threshold ≡ true
      → Trips cfg.failure_threshold n o
      → (until_of (suc n) o ≡ failed_at cfg now (until_of n o))
        × Trips cfg.failure_threshold (suc n) o
  counted_on now n none d h = (rw d refl, ltb→lt _ _ d)
  counted_on now n (some until) d h = absurd (omega (arith, h, ltb→lt _ _ d))

  pub count_failure-breaker :
      (now : ℕ) (o : Option CircuitState)
      → Consistent cfg o
      → (breaker (some (count_failure cfg now (or_new o))) ≡ failed_at cfg now (breaker o))
        × Consistent cfg (some (count_failure cfg now (or_new o)))
  unfolding count_failure or_new
  count_failure-breaker now none h = elim (Bool-cases (leb cfg.failure_threshold 1)) [
    | inl e ↦
        let d : ltb 1 cfg.failure_threshold ≡ false = ground (arith, e) in
        rw (e, d) (refl, leb→le _ _ e)
    | inr e ↦
        let d : ltb 1 cfg.failure_threshold ≡ true = ground (arith, e) in
        rw (e, d) (refl, ltb→lt _ _ d)
  ]
  count_failure-breaker now (some cs) h =
      elim (Bool-cases (leb cfg.failure_threshold (suc cs.failures))) [
        | inl e ↦
            let d : ltb (suc cs.failures) cfg.failure_threshold ≡ false = ground (arith, e) in
            rw e (tripped_again now cs.failures cs.open_until d, leb→le _ _ e)
        | inr e ↦
            let d : ltb (suc cs.failures) cfg.failure_threshold ≡ true = ground (arith, e) in
            rw e (counted_on now cs.failures cs.open_until d h)
      ]

  -- What an attempt at a session does, abstractly: `none` is a session that is used again, and a connection
  -- that is made is a success or a failure.
  abbrev pub attempted : ℕ → Option Bool → Breaker → Breaker
  attempted now none b = b
  attempted now (some true) b = ready 0
  attempted now (some false) b = failed_at cfg now b

  abbrev pub connects : Connection → Option ℕ → Option Bool
  connects c made = if is_some (usable c) then none else some (c.configured && is_some made)

  reconnect-breaker :
      (now : ℕ) (made : Option ℕ) (c : Connection)
      → Consistent cfg c.circuit
      → (breaker (after_reconnect cfg now (reconnect made c)).0.circuit
          ≡ attempted now (some (c.configured && is_some made)) (breaker c.circuit))
        × Consistent cfg (after_reconnect cfg now (reconnect made c)).0.circuit
        × (is_some (after_reconnect cfg now (reconnect made c)).1 ≡ (c.configured && is_some made))
  unfolding reconnect after_reconnect record_failure is_some
  reconnect-breaker now made c h = go c.configured made
    where
      go :
          (configured : Bool) (m : Option ℕ)
          → (breaker
                (after_reconnect cfg now
                  (reconnect m (record c { configured = configured }))).0.circuit
              ≡ attempted now (some (configured && is_some m)) (breaker c.circuit))
            × Consistent cfg
                (after_reconnect cfg now
                  (reconnect m (record c { configured = configured }))).0.circuit
            × (is_some
                  (after_reconnect cfg now (reconnect m (record c { configured = configured }))).1
                ≡ (configured && is_some m))
      go true none = let (e, k) = count_failure-breaker now c.circuit h in (e, k, refl)
      go true (some s) = (refl, tt, refl)
      go false m = let (e, k) = count_failure-breaker now c.circuit h in (e, k, refl)

  -- An attempt at a session does to the breaker of the connection what the abstract steps say: nothing
  -- while it rejects or when the session is used again, it starts anew with a connection that is made, and
  -- a connection that fails is counted, or trips it. A session is given just when the breaker lets the
  -- attempt through and a session is there or is made.
  pub get_or_reconnect-Consistent :
      (now : ℕ) (made : Option ℕ) (c : Connection)
      → Consistent cfg c.circuit
      → (breaker (get_or_reconnect cfg now made c).0.circuit ≡ (
          if may_connect now (breaker c.circuit)
          then attempted now (connects c made) (breaker c.circuit)
          else breaker c.circuit))
        × Consistent cfg (get_or_reconnect cfg now made c).0.circuit
        × (is_some (get_or_reconnect cfg now made c).1 ≡ (
            may_connect now (breaker c.circuit)
            && (is_some (usable c) || (c.configured && is_some made))))
  unfolding get_or_reconnect is_some
  get_or_reconnect-Consistent now made c h =
      let open_now = is_rejecting-breaker now c.circuit in
      elim (Bool-cases (may_connect now (breaker c.circuit))) [
        | inr e ↦
            let shut : is_rejecting now c.circuit ≡ true = open_now ∙ ap not e in
            rw (get_or_reconnect, shut, e) (refl, h, refl)
        | inl e ↦
            let through : is_rejecting now c.circuit ≡ false = open_now ∙ ap not e in
            elim (Option-cases (usable c)) [
              | inr (s, d) ↦ rw (get_or_reconnect, through, e, d) (refl, h, refl)
              | inl d ↦ rw (get_or_reconnect, through, e, d) (reconnect-breaker now made c h)
            ]
      ]
