-- ===== src/Client/Connection/Shared/Failed.antt =====
-- What a connection that fails does to the circuit when callers share it.

use agent_sets.Prelude.{
  Bool-cases, List, Option, Option-cases, [], ap, arith, false, inl, inr, leb, length, ltb, none,
  refl, some, subst, suc, sym, ℕ, ◌&&◌, ◌++◌, ◌+◌, ◌<◌, ◌∙◌, ◌∷◌, ◌≡◌,
}
use agent_sets.Client.Connection.Breaker.{Consistent, count_failure-breaker, Trips}
use agent_sets.Client.Connection.Shared.{record_each, get_together, flight, after_flight}
use agent_sets.Client.Connection.{
  CircuitBreaker, or_new, is_open, Connection, record_failure, CircuitState, count_failure,
  get_or_reconnect, is_rejecting, after_reconnect, usable, reconnect,
}

flight_failed :
    (c : Connection)
    → usable c ≡ none
    → (d : Connection) × (flight none c ≡ (d, none)) × (d.circuit ≡ c.circuit)
unfolding flight reconnect
flight_failed c none_there = elim (Bool-cases c.configured) [
  | inl e ↦ (
    record c { transport = false; session = none },
    rw (flight, none_there, reconnect, e) refl,
    refl,
  )
  | inr e ↦ (c, rw (flight, none_there, reconnect, e) refl, refl)
]

module _ (cfg : CircuitBreaker) where
  record_each-append :
      (ts : List ℕ) (t : ℕ) (c : Connection)
      → record_each cfg (ts ++ (t ∷ [])) c ≡ record_failure cfg t (record_each cfg ts c)
  unfolding record_each
  record_each-append [] t c = refl
  record_each-append (u ∷ ts) t c = record_each-append ts t (record_failure cfg u c)

  record_each-failures :
      (ts : List ℕ) (c : Connection)
      → (or_new (record_each cfg ts c).circuit).failures ≡ (or_new c.circuit).failures + length ts
  unfolding record_each record_failure count_failure or_new
  record_each-failures [] c = omega arith
  record_each-failures (t ∷ ts) c = record_each-failures ts (record_failure cfg t c) ∙ omega arith

  record_each-Consistent :
      (ts : List ℕ) (c : Connection)
      → Consistent cfg c.circuit
      → Consistent cfg (record_each cfg ts c).circuit
  unfolding record_each record_failure
  record_each-Consistent [] c h = h
  record_each-Consistent (t ∷ ts) c h =
      record_each-Consistent ts (record_failure cfg t c) (count_failure-breaker cfg t c.circuit h).1

  -- A circuit that has not reached the threshold has no time.
  no_time :
      (o : Option CircuitState)
      → Consistent cfg o
      → (or_new o).failures < cfg.failure_threshold
      → (or_new o).open_until ≡ none
  unfolding or_new
  no_time none h l = refl
  no_time (some cs) h l = go cs.open_until h
    where
      go : (u : Option ℕ) → Trips cfg.failure_threshold cs.failures u → u ≡ none
      go none k = refl
      go (some until) k = absurd (omega (arith, k, l))

  count_failure-is_open :
      (now t : ℕ) (o : Option CircuitState)
      → Consistent cfg o
      → is_open now (count_failure cfg t (or_new o))
        ≡ (leb cfg.failure_threshold (suc (or_new o).failures) && ltb now (t + cfg.open_duration))
  unfolding is_open count_failure
  count_failure-is_open now t o h =
      elim (Bool-cases (leb cfg.failure_threshold (suc (or_new o).failures))) [
        | inl e ↦ rw (is_open, count_failure, e) refl
        | inr e ↦
            let l : (or_new o).failures < cfg.failure_threshold = ground (arith, e) in
            rw (is_open, count_failure, e, no_time o h l) refl
      ]

  -- What the callers of one connection that fails leave behind, the last of them at a time t, where no
  -- session can be used and the circuit had a time just when its failures had reached the threshold: they
  -- get an error, and each counts as a failure of its own, so that the circuit rejects until its time after
  -- t is over, as soon as the failures before and the callers are as many as the threshold.
  pub get_together-failed :
      (ts : List ℕ) (t now : ℕ) (c : Connection)
      → Consistent cfg c.circuit
      → usable c ≡ none
      → let (after, got) = get_together cfg (ts ++ (t ∷ [])) none c in
        let failures = (or_new c.circuit).failures + suc (length ts) in
        (got ≡ none)
        × ((or_new after.circuit).failures ≡ failures)
        × (is_rejecting now after.circuit
            ≡ (leb cfg.failure_threshold failures && ltb now (t + cfg.open_duration)))
  unfolding get_together flight after_flight is_rejecting record_failure or_new
  get_together-failed ts t now c h none_there =
      let (d, failed, same) = flight_failed c none_there in
      let x = record_each cfg ts d in
      let counted : (or_new x.circuit).failures ≡ (or_new c.circuit).failures + length ts =
        record_each-failures ts d
        ∙ ap (λ (o : Option CircuitState). (or_new o).failures + length ts) same in
      let whole : get_together cfg (ts ++ (t ∷ [])) none c ≡ (record_failure cfg t x, none) =
        ap (after_flight cfg (ts ++ (t ∷ []))) failed
        ∙ ap (λ (y : Connection). (y, none)) (record_each-append ts t d) in
      let in_all : suc (or_new x.circuit).failures ≡ (or_new c.circuit).failures + suc (length ts) =
        omega (arith, counted) in
      let ok = record_each-Consistent ts d (subst (Consistent cfg) (sym same) h) in
      rw whole (
        refl,
        in_all,
        count_failure-is_open now t x.circuit ok
            ∙ ap (λ (n : ℕ). leb cfg.failure_threshold n && ltb now (t + cfg.open_duration)) in_all,
      )

  after_flight_alone :
      (now : ℕ) (p : Connection × Option ℕ)
      → after_flight cfg (now ∷ []) p ≡ after_reconnect cfg now p
  unfolding after_flight after_reconnect record_each
  after_flight_alone now (c, none) = refl
  after_flight_alone now (c, some s) = refl

  -- A caller that is alone does what the connection does for it.
  pub get_together_alone :
      (now : ℕ) (made : Option ℕ) (c : Connection)
      → is_rejecting now c.circuit ≡ false
      → get_together cfg (now ∷ []) made c ≡ get_or_reconnect cfg now made c
  unfolding get_together get_or_reconnect flight after_flight after_reconnect record_each
  get_together_alone now made c through = elim (Option-cases (usable c)) [
    | inr (s, e) ↦ rw (get_together, flight, get_or_reconnect, through, e) refl
    | inl e ↦
        rw (get_together, flight, get_or_reconnect, through, e)
          (after_flight_alone now (reconnect made c))
  ]
