-- ===== src/Webhook/Parser/Attempts.antt =====
-- How often the model is asked, and which answer is taken.
use agent_sets.Prelude.{
  ==_iff, Bool, Bool-cases, [], ap, arith, false, inl, inr, ltb, none-ne-some, refl, some, some-inj,
  subst, suc, sym, true, zero, ℕ, ◌&&◌, ◌++◌, ◌+◌, ◌<◌, ◌==◌, ◌∙◌, ◌≡◌, ◌≤◌, ◌⊎◌,
}
use agent_sets.Domain.{PullRequest, pr_is_valid}
use agent_sets.Webhook.Parser.{
  parsed, retry, broken, found, context_done, extraction_failed, Attempt, Extracted, attempts,
  ask_llm_to_extract, PayloadParser, checked, parse, to_process, ask, probe_payload, retries,
}
use agent_sets.Text.{Bytes, lit}

attempt_cases :
    (a : Attempt)
    → ((pr : PullRequest) × (a ≡ parsed pr))
      ⊎ (((err : Bytes) × (a ≡ broken err)) ⊎ ((err : Bytes) × (a ≡ retry err)))
attempt_cases (parsed pr) = inl (pr, refl)
attempt_cases (broken err) = inr (inl (err, refl))
attempt_cases (retry err) = inr (inr (err, refl))

and_right : (a b : Bool) → (a && b) ≡ true → b ≡ true
and_right a b h = ground arith

module _ (is_done : ℕ → Bool) (attempt : ℕ → Attempt) where
  -- what the last of `calls` attempts was, where `limit` are allowed
  abbrev pub LastOf : ℕ → ℕ → Extracted → Type 0
  LastOf limit calls (found pr) = (n : ℕ) × (calls ≡ suc n) × (attempt n ≡ parsed pr)
  LastOf limit calls context_done =
      (n : ℕ) × (calls ≡ suc n) × (is_done calls ≡ true) × ((err : Bytes) × (attempt n ≡ retry err))
  LastOf limit calls (extraction_failed text) =
      (n : ℕ) × (err : Bytes) × (calls ≡ suc n)
      × (text ≡ lit "l2 extraction failed: " ++ err)
      × ((attempt n ≡ broken err) ⊎ ((attempt n ≡ retry err) × (calls ≡ limit)))

  -- `limit` attempts at most are made; each but the last is one to retry behind.
  pub record Ended (first limit : ℕ) (result : ℕ × Extracted) : Type 0 where
    pub bound : result.0 ≤ limit
    pub earlier : (j : ℕ) → first ≤ j → suc j < result.0 → (err : Bytes) × (attempt j ≡ retry err)
    pub ending : LastOf limit result.0 result.1

  earlier-Ended :
      (n limit : ℕ) (err : Bytes) (result : ℕ × Extracted)
      → attempt n ≡ retry err
      → Ended (suc n) limit result
      → Ended n limit result
  earlier-Ended n limit err result e h = record {
    bound = h.bound;
    earlier = λ j lo hi. elim (Bool-cases (j == n)) [
      | inl d ↦ (err, ap attempt ((==_iff j n).0 d) ∙ e)
      | inr d ↦ h.earlier j (ground (arith, lo, d)) hi
    ];
    ending = h.ending;
  }

  -- an attempt that ends the loop
  only-Ended :
      (n limit : ℕ) (result : Extracted)
      → n < limit
      → LastOf limit (suc n) result
      → Ended n limit (suc n, result)
  only-Ended n limit result h ending = record {
    bound = omega (arith, h);
    earlier = λ j lo hi. absurd (omega (arith, lo, hi));
    ending = ending;
  }

  attempts-Ended :
      (left n limit : ℕ) (last : Bytes)
      → limit ≡ n + suc left
      → (ltb 0 n && is_done n) ≡ false
      → Ended n limit (attempts is_done attempt (suc left) n last)
  unfolding attempts
  attempts-Ended zero n limit last e go = elim (attempt_cases (attempt n)) [
    | inl (pr, d) ↦ rw (go, d) (only-Ended n limit (found pr) (omega (arith, e)) (n, refl, d))
    | inr (inl (err, d)) ↦
        rw (go, d) (only-Ended n limit _ (omega (arith, e)) (n, err, refl, refl, inl d))
    | inr (inr (err, d)) ↦
        rw (go, d)
          (only-Ended n limit _ (omega (arith, e)) (n, err, refl, refl, inr (d, omega (arith, e))))
  ]
  attempts-Ended (suc left) n limit last e go = elim (attempt_cases (attempt n)) [
    | inl (pr, d) ↦ rw (go, d) (only-Ended n limit (found pr) (omega (arith, e)) (n, refl, d))
    | inr (inl (err, d)) ↦
        rw (go, d) (only-Ended n limit _ (omega (arith, e)) (n, err, refl, refl, inl d))
    | inr (inr (err, d)) ↦ elim (Bool-cases (ltb 0 (suc n) && is_done (suc n))) [
      | inl done ↦
          rw (go, d, done)
            (only-Ended n limit context_done (omega (arith, e))
              (n, refl, and_right (ltb 0 (suc n)) (is_done (suc n)) done, (err, d)))
      | inr going ↦
          rw (go, d)
            (earlier-Ended n limit err _ d
              (attempts-Ended left (suc n) limit err (omega (arith, e)) going))
    ]
  ]

-- The model is asked once more than there are retries at most. Every attempt but the last failed with an
-- error to retry behind; the last gave the pull request that is returned, or an error that ends the
-- loop, or was the last that is allowed, or the context ended in the wait behind it.
pub ask_llm_to_extract-Ended :
    (p : PayloadParser) (body : Bytes)
    → Ended p.is_done (ask p body) 0 (suc (retries p.max_retries)) (ask_llm_to_extract p body)
unfolding ask_llm_to_extract
ask_llm_to_extract-Ended p body =
    attempts-Ended p.is_done (ask p body) (retries p.max_retries) 0 (suc (retries p.max_retries)) []
      (omega arith) (ground arith)

-- Where a pull request comes from.
abbrev pub Source : PayloadParser → Bytes → PullRequest → Type 0
Source p body pr =
    (pr ≡ probe_payload p.json body)
    ⊎ ((n : ℕ) × (n ≤ retries p.max_retries) × (ask p body n ≡ parsed pr))

found-inj : (x y : PullRequest) → found x ≡ found y → x ≡ y
found-inj x y h = cc h

checked-Valid :
    (e : Extracted) (pr : PullRequest)
    → checked e ≡ some pr
    → (e ≡ found pr) × (pr_is_valid pr ≡ true)
unfolding checked
checked-Valid (found q) pr h = elim (Bool-cases (pr_is_valid q)) [
  | inl e ↦
      let same : q ≡ pr = some-inj q pr (rw (checked, e) at h) in (ap found same, rw same at e)
  | inr e ↦ absurd (none-ne-some pr (rw (checked, e) at h))
]
checked-Valid context_done pr h = absurd (none-ne-some pr h)
checked-Valid (extraction_failed text) pr h = absurd (none-ne-some pr h)

parse-Source :
    (p : PayloadParser) (body : Bytes) (pr : PullRequest)
    → (parse p body).1 ≡ found pr
    → Source p body pr
unfolding parse
parse-Source p body pr h = elim (Bool-cases (pr_is_valid (probe_payload p.json body))) [
  | inl e ↦ inl (sym (found-inj _ pr (rw (parse, e) at h)))
  | inr e ↦
      let asked : (ask_llm_to_extract p body).1 ≡ found pr = rw (parse, e) at h in
      let ended = ask_llm_to_extract-Ended p body in
      let (n, calls, answer) =
        subst
          (LastOf p.is_done (ask p body) (suc (retries p.max_retries))
            (ask_llm_to_extract p body).0)
          asked ended.ending in
      inr (n, omega (arith, ended.bound, calls), answer)
]

-- A pull request that the job of a payload gives to the processor has an id, a project and a repository,
-- and is what gjson found, or what an attempt that is allowed got from the model.
pub to_process-Source :
    (p : PayloadParser) (body : Bytes) (pr : PullRequest)
    → to_process p body ≡ some pr
    → (pr_is_valid pr ≡ true) × Source p body pr
unfolding to_process
to_process-Source p body pr h =
    let (e, ok) = checked-Valid (parse p body).1 pr h in (ok, parse-Source p body pr e)
