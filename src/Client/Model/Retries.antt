-- ===== src/Client/Model/Retries.antt =====
-- The payload parser of the webhook over the client of the model, as main.go puts them together.
use agent_sets.Prelude.{
  ==_iff, Bool, Bool-cases, [], ap, arith, false, if◌then◌else◌, inl, inr, leb, ltb, none, refl,
  some, subst, suc, sym, true, zero, ℕ, ◌&&◌, ◌++◌, ◌+◌, ◌<◌, ◌==◌, ◌||◌, ◌∙◌, ◌≡◌, ◌≤◌, ◌⊎◌,
}
use agent_sets.Prelude.Int.{eqb_ℤ, leb_ℤ, ltb_ℤ, negsuc, pos, ℤ}
use agent_sets.Text.{Bytes, lit}
use agent_sets.Client.Model.{
  chat, OpenAiAdapter, Completion, ChatParams, simple_text_query, is_retryable_status,
  request_failed, first_choice, of_completion, wrap_error, openai_request, mark_retryable,
}
use agent_sets.Webhook.Parser.{
  PayloadParser, retry, broken, ask, Attempt, attempt_of, attempts, extraction_failed,
  is_retryable_error, Extracted, ask_llm_to_extract, retries,
}

-- The requests of the model are numbered by the attempts.
unfoldable pub with_client :
    OpenAiAdapter → (ℕ → ChatParams → Completion) → PayloadParser → PayloadParser
with_client a send p = record p {
  llm = λ n prompt body. simple_text_query a (send n) none prompt body;
}

-- A rate limit, or an error of the server.
abbrev pub is_transient : ℤ → Bool
is_transient status = eqb_ℤ status (pos 429) || (leb_ℤ (pos 500) status && leb_ℤ status (pos 599))

-- An error that the service answers, with a status, and no end of a context.
abbrev pub api_error : ℤ → Bytes → Completion
api_error status message = request_failed (record {
  api_status = some status;
  cause = record { text = message; retryable = false; deadline_exceeded = false; canceled = false };
})

below_600 : (s : ℤ) → ltb_ℤ s (pos 600) ≡ leb_ℤ s (pos 599)
below_600 (pos n) = ground arith
below_600 (negsuc n) = ground arith

is_retryable_status-is_transient : (s : ℤ) → is_retryable_status s ≡ is_transient s
unfolding is_retryable_status
is_retryable_status-is_transient s =
    ap (λ (b : Bool). eqb_ℤ s (pos 429) || (leb_ℤ (pos 500) s && b)) (below_600 s)

module _ (a : OpenAiAdapter) (send : ℕ → ChatParams → Completion) (p : PayloadParser) where
  ask-transient :
      (body : Bytes) (n : ℕ) (s : ℤ) (m : Bytes)
      → ((params : ChatParams) → send n params ≡ api_error s m)
      → is_transient s ≡ true
      → ask (with_client a send p) body n ≡ retry (lit "retryable error: openai request: " ++ m)
  unfolding ask attempt_of with_client simple_text_query first_choice chat of_completion wrap_error
      openai_request mark_retryable is_retryable_error
  ask-transient body n s m fails transient =
      rw (fails, is_retryable_status-is_transient s ∙ transient) refl

  ask-refused :
      (body : Bytes) (n : ℕ) (s : ℤ) (m : Bytes)
      → ((params : ChatParams) → send n params ≡ api_error s m)
      → is_transient s ≡ false
      → ask (with_client a send p) body n ≡ broken (lit "openai request: " ++ m)
  unfolding ask attempt_of with_client simple_text_query first_choice chat of_completion wrap_error
      openai_request mark_retryable is_retryable_error
  ask-refused body n s m fails refused =
      rw (fails, is_retryable_status-is_transient s ∙ refused) refl

and_right_false : (a b : Bool) → b ≡ false → (a && b) ≡ false
and_right_false a b h = ground (arith, h)

-- So many calls, and an extraction that failed.
abbrev pub failed_after : Bytes → ℕ → ℕ × Extracted
failed_after err calls = (calls, extraction_failed (lit "l2 extraction failed: " ++ err))

-- Attempts of which each fails, to be retried or not.
module _ (is_done : ℕ → Bool) (attempt : ℕ → Attempt) (transient : ℕ → Bool)
    (text : ℕ → Bytes) where
  abbrev Fails : ℕ → Type 0
  Fails k = attempt k ≡ (if transient k then retry (text k) else broken (text k))

  -- The last attempt is the first that is not to be retried, or the last that is allowed.
  abbrev EndsAt : ℕ → ℕ → ℕ × Extracted → Type 0
  EndsAt first limit result =
      (last : ℕ) × (last ≤ limit)
      × ((j : ℕ) → (if leb first j && ltb j last then transient j else true) ≡ true)
      × ((last ≡ limit) ⊎ (transient last ≡ false))
      × (result ≡ failed_after (text last) (suc last))

  none_between : (n j : ℕ) → (if leb n j && ltb j n then transient j else true) ≡ true
  none_between n j = elim (Bool-cases (leb n j && ltb j n)) [
    | inl e ↦ absurd (omega (arith, between n j e))
    | inr e ↦ rw e refl
  ]
    where
      between : (n j : ℕ) → (leb n j && ltb j n) ≡ true → (n ≤ j) × (j < n)
      between n j h = ground (arith, h)

  one_more :
      (n last j : ℕ)
      → transient n ≡ true
      → (if leb (suc n) j && ltb j last then transient j else true) ≡ true
      → (if leb n j && ltb j last then transient j else true) ≡ true
  one_more n last j t h = elim (Bool-cases (j == n)) [
    | inl e ↦
        subst (λ (x : ℕ). (if leb n x && ltb x last then transient x else true) ≡ true)
          (sym ((==_iff j n).0 e)) (rw t (always (leb n n && ltb n last)))
    | inr e ↦
        let same : leb (suc n) j ≡ leb n j = ground (arith, e) in
        subst (λ (b : Bool). (if b && ltb j last then transient j else true) ≡ true) same h
  ]
    where
      always : (b : Bool) → (if b then true else true) ≡ true
      always true = refl
      always false = refl

  going : (n : ℕ) → ((k : ℕ) → is_done k ≡ false) → (ltb 0 n && is_done n) ≡ false
  going n on = and_right_false (ltb 0 n) (is_done n) (on n)

  stopped :
      (left n : ℕ) (last : Bytes)
      → Fails n
      → (ltb 0 n && is_done n) ≡ false
      → transient n ≡ false
      → EndsAt n (n + left) (attempts is_done attempt (suc left) n last)
  unfolding attempts
  stopped left n last fails go t =
      let e : attempt n ≡ broken (text n) = fails ∙ rw t refl in
      (n, omega arith, none_between n, inr t, rw (attempts, go, e) refl)

  attempts-EndsAt :
      (left n : ℕ) (last : Bytes)
      → ((k : ℕ) → Fails k)
      → ((k : ℕ) → is_done k ≡ false)
      → EndsAt n (n + left) (attempts is_done attempt (suc left) n last)
  unfolding attempts
  attempts-EndsAt zero n last fails on = elim (Bool-cases (transient n)) [
    | inr t ↦ stopped zero n last (fails n) (going n on) t
    | inl t ↦
        let e : attempt n ≡ retry (text n) = fails n ∙ rw t refl in
        (n, omega arith, none_between n, inl (omega arith), rw (attempts, going n on, e) refl)
  ]
  attempts-EndsAt (suc left) n last fails on =
      let (k, bound, between, ending, same) = attempts-EndsAt left (suc n) (text n) fails on in
      elim (Bool-cases (transient n)) [
        | inr t ↦ stopped (suc left) n last (fails n) (going n on) t
        | inl t ↦
            let e : attempt n ≡ retry (text n) = fails n ∙ rw t refl in
            let step : attempts is_done attempt (suc (suc left)) n last
                ≡ attempts is_done attempt (suc left) (suc n) (text n) =
              rw (attempts, going n on, e) refl in
            (
              k,
              omega (arith, bound),
              λ j. one_more n k j t (between j),
              subst (λ (m : ℕ). (k ≡ m) ⊎ (transient k ≡ false)) (omega arith) ending,
              step ∙ same,
            )
      ]

-- The text of an error that the service answers.
abbrev pub error_text : ℤ → Bytes → Bytes
error_text status message =
    if is_transient status
    then lit "retryable error: openai request: " ++ message
    else lit "openai request: " ++ message

module _ (a : OpenAiAdapter) (send : ℕ → ChatParams → Completion) (p : PayloadParser) where
  ask_error :
      (body : Bytes) (n : ℕ) (s : ℤ) (m : Bytes)
      → ((params : ChatParams) → send n params ≡ api_error s m)
      → ask (with_client a send p) body n
        ≡ (if is_transient s then retry (error_text s m) else broken (error_text s m))
  ask_error body n s m fails = elim (Bool-cases (is_transient s)) [
    | inl e ↦ rw e (ask-transient a send p body n s m fails e)
    | inr e ↦ rw e (ask-refused a send p body n s m fails e)
  ]

  -- Where every request is answered with an error of the service, each with a status and a message of its
  -- own, and no context ends: the model is asked until the first status that is neither a rate limit nor
  -- an error of the server, or once more than there are retries, and the extraction fails with the message
  -- of the last request.
  pub ask_llm_to_extract_status :
      (body : Bytes) (status : ℕ → ℤ) (message : ℕ → Bytes)
      → ((k : ℕ) → p.is_done k ≡ false)
      → ((k : ℕ) (params : ChatParams) → send k params ≡ api_error (status k) (message k))
      → (last : ℕ) × (last ≤ retries p.max_retries)
        × ((j : ℕ) → (if ltb j last then is_transient (status j) else true) ≡ true)
        × ((last ≡ retries p.max_retries) ⊎ (is_transient (status last) ≡ false))
        × (ask_llm_to_extract (with_client a send p) body
            ≡ failed_after (error_text (status last) (message last)) (suc last))
  unfolding ask_llm_to_extract with_client
  ask_llm_to_extract_status body status message on fails =
      let (last, bound, between, ending, same) =
        attempts-EndsAt p.is_done (ask (with_client a send p) body) (λ k. is_transient (status k))
          (λ k. error_text (status k) (message k)) (retries p.max_retries) 0 []
          (λ k. ask_error body k (status k) (message k) (fails k)) on in
      let as_many : 0 + retries p.max_retries ≡ retries p.max_retries = omega arith in
      (
        last,
        subst (λ (m : ℕ). last ≤ m) as_many bound,
        λ j. all_before j last (between j),
        subst (λ (m : ℕ). (last ≡ m) ⊎ (is_transient (status last) ≡ false)) as_many ending,
        same,
      )
    where
      all_before :
          (j last : ℕ)
          → (if leb 0 j && ltb j last then is_transient (status j) else true) ≡ true
          → (if ltb j last then is_transient (status j) else true) ≡ true
      all_before j last h =
          let e : leb 0 j ≡ true = ground arith in
          subst (λ (b : Bool). (if b && ltb j last then is_transient (status j) else true) ≡ true) e
            h
