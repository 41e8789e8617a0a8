-- ===== src/Webhook/Handler/Accepts.antt =====
-- Which requests are accepted.

use agent_sets.Prelude.{
  ==_iff, Bool-cases, Option, Option-cases, [], ap, arith, false, inl, inr, none, none-ne-some,
  refl, some, some-inj, sym, true, ℕ, ◌++◌, ◌==◌, ◌↔◌, ◌∙◌, ◌∷◌, ◌≡◌, ◌⊎◌,
}
use agent_sets.Text.Search.{equal_iff}
use agent_sets.Webhook.Handler.{
  cut_equals, before_cut, verify_signature, Request, utf8_valid, is_handled, refused, ignored,
  accepted, Answer,
}
use agent_sets.Text.{Bytes, lit, equal}

pub before_cut-join :
    (c : ℕ) (o : Option (Bytes × Bytes)) (s a b : Bytes)
    → ((p q : Bytes) → o ≡ some (p, q) → s ≡ p ++ b'=' ∷ q)
    → before_cut c o ≡ some (a, b)
    → c ∷ s ≡ a ++ b'=' ∷ b
before_cut-join c none s a b join h = absurd (none-ne-some (a, b) h)
before_cut-join c (some (p, q)) s a b join h =
    let same : (c ∷ p, q) ≡ (a, b) = some-inj _ _ h in
    ap (◌∷◌ c) (join p q refl) ∙ ap (λ (t : Bytes × Bytes). t.0 ++ b'=' ∷ t.1) same

-- the two parts with the sign between them
pub cut_equals-join : (s a b : Bytes) → cut_equals s ≡ some (a, b) → s ≡ a ++ b'=' ∷ b
unfolding cut_equals
cut_equals-join [] a b h = absurd (none-ne-some (a, b) h)
cut_equals-join (c ∷ s) a b h = elim (Bool-cases (c == b'=')) [
  | inl e ↦
      let same : ([], s) ≡ (a, b) = some-inj _ _ (rw e at h) in
      ap (λ (d : ℕ). d ∷ s) ((==_iff c b'=').0 e)
      ∙ ap (λ (t : Bytes × Bytes). t.0 ++ b'=' ∷ t.1) same
  | inr e ↦ before_cut-join c (cut_equals s) s a b (cut_equals-join s) (rw e at h)
]

module _ (mac : Bytes → Bytes → Bytes) where
  verify_signature_made :
      (body secret : Bytes)
      → verify_signature mac body (lit "sha256=" ++ mac secret body) secret ≡ true
  unfolding verify_signature cut_equals
  verify_signature_made body secret = (equal_iff (mac secret body) (mac secret body)).1 refl

  verify_signature_parts :
      (body signature secret a b : Bytes)
      → cut_equals signature ≡ some (a, b)
      → verify_signature mac body signature secret ≡ true
      → signature ≡ lit "sha256=" ++ mac secret body
  unfolding verify_signature
  verify_signature_parts body signature secret a b e h =
      elim (Bool-cases (equal a (lit "sha256"))) [
        | inr d ↦
            let no_way : false ≡ true = rw (verify_signature, e, d) at h in
            absurd (ground (arith, no_way))
        | inl d ↦
            let same : equal (mac secret body) b ≡ true = rw (verify_signature, e, d) at h in
            cut_equals-join signature a b e
            ∙ ap (λ (t : Bytes). t ++ b'=' ∷ b) ((equal_iff a (lit "sha256")).0 d)
            ∙ ap (λ (t : Bytes). lit "sha256=" ++ t) (sym ((equal_iff (mac secret body) b).0 same))
      ]

  -- A signature is valid just when it is the name of the algorithm, an equals sign and the MAC of the
  -- body.
  pub verify_signature_iff :
      (body signature secret : Bytes)
      → (verify_signature mac body signature secret ≡ true)
        ↔ (signature ≡ lit "sha256=" ++ mac secret body)
  unfolding verify_signature
  verify_signature_iff body signature secret = (
    λ h. elim (Option-cases (cut_equals signature)) [
      | inl e ↦
          let no_way : false ≡ true = rw (verify_signature, e) at h in
          absurd (ground (arith, no_way))
      | inr (p, e) ↦ verify_signature_parts body signature secret p.0 p.1 e h
    ],
    λ e. rw e (verify_signature_made body secret),
  )

  -- What a request must be.
  pub record Accepts (get : Bytes → Bytes → Bytes) (secret : Bytes) (r : Request) (body : Bytes)
      : Type 0 where
    pub posted : r.method ≡ lit "POST"
    pub whole : r.body ≡ some body
    pub signed : (secret ≡ []) ⊎ (r.signature ≡ lit "sha256=" ++ mac secret body)
    pub encoded : utf8_valid body ≡ true
    pub handled : is_handled (get body (lit "eventKey")) ≡ true

payload_of : Answer → Bytes × Bytes
payload_of (accepted key body) = (key, body)
payload_of (refused n text) = ([], [])
payload_of ignored = ([], [])
