-- ===== src/Aggregator/Unique.antt =====
-- Deduplication keeps the first comment of each fingerprint, and only such.
use agent_sets.Prelude.{Bool-cases, List, [], ap, arith, false, inl, inr, map, refl, ◌||◌, ◌∷◌, ◌≡◌}
use agent_sets.Text.{Bytes}
use agent_sets.Text.Search.{equal_iff}
use agent_sets.Domain.{CaseMap, ReviewComment, fingerprint}
use agent_sets.Aggregator.{member, dedupe_from, deduplicate_comments}

abbrev pub keys : CaseMap → List ReviewComment → List Bytes
keys u cs = map (fingerprint u) cs

-- No key stands twice, and none stands in `seen`.
abbrev pub Distinct : List Bytes → List Bytes → Type 0
Distinct seen [] = Unit
Distinct seen (k ∷ ks) = (member k seen ≡ false) × Distinct (k ∷ seen) ks

module _ (u : CaseMap) where
  dedupe_from-Distinct :
      (cs : List ReviewComment) (seen : List Bytes) → Distinct seen (keys u (dedupe_from u seen cs))
  unfolding dedupe_from
  dedupe_from-Distinct [] seen = tt
  dedupe_from-Distinct (c ∷ cs) seen = elim (Bool-cases (member (fingerprint u c) seen)) [
    | inl old ↦ rw old (dedupe_from-Distinct cs seen)
    | inr new ↦ rw new (new, dedupe_from-Distinct cs (fingerprint u c ∷ seen))
  ]

  member-dedupe_from :
      (k : Bytes) (cs : List ReviewComment) (seen : List Bytes)
      → (member k seen || member k (keys u (dedupe_from u seen cs)))
        ≡ (member k seen || member k (keys u cs))
  unfolding dedupe_from member
  member-dedupe_from k [] seen = refl
  member-dedupe_from k (c ∷ cs) seen =
      let key = fingerprint u c in
      elim (Bool-cases (member key seen)) [
        | inl old ↦ rw old (ground (arith, old, equal_iff k key, member-dedupe_from k cs seen))
        | inr new ↦ rw new (ground (arith, equal_iff k key, member-dedupe_from k cs (key ∷ seen)))
      ]

  -- A list with distinct keys is left as it is.
  dedupe_from_id :
      (cs : List ReviewComment) (seen : List Bytes)
      → Distinct seen (keys u cs)
      → dedupe_from u seen cs ≡ cs
  unfolding dedupe_from
  dedupe_from_id [] seen h = refl
  dedupe_from_id (c ∷ cs) seen (h, hs) =
      rw h (ap (◌∷◌ c) (dedupe_from_id cs (fingerprint u c ∷ seen) hs))

-- The comments that are kept have fingerprints that differ from one another, and a fingerprint
-- stands among them exactly if it stands among the given comments.
pub deduplicate_comments-keys :
    (u : CaseMap) (cs : List ReviewComment)
    → Distinct [] (keys u (deduplicate_comments u cs))
      × ((k : Bytes) → member k (keys u (deduplicate_comments u cs)) ≡ member k (keys u cs))
unfolding deduplicate_comments member
deduplicate_comments-keys u cs = (dedupe_from-Distinct u cs [], λ k. member-dedupe_from u k cs [])

-- What was deduplicated is left as it is.
pub deduplicate_comments_idem :
    (u : CaseMap) (cs : List ReviewComment)
    → deduplicate_comments u (deduplicate_comments u cs) ≡ deduplicate_comments u cs
unfolding deduplicate_comments
deduplicate_comments_idem u cs =
    dedupe_from_id u (dedupe_from u [] cs) [] (dedupe_from-Distinct u cs [])
