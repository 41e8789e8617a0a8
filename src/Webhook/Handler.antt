-- ===== src/Webhook/Handler.antt =====
-- bitbucket.go: what `ServeHTTP` does with a request, up to the payload that it stores. The MAC, as the
-- hexadecimal text of HMAC-SHA256, and gjson are parameters.

use agent_sets.Prelude.{
  Bool, Option, [], false, if◌then◌else◌, leb, ltb, none, not, some, suc, true, zero, ℕ, ◌&&◌, ◌++◌,
  ◌==◌, ◌||◌, ◌∷◌,
}
use agent_sets.Domain.{is_empty}
use agent_sets.Text.{Bytes, is_some, equal, lit, digits}
pub mod Accepts

-- `utf8.Valid`: the bytes that may follow the first of a sequence, as bounds of the next byte and the
-- number of bytes behind that.
abbrev Follow : Type 0
Follow = ℕ × ℕ × ℕ

abbrev follow_of : ℕ → Option Follow
follow_of c =
    if ltb c 0xC2
    then none
    else if ltb c 0xE0
    then some (0x80, 0xBF, 0)
    else if c == 0xE0
    then some (0xA0, 0xBF, 1)
    else if c == 0xED
    then some (0x80, 0x9F, 1)
    else if ltb c 0xF0
    then some (0x80, 0xBF, 1)
    else if c == 0xF0
    then some (0x90, 0xBF, 2)
    else if ltb c 0xF4
    then some (0x80, 0xBF, 2)
    else if c == 0xF4
    then some (0x80, 0x8F, 2)
    else none

utf8_from : Option Follow → Bytes → Bool
unfolding is_some
utf8_from none [] = true
utf8_from (some f) [] = false
utf8_from none (c ∷ s) =
    let one = utf8_from none s in
    let more = utf8_from (follow_of c) s in
    if ltb c 0x80 then one else is_some (follow_of c) && more
utf8_from (some (lo, hi, zero)) (c ∷ s) = (leb lo c && leb c hi) && utf8_from none s
utf8_from (some (lo, hi, suc n)) (c ∷ s) =
    (leb lo c && leb c hi) && utf8_from (some (0x80, 0xBF, n)) s

unfoldable pub utf8_valid : Bytes → Bool
unfolding utf8_from
utf8_valid s = utf8_from none s

pub record Request : Type 0 where
  pub method : Bytes
  pub body : Option Bytes  -- `none`: it cannot be read, or is larger than `MaxBodySize`
  pub signature : Bytes  -- the header X-Hub-Signature, empty where there is none

pub data Answer : Type 0 where
  refused : ℕ → Bytes → Answer  -- the status and the text of `http.Error`
  ignored : Answer
  accepted : Bytes → Bytes → Answer  -- the key and the payload

abbrev before_cut : ℕ → Option (Bytes × Bytes) → Option (Bytes × Bytes)
before_cut c none = none
before_cut c (some (before, after)) = some (c ∷ before, after)

-- `strings.SplitN(s, "=", 2)` with two parts
unfoldable pub cut_equals : Bytes → Option (Bytes × Bytes)
cut_equals [] = none
cut_equals (c ∷ s) =
    let rest = cut_equals s in if c == b'=' then some ([], s) else before_cut c rest

module _ (mac : Bytes → Bytes → Bytes) where
  unfoldable pub verify_signature : Bytes → Bytes → Bytes → Bool
  unfolding cut_equals equal
  verify_signature body signature secret = elim (cut_equals signature) [
    | none ↦ false
    | some (algorithm, provided) ↦
        if equal algorithm (lit "sha256") then equal (mac secret body) provided else false
  ]

  -- the checks of the signature: the text of the answer 401, or `none` where they pass
  unfoldable pub check_signature : Bytes → Request → Bytes → Option Bytes
  unfolding verify_signature is_empty
  check_signature secret r body =
      if is_empty secret
      then none
      else if is_empty r.signature
      then some (lit "Missing signature")
      else if verify_signature body r.signature secret
      then none
      else some (lit "Invalid signature")

unfoldable pub is_handled : Bytes → Bool
unfolding equal
is_handled event_key =
    equal event_key (lit "pr:opened") || equal event_key (lit "pr:from_ref_updated")

module _ (get : Bytes → Bytes → Bytes) where
  -- The number stands for `time.Now().UnixNano()`.
  unfoldable pub unique_key : Bytes → ℕ → Bytes
  unfolding is_empty digits
  unique_key body now =
      let id = get body (lit "pullRequest.id") in
      let project = get body (lit "pullRequest.fromRef.repository.project.key") in
      let repo = get body (lit "pullRequest.fromRef.repository.slug") in
      if not (is_empty id) && (not (is_empty project) && not (is_empty repo))
      then project ++ (b'/' ∷ repo) ++ (b'/' ∷ id)
      else lit "unknown-" ++ digits now

  -- the checks of the body
  unfoldable pub serve_body : Bytes → ℕ → Answer
  unfolding utf8_valid is_handled unique_key
  serve_body body now =
      if utf8_valid body
      then if is_handled (get body (lit "eventKey"))
        then accepted (unique_key body now) body
        else ignored
      else refused 400 (lit "Invalid encoding")

module _ (mac : Bytes → Bytes → Bytes) (get : Bytes → Bytes → Bytes) where
  unfoldable pub serve_read : Bytes → Request → ℕ → Option Bytes → Answer
  unfolding check_signature serve_body
  serve_read secret r now none = refused 400 (lit "Error reading request body")
  serve_read secret r now (some body) = elim (check_signature mac secret r body) [
    | some text ↦ refused 401 text
    | none ↦ serve_body get body now
  ]

  unfoldable pub serve_http : Bytes → Request → ℕ → Answer
  unfolding serve_read equal
  serve_http secret r now =
      if equal r.method (lit "POST")
      then serve_read secret r now r.body
      else refused 405 (lit "Method not allowed")
