-- ===== src/Examples/Requests.antt =====
-- Requests of the webhook, and payloads that are parsed.
use agent_sets.Prelude.{[], false, if◌then◌else◌, none, refl, some, true, ◌++◌, ◌==◌, ◌↔◌, ◌∷◌, ◌≡◌}
use agent_sets.Prelude.Int.{pos}
use agent_sets.Webhook.Handler.Accepts.{verify_signature_iff, Accepts}
use agent_sets.Webhook.Parser.Attempts.{Ended, Source, to_process-Source, ask_llm_to_extract-Ended}
use agent_sets.Webhook.Parser.{
  Json, PayloadParser, parse, retries, to_process, replied, found, ask, ask_llm_to_extract,
}
use agent_sets.Domain.{PullRequest, pr_is_valid}
use agent_sets.Webhook.Handler.{
  Request, serve_http, utf8_valid, verify_signature, accepted, refused,
}
use agent_sets.Text.{Bytes, equal, lit}

abbrev mac : Bytes → Bytes → Bytes
mac secret body = secret ++ body

abbrev get : Bytes → Bytes → Bytes
get body path = if equal path (lit "eventKey") then lit "pr:opened" else lit "7"

abbrev request : Request
request = record { method = lit "POST"; body = some (lit "é"); signature = lit "sha256=sé" }

abbrev forged : Request
forged = record request { signature = lit "sha1=sé" }

accepted_request : serve_http mac get (lit "s") request 5 ≡ accepted (lit "7/7/7") (lit "é")
unfolding serve_http
accepted_request = refl

forged_request : serve_http mac get (lit "s") forged 5 ≡ refused 401 (lit "Invalid signature")
unfolding serve_http
forged_request = refl

cut_sequence : utf8_valid (0xE2 ∷ 0x82 ∷ []) ≡ false
unfolding utf8_valid
cut_sequence = refl

long_form : utf8_valid (0xC0 ∷ 0x80 ∷ []) ≡ false
unfolding utf8_valid
long_form = refl

verify_signature_iff_example :
    (verify_signature mac (lit "b") (lit "sha256=sb") (lit "s") ≡ true)
    ↔ (lit "sha256=sb" ≡ lit "sha256=" ++ lit "sb")
verify_signature_iff_example = verify_signature_iff mac (lit "b") (lit "sha256=sb") (lit "s")

abbrev made : PullRequest
made = record {
  id = lit "7";
  project_key = lit "P";
  repo_slug = lit "r";
  title = [];
  description = [];
  author = [];
  latest_commit = [];
  web_url = [];
}

-- gjson finds nothing; the model fails once and then answers
abbrev json : Json
json = record {
  valid = λ body. true;
  get = λ body path. none;
  unmarshal = λ text. if equal text (lit "{}") then some made else none;
  unmarshal_error = λ text. lit "bad";
}

abbrev parser : PayloadParser
parser = record {
  json = json;
  max_retries = pos 0;
  prompt = none;
  payload_filter = none;
  llm = λ n prompt body. if n == 0 then replied (lit "sorry") else replied (lit "```json{}```");
  is_done = λ n. false;
}

second_answer : parse parser (lit "x") ≡ (2, found made)
unfolding parse
second_answer = refl

ask_llm_to_extract-Ended_example :
    Ended (λ n. false) (ask parser (lit "x")) 0 3 (ask_llm_to_extract parser (lit "x"))
unfolding retries
ask_llm_to_extract-Ended_example = ask_llm_to_extract-Ended parser (lit "x")

to_process-Source_example : (pr_is_valid made ≡ true) × Source parser (lit "x") made
unfolding to_process
to_process-Source_example = to_process-Source parser (lit "x") made refl
