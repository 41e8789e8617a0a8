-- ===== src/Webhook/Parser.antt =====
-- parser.go: a pull request out of a payload, by gjson or by a language model. gjson, the model, the
-- filter, the prompt loader and `json.Unmarshal` are parameters.
pub mod Attempts
use agent_sets.Prelude.{
  Bool, List, Option, [], filter, if◌then◌else◌, ltb, none, some, suc, zero, ℕ, ◌&&◌, ◌++◌, ◌||◌,
  ◌∷◌,
}
use agent_sets.Prelude.Int.{negsuc, pos, ℤ}
use agent_sets.Text.Trim.{trim_space}
use agent_sets.Domain.{PullRequest, pr_is_valid}
use agent_sets.Text.{Bytes, lit, trim_prefix, trim_suffix}

-- What gjson and the JSON decoder say of a payload: `get` gives the text of a value that exists and is
-- not null.
pub record Json : Type 0 where
  pub valid : Bytes → Bool
  pub get : Bytes → Bytes → Option Bytes
  pub unmarshal : Bytes → Option PullRequest
  pub unmarshal_error : Bytes → Bytes

-- `String()` of the first value that a path leads to
unfoldable pub probe : (Bytes → Option Bytes) → List Bytes → Bytes
probe get [] = []
probe get (path ∷ paths) =
    let rest = probe get paths in elim (get path) [ some text ↦ text | none ↦ rest ]

abbrev no_pull_request : PullRequest
no_pull_request = record {
  id = [];
  project_key = [];
  repo_slug = [];
  title = [];
  description = [];
  author = [];
  latest_commit = [];
  web_url = [];
}

abbrev pub paths_id : List Bytes
paths_id = lit "pullRequest.id" ∷ lit "id" ∷ []

abbrev pub paths_project_key : List Bytes
paths_project_key =
    lit "pullRequest.toRef.repository.project.key"
    ∷ lit "repository.project.key"
    ∷ lit "pullRequest.fromRef.repository.project.key"
    ∷ lit "project.key"
    ∷ []

abbrev pub paths_repo_slug : List Bytes
paths_repo_slug =
    lit "pullRequest.toRef.repository.slug"
    ∷ lit "repository.slug"
    ∷ lit "repository.name"
    ∷ lit "pullRequest.fromRef.repository.slug"
    ∷ []

unfoldable pub probe_payload : Json → Bytes → PullRequest
unfolding probe
probe_payload json body =
    let probe_string = probe (json.get body) in
    if json.valid body
    then record {
      id = probe_string paths_id;
      project_key = probe_string paths_project_key;
      repo_slug = probe_string paths_repo_slug;
      title = probe_string (lit "pullRequest.title" ∷ lit "title" ∷ []);
      description = probe_string (lit "pullRequest.description" ∷ lit "description" ∷ []);
      author = probe_string (
          lit "pullRequest.author.user.displayName"
          ∷ lit "pullRequest.author.user.name"
          ∷ lit "pullRequest.author.displayName"
          ∷ lit "pullRequest.author.name"
          ∷ lit "actor.displayName"
          ∷ lit "actor.name"
          ∷ []);
      latest_commit =
          probe_string (lit "pullRequest.fromRef.latestCommit" ∷ lit "fromRef.latestCommit" ∷ []);
      web_url = probe_string (
          lit "pullRequest.links.self.0.href"
          ∷ lit "pullRequest.links.html.href"
          ∷ lit "links.self.0.href"
          ∷ lit "links.html.href"
          ∷ []);
    }
    else no_pull_request

-- types/json.go, `CleanJSONFromMarkdown`
unfoldable pub clean_json_from_markdown : Bytes → Bytes
unfolding trim_space trim_prefix trim_suffix
clean_json_from_markdown s =
    trim_space (
      trim_suffix (trim_prefix (trim_prefix (trim_space s) (lit "```json")) (lit "```"))
        (lit "```"))

-- An error of the model: whether it is a `RetryableError`, and what `errors.Is` says of it.
pub record LlmError : Type 0 where
  pub text : Bytes
  pub retryable : Bool
  pub deadline_exceeded : Bool
  pub canceled : Bool

unfoldable pub is_retryable_error : LlmError → Bool
is_retryable_error err = err.retryable || (err.deadline_exceeded || err.canceled)

pub data LlmReply : Type 0 where
  replied : Bytes → LlmReply
  llm_failed : LlmError → LlmReply

-- What one attempt comes to: a pull request, an error to retry behind, or one that ends the loop.
pub data Attempt : Type 0 where
  parsed : PullRequest → Attempt
  retry broken : Bytes → Attempt

unfoldable pub of_unmarshal : Json → Bytes → Attempt
of_unmarshal json text = elim (json.unmarshal text) [
  | some pr ↦ parsed pr
  | none ↦ retry (lit "unmarshal llm response: " ++ json.unmarshal_error text)
]

unfoldable pub attempt_of : Json → LlmReply → Attempt
unfolding clean_json_from_markdown is_retryable_error of_unmarshal
attempt_of json (replied text) = of_unmarshal json (clean_json_from_markdown text)
attempt_of json (llm_failed err) =
    if is_retryable_error err then retry err.text else broken err.text

pub data Extracted : Type 0 where
  found : PullRequest → Extracted
  context_done : Extracted
  extraction_failed : Bytes → Extracted  -- the text of the error

-- `is_done n` says whether the context ends the wait in front of attempt `n`, `attempt n` what that
-- attempt comes to. The result has the number of the attempts that were made.
module _ (is_done : ℕ → Bool) (attempt : ℕ → Attempt) where
  unfoldable pub attempts : ℕ → ℕ → Bytes → ℕ × Extracted
  attempts zero n last = (n, extraction_failed (lit "l2 extraction failed: " ++ last))
  attempts (suc left) n last =
      let again = attempts left (suc n) in
      if ltb 0 n && is_done n then (n, context_done) else elim (attempt n) [
        | parsed pr ↦ (suc n, found pr)
        | retry err ↦ again err
        | broken err ↦ (suc n, extraction_failed (lit "l2 extraction failed: " ++ err))
      ]

unfoldable pub truncate_for_llm : Json → Option (Bytes → Bytes) → Bytes → Bytes
truncate_for_llm json none body = body
truncate_for_llm json (some filter) body = if json.valid body then filter body else body

unfoldable pub retries : ℤ → ℕ
retries (pos zero) = 2
retries (pos (suc n)) = suc n
retries (negsuc n) = 2

abbrev fallback_prompt : Bytes
fallback_prompt =
    lit
      "You are a JSON parser. Extract id, projectKey, repoSlug, title, description, authorName, webUrl as JSON."

abbrev or_fallback : Option Bytes → Bytes
or_fallback (some prompt) = prompt
or_fallback none = fallback_prompt

-- The model is asked with the number of the attempt, the prompt and the payload.
pub record PayloadParser : Type 0 where
  pub json : Json
  pub max_retries : ℤ
  pub prompt : Option Bytes  -- what `LoadPrompt` gives
  pub payload_filter : Option (Bytes → Bytes)
  pub llm : ℕ → Bytes → Bytes → LlmReply
  pub is_done : ℕ → Bool

-- what attempt `n` on a payload comes to
unfoldable pub ask : PayloadParser → Bytes → ℕ → Attempt
unfolding attempt_of truncate_for_llm
ask p body n =
    attempt_of p.json
      (p.llm n (or_fallback p.prompt) (truncate_for_llm p.json p.payload_filter body))

unfoldable pub ask_llm_to_extract : PayloadParser → Bytes → ℕ × Extracted
unfolding attempts retries ask
ask_llm_to_extract p body = attempts p.is_done (ask p body) (suc (retries p.max_retries)) 0 []

unfoldable pub parse : PayloadParser → Bytes → ℕ × Extracted
unfolding ask_llm_to_extract probe_payload pr_is_valid
parse p body =
    let pr = probe_payload p.json body in
    if pr_is_valid pr then (0, found pr) else ask_llm_to_extract p body

-- bitbucket.go, the job of `submitJob`: what it gives to the processor, if anything.
unfoldable pub checked : Extracted → Option PullRequest
unfolding pr_is_valid
checked (found pr) = if pr_is_valid pr then some pr else none
checked context_done = none
checked (extraction_failed err) = none

unfoldable pub to_process : PayloadParser → Bytes → Option PullRequest
unfolding parse checked
to_process p body = checked (parse p body).1
