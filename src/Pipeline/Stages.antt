-- ===== src/Pipeline/Stages.antt =====
-- pipeline/stage_diff.go, stage_context.go, stage_review.go, adapter.go and the helpers they use. gjson,
-- the tools of the server, the prompts, the model and encoding/json are parameters.
pub mod Whole
pub mod Prompted
use agent_sets.Prelude.{
  Bool, List, Option, [], false, if◌then◌else◌, length, map, none, not, some, true, ℕ, ◌&&◌, ◌++◌,
  ◌||◌, ◌∷◌,
}
use agent_sets.Prelude.Int.{ltb_ℤ, pos, ℤ}
use agent_sets.Pipeline.Degradation.{apply_strategy, DegradationManager}
use agent_sets.Text.Trim.{trim_space}
use agent_sets.Text.Number.{atoi}
use agent_sets.Splitter.Preprocess.{
  extract_file_path, new_diff_preprocessor, split_by_file, PreprocessOptions, preprocess,
}
use agent_sets.Domain.{is_empty, PullRequest, ReviewResult, ReviewComment}
use agent_sets.Pipeline.Types.{reviewed, review_failed, FileChange, FileContent, Reviewed, Call}
use agent_sets.Text.{Bytes, equal, contains, lit, has_prefix, split, trim_prefix, trim_suffix}

pub record Gjson : Type 0 where
  pub valid : Bytes → Bool
  pub get : Bytes → Bytes → Bytes  -- `String()`, empty where there is nothing

-- A result that is a string, or the JSON that it is marshalled to, `none` if that fails.
pub data ToolResult : Type 0 where
  tool_text : Bytes → ToolResult
  tool_data : Option Bytes → ToolResult

pub data ToolReply : Type 0 where
  tool_failed : Bytes → ToolReply
  tool_result : ToolResult → ToolReply

unfoldable pub first_value : (Bytes → Bytes) → List Bytes → Option Bytes
unfolding is_empty
first_value get [] = none
first_value get (k ∷ ks) =
    let rest = first_value get ks in if is_empty (get k) then rest else some (get k)

abbrev or_else : Option Bytes → Bytes → Bytes
or_else none s = s
or_else (some t) s = t

unfoldable pub extract_string : Gjson → ToolResult → List Bytes → Bytes
unfolding first_value equal
extract_string g (tool_text s) keys =
    if g.valid s then or_else (first_value (g.get s) keys) s else s
extract_string g (tool_data none) keys = []
extract_string g (tool_data (some b)) keys =
    let whole =
      if equal b (lit "{}") || (equal b (lit "[]") || equal b (lit "null")) then [] else b in
    or_else (first_value (g.get b) keys) whole

-- a diff that is wrapped in JSON
unfoldable pub unwrap_diff : Gjson → Bytes → Bytes
unfolding contains has_prefix trim_space is_empty
unwrap_diff g diff =
    let inner = g.get diff (lit "diff") in
    if contains diff (lit "\"diff\"") && has_prefix (trim_space diff) (lit "{")
    then if g.valid diff && not (is_empty inner) then inner else diff
    else diff

unfoldable pub change_of : Bytes → FileChange
unfolding extract_file_path split
change_of file_diff = record {
  path = extract_file_path file_diff;
  change_type = lit "modify";
  old_path = [];
  hunk_lines = split file_diff b'\n';
}

unfoldable pub stage1_options : PreprocessOptions
unfolding new_diff_preprocessor
stage1_options = new_diff_preprocessor (pos 0) (pos 10) false true false

unfoldable pub changes_of : Bytes → List FileChange
unfolding change_of split_by_file preprocess stage1_options
changes_of diff = map change_of (split_by_file (preprocess stage1_options diff))

pub data StageError : Type 0 where
  bad_id empty_diff empty_unwrapped : StageError
  diff_failed : Bytes → StageError

pub data Extraction : Type 0 where
  extracted : List FileChange → Extraction
  not_extracted : StageError → Extraction

-- the diff that a tool gave
unfoldable pub of_diff : Gjson → Bytes → Extraction
unfolding unwrap_diff changes_of is_empty
of_diff g diff =
    if is_empty diff
    then not_extracted empty_diff
    else if is_empty (unwrap_diff g diff)
    then not_extracted empty_unwrapped
    else extracted (changes_of (unwrap_diff g diff))

abbrev diff_keys : List Bytes
diff_keys =
    lit "content.0.text" ∷ lit "output.diff" ∷ lit "output.text" ∷ lit "output" ∷ lit "diff" ∷ []

unfoldable pub of_reply : Gjson → ToolReply → Extraction
unfolding of_diff extract_string
of_reply g (tool_failed err) = not_extracted (diff_failed err)
of_reply g (tool_result r) = of_diff g (extract_string g r diff_keys)

unfoldable pub extract_diffs : Gjson → PullRequest → ToolReply → Extraction
unfolding of_reply atoi
extract_diffs g pr reply = if (atoi pr.id).1 then of_reply g reply else not_extracted bad_id

unfoldable pub fetch_file_content : Gjson → ToolReply → Option Bytes
unfolding extract_string
fetch_file_content g (tool_failed err) = none
fetch_file_content g (tool_result r) =
    some (extract_string g r (lit "content.0.text" ∷ lit "output.text" ∷ lit "output" ∷ []))

unfoldable pub sized : ℤ → Bytes → Option Bytes → List FileContent
sized max_size path none = []
sized max_size path (some content) =
    if ltb_ℤ max_size (pos (length content))
    then []
    else record { path = path; content = content; is_diffed = true; relevance = lit "direct" } ∷ []

-- what the goroutine of a change appends
unfoldable pub collect_one : Gjson → ℤ → (Bytes → ToolReply) → FileChange → List FileContent
unfolding fetch_file_content sized equal
collect_one g max_size fetch c =
    if equal c.change_type (lit "delete")
    then []
    else sized max_size c.path (fetch_file_content g (fetch c.path))

unfoldable pub collect_each : Gjson → ℤ → (Bytes → ToolReply) → List FileChange → List FileContent
unfolding collect_one
collect_each g max_size fetch [] = []
collect_each g max_size fetch (c ∷ cs) =
    collect_one g max_size fetch c ++ collect_each g max_size fetch cs

-- `arrive` puts the contents in the order in which the goroutines append them.
unfoldable pub collect_context :
    Gjson
    → ℤ
    → (Bytes → ToolReply)
    → (List FileContent → List FileContent)
    → List FileChange
    → List FileContent
unfolding collect_each
collect_context g max_size fetch arrive changes = arrive (collect_each g max_size fetch changes)

unfoldable pub clean_json : Bytes → Bytes
unfolding trim_space has_prefix trim_prefix trim_suffix
clean_json s =
    let t = trim_space s in
    if has_prefix t (lit "```json")
    then trim_space (trim_suffix (trim_prefix t (lit "```json")) (lit "```"))
    else if has_prefix t (lit "```")
    then trim_space (trim_suffix (trim_prefix t (lit "```")) (lit "```"))
    else trim_space t

unfoldable pub with_severity : ReviewComment → ReviewComment
unfolding is_empty
with_severity c = if is_empty c.severity then record c { severity = lit "INFO" } else c

-- A review that cannot be read becomes an empty one.
unfoldable pub of_unmarshalled : Reviewed → ReviewResult
unfolding with_severity
of_unmarshalled (reviewed r) = record r { comments = map with_severity r.comments }
of_unmarshalled (review_failed err) = record {
  comments = [];
  score = pos 0;
  summary = lit "Failed to parse review result: " ++ err;
  model = [];
}

pub data ChatReply : Type 0 where
  chat_failed : Bytes → ChatReply
  choices : List Bytes → ChatReply

unfoldable pub of_chat : (Bytes → Reviewed) → ChatReply → Reviewed
unfolding clean_json of_unmarshalled
of_chat unmarshal (chat_failed err) = review_failed (lit "llm chat failed: " ++ err)
of_chat unmarshal (choices []) = review_failed (lit "received empty response from LLM")
of_chat unmarshal (choices (text ∷ more)) = reviewed (of_unmarshalled (unmarshal (clean_json text)))

pub data Loaded : Type 0 where
  loaded load_failed : Bytes → Loaded

-- The prompt with the changes, the context and the rules of their languages, and what the model answers in
-- a call, which has a number, to a prompt and a message.
pub record Model : Type 0 where
  pub load_for : Call → Loaded
  pub load_base : Loaded
  pub answer : ℕ → Bytes → Bytes → ChatReply
  pub unmarshal : Bytes → Reviewed
  pub name : Bytes

unfoldable pub ask_model : Model → PullRequest → ℕ → Loaded → Reviewed
unfolding of_chat
ask_model m pr n (load_failed err) = review_failed (lit "failed to load stage 3 prompt: " ++ err)
ask_model m pr n (loaded prompt) =
    of_chat m.unmarshal (m.answer n prompt (lit "Review PR " ++ (pr.id ++ (lit ": " ++ pr.title))))

unfoldable pub review_core : Model → PullRequest → ℕ → Call → Reviewed
unfolding ask_model
review_core m pr n c = ask_model m pr n (m.load_for c)

unfoldable pub review_with :
    Model → DegradationManager → Bool → PullRequest → Call → Loaded → List Call × Reviewed
unfolding apply_strategy review_core
review_with m dm alive pr c (load_failed err) =
    ([], review_failed (lit "failed to load base prompt for estimation: " ++ err))
review_with m dm alive pr c (loaded base) =
    apply_strategy (review_core m pr) dm alive c.changes c.context base

unfoldable pub review :
    Model → DegradationManager → Bool → PullRequest → Call → List Call × Reviewed
unfolding review_with
review m dm alive pr c = review_with m dm alive pr c m.load_base

pub data ReviewOutcome : Type 0 where
  finished : ReviewResult → ReviewOutcome
  stage1_failed : StageError → ReviewOutcome
  stage3_failed : Bytes → ReviewOutcome

abbrev of_review : Bytes → Reviewed → ReviewOutcome
of_review model (reviewed r) = finished (record r { model = model })
of_review model (review_failed err) = stage3_failed err

abbrev no_changes : Bytes → ReviewResult
no_changes model = record {
  comments = [];
  score = pos 100;
  summary = lit "No relevant changes found in this PR.";
  model = model;
}

unfoldable pub after_stage1 :
    Model
    → DegradationManager
    → Bool
    → PullRequest
    → (List FileChange → List FileContent)
    → Extraction
    → ReviewOutcome
unfolding review
after_stage1 m dm alive pr collect (not_extracted err) = stage1_failed err
after_stage1 m dm alive pr collect (extracted []) = finished (no_changes m.name)
after_stage1 m dm alive pr collect (extracted (c ∷ cs)) =
    of_review m.name
      (review m dm alive pr (record { changes = c ∷ cs; context = collect (c ∷ cs) })).1

unfoldable pub review_pr :
    Model
    → DegradationManager
    → Bool
    → Gjson
    → PullRequest
    → ToolReply
    → (List FileChange → List FileContent)
    → ReviewOutcome
unfolding after_stage1 extract_diffs
review_pr m dm alive g pr reply collect =
    after_stage1 m dm alive pr collect (extract_diffs g pr reply)
