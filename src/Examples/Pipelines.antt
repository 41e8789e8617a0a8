-- ===== src/Examples/Pipelines.antt =====
-- Reviews that are cut into calls, and comments that are posted.
use agent_sets.Prelude.{
  All, List, [], ap, false, if◌then◌else◌, length, none, refl, some, some-inj, sym, true, ℕ, ◌∷◌,
  ◌≡◌,
}
use agent_sets.Prelude.Int.{pos}
use agent_sets.Processor.Posting.Calls.Due.{Posted, left_of}
use agent_sets.Processor.Processing.Audit.{SameBut, Kept, process-Kept, posted_before}
use agent_sets.Storage.Database.Memory.{memory, memory-IsLawful}
use agent_sets.Storage.Saved.Spec.{ReadsBack}
use agent_sets.Processor.Processing.{
  Outside, Instants, audit_record, fetch_diff, diff_of_reply, text_of_data, process,
}
use agent_sets.Storage.{RecordJson, ReviewRecord, ReviewRow}
use agent_sets.Domain.Paths.{normalize_path, strip_prefixes}
use agent_sets.Processor.Posting.Calls.Known.{process_pull_request-Posted}
use agent_sets.Processor.Existing.{existing_comments, fetch_existing_ai_comments, of_answer}
use agent_sets.Validator.Answers.{is_valid}
use agent_sets.Processor.Posting.{passes}
use agent_sets.Validator.Parse.{new_comment_validator}
use agent_sets.Processor.Posting.Calls.{
  Setting, PostCall, post_merged_comments, process_pull_request, left_to_post, post_comments,
  post_by,
}
use agent_sets.Domain.{CaseMap, PullRequest, ReviewComment, ReviewResult}
use agent_sets.Pipeline.Stages.{tool_result, tool_data}
use agent_sets.Pipeline.Chunks.Plan.{joined, Fits, chunk_groups-Fits}
use agent_sets.Pipeline.Degradation.Limits.{CallWithin, apply_strategy-CallWithin}
use agent_sets.Pipeline.Degradation.{DegradationManager, apply_strategy}
use agent_sets.Pipeline.Chunks.{FileGroup, chunk_groups, group_tokens}
use agent_sets.Pipeline.Types.{FileChange, FileContent, Call, no_content, Reviewed, review_failed}
use agent_sets.Text.{Bytes, lit, equal}

abbrev change : Bytes → List Bytes → FileChange
change path lines = record {
  path = path;
  change_type = lit "modify";
  old_path = [];
  hunk_lines = lines;
}

abbrev content : Bytes → Bytes → FileContent
content path text = record {
  path = path;
  content = text;
  is_diffed = true;
  relevance = lit "direct";
}

abbrev group : Bytes → Bytes → FileGroup
group path text = record { path = path; diff = change path (text ∷ []); context = no_content }

abbrev two_groups : List FileGroup
two_groups = group (lit "a") (lit "1234567") ∷ group (lit "b") (lit "12345678901234567890") ∷ []

two_chunks : length (chunk_groups 3 two_groups) ≡ 2
unfolding chunk_groups group_tokens
two_chunks = refl

chunk_groups-Fits_example :
    (joined (chunk_groups 3 two_groups) ≡ two_groups) × All (Fits 3) (chunk_groups 3 two_groups)
chunk_groups-Fits_example = chunk_groups-Fits 3 two_groups

abbrev cautious : DegradationManager
cautious = record {
  l1_context_lines = pos 50;
  l2_chunk_by_file = false;
  l3_diff_only = false;
  max_tokens = 100;
  chunks = true;
}

abbrev timing_out : ℕ → Call → Reviewed
timing_out n c = review_failed (lit "llm chat failed: context deadline exceeded")

abbrev small_change : List FileChange
small_change = change (lit "a") (lit "1234567" ∷ []) ∷ []

abbrev small_context : List FileContent
small_context = content (lit "a") (lit "12345678901234") ∷ []

apply_strategy-CallWithin_example :
    All
      (CallWithin timing_out cautious (lit "prompt"))
      (apply_strategy timing_out cautious true small_change small_context (lit "prompt")).0
apply_strategy-CallWithin_example =
    apply_strategy-CallWithin timing_out cautious true small_change small_context (lit "prompt")
      refl refl

abbrev as_is : CaseMap
as_is = record { to_lower = λ s. s; to_upper = λ s. s }

abbrev setting : Setting
setting = record {
  case = as_is;
  lib = record { sort = λ A order xs. xs; visit = λ V m. m };
  merging = record {
    merge_enabled = true;
    high_severity_merge = lit "none";
    low_severity_merge = lit "to_summary";
  };
}

abbrev pull_request : PullRequest
pull_request = record {
  id = lit "7";
  project_key = lit "P";
  repo_slug = lit "r";
  title = lit "t";
  description = [];
  author = [];
  latest_commit = lit "c0ffee";
  web_url = [];
}

abbrev posted_diff : Bytes
posted_diff = lit "+++ b/x.go\n@@ -1 +1 @@\n+a"

abbrev remark : Bytes → ℕ → ReviewComment
remark severity line = record {
  file = lit "x.go";
  line = pos line;
  comment = lit "fix";
  severity = severity;
  marker = [];
}

abbrev result : ReviewResult
result = record {
  comments = remark (lit "CRITICAL") 1 ∷ remark (lit "CRITICAL") 9 ∷ [];
  score = pos 80;
  summary = lit "fine";
  model = lit "m";
}

-- one comment on its own, since the second is on no line of the diff, and the summary
abbrev posted_calls : List PostCall
posted_calls =
    post_merged_comments setting pull_request (new_comment_validator posted_diff)
      (left_to_post setting pull_request (new_comment_validator posted_diff) result []) []

two_calls : length posted_calls ≡ 2
unfolding post_merged_comments left_to_post new_comment_validator passes is_valid normalize_path
    strip_prefixes
two_calls = refl

process_pull_request-Posted_example :
    Posted setting pull_request []
      (new_comment_validator posted_diff)
      result
      (left_of setting pull_request [] (new_comment_validator posted_diff) result.comments)
      posted_calls
unfolding process_pull_request post_comments post_by existing_comments left_to_post
process_pull_request-Posted_example =
    process_pull_request-Posted setting pull_request [] result posted_diff posted_calls refl

-- A codec that keeps the id and the summary; nothing else differs here.
abbrev codec : RecordJson
codec = record {
  marshal_pr = λ p. some p.id;
  marshal_result = λ r. some r.summary;
  unmarshal_pr = λ a. some (record pull_request { id = a });
  unmarshal_result =
      λ a. some (record result { comments = remark (lit "CRITICAL") 1 ∷ []; summary = a });
}

-- Nothing was posted, and the diff is wrapped in JSON.
abbrev outside : Outside
outside = record {
  comments = record { get_posted = λ p r n. none; values_of = λ b. [] };
  get_diff = λ p r n. tool_result (tool_data (some (lit "{}")));
  found_at = λ json at. if equal at (lit "output") then some posted_diff else none;
  reviewer = λ pr known. some result;
}

abbrev instants : Instants
instants = record { unix_nano = pos 5; made_at = 5; since_start = pos 1 }

abbrev audited : ReviewRecord
audited =
    audit_record pull_request
      (left_to_post setting pull_request (new_comment_validator posted_diff) result []) instants

audited-ReadsBack : ReadsBack codec audited
unfolding audit_record left_to_post new_comment_validator passes is_valid normalize_path
    strip_prefixes agent_sets.Text.trim_prefix agent_sets.Text.replace_all
    agent_sets.Text.Trim.trim_space agent_sets.Text.Number.atoi
audited-ReadsBack = (
  λ a h. ap (λ (x : Bytes). some (record pull_request { id = x })) (sym (some-inj _ a h)),
  λ a h.
      ap
        (λ (x : Bytes).
          some (record result { comments = remark (lit "CRITICAL") 1 ∷ []; summary = x }))
        (sym (some-inj _ a h)),
)

process-Kept_example :
    let (store, calls) = process setting codec memory pull_request instants outside (some []) in
    (calls
      ≡ process_pull_request setting pull_request
          (posted_before outside pull_request)
          (some result)
          posted_diff)
    × (after : List ReviewRow) × (store ≡ some after)
    × SameBut setting codec memory memory-IsLawful pull_request instants outside audited.record_id
        [] after
    × Kept setting codec memory memory-IsLawful pull_request instants outside result audited []
        after calls
unfolding fetch_diff fetch_existing_ai_comments of_answer diff_of_reply text_of_data
process-Kept_example =
    process-Kept setting codec memory memory-IsLawful pull_request instants outside [] result refl
      audited-ReadsBack
