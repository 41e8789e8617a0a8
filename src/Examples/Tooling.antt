-- ===== src/Examples/Tooling.antt =====
-- The tools of two servers.
use agent_sets.Prelude.{
  List, Occurs, [], false, if◌then◌else◌, length, none, refl, some, true, ℕ, ◌==◌, ◌↔◌, ◌∷◌, ◌≡◌,
}
use agent_sets.Pipeline.Stages.Prompted.Estimate.{Differs, prompted-Differs}
use agent_sets.Pipeline.Stages.{Model, load_failed, choices, loaded}
use agent_sets.Pipeline.Stages.Prompted.{StageValues, loaded_of, prompted, load_rule}
use agent_sets.Prelude.Sorting.{sort_by, insert_by}
use agent_sets.Pipeline.Chunks.{before}
use agent_sets.Pipeline.Rules.Names.{
  sort_strings, base_name, trim_slashes, last_part, extension, find_extension,
}
use agent_sets.Pipeline.Rules.Sorted.{detect_iff}
use agent_sets.Pipeline.Rules.Order.{Ascending}
use agent_sets.Pipeline.Rules.Detected.{Triggers}
use agent_sets.Pipeline.Rules.{
  RuleDetector, new_rule_detector, detect, detect_changes, detect_change, detect_filename,
  detect_extension, detect_content, matches_added, mark_rule, rules_and_names,
}
use agent_sets.Domain.{CaseMap, is_empty, PullRequest}
use agent_sets.Pipeline.Types.{FileChange, Call, review_failed}
use agent_sets.Pipeline.Prompts.Fallback.{FirstTaken, load-FirstTaken}
use agent_sets.Pipeline.Prompts.{
  load, PromptLibrary, PromptLoader, read_text, try_paths, not_there, candidates, rendered,
  render_prompt, merged_data, no_prompt,
}
use agent_sets.Maps.{put, lookup}
use agent_sets.Text.{Bytes, lit, equal, join, has_prefix, last_index, is_some, trim_suffix}
use agent_sets.Client.Connection.{CircuitBreaker, Connection, get_or_reconnect}
use agent_sets.Client.Tools.{
  Visit, ToolState, ListedTool, refresh_tool_cache, refresh_attempts, no_schema, after_attempt,
  do_refresh_tool_cache, visit_servers, visit_server, add_schemas, list_tools, end_refresh,
  schemas_of, schema_of, is_allowed, has_name,
}
use agent_sets.Client.Tools.Refresh.{Outcome, refresh_tool_cache-Outcome}

abbrev circuit : CircuitBreaker
circuit = record { failure_threshold = 3; open_duration = 30 }

abbrev unconnected : Connection
unconnected = record {
  configured = true;
  transport = false;
  session = none;
  stale = false;
  circuit = none;
}

abbrev tool_of : Bytes → ListedTool
tool_of n = record { listed_name = n; listed_schema = no_schema }

-- The first attempt lists nothing; the second lists two tools.
abbrev visits : ℕ → Bytes → Visit
visits n name = record {
  visit_time = n;
  visit_made = some 7;
  listing = λ session. if n == 0 then none else some (tool_of (lit "a") ∷ tool_of (lit "b") ∷ []);
}

abbrev tool_state : ToolState
tool_state = record {
  servers =
      record { server_name = lit "s"; server_tools = lit "b" ∷ []; connection = unconnected } ∷ [];
  tool_cache = [];
}

second_attempt :
    (refresh_tool_cache circuit visits (λ n. false) tool_state).0.tool_cache
    ≡ (lit "s", record { tool_name = lit "b"; input_schema = none } ∷ []) ∷ []
unfolding refresh_tool_cache refresh_attempts after_attempt do_refresh_tool_cache visit_servers
    visit_server add_schemas list_tools end_refresh get_or_reconnect schemas_of schema_of is_allowed
    has_name put equal
second_attempt = refl

refresh_tool_cache-Outcome_example :
    Outcome tool_state (refresh_tool_cache circuit visits (λ n. false) tool_state)
refresh_tool_cache-Outcome_example =
    refresh_tool_cache-Outcome circuit visits (λ n. false) tool_state

-- Paths are joined by slashes; only the default of the project is there.
abbrev prompt_library : PromptLibrary
prompt_library = record {
  read_file = λ path.
      if equal path (lit "prompts/p/default.md") then read_text (lit "Hi") else not_there [];
  join_path = λ parts. join parts (lit "/");
  DataValue = Bytes;
  as_string = λ v. some v;
  of_string = λ s. s;
  execute_template = λ content entries. rendered content;
}

abbrev prompt_loader : PromptLoader
prompt_loader = record { base_dir = lit "prompts"; provider = none }

abbrev no_quote : Bytes → Bytes
no_quote s = s

default_taken :
    load prompt_library no_quote prompt_loader (lit "p") (lit "go") [] ≡ rendered (lit "Hi")
unfolding load try_paths candidates render_prompt join equal
default_taken = refl

abbrev extra_data : List (Bytes × Bytes)
extra_data = (lit "Language", lit "go") ∷ []

load-FirstTaken_example :
    FirstTaken prompt_library prompt_loader extra_data
      (no_prompt prompt_library no_quote (lit "p") (lit "go"))
      (lit "prompts/p/go.md"
        ∷ lit "prompts/p/default.md"
        ∷ lit "prompts/default/go.md"
        ∷ lit "prompts/default/default.md"
        ∷ [])
      (load prompt_library no_quote prompt_loader (lit "p") (lit "go") extra_data)
    × ((j : Bytes)
        → (if is_some (lookup equal j extra_data)
            then lookup equal j (merged_data prompt_library prompt_loader extra_data)
            else none)
          ≡ lookup equal j extra_data)
unfolding join
load-FirstTaken_example =
    load-FirstTaken prompt_library no_quote prompt_loader (lit "p") (lit "go") extra_data

abbrev plain_case : CaseMap
plain_case = record { to_lower = λ s. s; to_upper = λ s. s }

-- The first pattern looks for a capital S, the second for nothing.
abbrev detector : RuleDetector
detector = new_rule_detector (λ line. has_prefix line (lit "+S")) (λ line. false)

abbrev two_files : List FileChange
two_files =
    record {
      path = lit "db/main.go";
      change_type = [];
      old_path = [];
      hunk_lines = lit "+SELECT" ∷ [];
    }
    ∷ record { path = lit "Dockerfile.dev"; change_type = []; old_path = []; hunk_lines = [] }
    ∷ []

three_rules : detect plain_case detector two_files ≡ lit "docker" ∷ lit "go" ∷ lit "sql" ∷ []
unfolding new_rule_detector detect detect_changes detect_change detect_filename detect_extension
    detect_content matches_added mark_rule has_name has_prefix sort_strings sort_by insert_by before
    base_name trim_slashes last_part last_index extension find_extension is_some is_empty equal
    lookup
three_rules = refl

detect_iff_example :
    ((r : Bytes)
      → Occurs r (detect plain_case detector two_files)
        ↔ ((file : FileChange) × Occurs file two_files × Triggers plain_case detector file r))
    × Ascending (detect plain_case detector two_files)
detect_iff_example = detect_iff plain_case detector two_files

-- A template sees the title, and how many changes and files there are.
abbrev stage_values : StageValues prompt_library
stage_values = record {
  pr_value = λ pr. pr.title;
  changes_value = λ cs. length cs ∷ [];
  context_value = λ fs. length fs ∷ [];
}

abbrev titled : PullRequest
titled = record {
  id = lit "7";
  project_key = lit "P";
  repo_slug = lit "r";
  title = lit "t";
  description = [];
  author = [];
  latest_commit = [];
  web_url = [];
}

abbrev silent_model : Model
silent_model = record {
  load_for = λ c. load_failed [];
  load_base = load_failed [];
  answer = λ n prompt message. choices [];
  unmarshal = λ text. review_failed [];
  name = lit "m";
}

abbrev two_changes : Call
two_changes = record { changes = two_files; context = [] }

prompted-Differs_example :
    let stage =
      prompted prompt_library stage_values prompt_loader plain_case detector
        (lit "p/default")
        titled
        silent_model in
    (base : List (Bytes × Bytes)) × (sent : List (Bytes × Bytes)) × (stage.load_base
      ≡ loaded (lit "Hi"))
    × (stage.load_for two_changes ≡ loaded (lit "Hi"))
    × (lookup equal (lit "LanguageRules") base ≡ none)
    × (lookup equal (lit "Language") base ≡ none)
    × Differs prompt_library stage_values prompt_loader two_changes
        (rules_and_names
          (load_rule prompt_library stage_values prompt_loader)
          (detect plain_case detector two_files))
        base
        sent
unfolding loaded_of join trim_suffix
prompted-Differs_example =
    prompted-Differs prompt_library stage_values prompt_loader plain_case detector (lit "p/default")
      (lit "Hi") titled silent_model two_changes refl
