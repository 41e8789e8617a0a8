-- ===== src/Pipeline/Prompts.antt =====
-- prompt_loader.go: prompts from files, filled in. Files, path/filepath and text/template are parameters.
pub mod Fallback
use agent_sets.Prelude.{List, Option, [], if◌then◌else◌, none, some, ◌++◌, ◌∷◌}
use agent_sets.Text.{Bytes, lit, join, trim_suffix, equal}
use agent_sets.Maps.{put, lookup}
use agent_sets.Filter.Values.{
  Members, Value, find_member, json_member, json_object, json_text, members_end,
}
use agent_sets.Domain.{is_empty}
use agent_sets.Client.Tools.{ToolCache, RawToolSchema}

pub data FileRead : Type 0 where
  read_text : Bytes → FileRead
  not_there read_failed : Bytes → FileRead  -- the text of the error

pub data PromptResult : Type 0 where
  rendered : Bytes → PromptResult
  prompt_error : Bytes → PromptResult

-- Files and paths; the values of a template, with `v.(string)`; and a template that is parsed and executed
-- on a map.
pub record PromptLibrary : Type 1 where
  pub read_file : Bytes → FileRead
  pub join_path : List Bytes → Bytes
  pub DataValue : Type 0
  pub as_string : DataValue → Option Bytes
  pub of_string : Bytes → DataValue
  pub execute_template : Bytes → List (Bytes × DataValue) → PromptResult

pub record PromptLoader : Type 0 where
  pub base_dir : Bytes
  pub provider : Option ToolCache  -- what `GetRawToolSchemas` of the provider gives

pub record PromptData : Type 0 where
  pub get_diff : Bytes
  pub get_comments : Bytes
  pub add_comment : Bytes
  pub get_changes : Bytes
  pub get_file_content : Bytes
  pub get_pull_request : Bytes
  pub data_project : Bytes
  pub data_slug : Bytes

abbrev pub new_prompt_data : PromptData
new_prompt_data = record {
  get_diff = lit "bitbucket_get_pull_request_diff";
  get_comments = lit "bitbucket_get_pull_request_comments";
  add_comment = lit "bitbucket_add_pull_request_comment";
  get_changes = lit "bitbucket_get_pull_request_changes";
  get_file_content = lit "bitbucket_get_file_content";
  get_pull_request = lit "bitbucket_get_pull_request";
  data_project = [];
  data_slug = [];
}

unfoldable pub type_name : Value → Bytes
unfolding find_member
type_name (json_object m) = elim (find_member (lit "type") m) [ some (json_text t) ↦ t | _ ↦ [] ]
type_name _ = []

unfoldable pub param_of : Bytes → Bytes → Bytes
unfolding is_empty
param_of name kind = if is_empty kind then name else name ++ (lit ": " ++ kind)

unfoldable pub params_of : Members → List Bytes
unfolding param_of type_name
params_of members_end = []
params_of (json_member name v ms) = param_of name (type_name v) ∷ params_of ms

unfoldable pub properties_of : Members → List Bytes
unfolding find_member params_of
properties_of schema = elim (find_member (lit "properties") schema) [
  | some (json_object ps) ↦ params_of ps
  | _ ↦ []
]

unfoldable pub signature_of : Bytes → Option (Option Members) → Bytes
unfolding properties_of join
signature_of name (some (some schema)) =
    name ++ (b'(' ∷ (join (properties_of schema) (lit ", ") ++ (b')' ∷ [])))
signature_of name _ = []

unfoldable pub get_raw_tool_signature : List (Bytes × Option Members) → Bytes → Bytes
unfolding signature_of lookup
get_raw_tool_signature schemas name = signature_of name (lookup equal name schemas)

unfoldable pub add_tools :
    List RawToolSchema → List (Bytes × Option Members) → List (Bytes × Option Members)
unfolding put
add_tools [] m = m
add_tools (t ∷ ts) m = add_tools ts (put equal t.tool_name t.input_schema m)

unfoldable pub flatten_schemas :
    ToolCache → List (Bytes × Option Members) → List (Bytes × Option Members)
unfolding add_tools
flatten_schemas [] m = m
flatten_schemas ((server, ts) ∷ cache) m = flatten_schemas cache (add_tools ts m)

unfoldable pub with_signature : List (Bytes × Option Members) → Bytes → Bytes
unfolding get_raw_tool_signature is_empty
with_signature schemas name =
    let sig = get_raw_tool_signature schemas name in if is_empty sig then name else sig

unfoldable pub enrich_from_raw_schema : Option ToolCache → PromptData → PromptData
unfolding flatten_schemas with_signature
enrich_from_raw_schema none d = d
enrich_from_raw_schema (some cache) d =
    let schemas = flatten_schemas cache [] in
    record d {
      get_diff = with_signature schemas d.get_diff;
      get_comments = with_signature schemas d.get_comments;
      add_comment = with_signature schemas d.add_comment;
      get_changes = with_signature schemas d.get_changes;
      get_file_content = with_signature schemas d.get_file_content;
      get_pull_request = with_signature schemas d.get_pull_request;
    }

-- Entries that are written over a map.
unfoldable pub merge_over : {V : Type 0} → List (Bytes × V) → List (Bytes × V) → List (Bytes × V)
unfolding put
merge_over [] base = base
merge_over ((k, v) ∷ extra) base = put equal k v (merge_over extra base)

module _ (P : PromptLibrary) where
  unfoldable pub string_at : Bytes → List (Bytes × P.DataValue) → Bytes
  unfolding lookup
  string_at key extra = elim (lookup equal key extra) [
    | none ↦ []
    | some v ↦ elim (P.as_string v) [ none ↦ [] | some s ↦ s ]
  ]

  unfoldable pub data_entries : PromptData → List (Bytes × P.DataValue)
  data_entries d =
      (lit "ToolBitbucketGetDiff", P.of_string d.get_diff)
      ∷ (lit "ToolBitbucketGetComments", P.of_string d.get_comments)
      ∷ (lit "ToolBitbucketAddComment", P.of_string d.add_comment)
      ∷ (lit "ToolBitbucketGetChanges", P.of_string d.get_changes)
      ∷ (lit "ToolBitbucketGetFileContent", P.of_string d.get_file_content)
      ∷ (lit "ToolBitbucketGetPullRequest", P.of_string d.get_pull_request)
      ∷ (lit "ProjectKey", P.of_string d.data_project)
      ∷ (lit "RepoSlug", P.of_string d.data_slug)
      ∷ []

  unfoldable pub merged_data :
      PromptLoader → List (Bytes × P.DataValue) → List (Bytes × P.DataValue)
  unfolding string_at data_entries enrich_from_raw_schema merge_over
  merged_data l extra = merge_over extra (
      data_entries (
        enrich_from_raw_schema l.provider (record new_prompt_data {
          data_project = string_at (lit "ProjectKey") extra;
          data_slug = string_at (lit "RepoSlug") extra;
        })))

  unfoldable pub render_prompt : PromptLoader → Bytes → List (Bytes × P.DataValue) → PromptResult
  unfolding merged_data
  render_prompt l content extra = P.execute_template content (merged_data l extra)

  unfoldable pub candidates : PromptLoader → Bytes → Bytes → List Bytes
  candidates l project language =
      P.join_path (l.base_dir ∷ project ∷ (language ++ lit ".md") ∷ [])
      ∷ P.join_path (l.base_dir ∷ project ∷ lit "default.md" ∷ [])
      ∷ P.join_path (l.base_dir ∷ lit "default" ∷ (language ++ lit ".md") ∷ [])
      ∷ P.join_path (l.base_dir ∷ lit "default" ∷ lit "default.md" ∷ [])
      ∷ []

  unfoldable pub read_error : Bytes → Bytes → PromptResult
  read_error path e = prompt_error (lit "read prompt " ++ (path ++ (lit ": " ++ e)))

  -- The loop over the paths; the last argument is what stands behind it.
  unfoldable pub try_paths :
      PromptLoader → List (Bytes × P.DataValue) → List Bytes → PromptResult → PromptResult
  unfolding render_prompt read_error
  try_paths l extra [] nothing = nothing
  try_paths l extra (path ∷ paths) nothing =
      let rest = try_paths l extra paths nothing in
      elim (P.read_file path) [
        | read_text content ↦ render_prompt l content extra
        | not_there e ↦ rest
        | read_failed e ↦ read_error path e
      ]

  -- `%q` of package fmt is an argument.
  unfoldable pub no_prompt : (Bytes → Bytes) → Bytes → Bytes → PromptResult
  no_prompt quote project language = prompt_error (
      lit "no prompt found for project=" ++ (quote project ++ (lit " language=" ++ quote language)))

  unfoldable pub load :
      (Bytes → Bytes) → PromptLoader → Bytes → Bytes → List (Bytes × P.DataValue) → PromptResult
  unfolding try_paths candidates
  load quote l project language extra =
      try_paths l extra (candidates l project language) (no_prompt quote project language)

  unfoldable pub of_prompt_file :
      PromptLoader → Bytes → List (Bytes × P.DataValue) → FileRead → PromptResult
  unfolding render_prompt read_error
  of_prompt_file l path extra (read_text content) = render_prompt l content extra
  of_prompt_file l path extra (not_there e) = read_error path e
  of_prompt_file l path extra (read_failed e) = read_error path e

  unfoldable pub load_prompt : PromptLoader → Bytes → List (Bytes × P.DataValue) → PromptResult
  unfolding of_prompt_file trim_suffix
  load_prompt l name extra =
      let path = P.join_path (l.base_dir ∷ (trim_suffix name (lit ".md") ++ lit ".md") ∷ []) in
      of_prompt_file l path extra (P.read_file path)
