-- ===== src/Processor/Existing.antt =====
-- `fetchExistingAIComments` of pr_comment_filter.go, on the values that the server's answer holds,
-- and the checks of what was posted before.
pub mod Blind
use agent_sets.Prelude.{
  Bool, List, Option, [], drop, false, if◌then◌else◌, length, map, none, some, take, ◌&&◌, ◌++◌,
  ◌+◌, ◌||◌, ◌∷◌,
}
use agent_sets.Prelude.Int.{ℤ}
use agent_sets.Text.{Bytes, index, contains, split, equal}
use agent_sets.Text.Trim.{trim_space}
use agent_sets.Text.Number.{atoi}
use agent_sets.Domain.{PullRequest, CaseMap, ReviewComment, fingerprint, is_empty}
use agent_sets.Aggregator.{member}
use agent_sets.Processor.Markers.{
  marker_prefix, marker_suffix, marker_visible, type_file, type_summary, parse_marker,
  marker_type_from_marker,
}
use agent_sets.Processor.Tables.{parse_table_comments}

-- `content.raw`, `inline.path` and `inline.to` of a value, each empty or 0 where it is missing.
pub record PostedComment : Type 0 where
  pub raw : Bytes
  pub path : Bytes
  pub line : ℤ

abbrev place_of : List Bytes → Bytes → ℤ → Bytes × ℤ
place_of (p₀ ∷ p₁ ∷ p₂ ∷ ps) path line = (p₁, if (atoi p₂).1 then (atoi p₂).0 else line)
place_of _ path line = (path, line)

-- the path and the line that the marker gives, where `inline.path` is empty
unfoldable pub marker_place : Bytes → Bytes → ℤ → Bytes × ℤ
marker_place raw path line = elim (index raw marker_prefix) [
  | none ↦ (path, line)
  | some start ↦ elim (index (drop start raw) marker_suffix) [
    | none ↦ (path, line)
    | some end ↦ place_of (split (take end (drop start raw)) b':') path line
  ]
]

-- the comment without its marker
unfoldable pub clean_comment : Bytes → Bytes
clean_comment raw = elim (index raw marker_suffix) [
  | none ↦ raw
  | some idx ↦ trim_space (drop (idx + length marker_suffix) raw)
]

unfoldable pub capture_marker : Bytes → Bytes
capture_marker raw = elim (index raw marker_prefix) [
  | none ↦ []
  | some start ↦ elim (index (drop start raw) marker_suffix) [
    | none ↦ []
    | some end ↦ take (end + length marker_suffix) (drop start raw)
  ]
]

unfoldable pub own_comment : List ReviewComment → Bytes → Bytes × ℤ → List ReviewComment
own_comment [] raw (path, line) =
    if is_empty path
    then []
    else record {
      file = path;
      line = line;
      comment = clean_comment raw;
      severity = [];
      marker = capture_marker raw;
    }
      ∷ []
own_comment (c ∷ cs) raw place = []

-- the body of `ForEach`
unfoldable pub read_posted : PostedComment → List ReviewComment
read_posted v =
    let from_table = parse_table_comments v.raw in
    let place = if is_empty v.path then marker_place v.raw v.path v.line else (v.path, v.line) in
    if contains v.raw marker_prefix || contains v.raw marker_visible
    then from_table ++ own_comment from_table v.raw place
    else []

unfoldable pub existing_comments : List PostedComment → List ReviewComment
existing_comments [] = []
existing_comments (v ∷ vs) = read_posted v ++ existing_comments vs

-- The answer to a fetch, marshalled: `none` where the call or `json.Marshal` fails. gjson gives the values
-- of the JSON text.
pub record CommentServer : Type 0 where
  pub get_posted : (project slug : Bytes) → (pull_request : ℤ) → Option Bytes
  pub values_of : Bytes → List PostedComment

unfoldable pub of_answer : (Bytes → List PostedComment) → Option Bytes → List ReviewComment
unfolding existing_comments
of_answer values_of none = []
of_answer values_of (some json) = existing_comments (values_of json)

-- An id that is no number is sent as 0.
unfoldable pub fetch_existing_ai_comments : CommentServer → PullRequest → List ReviewComment
unfolding of_answer atoi
fetch_existing_ai_comments server pr =
    of_answer server.values_of (server.get_posted pr.project_key pr.repo_slug (atoi pr.id).0)

-- what is known of a comment's marker for `hasExistingSummary`
unfoldable pub marks_summary : Bytes → Bytes → Bool
marks_summary commit marker = elim (parse_marker marker) [
  | none ↦ false
  | some m ↦ equal (marker_type_from_marker marker) type_summary && equal m.commit commit
]

unfoldable pub has_existing_summary : List ReviewComment → Bytes → Bool
has_existing_summary [] commit = false
has_existing_summary (c ∷ cs) commit =
    marks_summary commit c.marker || has_existing_summary cs commit

abbrev file_keys : Bytes → Bytes → List Bytes
file_keys commit marker = elim (parse_marker marker) [
  | none ↦ []
  | some m ↦ if equal m.m_type type_file && equal m.commit commit then m.key ∷ [] else []
]

-- the files for which `filterExistingFileComments` finds a comment of the commit
unfoldable pub existing_files : List ReviewComment → Bytes → List Bytes
existing_files [] commit = []
existing_files (c ∷ cs) commit =
    (if is_empty c.marker then [] else file_keys commit c.marker) ++ existing_files cs commit

module _ (u : CaseMap) where
  -- `filterDuplicates`
  unfoldable pub drop_known : List Bytes → List ReviewComment → List ReviewComment
  drop_known known [] = []
  drop_known known (c ∷ cs) =
      let rest = drop_known known cs in if member (fingerprint u c) known then rest else c ∷ rest

  unfoldable pub filter_duplicates : List ReviewComment → List ReviewComment → List ReviewComment
  filter_duplicates new_comments [] = new_comments
  filter_duplicates new_comments (e ∷ es) = drop_known (map (fingerprint u) (e ∷ es)) new_comments
