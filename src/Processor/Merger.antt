-- ===== src/Processor/Merger.antt =====
-- `Merge` of comment_merger.go. `sort.Slice` promises no order among equals, and a range over a map
-- meets its entries in any order: both are parameters.
pub mod Keeps
pub mod Places
pub mod Format
use agent_sets.Prelude.{Bool, List, [], false, if◌then◌else◌, ltb, map, not, true, ◌++◌, ◌==◌, ◌∷◌}
use agent_sets.Prelude.Int.{ltb_ℤ}
use agent_sets.Processor.Markers.{file_marker}
use agent_sets.Maps.{put, at_key}
use agent_sets.Domain.{ReviewComment, is_empty, CaseMap, is_high_severity}
use agent_sets.Config.{CommentMergeConfig}
use agent_sets.Text.{Bytes, lit, equal}

pub record MergedFileComment : Type 0 where
  pub file_path : Bytes
  pub comments : List ReviewComment
  pub marker : Bytes
  pub model_name : Bytes

pub record MergeResult : Type 0 where
  pub file_comments : List MergedFileComment
  pub summary_addons : List ReviewComment
  pub not_merged : List ReviewComment

-- The variables of the loop over the comments.
pub record MergeState : Type 0 where
  pub file_groups : List (Bytes × List ReviewComment)
  pub addons : List ReviewComment
  pub alone : List ReviewComment

-- `a < b` of two strings
unfoldable pub less : Bytes → Bytes → Bool
less [] [] = false
less [] (d ∷ t) = true
less (c ∷ s) [] = false
less (c ∷ s) (d ∷ t) = let rest = less s t in if c == d then rest else ltb c d

unfoldable pub add_to_group : Bytes → ReviewComment → MergeState → MergeState
unfolding put at_key
add_to_group key c st = record st {
  file_groups = put equal key (at_key key st.file_groups ++ (c ∷ [])) st.file_groups;
}

unfoldable pub group_key : Bytes → Bytes
unfolding is_empty
group_key file = if is_empty file then lit "General" else file

unfoldable pub merge_high : Bytes → MergeState → ReviewComment → MergeState
unfolding add_to_group group_key is_empty equal
merge_high mode st c =
    if equal mode (lit "by_file")
    then add_to_group (group_key c.file) c st
    else if equal mode (lit "none")
    then record st { alone = st.alone ++ (c ∷ []) }
    else if not (is_empty c.file)
    then add_to_group c.file c st
    else st

-- How the library sorts by a test of order, and how it visits a map.
pub record Sorting : Type 1 where
  pub sort : (A : Type 0) → (A → A → Bool) → List A → List A
  pub visit : (V : Type 0) → List (Bytes × V) → List (Bytes × V)

module _ (u : CaseMap) where
  unfoldable pub merge_comment : CommentMergeConfig → MergeState → ReviewComment → MergeState
  unfolding is_high_severity merge_high equal
  merge_comment cfg st c =
      if is_high_severity u c.severity
      then merge_high cfg.high_severity_merge st c
      else if equal cfg.low_severity_merge (lit "to_summary")
      then record st { addons = st.addons ++ (c ∷ []) }
      else st

  unfoldable pub merge_each : CommentMergeConfig → MergeState → List ReviewComment → MergeState
  unfolding merge_comment
  merge_each cfg st [] = st
  merge_each cfg st (c ∷ cs) = merge_each cfg (merge_comment cfg st c) cs

  module _ (lib : Sorting) where
    unfoldable pub file_comment : Bytes → Bytes × List ReviewComment → MergedFileComment
    unfolding file_marker
    file_comment commit (file, cs) = record {
      file_path = file;
      comments = lib.sort ReviewComment (λ a b. ltb_ℤ a.line b.line) cs;
      marker = file_marker file commit;
      model_name = [];
    }

    unfoldable pub merge : CommentMergeConfig → List ReviewComment → Bytes → MergeResult
    unfolding merge_each file_comment less
    merge cfg comments commit =
        let st = merge_each cfg (record { file_groups = []; addons = []; alone = [] }) comments in
        if not cfg.merge_enabled
        then record { file_comments = []; summary_addons = []; not_merged = [] }
        else record {
          file_comments =
              lib.sort MergedFileComment (λ a b. less a.file_path b.file_path)
                (map (file_comment commit) (lib.visit (List ReviewComment) st.file_groups));
          summary_addons = st.addons;
          not_merged = st.alone;
        }
