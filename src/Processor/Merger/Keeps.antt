-- ===== src/Processor/Merger/Keeps.antt =====
-- Where `Merge` puts each comment: no comment is lost that the configuration does not drop, and
-- none is doubled.

use agent_sets.Prelude.{
  Bool, Bool-cases, List, [], ap, arith, filter, inl, inr, not, total, total-append, total-map,
  true, ℕ, ◌&&◌, ◌++◌, ◌+◌, ◌||◌, ◌∙◌, ◌∷◌, ◌≡◌,
}
use agent_sets.Prelude.Int.{ltb_ℤ}
use agent_sets.Text.Search.{equal_iff}
use agent_sets.Maps.{put, at_key, lookup}
use agent_sets.Text.{Bytes, equal, lit}
use agent_sets.Domain.{ReviewComment, CaseMap, is_high_severity, is_empty}
use agent_sets.Config.{CommentMergeConfig}
use agent_sets.Processor.Merger.{
  Sorting, MergeState, add_to_group, merge_each, MergedFileComment, merge, file_comment, less,
}

-- Sorting and visiting a map change the order alone: every weighing of the elements comes to the
-- same.
pub record IsFair (lib : Sorting) : Type 1 where
  pub sort_total :
      (A : Type 0) (before : A → A → Bool) (f : A → ℕ) (xs : List A)
      → total f (lib.sort A before xs) ≡ total f xs
  pub visit_total :
      (V : Type 0) (f : Bytes × V → ℕ) (m : List (Bytes × V)) → total f (lib.visit V m) ≡ total f m

module _ (f : Bytes → ReviewComment → ℕ) where
  -- the weights of the comments of all groups, each by its group's key
  abbrev pub group_total : List (Bytes × List ReviewComment) → ℕ
  group_total m = total (λ (e : Bytes × List ReviewComment). total (f e.0) e.1) m

  put-total :
      (key : Bytes) (cs : List ReviewComment) (m : List (Bytes × List ReviewComment))
      → group_total (put equal key cs m) + total (f key) (at_key key m)
        ≡ group_total m + total (f key) cs
  unfolding put at_key lookup
  put-total key cs [] = omega arith
  put-total key cs ((j, w) ∷ m) = elim (Bool-cases (equal key j)) [
    | inl e ↦ rw e (omega (arith, ap (λ (k : Bytes). total (f k) w) ((equal_iff key j).0 e)))
    | inr e ↦ rw e (omega (arith, put-total key cs m))
  ]

  pub add_to_group-total :
      (key : Bytes) (c : ReviewComment) (st : MergeState)
      → group_total (add_to_group key c st).file_groups ≡ group_total st.file_groups + f key c
  unfolding add_to_group
  add_to_group-total key c st =
      let held = at_key key st.file_groups in
      omega
        (arith, put-total key (held ++ c ∷ []) st.file_groups, total-append (f key) held (c ∷ []))

module _ (u : CaseMap) (cfg : CommentMergeConfig) where
  abbrev by_file : Bool
  by_file = equal cfg.high_severity_merge (lit "by_file")

  abbrev individual : Bool
  individual = equal cfg.high_severity_merge (lit "none")

  -- a comment for the table of its file
  abbrev pub is_grouped : ReviewComment → Bool
  is_grouped c =
      is_high_severity u c.severity && (by_file || (not individual && not (is_empty c.file)))

  -- a comment that is posted on its own
  abbrev pub is_individual : ReviewComment → Bool
  is_individual c = is_high_severity u c.severity && (not by_file && individual)

  -- a comment for the table of the summary
  abbrev pub is_addon : ReviewComment → Bool
  is_addon c =
      not (is_high_severity u c.severity) && equal cfg.low_severity_merge (lit "to_summary")

  -- what one round adds
  record Moved (st next : MergeState) (c : ReviewComment) : Type 0 where
    pub groups :
        (f : ReviewComment → ℕ)
        → group_total (λ key. f) next.file_groups
          ≡ group_total (λ key. f) st.file_groups + total f (filter is_grouped (c ∷ []))
    pub alone : next.alone ≡ st.alone ++ filter is_individual (c ∷ [])
    pub addons : next.addons ≡ st.addons ++ filter is_addon (c ∷ [])

-- the weights of the comments of all files, each by its file
abbrev pub file_total : (Bytes → ReviewComment → ℕ) → List MergedFileComment → ℕ
file_total f fcs = total (λ (fc : MergedFileComment). total (f fc.file_path) fc.comments) fcs

module _ (u : CaseMap) (lib : Sorting) (fair : IsFair lib) (cfg : CommentMergeConfig) where
  abbrev groups_of : List ReviewComment → List (Bytes × List ReviewComment)
  groups_of comments =
      (merge_each u cfg (record { file_groups = []; addons = []; alone = [] }) comments).file_groups

  pub merge-file_total :
      (f : Bytes → ReviewComment → ℕ) (comments : List ReviewComment) (commit : Bytes)
      → cfg.merge_enabled ≡ true
      → file_total f (merge u lib cfg comments commit).file_comments
        ≡ group_total f (groups_of comments)
  unfolding merge file_comment
  merge-file_total f comments commit h = rw h (
      fair.sort_total MergedFileComment (λ a b. less a.file_path b.file_path)
        (λ (fc : MergedFileComment). total (f fc.file_path) fc.comments) _
      ∙ total-map _ (file_comment u lib commit) _
          (lib.visit (List ReviewComment) (groups_of comments))
          (λ (e : Bytes × List ReviewComment).
            fair.sort_total ReviewComment (λ a b. ltb_ℤ a.line b.line) (f e.0) e.1)
      ∙ fair.visit_total (List ReviewComment) _ (groups_of comments))
