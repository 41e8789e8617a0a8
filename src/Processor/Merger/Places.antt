-- ===== src/Processor/Merger/Places.antt =====
-- `Merge` puts each comment into the table of its own file.

use agent_sets.Prelude.{
  Bool-cases, List, [], arith, false, if◌then◌else◌, inl, inr, refl, subst, true, ℕ, ◌∙◌, ◌∷◌, ◌≡◌,
}
use agent_sets.Processor.Merger.Keeps.{
  IsFair, group_total, file_total, add_to_group-total, merge-file_total,
}
use agent_sets.Text.Search.{equal_iff}
use agent_sets.Domain.{CaseMap, ReviewComment, is_empty, is_high_severity}
use agent_sets.Config.{CommentMergeConfig}
use agent_sets.Processor.Merger.{
  group_key, Sorting, MergeState, merge_comment, merge_each, merge_high, add_to_group, merge,
}
use agent_sets.Text.{Bytes, equal, lit}

-- 1 for a comment that stands under another file than its own
abbrev pub misplaced : Bytes → ReviewComment → ℕ
misplaced file c = if equal (group_key c.file) file then 0 else 1

equal_self : (s : Bytes) → equal s s ≡ true
equal_self s = (equal_iff s s).1 refl

group_key-named : (file : Bytes) → is_empty file ≡ false → group_key file ≡ file
unfolding group_key
group_key-named file h = rw h refl

module _ (u : CaseMap) (cfg : CommentMergeConfig) where
  own_group :
      (st : MergeState) (c : ReviewComment)
      → group_total misplaced (add_to_group (group_key c.file) c st).file_groups
        ≡ group_total misplaced st.file_groups
  own_group st c =
      let e : misplaced (group_key c.file) c ≡ 0 = rw (equal_self (group_key c.file)) refl in
      omega (arith, add_to_group-total misplaced (group_key c.file) c st, e)

  merge_comment-misplaced :
      (st : MergeState) (c : ReviewComment)
      → group_total misplaced (merge_comment u cfg st c).file_groups
        ≡ group_total misplaced st.file_groups
  unfolding merge_comment merge_high
  merge_comment-misplaced st c = elim (Bool-cases (is_high_severity u c.severity)) [
    | inl h ↦ elim (Bool-cases (equal cfg.high_severity_merge (lit "by_file"))) [
      | inl b ↦ rw (h, b) (own_group st c)
      | inr b ↦ elim (Bool-cases (equal cfg.high_severity_merge (lit "none"))) [
        | inl n ↦ rw (h, b, n) refl
        | inr n ↦ elim (Bool-cases (is_empty c.file)) [
          | inl e ↦ rw (h, b, n, e) refl
          | inr e ↦
              rw (h, b, n, e)
                (subst
                  (λ (k : Bytes).
                    group_total misplaced (add_to_group k c st).file_groups
                    ≡ group_total misplaced st.file_groups)
                  (group_key-named c.file e) (own_group st c))
        ]
      ]
    ]
    | inr h ↦ elim (Bool-cases (equal cfg.low_severity_merge (lit "to_summary"))) [
      | inl s ↦ rw (h, s) refl
      | inr s ↦ rw (h, s) refl
    ]
  ]

  merge_each-misplaced :
      (st : MergeState) (cs : List ReviewComment)
      → group_total misplaced (merge_each u cfg st cs).file_groups
        ≡ group_total misplaced st.file_groups
  unfolding merge_each
  merge_each-misplaced st [] = refl
  merge_each-misplaced st (c ∷ cs) =
      merge_each-misplaced (merge_comment u cfg st c) cs ∙ merge_comment-misplaced st c

module _ (u : CaseMap) (lib : Sorting) (fair : IsFair lib) (cfg : CommentMergeConfig) where
  -- If sorting and visiting a map change the order alone and merging is enabled, no comment stands in
  -- the table of another file than its own; a comment with no file has the file General.
  pub merge-misplaced :
      (comments : List ReviewComment) (commit : Bytes)
      → cfg.merge_enabled ≡ true
      → file_total misplaced (merge u lib cfg comments commit).file_comments ≡ 0
  merge-misplaced comments commit h =
      merge-file_total u lib fair cfg misplaced comments commit h
      ∙ merge_each-misplaced u cfg _ comments
