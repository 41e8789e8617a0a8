-- ===== src/Processor/Posting/Calls/Passed.antt =====
-- What holds of the comments that are left by the checks, the merging and the known comments.
use agent_sets.Prelude.{
  All, All-append, All-map, Bool, Bool-cases, List, [], ap, false, filter, inl, inr, map, not, refl,
  true, ◌||◌, ◌∷◌, ◌≡◌, ◌⊎◌,
}
use agent_sets.Prelude.Int.{eqb_ℤ, pos}
use agent_sets.Maps.Laws.{eqb_ℤ_iff}
use agent_sets.Validator.Answers.{is_valid}
use agent_sets.Processor.Existing.{drop_known, filter_duplicates}
use agent_sets.Aggregator.{member}
use agent_sets.Validator.Parse.{CommentValidator}
use agent_sets.Config.{CommentMergeConfig}
use agent_sets.Processor.Merger.{
  merge_high, add_to_group, merge_comment, merge_each, merge, MergeState, Sorting,
  MergedFileComment,
}
use agent_sets.Processor.Posting.{validate_comments, passes, drop_existing}
use agent_sets.Domain.{ReviewComment, CaseMap, fingerprint, is_high_severity, is_empty}
use agent_sets.Text.{Bytes, equal, lit}

-- A comment that may stand on a diff: a general one, which has no file or stands on no line, or one on a
-- line that is valid.
abbrev pub OnDiff :
    ((V : Type 0) → List (Bytes × V) → List (Bytes × V)) → CommentValidator → ReviewComment → Type 0
OnDiff visit v c = (c.file ≡ []) ⊎ ((c.line ≡ pos 0) ⊎ (is_valid visit v c.file c.line ≡ true))

one_of_three : (a b c : Bool) → ((a || b) || c) ≡ true → (a ≡ true) ⊎ ((b ≡ true) ⊎ (c ≡ true))
one_of_three true b c h = inl refl
one_of_three false true c h = inr (inl refl)
one_of_three false false c h = inr (inr h)

no_file : (s : Bytes) → is_empty s ≡ true → s ≡ []
unfolding is_empty
no_file [] h = refl
no_file (b ∷ s) h = cc h

passes-OnDiff :
    (visit : (V : Type 0) → List (Bytes × V) → List (Bytes × V)) (v : CommentValidator)
    (c : ReviewComment)
    → passes visit v c ≡ true
    → OnDiff visit v c
unfolding passes
passes-OnDiff visit v c h =
    elim (one_of_three (is_empty c.file) (eqb_ℤ c.line (pos 0)) (is_valid visit v c.file c.line)
      h) [
        | inl e ↦ inl (no_file c.file e)
        | inr (inl e) ↦ inr (inl ((eqb_ℤ_iff c.line (pos 0)).0 e))
        | inr (inr e) ↦ inr (inr e)
      ]

-- what is new
abbrev pub IsNew : CaseMap → List ReviewComment → ReviewComment → Type 0
IsNew u [] c = Unit
IsNew u (e ∷ es) c = member (fingerprint u c) (map (fingerprint u) (e ∷ es)) ≡ false

module _ (P : ReviewComment → Type 0) where
  -- of the comments that stay alone, and of those that are added to the summary
  abbrev Both : MergeState → Type 0
  Both st = All P st.alone × All P st.addons

  merge_high-All :
      (mode : Bytes) (st : MergeState) (c : ReviewComment)
      → P c
      → Both st
      → Both (merge_high mode st c)
  unfolding merge_high add_to_group
  merge_high-All mode st c p (h, k) = elim (Bool-cases (equal mode (lit "by_file"))) [
    | inl e ↦ rw e (h, k)
    | inr e ↦ elim (Bool-cases (equal mode (lit "none"))) [
      | inl d ↦ rw (e, d) (All-append P st.alone (c ∷ []) h (p, tt), k)
      | inr d ↦ elim (Bool-cases (not (is_empty c.file))) [
        | inl f ↦ rw (e, d, f) (h, k)
        | inr f ↦ rw (e, d, f) (h, k)
      ]
    ]
  ]

  module _ (u : CaseMap) where
    merge_comment-All :
        (cfg : CommentMergeConfig) (st : MergeState) (c : ReviewComment)
        → P c
        → Both st
        → Both (merge_comment u cfg st c)
    unfolding merge_comment
    merge_comment-All cfg st c p (h, k) = elim (Bool-cases (is_high_severity u c.severity)) [
      | inl e ↦ rw e (merge_high-All cfg.high_severity_merge st c p (h, k))
      | inr e ↦ elim (Bool-cases (equal cfg.low_severity_merge (lit "to_summary"))) [
        | inl d ↦ rw (e, d) (h, All-append P st.addons (c ∷ []) k (p, tt))
        | inr d ↦ rw (e, d) (h, k)
      ]
    ]

    merge_each-All :
        (cfg : CommentMergeConfig) (st : MergeState) (cs : List ReviewComment)
        → All P cs
        → Both st
        → Both (merge_each u cfg st cs)
    unfolding merge_each
    merge_each-All cfg st [] ps h = h
    merge_each-All cfg st (c ∷ cs) (p, ps) h =
        merge_each-All cfg (merge_comment u cfg st c) cs ps (merge_comment-All cfg st c p h)

    pub merge-All :
        (lib : Sorting) (cfg : CommentMergeConfig) (cs : List ReviewComment) (commit : Bytes)
        → All P cs
        → All P (merge u lib cfg cs commit).not_merged
          × All P (merge u lib cfg cs commit).summary_addons
    unfolding merge
    merge-All lib cfg cs commit ps = elim (Bool-cases (not cfg.merge_enabled)) [
      | inl e ↦ rw e (tt, tt)
      | inr e ↦
          rw e (
            merge_each-All cfg (record { file_groups = []; addons = []; alone = [] }) cs ps
              (tt, tt))
    ]

    drop_known-All :
        (known : List Bytes) (cs : List ReviewComment)
        → All P cs
        → All
            (λ (c : ReviewComment). P c × (member (fingerprint u c) known ≡ false))
            (drop_known u known cs)
    unfolding drop_known
    drop_known-All known [] h = tt
    drop_known-All known (c ∷ cs) (p, h) = elim (Bool-cases (member (fingerprint u c) known)) [
      | inl e ↦ rw e (drop_known-All known cs h)
      | inr e ↦ rw e ((p, e), drop_known-All known cs h)
    ]

    pub filter_duplicates-All :
        (cs existing : List ReviewComment)
        → All P cs
        → All (λ (c : ReviewComment). P c × IsNew u existing c) (filter_duplicates u cs existing)
    unfolding filter_duplicates
    filter_duplicates-All cs [] h = All-map cs (λ c p. (p, tt)) h
    filter_duplicates-All cs (e ∷ es) h = drop_known-All (map (fingerprint u) (e ∷ es)) cs h

pub validate_comments-All :
    (visit : (V : Type 0) → List (Bytes × V) → List (Bytes × V)) (v : CommentValidator)
    (cs : List ReviewComment)
    → All (OnDiff visit v) (validate_comments visit v cs).0
unfolding validate_comments
validate_comments-All visit v [] = tt
validate_comments-All visit v (c ∷ cs) = elim (Bool-cases (passes visit v c)) [
  | inl e ↦ rw e (passes-OnDiff visit v c e, validate_comments-All visit v cs)
  | inr e ↦ rw e (validate_comments-All visit v cs)
]

-- The same as tests of one comment, or of one merged file.
abbrev pub on_diff :
    ((V : Type 0) → List (Bytes × V) → List (Bytes × V)) → CommentValidator → ReviewComment → Bool
on_diff visit v c = is_empty c.file || eqb_ℤ c.line (pos 0) || is_valid visit v c.file c.line

abbrev pub is_new : CaseMap → List ReviewComment → ReviewComment → Bool
is_new u existing c = not (member (fingerprint u c) (map (fingerprint u) existing))

abbrev pub is_new_file : List Bytes → MergedFileComment → Bool
is_new_file known fc = not (member fc.file_path known)

pub validate_comments-filter :
    (visit : (V : Type 0) → List (Bytes × V) → List (Bytes × V)) (v : CommentValidator)
    (cs : List ReviewComment)
    → (validate_comments visit v cs).0 ≡ filter (on_diff visit v) cs
unfolding validate_comments passes
validate_comments-filter visit v [] = refl
validate_comments-filter visit v (c ∷ cs) = elim (Bool-cases (on_diff visit v c)) [
  | inl e ↦ rw e (ap (λ (xs : List ReviewComment). c ∷ xs) (validate_comments-filter visit v cs))
  | inr e ↦ rw e (validate_comments-filter visit v cs)
]

pub drop_existing-filter :
    (known : List Bytes) (fcs : List MergedFileComment)
    → drop_existing known fcs ≡ filter (is_new_file known) fcs
unfolding drop_existing
drop_existing-filter known [] = refl
drop_existing-filter known (fc ∷ fcs) = elim (Bool-cases (member fc.file_path known)) [
  | inl e ↦ rw e (drop_existing-filter known fcs)
  | inr e ↦ rw e (ap (λ (xs : List MergedFileComment). fc ∷ xs) (drop_existing-filter known fcs))
]

module _ (u : CaseMap) where
  drop_known-filter :
      (existing cs : List ReviewComment)
      → drop_known u (map (fingerprint u) existing) cs ≡ filter (is_new u existing) cs
  unfolding drop_known
  drop_known-filter existing [] = refl
  drop_known-filter existing (c ∷ cs) =
      elim (Bool-cases (member (fingerprint u c) (map (fingerprint u) existing))) [
        | inl e ↦ rw e (drop_known-filter existing cs)
        | inr e ↦ rw e (ap (λ (xs : List ReviewComment). c ∷ xs) (drop_known-filter existing cs))
      ]

  all_new : (cs : List ReviewComment) → cs ≡ filter (is_new u []) cs
  unfolding member
  all_new [] = refl
  all_new (c ∷ cs) = ap (λ (xs : List ReviewComment). c ∷ xs) (all_new cs)

  pub filter_duplicates-filter :
      (cs existing : List ReviewComment)
      → filter_duplicates u cs existing ≡ filter (is_new u existing) cs
  unfolding filter_duplicates
  filter_duplicates-filter cs [] = all_new cs
  filter_duplicates-filter cs (e ∷ es) = drop_known-filter (e ∷ es) cs
