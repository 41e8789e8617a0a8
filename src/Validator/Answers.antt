-- ===== src/Validator/Answers.antt =====
-- The questions that a validator answers.
-- `visit` lists the entries of a map in the order in which a range statement meets them.

use agent_sets.Prelude.{
  Bool, List, Option, [], false, if◌then◌else◌, none, some, ◌++◌, ◌+◌, ◌||◌, ◌∷◌,
}
use agent_sets.Prelude.Int.{eqb_ℤ, ltb_ℤ, max_int, neg_part, pos, pos_part, sub_ℕ, wrap, ℤ}
use agent_sets.Validator.Names.{normalize_file_path}
use agent_sets.Validator.Parse.{LineType, CommentValidator}
use agent_sets.Validator.Ranges.{LineRange, in_ranges}
use agent_sets.Maps.{lookup, at_key}
use agent_sets.Text.{has_suffix, Bytes, is_some, lit, itoa, equal}
use agent_sets.Splitter.Spaces.{negate}

abbrev minus : ℤ → ℤ → ℤ
minus a b = wrap (sub_ℕ (pos_part a + neg_part b) (neg_part a + pos_part b))

unfoldable pub abs : ℤ → ℤ
unfolding negate
abs x = if ltb_ℤ x (pos 0) then negate x else x

unfoldable pub suffix_match : Bytes → Bytes → Bool
unfolding has_suffix
suffix_match f file = has_suffix f file || has_suffix file f

unfoldable pub partial_match : Bytes → Bytes → Bool
unfolding suffix_match
partial_match f file =
    has_suffix f (b'/' ∷ file) || has_suffix file (b'/' ∷ f) || suffix_match f file

-- the first entry whose key passes a test
unfoldable pub first_entry : {V : Type 0} → (Bytes → Bool) → List (Bytes × V) → Option V
first_entry test [] = none
first_entry test ((f, v) ∷ m) = let rest = first_entry test m in if test f then some v else rest

module _ (visit : (V : Type 0) → List (Bytes × V) → List (Bytes × V)) where
  -- the first line type that a matching file has
  unfoldable pub partial_type : Bytes → ℤ → List (Bytes × List (ℤ × LineType)) → Option LineType
  unfolding lookup suffix_match
  partial_type file line [] = none
  partial_type file line ((f, types) ∷ m) =
      let rest = partial_type file line m in
      if suffix_match f file
      then elim (lookup eqb_ℤ line types) [ some t ↦ some t | none ↦ rest ]
      else rest

  -- `none` is the empty string.
  unfoldable pub get_line_type : CommentValidator → Bytes → ℤ → Option LineType
  unfolding at_key lookup partial_type
  get_line_type v file line =
      let normalized = normalize_file_path file in
      let other : Option LineType =
        partial_type normalized line (visit (List (ℤ × LineType)) v.line_types) in
      elim (lookup eqb_ℤ line (at_key normalized v.line_types)) [ some t ↦ some t | none ↦ other ]

  unfoldable pub is_valid : CommentValidator → Bytes → ℤ → Bool
  unfolding lookup first_entry partial_match in_ranges
  is_valid v file line =
      let normalized = normalize_file_path file in
      elim (lookup equal normalized v.valid_ranges) [
        | some ranges ↦ in_ranges ranges line
        | none ↦
            elim (first_entry (λ f. partial_match f normalized)
              (visit (List LineRange) v.valid_ranges)) [
                | none ↦ false
                | some ranges ↦ in_ranges ranges line
              ]
      ]

  unfoldable pub file_in_diff : CommentValidator → Bytes → Bool
  unfolding lookup first_entry partial_match is_some
  file_in_diff v file =
      let normalized = normalize_file_path file in
      is_some (lookup equal normalized v.all_files)
      || is_some (first_entry (λ f. partial_match f normalized) (visit Bool v.all_files))

  unfoldable pub get_valid_ranges : CommentValidator → Bytes → List LineRange
  unfolding lookup first_entry suffix_match
  get_valid_ranges v file =
      let normalized = normalize_file_path file in
      elim (lookup equal normalized v.valid_ranges) [
        | some ranges ↦ ranges
        | none ↦
            elim (first_entry (λ f. suffix_match f normalized)
              (visit (List LineRange) v.valid_ranges)) [ none ↦ [] | some ranges ↦ ranges ]
      ]

  -- one end of a range against the nearest so far
  unfoldable pub nearer : ℤ → ℤ → LineRange → ℤ × LineRange → ℤ × LineRange
  unfolding abs
  nearer line place r (min_dist, nearest) =
      let dist = abs (minus line place) in
      if ltb_ℤ dist min_dist then (dist, r) else (min_dist, nearest)

  unfoldable pub nearest_range : ℤ → ℤ × LineRange → List LineRange → LineRange
  unfolding nearer
  nearest_range line best [] = best.1
  nearest_range line best (r ∷ ranges) =
      nearest_range line (nearer line r.end r (nearer line r.start r best)) ranges

  unfoldable pub reason_of : ℤ → List LineRange → Bytes
  unfolding nearest_range
  reason_of line [] = lit "no modified lines in file"
  reason_of line (r ∷ ranges) =
      let nearest =
        nearest_range line (pos max_int, record { start = pos 0; end = pos 0 }) (r ∷ ranges) in
      lit "line not modified in diff (nearest: "
      ++ (itoa nearest.start ++ (b'-' ∷ (itoa nearest.end ++ lit ")")))

  unfoldable pub get_invalid_reason : CommentValidator → Bytes → ℤ → Bytes
  unfolding at_key first_entry suffix_match reason_of file_in_diff
  get_invalid_reason v file line =
      let normalized = normalize_file_path file in
      let partial : List LineRange =
        elim (first_entry (λ f. suffix_match f normalized)
          (visit (List LineRange) v.valid_ranges)) [ none ↦ [] | some ranges ↦ ranges ] in
      if file_in_diff v file
      then elim (at_key normalized v.valid_ranges) [
        | [] ↦ reason_of line partial
        | r ∷ ranges ↦ reason_of line (r ∷ ranges)
      ]
      else lit "file not in diff"
