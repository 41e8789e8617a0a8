-- ===== src/Examples/Validating.antt =====
-- Tests of comment_validator.go, and its theorems at concrete inputs.

use agent_sets.Prelude.{
  List, [], arith, none, none-ne-some, refl, some, some-inj, sym, true, ℕ, ◌∷◌, ◌≡◌,
}
use agent_sets.Prelude.Int.{pos, ◌+ℤ◌, ◌≤ℤ◌}
use agent_sets.Text.{replace_all, trim_prefix, itoa, equal, Bytes, split, lit}
use agent_sets.Text.Trim.{trim_space}
use agent_sets.Domain.Paths.{normalize_path, strip_prefixes}
use agent_sets.Maps.{lookup}
use agent_sets.Text.Number.{atoi}
use agent_sets.Validator.Agree.{Agrees, new_comment_validator-Agrees, InRange}
use agent_sets.Validator.Answers.{get_invalid_reason, is_valid}
use agent_sets.Validator.Names.{normalize_file_path, match_hunk}
use agent_sets.Validator.Parse.{new_comment_validator, context, added}

abbrev small_diff : Bytes
small_diff = lit "+++ b/x.go\n@@ -1,2 +7,3 @@\n one\n-two\n+three\n+four"

abbrev as_listed : (V : Type 0) → List (Bytes × V) → List (Bytes × V)
as_listed V m = m

test_ranges :
    (new_comment_validator small_diff).valid_ranges
    ≡ (lit "x.go", record { start = pos 7; end = pos 9 } ∷ []) ∷ []
unfolding new_comment_validator normalize_path strip_prefixes trim_prefix replace_all trim_space
    ◌+ℤ◌ atoi itoa
test_ranges = refl

test_types :
    (new_comment_validator small_diff).line_types
    ≡ (lit "x.go", (pos 7, context) ∷ (pos 8, added) ∷ (pos 9, added) ∷ []) ∷ []
unfolding new_comment_validator normalize_path strip_prefixes trim_prefix replace_all trim_space
    ◌+ℤ◌ atoi itoa
test_types = refl

test_link : normalize_file_path (lit "[tree/main/a\\b.go](http://x)") ≡ lit "b.go"
unfolding normalize_file_path new_comment_validator normalize_path strip_prefixes trim_prefix
    replace_all trim_space ◌+ℤ◌ atoi itoa
test_link = refl

test_reason :
    get_invalid_reason as_listed (new_comment_validator small_diff) (lit "x.go") (pos 12)
    ≡ lit "line not modified in diff (nearest: 7-9)"
unfolding get_invalid_reason new_comment_validator normalize_path strip_prefixes trim_prefix
    replace_all trim_space ◌+ℤ◌ atoi itoa
test_reason = refl

test_partial : is_valid as_listed (new_comment_validator small_diff) (lit "src/x.go") (pos 8) ≡ true
unfolding is_valid new_comment_validator normalize_path strip_prefixes trim_prefix replace_all
    trim_space ◌+ℤ◌ atoi itoa
test_partial = refl

small_diff-InRange : InRange (split small_diff b'\n')
unfolding split match_hunk atoi
small_diff-InRange = (
  other _,
  omega arith,
  (
    (λ d e. rw (sym (some-inj (lit "7") d e)) (omega arith)),
    omega arith,
    (
      other _,
      omega arith,
      (other _, omega arith, (other _, omega arith, (other _, omega arith, tt))),
    ),
  ),
)
  where
    other : (n : ℕ) (d : Bytes) → none ≡ some d → (atoi d).0 ≤ℤ pos n
    other n d e = absurd (none-ne-some d e)

small_diff-ranges :
    lookup equal (normalize_file_path (lit "x.go")) (new_comment_validator small_diff).valid_ranges
    ≡ some (record { start = pos 7; end = pos 9 } ∷ [])
unfolding lookup equal normalize_file_path new_comment_validator normalize_path strip_prefixes
    trim_prefix replace_all trim_space ◌+ℤ◌ atoi itoa
small_diff-ranges = refl

new_comment_validator-Agrees_example : Agrees (new_comment_validator small_diff)
new_comment_validator-Agrees_example = new_comment_validator-Agrees small_diff small_diff-InRange
