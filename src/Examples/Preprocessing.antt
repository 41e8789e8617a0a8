-- ===== src/Examples/Preprocessing.antt =====
-- Tests of diff_preprocessor.go, and its theorems at concrete inputs.

use agent_sets.Prelude.{List, [], filter, refl, true, ◌∷◌, ◌≡◌}
use agent_sets.Prelude.Int.{max_int, negsuc, pos}
use agent_sets.Domain.{is_empty}
use agent_sets.Splitter.Preprocess.Kept.{is_fixed, process_lines-fixed}
use agent_sets.Splitter.Spaces.{compress_spaces, format_int}
use agent_sets.Text.{split, join, Bytes, lit}
use agent_sets.Splitter.Preprocess.{
  PreprocessOptions, preprocess, is_pure_whitespace_change, new_diff_preprocessor, process_lines,
}

abbrev options : PreprocessOptions
options = new_diff_preprocessor (pos 1) (pos 2) true true true

abbrev two_files : Bytes
two_files =
    lit
      "pre\ndiff --git a/x.go b/x.go\n@@ -1,3 +1,1 @@\n one\n two\n three\n-four\n-five\n-six\n+seven   eight\ndiff --git src://y dst://y\nBinary files differ"

abbrev lines : List Bytes
lines = lit "@@ -1 +1 @@" ∷ lit " one" ∷ lit " two" ∷ lit " three" ∷ lit "-four" ∷ lit "+five" ∷ []

test_preprocess :
    preprocess options two_files
    ≡ lit
        "diff --git a/x.go b/x.go\n@@ -1,3 +1,1 @@\n one\n [... context lines omitted ...]\n- [... 3 lines deleted ...]\n+seven eight\n\ndiff --git a/y b/y\n[BINARY FILE - SKIPPED]\n"
unfolding preprocess new_diff_preprocessor
test_preprocess = refl

test_compress : compress_spaces (lit "\t\t a  b\t\tc\td\n   ") ≡ lit "\t\t a b c\td\n "
unfolding compress_spaces join split is_empty
test_compress = refl

test_whitespace : is_pure_whitespace_change (lit "@@ -1 +1 @@\r\n x\r\n+ \r\n-") ≡ true
unfolding is_pure_whitespace_change
test_whitespace = refl

-- of the smallest int only the sign is printed
test_smallest : format_int (negsuc max_int) ≡ lit "-"
unfolding format_int
test_smallest = refl

process_lines-fixed_example : filter is_fixed (process_lines options lines) ≡ filter is_fixed lines
process_lines-fixed_example = process_lines-fixed options lines
