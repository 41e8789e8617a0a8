-- ===== src/Splitter/Preprocess.antt =====
-- diff_preprocessor.go: the diff made shorter before it is split.
pub mod Kept
pub mod Runs
pub mod Sections
use agent_sets.Prelude.{
  Bool, List, Option, [], drop, false, if◌then◌else◌, leb, length, ltb, map, none, not, some, suc,
  true, ℕ, ◌&&◌, ◌++◌, ◌+◌, ◌-◌, ◌==◌, ◌||◌, ◌∷◌,
}
use agent_sets.Prelude.Int.{leb_ℤ, pos, pos_part, ℤ}
use agent_sets.Domain.{is_empty}
use agent_sets.Splitter.Files.{git_header, run_of}
use agent_sets.Text.Trim.{trim_space}
use agent_sets.Splitter.Spaces.{format_int, compress_spaces}
use agent_sets.Text.Scan.{find_all, find_first, sections, is_blank}
use agent_sets.Text.{has_prefix, Bytes, itoa, contains, split, lit, replace_all, join}

pub record PreprocessOptions : Type 0 where
  pub max_context_lines : ℕ
  pub fold_deletes_over : ℕ
  pub remove_binary_diff : Bool
  pub remove_whitespace : Bool
  pub should_compress_spaces : Bool

-- The limits as they are configured, and as `NewDiffPreprocessor` sets them.
unfoldable pub new_diff_preprocessor : ℤ → ℤ → Bool → Bool → Bool → PreprocessOptions
new_diff_preprocessor max_context fold_over binary whitespace compress = record {
  max_context_lines = if leb_ℤ max_context (pos 0) then 5 else pos_part max_context;
  fold_deletes_over = if leb_ℤ fold_over (pos 0) then 30 else pos_part fold_over;
  remove_binary_diff = binary;
  remove_whitespace = whitespace;
  should_compress_spaces = compress;
}

unfoldable pub default_preprocess_options : PreprocessOptions
default_preprocess_options = record {
  max_context_lines = 5;
  fold_deletes_over = 30;
  remove_binary_diff = true;
  remove_whitespace = true;
  should_compress_spaces = true;
}

-- `^diff --git`
unfoldable pub file_pattern : Bytes → Option (ℕ × Bytes)
unfolding has_prefix
file_pattern s = if has_prefix s (lit "diff --git") then some (10, []) else none

unfoldable pub split_by_file : Bytes → List Bytes
unfolding file_pattern find_all sections
split_by_file diff = elim (find_all true file_pattern 0 0 true diff) [
  | [] ↦ diff ∷ []
  | m ∷ ms ↦ map (λ (e : Bytes × Bytes). e.1) (sections diff (m ∷ ms))
]

-- `len(line) > 0 && line[0] == b`
unfoldable pub head_is : ℕ → Bytes → Bool
head_is b [] = false
head_is b (c ∷ s) = c == b

unfoldable pub is_context : Bytes → Bool
unfolding head_is
is_context line = head_is b' ' line

unfoldable pub is_delete : Bytes → Bool
unfolding head_is has_prefix
is_delete line = head_is b'-' line && not (has_prefix line (lit "---"))

unfoldable pub is_add : Bytes → Bool
unfolding head_is has_prefix
is_add line = head_is b'+' line && not (has_prefix line (lit "+++"))

unfoldable pub is_header : Bytes → Bool
unfolding has_prefix
is_header line =
    has_prefix line (lit "diff ")
    || has_prefix line (lit "index ")
    || has_prefix line (lit "---")
    || has_prefix line (lit "+++")
    || has_prefix line (lit "@@")

-- The variables of the loop over the lines.
pub record LineState : Type 0 where
  pub result : List Bytes
  pub consecutive_context : ℕ
  pub consecutive_deletes : ℕ
  pub delete_buffer : List Bytes

-- what a run of deleted lines becomes, with the printer of its length
unfoldable pub folded : (ℤ → Bytes) → PreprocessOptions → List Bytes → List Bytes
folded show opts buffer =
    if ltb opts.fold_deletes_over (length buffer)
    then (lit "- [... " ++ (show (pos (length buffer)) ++ lit " lines deleted ...]")) ∷ []
    else buffer

unfoldable pub flush_deletes : PreprocessOptions → LineState → LineState
unfolding folded itoa
flush_deletes opts st = elim st.delete_buffer [
  | [] ↦ st
  | b ∷ bs ↦ record st {
    result = st.result ++ folded itoa opts (b ∷ bs);
    consecutive_deletes = 0;
    delete_buffer = [];
  }
]

abbrev pub omitted : Bytes
omitted = lit " [... context lines omitted ...]"

unfoldable pub context_line : PreprocessOptions → LineState → Bytes → LineState
context_line opts st line =
    let count = suc st.consecutive_context in
    let counted = record st { consecutive_context = count } in
    if leb count opts.max_context_lines
    then record counted { result = st.result ++ (line ∷ []) }
    else if count == opts.max_context_lines + 1
    then record counted { result = st.result ++ (omitted ∷ []) }
    else counted

-- a line that is neither deleted nor context
unfoldable pub other_line : LineState → Bytes → LineState
unfolding is_header is_add is_context
other_line st line =
    let reset = record st { consecutive_context = 0 } in
    if is_header line || is_add line || not (is_context line)
    then record reset { result = st.result ++ (line ∷ []) }
    else reset

unfoldable pub process_line : PreprocessOptions → LineState → Bytes → LineState
unfolding is_delete is_context flush_deletes context_line other_line
process_line opts st line =
    if is_delete line
    then record st {
      consecutive_context = 0;
      consecutive_deletes = suc st.consecutive_deletes;
      delete_buffer = st.delete_buffer ++ (line ∷ []);
    }
    else if is_context line
    then context_line opts (flush_deletes opts st) line
    else other_line (flush_deletes opts st) line

unfoldable pub process_each : PreprocessOptions → LineState → List Bytes → LineState
unfolding process_line
process_each opts st [] = st
process_each opts st (line ∷ lines) = process_each opts (process_line opts st line) lines

-- the flush behind the loop
unfoldable pub finish_lines : PreprocessOptions → LineState → List Bytes
unfolding folded format_int
finish_lines opts st = elim st.delete_buffer [
  | [] ↦ st.result
  | b ∷ bs ↦ st.result ++ folded format_int opts (b ∷ bs)
]

unfoldable pub process_lines : PreprocessOptions → List Bytes → List Bytes
unfolding process_each finish_lines
process_lines opts lines = finish_lines opts (
    process_each opts
      (record { result = []; consecutive_context = 0; consecutive_deletes = 0; delete_buffer = [] })
      lines)

unfoldable pub is_binary_diff : Bytes → Bool
unfolding contains
is_binary_diff file_diff =
    contains file_diff (lit "Binary files") || contains file_diff (lit "GIT binary patch")

-- an added or deleted line with more than white space on it
unfoldable pub is_real_change : Bytes → Bool
unfolding trim_space is_empty is_header
is_real_change [] = false
is_real_change (c ∷ content) =
    not (is_empty (trim_space (c ∷ content)))
    && not (is_header (c ∷ content))
    && (c == b'+' || c == b'-')
    && not (is_empty (trim_space content))

unfoldable pub any_real_change : List Bytes → Bool
unfolding is_real_change
any_real_change [] = false
any_real_change (line ∷ lines) = is_real_change line || any_real_change lines

unfoldable pub is_pure_whitespace_change : Bytes → Bool
unfolding any_real_change split replace_all
is_pure_whitespace_change file_diff =
    not (any_real_change (split (replace_all file_diff (lit "\r\n") (lit "\n")) b'\n'))

-- `(?:b/|dst://|)(\S+)` on a word
unfoldable pub path_of_word : Bytes → Bytes
unfolding has_prefix
path_of_word word =
    if has_prefix word (lit "b/") && ltb 2 (length word)
    then drop 2 word
    else if has_prefix word (lit "dst://") && ltb 6 (length word)
    then drop 6 word
    else word

unfoldable pub git_path : Bytes → Option (ℕ × Bytes)
unfolding git_header run_of path_of_word
git_path s = elim (git_header s) [
  | none ↦ none
  | some rest ↦ elim (run_of (λ c. not (is_blank c)) rest) [
    | none ↦ none
    | some (word, behind) ↦ some (length s - length behind, path_of_word word)
  ]
]

unfoldable pub plus_path : Bytes → Option (ℕ × Bytes)
unfolding run_of path_of_word has_prefix
plus_path s =
    if has_prefix s (lit "+++")
    then elim (run_of is_blank (drop 3 s)) [
      | none ↦ none
      | some (gap, rest) ↦ elim (run_of (λ c. not (is_blank c)) rest) [
        | none ↦ none
        | some (word, behind) ↦ some (length s - length behind, path_of_word word)
      ]
    ]
    else none

unfoldable pub extract_file_path : Bytes → Bytes
unfolding git_path plus_path find_first
extract_file_path file_diff = elim (find_first false git_path file_diff) [
  | some path ↦ path
  | none ↦ elim (find_first true plus_path file_diff) [ some path ↦ path | none ↦ lit "unknown" ]
]

unfoldable pub skipped : Bytes → Bytes → Bytes
unfolding extract_file_path
skipped file_diff why =
    let path = extract_file_path file_diff in
    lit "diff --git a/" ++ (path ++ (lit " b/" ++ (path ++ (lit "\n" ++ (why ++ lit "\n")))))

unfoldable pub process_file : PreprocessOptions → Bytes → Bytes
unfolding skipped is_binary_diff is_pure_whitespace_change process_lines split join
process_file opts file_diff =
    if opts.remove_binary_diff && is_binary_diff file_diff
    then skipped file_diff (lit "[BINARY FILE - SKIPPED]")
    else if opts.remove_whitespace && is_pure_whitespace_change file_diff
    then skipped file_diff (lit "[WHITESPACE ONLY - SKIPPED]")
    else join (process_lines opts (split file_diff b'\n')) (lit "\n")

-- the processed files that are not empty
unfoldable pub process_files : PreprocessOptions → List Bytes → List Bytes
unfolding process_file is_empty
process_files opts [] = []
process_files opts (file ∷ files) =
    let rest = process_files opts files in
    let processed = process_file opts file in if is_empty processed then rest else processed ∷ rest

unfoldable pub preprocess : PreprocessOptions → Bytes → Bytes
unfolding process_files split_by_file compress_spaces
preprocess opts diff =
    let output = join (process_files opts (split_by_file diff)) (lit "\n") in
    if opts.should_compress_spaces then compress_spaces output else output
