-- ===== src/Examples/Splitting.antt =====
-- Diffs that are cut into files, hunks and chunks.
use agent_sets.Prelude.{All, List, [], arith, drop, map, refl, ℕ, ◌++◌, ◌∷◌, ◌≡◌}
use agent_sets.Prelude.Int.{negsuc, pos}
use agent_sets.Splitter.Hunks.Lines.{
  lines_per_chunk, Window, hunk_header_of, split_large_hunk, window_lines, hunk_start_line,
}
use agent_sets.Domain.Paths.{normalize_path, strip_prefixes}
use agent_sets.Splitter.Hunks.{extract_file_header, parse_hunks, split_by_hunks}
use agent_sets.Splitter.Group.{
  group_into_chunks, all_chunks, add_files, add_file, put_file, flush, number,
}
use agent_sets.Text.{Bytes, lit, split, trim_prefix, join, replace_all}
use agent_sets.Splitter.Types.{FileDiff, DiffSplitter, new_diff_splitter, file_diff, DiffChunk}
use agent_sets.Splitter.Files.{parse_files, diff_pattern, simple_pattern}
use agent_sets.Splitter.Files.Cover.{parse_files-contents, file_contents, first_at, headers}
use agent_sets.Splitter.Group.Keeps.{files_of-group_into_chunks, files_of, all_pieces}
use agent_sets.Splitter.Group.Limits.{group_into_chunks-IsWithin, IsWithin}
use agent_sets.Splitter.Hunks.Parts.{split_by_hunks_parts, Part, pieces_of, hunks_of, Fits}
use agent_sets.Splitter.Hunks.Lines.Cover.{split_large_hunk_cover, mains, IsBounded}
use agent_sets.Text.Scan.{sections}

abbrev small : DiffSplitter
small = record { max_tokens_per_chunk = 10; max_files_per_chunk = 2; context_lines = 1 }

abbrev file_of : Bytes → ℕ → FileDiff
file_of content tokens = record { path = lit "a.go"; content = content; tokens = tokens }

abbrev three : List FileDiff
three = file_of (lit "x") 4 ∷ file_of (lit "y") 5 ∷ file_of (lit "z") 3 ∷ []

defaults :
    new_diff_splitter (pos 0) (negsuc 4)
    ≡ record { max_tokens_per_chunk = 40000; max_files_per_chunk = 10; context_lines = 20 }
unfolding new_diff_splitter
defaults = refl

abbrev two_diffs : Bytes
two_diffs =
    lit "noise\ndiff --git a/x.go b/x.go\n+one\ndiff --git src://trunk/y.c dst://trunk/y.c\n-two\n"

paths_of : List FileDiff → List Bytes
paths_of fs = map (λ (f : FileDiff). f.path) fs

two_paths : paths_of (parse_files two_diffs) ≡ lit "x.go" ∷ lit "y.c" ∷ []
unfolding paths_of parse_files sections file_diff normalize_path strip_prefixes trim_prefix
    replace_all
two_paths = refl

files_of-group_into_chunks_example :
    files_of (group_into_chunks small three) ≡ all_pieces small three
files_of-group_into_chunks_example = files_of-group_into_chunks small three

group_into_chunks-IsWithin_example : All (IsWithin small) (group_into_chunks small three)
group_into_chunks-IsWithin_example = group_into_chunks-IsWithin small three (omega arith)

-- Two chunks: the third file would pass the limits of the first.
three_grouped : map (λ (c : DiffChunk). c.token_count) (group_into_chunks small three) ≡ 9 ∷ 3 ∷ []
unfolding group_into_chunks all_chunks add_files add_file put_file flush number
three_grouped = refl

parse_files-contents_example :
    file_contents (parse_files two_diffs)
    ≡ drop
        (first_at (headers diff_pattern two_diffs) (first_at (headers simple_pattern two_diffs) 0))
        two_diffs
parse_files-contents_example = parse_files-contents two_diffs

abbrev hunky : FileDiff
hunky = file_of (lit "diff --git a/a.go b/a.go\n@@ -1 +1 @@\n+one\n@@ -9 +9 @@\n+two\n") 14

split_by_hunks_parts_example :
    let header = extract_file_header hunky.content in
    let hunks = parse_hunks hunky.content in
    (ps : List Part) × (split_by_hunks small hunky hunks ≡ pieces_of small hunky.path header ps)
    × (hunks_of ps ≡ hunks)
    × All (Fits small hunky.path header) ps
split_by_hunks_parts_example = split_by_hunks_parts small hunky (parse_hunks hunky.content)

abbrev six : List Bytes
six = lit "+" ∷ lit "-" ∷ lit " " ∷ lit "+" ∷ lit "-" ∷ lit " " ∷ []

abbrev long_hunk : Bytes
long_hunk = lit "@@ -1,3 +1,3 @@\n one\n-two\n+three"

split_large_hunk_cover_example :
    let lines = split long_hunk b'\n' in
    let per_chunk = lines_per_chunk small (hunk_header_of lines) 5 in
    (ws : List Window) × (split_large_hunk small long_hunk 5
      ≡ map (λ w. hunk_header_of lines ++ join (window_lines w) (lit "\n")) ws)
    × (mains ws ≡ drop (hunk_start_line lines) lines)
    × All (IsBounded small.context_lines per_chunk) ws
split_large_hunk_cover_example = split_large_hunk_cover small long_hunk 5
