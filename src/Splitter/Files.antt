-- ===== src/Splitter/Files.antt =====
-- `ParseFiles` and `parseSimpleDiff` of diff_splitter.go.
pub mod Cover
use agent_sets.Prelude.{
  Bool, List, Option, [], drop, false, if◌then◌else◌, length, ltb, map, none, not, some, true, ℕ,
  ◌&&◌, ◌+◌, ◌-◌, ◌==◌, ◌∷◌,
}
use agent_sets.Text.{Bytes, lit, has_prefix}
use agent_sets.Text.Trim.{trim_space}
use agent_sets.Text.Scan.{is_blank, span, find_all, sections}
use agent_sets.Domain.Paths.{normalize_path}
use agent_sets.Splitter.Types.{FileDiff, file_diff}

-- the text behind a run that must not be empty
unfoldable pub run_of : (ℕ → Bool) → Bytes → Option (Bytes × Bytes)
unfolding span
run_of test s = let r = span test s in elim r.0 [ [] ↦ none | c ∷ w ↦ some (c ∷ w, r.1) ]

infixl 5 ◌>>=◌
abbrev ◌>>=◌ : {A B : Type 0} → Option A → (A → Option B) → Option B
none >>= f = none
some a >>= f = f a

-- `diff --git\s+\S+\s+` at the head of a text: what is behind it.
unfoldable pub git_header : Bytes → Option Bytes
unfolding run_of has_prefix
git_header s =
    if has_prefix s (lit "diff --git")
    then (do
      a ← run_of is_blank (drop 10 s)
      b ← run_of (λ c. not (is_blank c)) a.1
      c ← run_of is_blank b.1
      some c.1)
    else none

-- `^diff --git\s+\S+\s+(\S+?)(?:\s|$)`: the byte behind the path is part of the match.
unfoldable pub diff_pattern : Bytes → Option (ℕ × Bytes)
unfolding git_header
diff_pattern s = do
  rest ← git_header s
  path ← run_of (λ c. not (is_blank c)) rest
  some (length s - length path.1 + (if ltb 0 (length path.1) then 1 else 0), path.0)

-- The text behind the first `/` of the second argument's word that has a line behind it.
after_slash : Bool → Bytes → Option Bytes
after_slash first [] = none
after_slash first (c ∷ s) =
    let line = (span (λ x. not (x == b'\n')) s).0 in
    let rest = after_slash false s in
    if is_blank c
    then none
    else if not first && c == b'/' && ltb 0 (length line)
    then some line
    else rest

-- `^--- (?:[^\s]+?)/(.+)$`
unfoldable pub simple_pattern : Bytes → Option (ℕ × Bytes)
unfolding after_slash has_prefix span
simple_pattern s =
    if has_prefix s (lit "--- ")
    then (do
      path ← after_slash true (drop 4 s)
      some (length (span (λ x. not (x == b'\n')) s).0, path))
    else none

unfoldable pub parse_simple_diff : Bytes → List FileDiff
unfolding simple_pattern find_all
parse_simple_diff full_diff = elim (find_all true simple_pattern 0 0 true full_diff) [
  | [] ↦ file_diff (lit "unknown") full_diff ∷ []
  | m ∷ ms ↦
      map (λ (e : Bytes × Bytes). file_diff (normalize_path (trim_space e.0)) e.1)
        (sections full_diff (m ∷ ms))
]

unfoldable pub parse_files : Bytes → List FileDiff
unfolding diff_pattern parse_simple_diff find_all
parse_files full_diff = elim (find_all true diff_pattern 0 0 true full_diff) [
  | [] ↦ parse_simple_diff full_diff
  | m ∷ ms ↦
      map (λ (e : Bytes × Bytes). file_diff (normalize_path e.0) e.1) (sections full_diff (m ∷ ms))
]
