-- ===== src/Validator/Names.antt =====
-- `normalizeFilePath`, and the two patterns of `parseDiff`.
pub mod Numbers
use agent_sets.Prelude.{
  Bool, Option, [], drop, if◌then◌else◌, leb, length, ltb, none, not, some, take, true, ℕ, ◌&&◌,
  ◌+◌, ◌==◌, ◌||◌, ◌∷◌,
}
use agent_sets.Domain.Paths.{normalize_path}
use agent_sets.Text.Scan.{span}
use agent_sets.Splitter.Files.{run_of}
use agent_sets.Text.{Bytes, index, has_prefix, has_suffix, lit, replace_all}

unfoldable pub lacks_break : Bytes → Bool
lacks_break [] = true
lacks_break (c ∷ s) = not (c == b'\n') && lacks_break s

-- `^\[(.*?)\]\(.*?\)$`
unfoldable pub markdown_link : Bytes → Option Bytes
unfolding index has_prefix has_suffix lacks_break
markdown_link file =
    if has_prefix file (lit "[") && lacks_break file
    then elim (index file (lit "](")) [
      | none ↦ none
      | some at ↦
          if has_suffix (drop (at + 2) file) (lit ")") then some (drop 1 (take at file)) else none
    ]
    else none

-- `^(?:tree|blob)/[^/]+/`, replaced by nothing
unfoldable pub strip_url_prefix : Bytes → Bytes
unfolding has_prefix span
strip_url_prefix file =
    if has_prefix file (lit "tree/") || has_prefix file (lit "blob/")
    then (let (name, behind) = span (λ c. not (c == b'/')) (drop 5 file) in
        elim name [ [] ↦ file | c ∷ w ↦ elim behind [ [] ↦ file | slash ∷ rest ↦ rest ] ])
    else file

unfoldable pub normalize_file_path : Bytes → Bytes
unfolding markdown_link strip_url_prefix
normalize_file_path file =
    let named : Bytes = elim (markdown_link file) [ none ↦ file | some name ↦ name ] in
    normalize_path (strip_url_prefix (replace_all named (lit "\\") (lit "/")))

-- `^\+\+\+ (?:b/)?(.+)$` on a line
unfoldable pub match_file : Bytes → Option Bytes
unfolding has_prefix
match_file line =
    if has_prefix line (lit "+++ ") && ltb 4 (length line)
    then some
        (if has_prefix line (lit "+++ b/") && ltb 6 (length line) then drop 6 line else drop 4 line)
    else none

abbrev pub is_digit : ℕ → Bool
is_digit c = leb b'0' c && leb c b'9'

-- the text behind a literal
unfoldable pub after : Bytes → Bytes → Option Bytes
unfolding has_prefix
after p s = if has_prefix s p then some (drop (length p) s) else none

-- `(?:,\d+)?` in front of a byte that is no comma
unfoldable pub after_count : Bytes → Option Bytes
unfolding run_of has_prefix
after_count s =
    if has_prefix s (lit ",")
    then elim (run_of is_digit (drop 1 s)) [ none ↦ none | some (count, rest) ↦ some rest ]
    else some s

infixl 5 ◌>>=◌
abbrev pub ◌>>=◌ : {A B : Type 0} → Option A → (A → Option B) → Option B
none >>= f = none
some a >>= f = f a

-- `^@@ -\d+(?:,\d+)? \+(\d+)(?:,(\d+))? @@`: the third number
unfoldable pub match_hunk : Bytes → Option Bytes
unfolding after after_count run_of
match_hunk line = do
  a ← after (lit "@@ -") line
  b ← run_of is_digit a
  c ← after_count b.1
  d ← after (lit " +") c
  e ← run_of is_digit d
  f ← after_count e.1
  g ← after (lit " @@") f
  some e.0
