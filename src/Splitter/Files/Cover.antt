-- ===== src/Splitter/Files/Cover.antt =====
-- The files of a diff are the diff from its first header on, cut at its headers.
use agent_sets.Prelude.{
  List, Option, [], ap, append-nil, drop, map, refl, true, ℕ, ◌++◌, ◌∙◌, ◌∷◌, ◌≡◌,
}
use agent_sets.Text.{Bytes}
use agent_sets.Text.Trim.{trim_space}
use agent_sets.Domain.Paths.{normalize_path}
use agent_sets.Text.Scan.{find_all, sections}
use agent_sets.Text.Scan.Cover.{Ascends, find_all-Ascends, contents, contents-sections}
use agent_sets.Splitter.Types.{FileDiff, file_diff}
use agent_sets.Splitter.Files.{diff_pattern, simple_pattern, parse_simple_diff, parse_files}

abbrev pub file_contents : List FileDiff → Bytes
file_contents [] = []
file_contents (f ∷ fs) = f.content ++ file_contents fs

file_contents-map :
    (name : Bytes → Bytes) (es : List (Bytes × Bytes))
    → file_contents (map (λ (e : Bytes × Bytes). file_diff (name e.0) e.1) es) ≡ contents es
unfolding file_diff
file_contents-map name [] = refl
file_contents-map name ((a, s) ∷ es) = ap (λ (t : Bytes). s ++ t) (file_contents-map name es)

-- where the first header stands
abbrev pub first_at : List (ℕ × Bytes) → ℕ → ℕ
first_at [] other = other
first_at ((at, a) ∷ ms) other = at

abbrev pub headers : (Bytes → Option (ℕ × Bytes)) → Bytes → List (ℕ × Bytes)
headers pattern text = find_all true pattern 0 0 true text

-- the files that a list of headers cuts out
cut-contents :
    (name : Bytes → Bytes) (text : Bytes) (at : ℕ) (a : Bytes) (ms : List (ℕ × Bytes))
    → Ascends 0 ((at, a) ∷ ms)
    → file_contents
        (map (λ (e : Bytes × Bytes). file_diff (name e.0) e.1) (sections text ((at, a) ∷ ms)))
      ≡ drop at text
cut-contents name text at a ms h =
    file_contents-map name (sections text ((at, a) ∷ ms)) ∙ contents-sections text at 0 a ms h

simple_contents :
    (text : Bytes) (hs : List (ℕ × Bytes))
    → Ascends 0 hs
    → headers simple_pattern text ≡ hs
    → file_contents (parse_simple_diff text) ≡ drop (first_at hs 0) text
unfolding parse_simple_diff file_diff
simple_contents text [] h e = rw (e, parse_simple_diff) (append-nil text)
simple_contents text ((at, a) ∷ ms) h e =
    rw (e, parse_simple_diff) (cut-contents (λ p. normalize_path (trim_space p)) text at a ms h)

diff_contents :
    (text : Bytes) (hs ks : List (ℕ × Bytes))
    → Ascends 0 hs
    → headers diff_pattern text ≡ hs
    → headers simple_pattern text ≡ ks
    → file_contents (parse_files text) ≡ drop (first_at hs (first_at ks 0)) text
unfolding parse_files
diff_contents text [] ks h e d =
    rw (e, parse_files)
      (simple_contents text ks (rw d at (find_all-Ascends true simple_pattern 0 0 true text)) d)
diff_contents text ((at, a) ∷ ms) ks h e d =
    rw (e, parse_files) (cut-contents normalize_path text at a ms h)

-- The contents of the files, one behind the other, are the diff from its first `diff --git` header
-- on; with no such header, from its first `--- ` header on; with neither, the whole diff.
pub parse_files-contents :
    (text : Bytes)
    → file_contents (parse_files text)
      ≡ drop (first_at (headers diff_pattern text) (first_at (headers simple_pattern text) 0)) text
parse_files-contents text =
    diff_contents text (headers diff_pattern text) (headers simple_pattern text)
      (find_all-Ascends true diff_pattern 0 0 true text) refl refl
