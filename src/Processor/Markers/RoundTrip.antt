-- ===== src/Processor/Markers/RoundTrip.antt =====
-- Markers are read back as they were written.
use agent_sets.Prelude.{
  [], ap, append_assoc, drop, drop-drop, length, none, refl, some, sym, ℕ, ◌++◌, ◌+◌, ◌∙◌, ◌∷◌, ◌≡◌,
}
use agent_sets.Text.{Bytes, lit, index, has_prefix}
use agent_sets.Text.Search.{
  Lacks, closing, index-closing, last_index-append, drop-append, take-append_self,
}
use agent_sets.Processor.Markers.{
  parse_marker, file_marker, summary_marker, up_to_suffix, file_parts, type_file, type_summary,
  parse_file, parse_summary,
}

up_to_suffix-append :
    (body : Bytes) → index body closing ≡ none → up_to_suffix (body ++ closing) ≡ some body
unfolding up_to_suffix
up_to_suffix-append body h =
    rw (index-closing body [] h, up_to_suffix) (ap some (take-append_self body closing))

drop-suc_append : (s t : Bytes) (c : ℕ) → drop (length s + 1) (s ++ c ∷ t) ≡ t
drop-suc_append s t c =
    sym (drop-drop (length s + 1) 1 (length s) (s ++ c ∷ t) refl)
    ∙ ap (drop 1) (drop-append s (c ∷ t))

file_parts-append :
    (file commit : Bytes)
    → Lacks b':' commit
    → file_parts (file ++ b':' ∷ commit)
      ≡ some (record { m_type = type_file; key = file; commit = commit })
unfolding file_parts
file_parts-append file commit k =
    rw (last_index-append file commit b':' k, file_parts)
      (λ i. some (record {
        m_type = type_file;
        key = take-append_self file (b':' ∷ commit) i;
        commit = drop-suc_append file commit b':' i;
      }))

-- A file's marker gives its path and its commit back, if the two hold no `-->` and the commit no
-- colon. The path may hold colons.
pub parse_marker-file_marker :
    (file commit : Bytes)
    → index (file ++ b':' ∷ commit) closing ≡ none
    → Lacks b':' commit
    → parse_marker (file_marker file commit)
      ≡ some (record { m_type = type_file; key = file; commit = commit })
unfolding parse_marker file_marker has_prefix
parse_marker-file_marker file commit h k =
    ap (λ (t : Bytes). parse_file (up_to_suffix t))
      (sym (append_assoc file (b':' ∷ commit) closing))
    ∙ ap parse_file (up_to_suffix-append (file ++ b':' ∷ commit) h)
    ∙ file_parts-append file commit k

-- A summary's marker gives its commit back, if that holds no `-->`.
pub parse_marker-summary_marker :
    (commit : Bytes)
    → index commit closing ≡ none
    → parse_marker (summary_marker commit)
      ≡ some (record { m_type = type_summary; key = lit "summary"; commit = commit })
unfolding parse_marker summary_marker has_prefix
parse_marker-summary_marker commit h = ap parse_summary (up_to_suffix-append commit h)
