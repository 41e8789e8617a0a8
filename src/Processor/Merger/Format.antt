-- ===== src/Processor/Merger/Format.antt =====
-- `FormatFileComment` and `FormatSummaryAddons` of comment_merger.go.

use agent_sets.Prelude.{Bool, List, [], false, if◌then◌else◌, not, ◌++◌, ◌||◌, ◌∷◌}
use agent_sets.Prelude.Int.{leb_ℤ, ltb_ℤ, pos, ℤ}
use agent_sets.Processor.Merger.{Sorting, MergedFileComment, less}
use agent_sets.Domain.{is_empty, CaseMap, ReviewComment}
use agent_sets.Text.{Bytes, replace_all, equal, lit, itoa, warning_sign}

-- U+1F6AB and U+1F4CB
abbrev stop_sign : Bytes
stop_sign = 0xF0 ∷ 0x9F ∷ 0x9A ∷ 0xAB ∷ []

abbrev clipboard : Bytes
clipboard = 0xF0 ∷ 0x9F ∷ 0x93 ∷ 0x8B ∷ []

unfoldable pub get_file_link : Bytes → Bytes → Bytes
unfolding is_empty
get_file_link web_url file_path =
    if is_empty web_url || is_empty file_path
    then file_path
    else b'[' ∷ (file_path ++ (lit "](" ++ (web_url ++ (lit "/diff#" ++ (file_path ++ lit ")")))))

unfoldable pub get_line_link : Bytes → Bytes → ℤ → Bytes
unfolding is_empty itoa
get_line_link web_url file_path line =
    if is_empty web_url || leb_ℤ line (pos 0)
    then itoa line
    else let url = web_url ++ (lit "/diff#" ++ (file_path ++ (lit "?t=" ++ itoa line))) in
      b'[' ∷ (itoa line ++ (lit "](" ++ (url ++ lit ")")))

-- pipes and line breaks of a message
unfoldable pub escape_message : Bytes → Bytes
unfolding replace_all
escape_message comment =
    replace_all (replace_all comment (lit "|") (lit "\\|")) (lit "\n") (lit "<br>")

module _ (u : CaseMap) where
  unfoldable pub any_critical : List ReviewComment → Bool
  unfolding equal
  any_critical [] = false
  any_critical (c ∷ cs) = equal (u.to_upper c.severity) (lit "CRITICAL") || any_critical cs

  unfoldable pub severity_badge : Bytes → Bytes
  unfolding equal
  severity_badge severity =
      if equal (u.to_upper severity) (lit "WARNING")
      then warning_sign ++ lit " WARNING"
      else if equal (u.to_upper severity) (lit "CRITICAL")
      then stop_sign ++ lit " CRITICAL"
      else severity

  unfoldable pub file_rows : List ReviewComment → Bytes
  unfolding severity_badge escape_message itoa
  file_rows [] = []
  file_rows (c ∷ cs) =
      lit "| "
      ++ (itoa c.line
          ++ (lit " | "
              ++ (severity_badge c.severity
                  ++ (lit " | " ++ (escape_message c.comment ++ (lit " |\n" ++ file_rows cs))))))

  unfoldable pub format_file_comment : Bytes → MergedFileComment → Bytes
  unfolding file_rows any_critical get_file_link is_empty
  format_file_comment web_url fc =
      let icon = if any_critical fc.comments then stop_sign else warning_sign in
      let footer =
        if is_empty fc.model_name
        then lit "*This comment was automatically generated by AI Code Review*"
        else lit "*Automatically generated by " ++ (fc.model_name ++ lit "*") in
      fc.marker
      ++ (lit "\n\n## "
          ++ (icon
              ++ (b' '
                  ∷ (get_file_link web_url fc.file_path
                      ++ (lit " Code Review\n\n"
                          ++ (lit "| Line | Severity | Message |\n"
                              ++ (lit "|------|----------|----------|\n"
                                  ++ (file_rows fc.comments ++ (lit "\n---\n" ++ footer)))))))))

unfoldable pub addon_rows : Bytes → List ReviewComment → Bytes
unfolding get_file_link get_line_link escape_message
addon_rows web_url [] = []
addon_rows web_url (c ∷ cs) =
    lit "| "
    ++ (get_file_link web_url c.file
        ++ (lit " | "
            ++ (get_line_link web_url c.file c.line
                ++ (lit " | "
                    ++ (escape_message c.comment ++ (lit " |\n" ++ addon_rows web_url cs))))))

unfoldable pub addon_before : ReviewComment → ReviewComment → Bool
unfolding equal less
addon_before a b = if not (equal a.file b.file) then less a.file b.file else ltb_ℤ a.line b.line

unfoldable pub format_summary_addons : Sorting → Bytes → List ReviewComment → Bytes
unfolding addon_rows addon_before
format_summary_addons lib web_url [] = []
format_summary_addons lib web_url (c ∷ cs) =
    lit "\n### "
    ++ (clipboard
        ++ (lit " Suggestions (INFO/NIT)\n\n"
            ++ (lit "| File | Line | Suggestion |\n"
                ++ (lit "|------|------|------|\n"
                    ++ addon_rows web_url (lib.sort ReviewComment addon_before (c ∷ cs))))))
