-- ===== src/Validator/Parse.antt =====
-- `parseDiff`.

use agent_sets.Prelude.{
  Bool, List, [], false, if◌then◌else◌, none, not, some, true, ◌&&◌, ◌||◌, ◌∷◌,
}
use agent_sets.Prelude.Int.{eqb_ℤ, pos, ℤ, ◌+ℤ◌}
use agent_sets.Text.Trim.{trim_space}
use agent_sets.Text.Number.{atoi}
use agent_sets.Domain.{is_empty}
use agent_sets.Validator.Names.{match_file, match_hunk, normalize_file_path}
use agent_sets.Validator.Ranges.{LineRange, add_line}
use agent_sets.Maps.{put, at_key, lookup}
use agent_sets.Text.{Bytes, has_prefix, split, is_some, equal, lit}

pub data LineType : Type 0 where
  added context : LineType

pub record CommentValidator : Type 0 where
  pub valid_ranges : List (Bytes × List LineRange)
  pub line_types : List (Bytes × List (ℤ × LineType))
  pub all_files : List (Bytes × Bool)

unfoldable pub add_valid_line : CommentValidator → Bytes → ℤ → CommentValidator
unfolding put at_key add_line
add_valid_line v file line = record v {
  valid_ranges = put equal file (add_line (at_key file v.valid_ranges) line) v.valid_ranges;
}

-- The variables of the loop over the lines.
pub record ParseState : Type 0 where
  pub validator : CommentValidator
  pub current_file : Bytes
  pub current_line_num : ℤ
  pub in_hunk : Bool

unfoldable pub file_header : ParseState → Bytes → ParseState
unfolding put lookup is_some normalize_file_path
file_header st name =
    let file = normalize_file_path (trim_space name) in
    let v = st.validator in
    record st {
      validator = record v {
        all_files = put equal file true v.all_files;
        line_types =
            if is_some (lookup equal file v.line_types)
            then v.line_types
            else put equal file [] v.line_types;
      };
      current_file = file;
      in_hunk = false;
    }

-- A line of the new file. The map of its file was made at the file's header.
unfoldable pub mark_line : ParseState → LineType → ParseState
unfolding add_valid_line put at_key
mark_line st t =
    let file = st.current_file in
    let line = st.current_line_num in
    let v = add_valid_line st.validator file line in
    record st {
      validator = record v {
        line_types = put equal file (put eqb_ℤ line t (at_key file v.line_types)) v.line_types;
      };
      current_line_num = line +ℤ pos 1;
    }

unfoldable pub diff_line : ParseState → Bytes → ParseState
unfolding mark_line has_prefix is_empty
diff_line st line =
    if not st.in_hunk || is_empty st.current_file
    then st
    else if has_prefix line (lit "+") && not (has_prefix line (lit "+++"))
    then mark_line st added
    else if has_prefix line (lit "-") && not (has_prefix line (lit "---"))
    then st
    else if has_prefix line (lit " ") || is_empty line
    then mark_line st context
    else st

unfoldable pub parse_line : ParseState → Bytes → ParseState
unfolding match_file match_hunk file_header diff_line
parse_line st line = elim (match_file line) [
  | some name ↦ file_header st name
  | none ↦ elim (match_hunk line) [
    | some start_line ↦ record st { current_line_num = (atoi start_line).0; in_hunk = true }
    | none ↦ diff_line st line
  ]
]

unfoldable pub parse_each : ParseState → List Bytes → ParseState
unfolding parse_line
parse_each st [] = st
parse_each st (line ∷ lines) = parse_each (parse_line st line) lines

unfoldable pub new_comment_validator : Bytes → CommentValidator
unfolding parse_each split
new_comment_validator diff =
    (parse_each
      (record {
        validator = record { valid_ranges = []; line_types = []; all_files = [] };
        current_file = [];
        current_line_num = pos 0;
        in_hunk = false;
      })
      (split diff b'\n')).validator
