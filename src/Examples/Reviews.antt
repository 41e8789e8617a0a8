-- ===== src/Examples/Reviews.antt =====
-- Results of chunk reviews that are put together.
use agent_sets.Prelude.{
  List, [], if◌then◌else◌, leb, length, map, refl, ℕ, ◌&&◌, ◌+◌, ◌-◌, ◌∷◌, ◌≡◌,
}
use agent_sets.Prelude.Int.{pos, ℤ}
use agent_sets.Text.Trim.{trim_space}
use agent_sets.Text.{equal, Bytes, lit}
use agent_sets.Domain.{CaseMap, ReviewComment, fingerprint}
use agent_sets.Aggregator.{member, deduplicate_comments}
use agent_sets.Aggregator.Unique.{keys, Distinct, deduplicate_comments-keys}

-- the case mappings on ASCII
abbrev lower : ℕ → ℕ
lower c = if leb b'A' c && leb c b'Z' then c + 32 else c

abbrev upper : ℕ → ℕ
upper c = if leb b'a' c && leb c b'z' then c - 32 else c

abbrev pub ascii : CaseMap
ascii = record { to_lower = map lower; to_upper = map upper }

abbrev pub remark : Bytes → ℤ → Bytes → ReviewComment
remark file line comment = record {
  file = file;
  line = line;
  comment = comment;
  severity = lit "WARNING";
  marker = [];
}

abbrev pub remarks : List ReviewComment
remarks =
    remark (lit "a.go") (pos 3) (lit "Close the file")
    ∷ remark (lit "a.go") (pos 4) (lit "  close the FILE")
    ∷ remark (lit "b.go") (pos 3) (lit "close the file")
    ∷ []

two_kept : length (deduplicate_comments ascii remarks) ≡ 2
unfolding deduplicate_comments fingerprint member equal trim_space
two_kept = refl

deduplicate_comments-keys_example :
    Distinct [] (keys ascii (deduplicate_comments ascii remarks))
    × ((k : Bytes)
        → member k (keys ascii (deduplicate_comments ascii remarks))
          ≡ member k (keys ascii remarks))
deduplicate_comments-keys_example = deduplicate_comments-keys ascii remarks
