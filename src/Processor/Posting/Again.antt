-- ===== src/Processor/Posting/Again.antt =====
-- Merged file comments are posted again.

use agent_sets.Prelude.{All, List, [], ap, refl, ◌∷◌, ◌≡◌}
use agent_sets.Processor.Existing.Blind.{IsGeneralOrTable, existing_comments_blind}
use agent_sets.Text.{Bytes}
use agent_sets.Processor.Existing.{PostedComment, existing_comments}
use agent_sets.Processor.Merger.{MergedFileComment}
use agent_sets.Aggregator.{member}
use agent_sets.Processor.Posting.{drop_existing, filter_existing_file_comments}

drop_existing-nil : (fcs : List MergedFileComment) → drop_existing [] fcs ≡ fcs
unfolding drop_existing member
drop_existing-nil [] = refl
drop_existing-nil (fc ∷ fcs) = ap (◌∷◌ fc) (drop_existing-nil fcs)

-- Where each comment that was posted before is a general one or holds a table, as merged file
-- comments do, none of the merged file comments of a commit is left out as known.
pub filter_existing_file_comments_again :
    (vs : List PostedComment) (merged : List MergedFileComment) (commit : Bytes)
    → All IsGeneralOrTable vs
    → filter_existing_file_comments (existing_comments vs) merged commit ≡ merged
unfolding filter_existing_file_comments
filter_existing_file_comments_again vs merged commit h =
    rw ((existing_comments_blind vs commit h).1) (drop_existing-nil merged)
