-- ===== src/Pipeline/Types.antt =====
-- pipeline/types.go, and the estimate of tokens. Lengths and limits are natural numbers; the products
-- with 0.8, 0.9 and 1.2 and the quotient by 3.5 are those of floating point, which are exact after
-- the cut to an integer for numbers below 2 ^ 50.
use agent_sets.Prelude.{Bool, List, [], false, length, total, ℕ, ◌*◌, ◌/◌}
use agent_sets.Domain.{ReviewResult}
use agent_sets.Text.{Bytes}

pub record FileChange : Type 0 where
  pub path : Bytes
  pub change_type : Bytes
  pub old_path : Bytes
  pub hunk_lines : List Bytes

pub record FileContent : Type 0 where
  pub path : Bytes
  pub content : Bytes
  pub is_diffed : Bool
  pub relevance : Bytes

abbrev pub no_change : FileChange
no_change = record { path = []; change_type = []; old_path = []; hunk_lines = [] }

abbrev pub no_content : FileContent
no_content = record { path = []; content = []; is_diffed = false; relevance = [] }

-- `int(float64(len(text)) / 3.5)`
unfoldable pub estimate_prompt_tokens : Bytes → ℕ
estimate_prompt_tokens text = 2 * length text / 7

unfoldable pub change_tokens : FileChange → ℕ
change_tokens c = total estimate_prompt_tokens c.hunk_lines

-- What the model is asked with, and what comes of it.
pub record Call : Type 0 where
  pub changes : List FileChange
  pub context : List FileContent

pub data Reviewed : Type 0 where
  reviewed : ReviewResult → Reviewed
  review_failed : Bytes → Reviewed
