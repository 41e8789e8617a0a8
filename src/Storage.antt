-- ===== src/Storage.antt =====
-- internal/storage: the reviews that are kept for an audit. SQLite is the interface of Storage/Database,
-- encoding/json is a parameter, and a time is a number.
pub mod Database
pub mod Saved
use agent_sets.Prelude.{Bool, List, Option, [], false, true, ℕ, ◌∷◌}
use agent_sets.Prelude.Int.{ℤ}
use agent_sets.Text.{Bytes, lit}
use agent_sets.Domain.{PullRequest, ReviewResult}

pub record ReviewRecord : Type 0 where
  pub record_id : Bytes
  pub pull_request : PullRequest
  pub result : ReviewResult
  pub created_at : ℕ
  pub duration_ms : ℤ
  pub status : Bytes

-- A row of the table `reviews`.
pub record ReviewRow : Type 0 where
  pub row_id : Bytes
  pub row_project : Bytes
  pub row_slug : Bytes
  pub row_pr : Bytes
  pub pr_data : Bytes
  pub result_data : Bytes
  pub row_created : ℕ
  pub row_duration : ℤ
  pub row_status : Bytes

-- The columns that the queries select.
pub record ReviewColumns : Type 0 where
  pub col_id : Bytes
  pub col_pr_data : Bytes
  pub col_result_data : Bytes
  pub col_created : ℕ
  pub col_duration : ℤ
  pub col_status : Bytes

unfoldable pub columns_of : ReviewRow → ReviewColumns
columns_of r = record {
  col_id = r.row_id;
  col_pr_data = r.pr_data;
  col_result_data = r.result_data;
  col_created = r.row_created;
  col_duration = r.row_duration;
  col_status = r.row_status;
}

-- What a query gives: what its rows scan to, and whether it ended with an error.
pub record Rows : Type 0 where
  pub items : List ReviewRow
  pub failed : Bool

-- `json.Marshal` and `json.Unmarshal` of the two columns; `none` is an error.
pub record RecordJson : Type 0 where
  pub marshal_pr : PullRequest → Option Bytes
  pub marshal_result : ReviewResult → Option Bytes
  pub unmarshal_pr : Bytes → Option PullRequest
  pub unmarshal_result : Bytes → Option ReviewResult

pub data StorageError : Type 0 where
  marshal_pr_failed marshal_result_failed insert_failed : StorageError
  scan_failed unmarshal_pr_failed unmarshal_result_failed : StorageError

pub data Scanned : Type 0 where
  scanned : ReviewRecord → Scanned
  unscanned : StorageError → Scanned

pub data Saving (S : Type 0) : Type 0 where
  saved : S → Saving S
  unsaved : StorageError → Saving S

-- A list of records, with whether there is an error.
pub record Reviews : Type 0 where
  pub listed : List ReviewRecord
  pub list_failed : Bool

-- What `NewSQLiteRepository` comes to: the error of a step, behind which the database is closed.
pub data Opening : Type 0 where
  opened open_failed : Opening
  closed_after : Bytes → Opening

-- The steps that are made, the first that fails ends them.
unfoldable pub open_steps : List (Bytes × Bool) → Opening
open_steps [] = opened
open_steps ((name, true) ∷ steps) = open_steps steps
open_steps ((name, false) ∷ steps) = closed_after name

-- Whether `sql.Open`, the pragma, the ping and the migration succeed.
unfoldable pub new_sqlite_repository : (opens wal pings migrates : Bool) → Opening
unfolding open_steps
new_sqlite_repository false wal pings migrates = open_failed
new_sqlite_repository true wal pings migrates =
    open_steps
      ((lit "enable wal", wal) ∷ (lit "ping sqlite", pings) ∷ (lit "migrate", migrates) ∷ [])
