-- ===== src/Storage/Saved.antt =====
-- internal/storage/sqlite.go: `SaveReview`, `GetReview` and the lists.
pub mod Spec
pub mod History
pub mod Listing
use agent_sets.Prelude.{List, Option, [], none, some, ◌∷◌}
use agent_sets.Prelude.Int.{ℤ}
use agent_sets.Domain.{PullRequest, ReviewResult}
use agent_sets.Text.{Bytes}
use agent_sets.Storage.{
  ReviewRecord, ReviewRow, ReviewColumns, Rows, RecordJson, Reviews, marshal_pr_failed,
  marshal_result_failed, insert_failed, scan_failed, unmarshal_pr_failed, unmarshal_result_failed,
  scanned, unscanned, saved, unsaved, Scanned, Saving,
}
use agent_sets.Storage.Database.{Database}

module _ (J : RecordJson) where
  -- The values of the INSERT; the errors of `json.Marshal` come first.
  unfoldable pub row_of_data : ReviewRecord → Bytes → Bytes → ReviewRow
  row_of_data r pr result = record {
    row_id = r.record_id;
    row_project = r.pull_request.project_key;
    row_slug = r.pull_request.repo_slug;
    row_pr = r.pull_request.id;
    pr_data = pr;
    result_data = result;
    row_created = r.created_at;
    row_duration = r.duration_ms;
    row_status = r.status;
  }

  unfoldable pub record_of_columns : ReviewColumns → PullRequest → ReviewResult → ReviewRecord
  record_of_columns c pr result = record {
    record_id = c.col_id;
    pull_request = pr;
    result = result;
    created_at = c.col_created;
    duration_ms = c.col_duration;
    status = c.col_status;
  }

  unfoldable pub scan_columns : ReviewColumns → Scanned
  unfolding record_of_columns
  scan_columns c = elim (J.unmarshal_pr c.col_pr_data) [
    | none ↦ unscanned unmarshal_pr_failed
    | some pr ↦ elim (J.unmarshal_result c.col_result_data) [
      | none ↦ unscanned unmarshal_result_failed
      | some result ↦ scanned (record_of_columns c pr result)
    ]
  ]

module _ (J : RecordJson) (D : Database) where
  unfoldable pub insert_result : Option D.State → Saving D.State
  insert_result none = unsaved insert_failed
  insert_result (some t) = saved t

  unfoldable pub save_review : ReviewRecord → D.State → Saving D.State
  unfolding insert_result row_of_data
  save_review r s = elim (J.marshal_pr r.pull_request) [
    | none ↦ unsaved marshal_pr_failed
    | some pr ↦ elim (J.marshal_result r.result) [
      | none ↦ unsaved marshal_result_failed
      | some result ↦ insert_result (D.insert_row (row_of_data J r pr result) s)
    ]
  ]

  -- `scanReview` of a row
  unfoldable pub scan_review : ReviewRow → Scanned
  unfolding scan_columns
  scan_review r = elim (D.scan_row r) [ none ↦ unscanned scan_failed | some c ↦ scan_columns J c ]

  -- A query without a row fails when it is scanned.
  unfoldable pub scan_found : Option ReviewRow → Scanned
  unfolding scan_review
  scan_found none = unscanned scan_failed
  scan_found (some r) = scan_review r

  unfoldable pub get_review : Bytes → D.State → Scanned
  unfolding scan_found
  get_review id s = scan_found (D.select_id id s)

  -- A row that does not scan is left out.
  unfoldable pub add_scanned : Scanned → List ReviewRecord → List ReviewRecord
  add_scanned (scanned r) rs = r ∷ rs
  add_scanned (unscanned e) rs = rs

  unfoldable pub scan_rows : List ReviewRow → List ReviewRecord
  unfolding scan_review add_scanned
  scan_rows [] = []
  scan_rows (r ∷ rows) = add_scanned (scan_review r) (scan_rows rows)

  unfoldable pub reviews_of : Rows → Reviews
  unfolding scan_rows
  reviews_of q = record { listed = scan_rows q.items; list_failed = q.failed }

  unfoldable pub list_reviews_by_pr : Bytes → Bytes → Bytes → D.State → Reviews
  unfolding reviews_of
  list_reviews_by_pr project slug pr s = reviews_of (D.select_pr project slug pr s)

  unfoldable pub list_recent_reviews : ℤ → D.State → Reviews
  unfolding reviews_of
  list_recent_reviews limit s = reviews_of (D.select_recent limit s)
