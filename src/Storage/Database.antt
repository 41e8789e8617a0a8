-- ===== src/Storage/Database.antt =====
-- The database behind internal/storage/sqlite.go as an interface: the statements of the file are its
-- operations, and what SQLite documents of them are its laws.
pub mod Memory
use agent_sets.Prelude.{
  All, List, Occurs, Option, [], false, if◌then◌else◌, none, some, ℕ, ◌↔◌, ◌∷◌, ◌≡◌, ◌≤◌,
}
use agent_sets.Prelude.Int.{ℤ}
use agent_sets.Text.{Bytes, equal}
use agent_sets.Storage.{ReviewRow, ReviewColumns, Rows, columns_of}

pub record Database : Type 1 where
  pub State : Type 0
  -- the INSERT of `SaveReview`; `none` is an error, and the table is as before.
  pub insert_row : ReviewRow → State → Option State
  -- the SELECTs of `GetReview`, `ListReviewsByPR` and `ListRecentReviews`
  pub select_id : Bytes → State → Option ReviewRow
  pub select_pr : Bytes → Bytes → Bytes → State → Rows
  pub select_recent : ℤ → State → Rows
  pub scan_row : ReviewRow → Option ReviewColumns

module _ {A : Type 0} where
  -- A list in which what comes later has a key that is not greater.
  abbrev pub Descending : (A → ℕ) → List A → Type 0
  Descending key [] = Unit
  Descending key (x ∷ xs) = All (λ y. key y ≤ key x) xs × Descending key xs

abbrev pub SamePr : Bytes → Bytes → Bytes → ReviewRow → Type 0
SamePr project slug pr r = (r.row_project ≡ project) × (r.row_slug ≡ slug) × (r.row_pr ≡ pr)

pub record IsLawful (D : Database) : Type 0 where
  -- A row that was inserted is found under its id, and the others as before.
  pub insert_row-select_id :
      (r : ReviewRow) (s t : D.State)
      → D.insert_row r s ≡ some t
      → (j : Bytes) → D.select_id j t ≡ (if equal j r.row_id then some r else D.select_id j s)
  -- The id is the primary key.
  pub insert_row_taken :
      (r q : ReviewRow) (s : D.State) → D.select_id r.row_id s ≡ some q → D.insert_row r s ≡ none
  -- WHERE and ORDER BY. The column is a text, which orders as the times do while they are written with one
  -- offset from UTC.
  pub select_pr_iff :
      (project slug pr : Bytes) (s : D.State)
      → (D.select_pr project slug pr s).failed ≡ false
      → (r : ReviewRow)
      → Occurs r (D.select_pr project slug pr s).items
        ↔ ((D.select_id r.row_id s ≡ some r) × SamePr project slug pr r)
  pub select_pr-Descending :
      (project slug pr : Bytes) (s : D.State)
      → Descending (λ (r : ReviewRow). r.row_created) (D.select_pr project slug pr s).items
  -- A row that was written can be read.
  pub scan_row_columns : (r : ReviewRow) → D.scan_row r ≡ some (columns_of r)
