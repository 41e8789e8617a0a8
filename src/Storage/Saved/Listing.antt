-- ===== src/Storage/Saved/Listing.antt =====
-- The lists of reviews against what was saved.
use agent_sets.Prelude.{
  All, List, Occurs, Option, Option-cases, [], ap, arith, false, inl, inr, none, refl, some,
  some-inj, subst, sym, ℕ, ◌↔◌, ◌∙◌, ◌∷◌, ◌≡◌, ◌≢◌, ◌≤◌, ◌⊎◌,
}
use agent_sets.Text.{Bytes}
use agent_sets.Storage.Saved.Spec.{scan_review-row_of_data, ReadsBack}
use agent_sets.Storage.Saved.History.{Agree, Stored, find_record, Stored-Agree}
use agent_sets.Storage.{
  ReviewRecord, ReviewRow, RecordJson, Scanned, scanned, unscanned, StorageError,
  unmarshal_pr_failed, unmarshal_result_failed, columns_of, ReviewColumns,
}
use agent_sets.Storage.Saved.{
  scan_review, scan_rows, add_scanned, scan_columns, row_of_data, record_of_columns,
  list_reviews_by_pr, reviews_of,
}
use agent_sets.Storage.Database.{Database, IsLawful, Descending}

Scanned-cases :
    (c : Scanned)
    → ((e : StorageError) × (c ≡ unscanned e)) ⊎ ((r : ReviewRecord) × (c ≡ scanned r))
Scanned-cases (scanned r) = inr (r, refl)
Scanned-cases (unscanned e) = inl (e, refl)

unscanned_ne : (e : StorageError) (r : ReviewRecord) → unscanned e ≢ scanned r
unscanned_ne e r h = ground (arith, h)

scanned-inj : (r q : ReviewRecord) → scanned r ≡ scanned q → r ≡ q
scanned-inj r q h = cc h

module _ (J : RecordJson) (D : Database) where
  -- A record is in what the rows scan to just when one of the rows scans to it.
  Occurs-scan_rows :
      (r : ReviewRecord) (rows : List ReviewRow)
      → Occurs r (scan_rows J D rows)
      → (row : ReviewRow) × Occurs row rows × (scan_review J D row ≡ scanned r)
  unfolding scan_rows add_scanned
  Occurs-scan_rows r [] h = absurd h
  Occurs-scan_rows r (row ∷ rows) h = elim (Scanned-cases (scan_review J D row)) [
    | inl (e, d) ↦ let (x, o, k) = Occurs-scan_rows r rows (rw d at h) in (x, inr o, k)
    | inr (q, d) ↦
        let here : (r ≡ q) ⊎ Occurs r (scan_rows J D rows) = rw d at h in
        elim here [
          | inl same ↦ (row, inl refl, d ∙ ap scanned (sym same))
          | inr later ↦ let (x, o, k) = Occurs-scan_rows r rows later in (x, inr o, k)
        ]
  ]

  scan_rows-Occurs :
      (r : ReviewRecord) (row : ReviewRow) (rows : List ReviewRow)
      → Occurs row rows
      → scan_review J D row ≡ scanned r
      → Occurs r (scan_rows J D rows)
  unfolding scan_rows add_scanned
  scan_rows-Occurs r row [] h k = absurd h
  scan_rows-Occurs r row (x ∷ rows) (inl same) k = rw (sym same, k) (inl refl)
  scan_rows-Occurs r row (x ∷ rows) (inr later) k = elim (Scanned-cases (scan_review J D x)) [
    | inl (e, d) ↦ rw d (scan_rows-Occurs r row rows later k)
    | inr (q, d) ↦ rw d (inr (scan_rows-Occurs r row rows later k))
  ]

module _ (J : RecordJson) (D : Database) (L : IsLawful D) where
  scan_columns-created :
      (c : ReviewColumns) (r : ReviewRecord)
      → scan_columns J c ≡ scanned r
      → r.created_at ≡ c.col_created
  unfolding scan_columns record_of_columns
  scan_columns-created c r h = elim (Option-cases (J.unmarshal_pr c.col_pr_data)) [
    | inl d ↦ absurd (unscanned_ne unmarshal_pr_failed r (rw (scan_columns, d) at h))
    | inr (p, d) ↦ elim (Option-cases (J.unmarshal_result c.col_result_data)) [
      | inl e ↦ absurd (unscanned_ne unmarshal_result_failed r (rw (scan_columns, d, e) at h))
      | inr (q, e) ↦
          let k : scanned (record_of_columns J c p q) ≡ scanned r = rw (scan_columns, d, e) at h in
          sym (ap (λ (x : ReviewRecord). x.created_at) (scanned-inj _ r k))
    ]
  ]

  scan_review-created :
      (row : ReviewRow) (r : ReviewRecord)
      → scan_review J D row ≡ scanned r
      → r.created_at ≡ row.row_created
  unfolding scan_review columns_of
  scan_review-created row r h =
      scan_columns-created (columns_of row) r (rw (scan_review, L.scan_row_columns row) at h)

  scan_rows-All :
      (n : ℕ) (rows : List ReviewRow)
      → All (λ x. x.row_created ≤ n) rows
      → All (λ r. r.created_at ≤ n) (scan_rows J D rows)
  unfolding scan_rows add_scanned
  scan_rows-All n [] h = tt
  scan_rows-All n (x ∷ rows) (h, hs) = elim (Scanned-cases (scan_review J D x)) [
    | inl (e, d) ↦ rw d (scan_rows-All n rows hs)
    | inr (q, d) ↦ rw d (omega (arith, h, scan_review-created x q d), scan_rows-All n rows hs)
  ]

  scan_rows-Descending :
      (rows : List ReviewRow)
      → Descending (λ (x : ReviewRow). x.row_created) rows
      → Descending (λ (r : ReviewRecord). r.created_at) (scan_rows J D rows)
  unfolding scan_rows add_scanned
  scan_rows-Descending [] h = tt
  scan_rows-Descending (x ∷ rows) (h, hs) = elim (Scanned-cases (scan_review J D x)) [
    | inl (e, d) ↦ rw d (scan_rows-Descending rows hs)
    | inr (q, d) ↦ rw d (
      scan_rows-All q.created_at rows (
          subst (λ (n : ℕ). All (λ y. y.row_created ≤ n) rows) (sym (scan_review-created x q d)) h),
      scan_rows-Descending rows hs,
    )
  ]

  -- A row that is found is the row of the record that the map has for its id, and scans to it.
  scan_review_found :
      (row : ReviewRow) (o : Option ReviewRecord)
      → Agree J D o (some row)
      → (r : ReviewRecord) × (o ≡ some r)
        × (scan_review J D row ≡ scanned r)
        × (row.row_id ≡ r.record_id)
        × (row.row_project ≡ r.pull_request.project_key)
        × (row.row_slug ≡ r.pull_request.repo_slug)
        × (row.row_pr ≡ r.pull_request.id)
  unfolding row_of_data
  scan_review_found row none h = absurd h
  scan_review_found row (some r) (((a, b), f, g, e), back) = (
    r,
    refl,
    ap (scan_review J D) e ∙ scan_review-row_of_data J D L r a b back f g,
    ap (λ (x : ReviewRow). x.row_id) e,
    ap (λ (x : ReviewRow). x.row_project) e,
    ap (λ (x : ReviewRow). x.row_slug) e,
    ap (λ (x : ReviewRow). x.row_pr) e,
  )

  -- The row of a record that the map has is found.
  found_row :
      (r : ReviewRecord) (o : Option ReviewRow)
      → Agree J D (some r) o
      → (row : ReviewRow) × (o ≡ some row) × Agree J D (some r) (some row)
  found_row r none h = absurd h
  found_row r (some row) h = (row, refl, h)

-- The map has a record under its id, and it belongs to a pull request.
abbrev pub SavedFor : List ReviewRecord → (project slug pr : Bytes) → ReviewRecord → Type 0
SavedFor l project slug pr r =
    (find_record r.record_id l ≡ some r)
    × (r.pull_request.project_key ≡ project)
    × (r.pull_request.repo_slug ≡ slug)
    × (r.pull_request.id ≡ pr)

module _ (J : RecordJson) (D : Database) (L : IsLawful D) where
  listed-SavedFor :
      (l : List ReviewRecord) (s : D.State) (project slug pr : Bytes)
      → ((j : Bytes) → Agree J D (find_record j l) (D.select_id j s))
      → (D.select_pr project slug pr s).failed ≡ false
      → (r : ReviewRecord) → Occurs r (scan_rows J D (D.select_pr project slug pr s).items)
      → SavedFor l project slug pr r
  listed-SavedFor l s project slug pr agree ended r occurs =
      let (row, there, scans) =
        Occurs-scan_rows J D r (D.select_pr project slug pr s).items occurs in
      let (found, (p, q, i)) = (L.select_pr_iff project slug pr s ended row).0 there in
      let (x, e, scans_x, id_x, p_x, q_x, i_x) =
        scan_review_found J D L row (find_record row.row_id l)
          (subst (Agree J D (find_record row.row_id l)) found (agree row.row_id)) in
      let same : x ≡ r = scanned-inj x r (sym scans_x ∙ scans) in
      subst (SavedFor l project slug pr) same
        (ap (λ (j : Bytes). find_record j l) (sym id_x) ∙ e, sym p_x ∙ p, sym q_x ∙ q, sym i_x ∙ i)

  SavedFor-listed :
      (l : List ReviewRecord) (s : D.State) (project slug pr : Bytes)
      → ((j : Bytes) → Agree J D (find_record j l) (D.select_id j s))
      → (D.select_pr project slug pr s).failed ≡ false
      → (r : ReviewRecord) → SavedFor l project slug pr r
      → Occurs r (scan_rows J D (D.select_pr project slug pr s).items)
  SavedFor-listed l s project slug pr agree ended r (e, p, q, i) =
      let (row, found, a) =
        found_row J D L r (D.select_id r.record_id s)
          (subst (λ o. Agree J D o (D.select_id r.record_id s)) e (agree r.record_id)) in
      let (x, e_x, scans, id_x, p_x, q_x, i_x) = scan_review_found J D L row (some r) a in
      let same : x ≡ r = sym (some-inj r x e_x) in
      let id_r : row.row_id ≡ r.record_id = id_x ∙ ap (λ (y : ReviewRecord). y.record_id) same in
      scan_rows-Occurs J D r row (D.select_pr project slug pr s).items
        ((L.select_pr_iff project slug pr s ended row).1 (
          ap (λ (j : Bytes). D.select_id j s) id_r ∙ found,
          (
            p_x ∙ ap (λ (y : ReviewRecord). y.pull_request.project_key) same ∙ p,
            q_x ∙ ap (λ (y : ReviewRecord). y.pull_request.repo_slug) same ∙ q,
            i_x ∙ ap (λ (y : ReviewRecord). y.pull_request.id) same ∙ i,
          ),
        ))
        (scans ∙ ap scanned same)

  -- Over a database that keeps its laws, and where encoding/json reads back each record that was saved: a
  -- list of the reviews of a pull request that ends without an error has the records that are saved under
  -- their ids and belong to the pull request, and no other, the newest first.
  pub list_reviews_by_pr-Stored :
      (l : List ReviewRecord) (s : D.State)
      → All (ReadsBack J) l
      → Stored J D l s
      → (project slug pr : Bytes) → (list_reviews_by_pr J D project slug pr s).list_failed ≡ false
      → ((r : ReviewRecord)
          → Occurs r (list_reviews_by_pr J D project slug pr s).listed
            ↔ SavedFor l project slug pr r)
        × Descending
            (λ (r : ReviewRecord). r.created_at)
            (list_reviews_by_pr J D project slug pr s).listed
  unfolding list_reviews_by_pr reviews_of
  list_reviews_by_pr-Stored l s back h project slug pr ended =
      let agree = Stored-Agree J D l s L back h in
      (
        λ r. (
          listed-SavedFor l s project slug pr agree ended r,
          SavedFor-listed l s project slug pr agree ended r,
        ),
        scan_rows-Descending J D L (D.select_pr project slug pr s).items
            (L.select_pr-Descending project slug pr s),
      )
