-- ===== src/Storage/Saved/Spec.antt =====
-- What the storage promises: a map from ids to records.
use agent_sets.Prelude.{
  Bool, Bool-cases, Option, Option-cases, ap, arith, if◌then◌else◌, inl, inr, none, none-ne-some,
  refl, some, sym, ◌∙◌, ◌≡◌, ◌≢◌,
}
use agent_sets.Text.Search.{equal_iff}
use agent_sets.Text.{Bytes, equal}
use agent_sets.Storage.{
  ReviewRecord, RecordJson, marshal_pr_failed, marshal_result_failed, saved, unsaved, StorageError,
  columns_of, scanned,
}
use agent_sets.Storage.Saved.{
  save_review, insert_result, row_of_data, scan_review, get_review, scan_columns, scan_found,
  record_of_columns,
}
use agent_sets.Storage.Database.{Database, IsLawful}

module _ (J : RecordJson) where
  -- A record that encoding/json writes and reads back.
  abbrev pub ReadsBack : ReviewRecord → Type 0
  ReadsBack r =
      ((a : Bytes) → J.marshal_pr r.pull_request ≡ some a → J.unmarshal_pr a ≡ some r.pull_request)
      × ((a : Bytes) → J.marshal_result r.result ≡ some a → J.unmarshal_result a ≡ some r.result)

module _ (J : RecordJson) (D : Database) where
  -- The bytes that a record is saved with.
  abbrev pub SavedAs : ReviewRecord → D.State → D.State → Bytes × Bytes → Type 0
  SavedAs r s t (a, b) =
      (J.marshal_pr r.pull_request ≡ some a)
      × (J.marshal_result r.result ≡ some b)
      × (D.insert_row (row_of_data J r a b) s ≡ some t)

  unsaved_ne : (e : StorageError) (t : D.State) → unsaved e ≢ saved t
  unsaved_ne e t h = ground (arith, h)

  insert_result-saved :
      (o : Option D.State) (t : D.State) → insert_result J D o ≡ saved t → o ≡ some t
  unfolding insert_result
  insert_result-saved none t h = absurd (unsaved_ne _ t h)
  insert_result-saved (some u) t h = cc h

  pub save_review-SavedAs :
      (r : ReviewRecord) (s t : D.State)
      → save_review J D r s ≡ saved t
      → (ab : Bytes × Bytes) × SavedAs r s t ab
  unfolding save_review
  save_review-SavedAs r s t h = elim (Option-cases (J.marshal_pr r.pull_request)) [
    | inl e ↦ absurd (unsaved_ne marshal_pr_failed t (rw (save_review, e) at h))
    | inr (a, e) ↦ elim (Option-cases (J.marshal_result r.result)) [
      | inl f ↦ absurd (unsaved_ne marshal_result_failed t (rw (save_review, e, f) at h))
      | inr (b, f) ↦
          let k : insert_result J D (D.insert_row (row_of_data J r a b) s) ≡ saved t =
            rw (save_review, e, f) at h in
          ((a, b), (e, f, insert_result-saved _ t k))
    ]
  ]

module _ (J : RecordJson) (D : Database) (L : IsLawful D) where
  -- A row that was written for a record scans to it.
  pub scan_review-row_of_data :
      (r : ReviewRecord) (a b : Bytes)
      → ReadsBack J r
      → J.marshal_pr r.pull_request ≡ some a
      → J.marshal_result r.result ≡ some b
      → scan_review J D (row_of_data J r a b) ≡ scanned r
  unfolding scan_review scan_columns row_of_data columns_of record_of_columns
  scan_review-row_of_data r a b (back, back') e f =
      rw (scan_review, scan_columns, L.scan_row_columns (row_of_data J r a b), back a e, back' b f)
        refl

  -- Over a database that keeps its laws: a record that was saved, and that encoding/json reads back, is
  -- what the storage has under its id, and every other id has what it had. No other record is saved under
  -- this id after that.
  pub save_review-get_review :
      (r : ReviewRecord) (s t : D.State)
      → ReadsBack J r
      → save_review J D r s ≡ saved t
      → ((j : Bytes)
          → get_review J D j t ≡ (if equal j r.record_id then scanned r else get_review J D j s))
        × ((q : ReviewRecord) (u : D.State)
            → save_review J D (record q { record_id = r.record_id }) t ≢ saved u)
  unfolding get_review scan_found row_of_data
  save_review-get_review r s t back h =
      let ((a, b), (e, f, k)) = save_review-SavedAs J D r s t h in
      let found = L.insert_row-select_id (row_of_data J r a b) s t k in
      (
        λ j. elim (Bool-cases (equal j r.record_id)) [
          | inl d ↦ rw (get_review, found j, d) (scan_review-row_of_data r a b back e f)
          | inr d ↦ rw (get_review, found j, d) refl
        ],
        λ q u hq.
            let same_id : ReviewRecord = record q { record_id = r.record_id } in
            let ((a', b'), (e', f', k')) = save_review-SavedAs J D same_id t u hq in
            let there : D.select_id r.record_id t ≡ some (row_of_data J r a b) =
              found r.record_id
              ∙ ap
                  (λ (c : Bool).
                    if c then some (row_of_data J r a b) else D.select_id r.record_id s)
                  ((equal_iff r.record_id r.record_id).1 refl) in
            none-ne-some u (
              sym (L.insert_row_taken (row_of_data J same_id a' b') (row_of_data J r a b) t there)
              ∙ k'),
      )
