-- ===== src/Storage/Saved/History.antt =====
-- What a storage has after a number of saves.
use agent_sets.Prelude.{
  All, Bool, List, Option, [], false, if◌then◌else◌, none, refl, some, true, ◌∷◌, ◌≡◌,
}
use agent_sets.Text.{Bytes, equal}
use agent_sets.Storage.{ReviewRecord, ReviewRow, RecordJson, saved}
use agent_sets.Storage.Saved.{save_review, row_of_data}
use agent_sets.Storage.Saved.Spec.{ReadsBack, save_review-SavedAs}
use agent_sets.Storage.Database.{Database, IsLawful}

module _ (J : RecordJson) (D : Database) where
  -- The records that were saved since the table was empty, the last one first.
  pub data Stored : List ReviewRecord → D.State → Type 0 where
    fresh : (s : D.State) → ((j : Bytes) → D.select_id j s ≡ none) → Stored [] s
    saves :
        (r : ReviewRecord) (l : List ReviewRecord) (s t : D.State)
        → Stored l s
        → save_review J D r s ≡ saved t
        → Stored (r ∷ l) t

-- The map from ids to records.
abbrev pub find_record : Bytes → List ReviewRecord → Option ReviewRecord
find_record j [] = none
find_record j (r ∷ l) = if equal j r.record_id then some r else find_record j l

module _ (J : RecordJson) (D : Database) where
  -- The row of a record that was saved.
  abbrev pub RowOf : ReviewRecord → ReviewRow → Type 0
  RowOf r row =
      (ab : Bytes × Bytes) × (J.marshal_pr r.pull_request ≡ some ab.0)
      × (J.marshal_result r.result ≡ some ab.1)
      × (row ≡ row_of_data J r ab.0 ab.1)

  abbrev pub Agree : Option ReviewRecord → Option ReviewRow → Type 0
  Agree none none = Unit
  Agree (some r) (some row) = RowOf r row × ReadsBack J r
  Agree none (some row) = ⊥
  Agree (some r) none = ⊥

  Agree-if :
      (b : Bool) (r : ReviewRecord) (row : ReviewRow) (o : Option ReviewRecord)
      (q : Option ReviewRow)
      → Agree (some r) (some row)
      → Agree o q
      → Agree (if b then some r else o) (if b then some row else q)
  Agree-if true r row o q h k = h
  Agree-if false r row o q h k = k

  pub Stored-Agree :
      (l : List ReviewRecord) (s : D.State)
      → IsLawful D
      → All (ReadsBack J) l
      → Stored J D l s
      → (j : Bytes) → Agree (find_record j l) (D.select_id j s)
  unfolding row_of_data
  Stored-Agree [] _ L h (fresh s empty) j = rw (empty j) tt
  Stored-Agree (_ ∷ _) _ L (back, h) (saves r l s t before e) j =
      let ((a, b), (f, g, k)) = save_review-SavedAs J D r s t e in
      rw (L.insert_row-select_id (row_of_data J r a b) s t k j) (
        Agree-if (equal j r.record_id) r (row_of_data J r a b) (find_record j l) (D.select_id j s)
          (((a, b), f, g, refl), back) (Stored-Agree l s L h before j))
