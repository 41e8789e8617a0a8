-- ===== src/Examples/Storing.antt =====
-- Reviews that are saved and listed, in a table in memory.
use agent_sets.Prelude.{
  List, Occurs, [], ap, if◌then◌else◌, refl, some, some-inj, sym, ℕ, ◌↔◌, ◌∷◌, ◌≡◌, ◌≢◌,
}
use agent_sets.Prelude.Int.{pos}
use agent_sets.Domain.{PullRequest, ReviewResult}
use agent_sets.Text.{Bytes, equal}
use agent_sets.Storage.{ReviewRecord, ReviewRow, RecordJson, saved, scanned}
use agent_sets.Storage.Saved.{
  save_review, get_review, list_reviews_by_pr, insert_result, reviews_of, row_of_data,
}
use agent_sets.Storage.Saved.Spec.{ReadsBack, save_review-get_review}
use agent_sets.Storage.Saved.History.{Stored, saves, fresh}
use agent_sets.Storage.Saved.Listing.{SavedFor, list_reviews_by_pr-Stored}
use agent_sets.Storage.Database.{Descending}
use agent_sets.Storage.Database.Memory.{memory, memory-IsLawful}

abbrev change_of_id : Bytes → PullRequest
change_of_id i = record {
  id = i;
  project_key = b'p' ∷ [];
  repo_slug = b'r' ∷ [];
  title = [];
  description = [];
  author = [];
  latest_commit = [];
  web_url = [];
}

abbrev result_of_summary : Bytes → ReviewResult
result_of_summary s = record { comments = []; score = pos 80; summary = s; model = [] }

-- A codec that keeps the id and the summary, which is all in which the records below differ.
abbrev short_json : RecordJson
short_json = record {
  marshal_pr = λ p. some p.id;
  marshal_result = λ r. some r.summary;
  unmarshal_pr = λ a. some (change_of_id a);
  unmarshal_result = λ a. some (result_of_summary a);
}

abbrev record_at : ℕ → Bytes → ReviewRecord
record_at time i = record {
  record_id = time ∷ [];
  pull_request = change_of_id i;
  result = result_of_summary (b'o' ∷ b'k' ∷ []);
  created_at = time;
  duration_ms = pos 5;
  status = b's' ∷ [];
}

reads_back : (time : ℕ) (i : Bytes) → ReadsBack short_json (record_at time i)
reads_back time i = (
  λ a h. ap (λ (x : Bytes). some (change_of_id x)) (sym (some-inj i a h)),
  λ a h. ap (λ (x : Bytes). some (result_of_summary x)) (sym (some-inj _ a h)),
)

abbrev first_record : ReviewRecord
first_record = record_at 3 (b'7' ∷ [])

abbrev second_record : ReviewRecord
second_record = record_at 9 (b'7' ∷ [])

abbrev row_at : ℕ → Bytes → ReviewRow
row_at time i = row_of_data short_json (record_at time i) i (b'o' ∷ b'k' ∷ [])

abbrev table_one : List ReviewRow
table_one = row_at 3 (b'7' ∷ []) ∷ []

abbrev table_two : List ReviewRow
table_two = row_at 9 (b'7' ∷ []) ∷ table_one

save_first : save_review short_json memory first_record [] ≡ saved table_one
unfolding save_review insert_result row_of_data
save_first = refl

save_second : save_review short_json memory second_record table_one ≡ saved table_two
unfolding save_review insert_result row_of_data equal
save_second = refl

save_review-get_review_example :
    ((j : Bytes)
      → get_review short_json memory j table_two ≡ (
          if equal j (9 ∷ [])
          then scanned second_record
          else get_review short_json memory j table_one))
    × ((q : ReviewRecord) (u : List ReviewRow)
        → save_review short_json memory (record q { record_id = 9 ∷ [] }) table_two ≢ saved u)
save_review-get_review_example =
    save_review-get_review short_json memory memory-IsLawful second_record table_one table_two
      (reads_back 9 (b'7' ∷ [])) save_second

history : Stored short_json memory (second_record ∷ first_record ∷ []) table_two
history =
    saves second_record (first_record ∷ []) table_one table_two
      (saves first_record [] [] table_one (fresh [] (λ j. refl)) save_first) save_second

list_reviews_by_pr-Stored_example :
    ((r : ReviewRecord)
      → Occurs r
          (list_reviews_by_pr short_json memory
            (b'p' ∷ [])
            (b'r' ∷ [])
            (b'7' ∷ [])
            table_two).listed
        ↔ SavedFor (second_record ∷ first_record ∷ []) (b'p' ∷ []) (b'r' ∷ []) (b'7' ∷ []) r)
    × Descending
        (λ (r : ReviewRecord). r.created_at)
        (list_reviews_by_pr short_json memory (b'p' ∷ []) (b'r' ∷ []) (b'7' ∷ []) table_two).listed
unfolding list_reviews_by_pr reviews_of
list_reviews_by_pr-Stored_example =
    list_reviews_by_pr-Stored short_json memory memory-IsLawful (second_record ∷ first_record ∷ [])
      table_two (reads_back 9 (b'7' ∷ []), (reads_back 3 (b'7' ∷ []), tt)) history (b'p' ∷ [])
      (b'r' ∷ []) (b'7' ∷ []) refl
