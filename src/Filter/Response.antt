-- ===== src/Filter/Response.antt =====
-- bitbucket/response.go: the strings of an answer that are cut. Deletion by a path is sjson's.
pub mod Bound
use agent_sets.Prelude.{
  List, Option, [], if◌then◌else◌, length, ltb, none, some, suc, take, zero, ℕ, ◌++◌, ◌∷◌,
}
use agent_sets.Filter.Values.{
  json_null, json_bool, json_number, json_text, json_array, json_object, items_end, json_item,
  members_end, json_member, Value, Values, Members,
}
use agent_sets.Text.{Bytes, lit, digits, equal}

abbrev pub truncated : Bytes
truncated = lit "... [TRUNCATED]"

-- A negative limit, at which the slice of the source panics, is left out.
unfoldable pub truncate_text : ℕ → Bytes → Bytes
truncate_text max_len s = if ltb max_len (length s) then take max_len s ++ truncated else s

unfoldable mutual
  unfolding truncate_text

  pub truncate_recursive : ℕ → Value → Value
  truncate_recursive n json_null = json_null
  truncate_recursive n (json_bool b) = json_bool b
  truncate_recursive n (json_number s) = json_number s
  truncate_recursive n (json_text s) = json_text (truncate_text n s)
  truncate_recursive n (json_array vs) = json_array (truncate_items n vs)
  truncate_recursive n (json_object ms) = json_object (truncate_members n ms)

  pub truncate_items : ℕ → Values → Values
  truncate_items n items_end = items_end
  truncate_items n (json_item v vs) = json_item (truncate_recursive n v) (truncate_items n vs)

  pub truncate_members : ℕ → Members → Members
  truncate_members n members_end = members_end
  truncate_members n (json_member k v ms) =
      json_member k (truncate_recursive n v) (truncate_members n ms)

-- `filterLongStrings`, with encoding/json as parameters
unfoldable pub filter_long_strings :
    (Bytes → Option Value) → (Value → Option Bytes) → ℕ → Bytes → Bytes
unfolding truncate_recursive
filter_long_strings unmarshal marshal max_len data_ = elim (unmarshal data_) [
  | none ↦ data_
  | some v ↦ elim (marshal (truncate_recursive max_len v)) [ none ↦ data_ | some b ↦ b ]
]

-- gjson and sjson: the text at a path, the number of the values, and a document without a path or with
-- another text there.
pub record Sjson : Type 0 where
  pub get : Bytes → Bytes → Bytes
  pub count_values : Bytes → ℕ
  pub delete : Bytes → Bytes → Bytes
  pub set : Bytes → Bytes → Bytes → Bytes

abbrev max_comment_length : ℕ
max_comment_length = 500

abbrev tool_get_comments : Bytes
tool_get_comments = lit "bitbucket_get_pull_request_comments"

abbrev tool_get_pull_request : Bytes
tool_get_pull_request = lit "bitbucket_get_pull_request"

abbrev tool_get_changes : Bytes
tool_get_changes = lit "bitbucket_get_pull_request_changes"

module _ (j : Sjson) where
  unfoldable pub delete_all : Bytes → List Bytes → Bytes → Bytes
  delete_all prefix [] result = result
  delete_all prefix (path ∷ paths) result =
      delete_all prefix paths (j.delete result (prefix ++ path))

  abbrev values_prefix : ℕ → Bytes
  values_prefix i = lit "values." ++ digits i

  abbrev comment_paths : List Bytes
  comment_paths =
      lit ".author.id"
      ∷ lit ".author.emailAddress"
      ∷ lit ".author.slug"
      ∷ lit ".author.type"
      ∷ lit ".author.active"
      ∷ lit ".author.links"
      ∷ lit ".links"
      ∷ lit ".permittedOperations"
      ∷ lit ".version"
      ∷ lit ".state"
      ∷ lit ".createdDate"
      ∷ lit ".updatedDate"
      ∷ lit ".severity"
      ∷ lit ".content.markup"
      ∷ lit ".content.html"
      ∷ []

  unfoldable pub cut_text : Bytes → Bytes → Bytes
  cut_text prefix result =
      let path = prefix ++ lit ".text" in
      let shown = j.get result path in
      if ltb max_comment_length (length shown)
      then j.set result path (take max_comment_length shown ++ truncated)
      else result

  unfoldable pub filter_comment : ℕ → Bytes → Bytes
  unfolding delete_all cut_text
  filter_comment i result =
      cut_text (values_prefix i) (delete_all (values_prefix i) comment_paths result)

  -- `n` values are left, of which the first is number `i`.
  unfoldable pub each_value : (ℕ → Bytes → Bytes) → ℕ → ℕ → Bytes → Bytes
  each_value f zero i result = result
  each_value f (suc n) i result = each_value f n (suc i) (f i result)

  unfoldable pub filter_comments : Bytes → Bytes
  unfolding each_value filter_comment
  filter_comments data_ = each_value filter_comment (j.count_values data_) 0 data_

  unfoldable pub filter_pull_request : Bytes → Bytes
  unfolding delete_all
  filter_pull_request data_ =
      delete_all []
        (lit "links"
          ∷ lit "reviewers"
          ∷ lit "participants"
          ∷ lit "version"
          ∷ lit "createdDate"
          ∷ lit "updatedDate"
          ∷ lit "closed"
          ∷ lit "locked"
          ∷ lit "author.user.id"
          ∷ lit "author.user.emailAddress"
          ∷ lit "author.user.slug"
          ∷ lit "author.user.type"
          ∷ lit "author.user.active"
          ∷ lit "author.user.links"
          ∷ lit "author.role"
          ∷ lit "author.approved"
          ∷ lit "author.status"
          ∷ [])
        data_

  unfoldable pub filter_change : ℕ → Bytes → Bytes
  unfolding delete_all
  filter_change i result =
      delete_all (values_prefix i)
        (lit ".links"
          ∷ lit ".contentId"
          ∷ lit ".fromContentId"
          ∷ lit ".properties"
          ∷ lit ".path.components"
          ∷ lit ".path.parent"
          ∷ lit ".executable"
          ∷ lit ".percentUnchanged"
          ∷ [])
        result

  unfoldable pub filter_changes : Bytes → Bytes
  unfolding each_value filter_change
  filter_changes data_ = each_value filter_change (j.count_values data_) 0 data_

  unfoldable pub filter_tool :
      (Bytes → Option Value) → (Value → Option Bytes) → ℕ → Bytes → Bytes → Bytes
  unfolding filter_comments filter_pull_request filter_changes filter_long_strings equal
  filter_tool unmarshal marshal max_len tool_name data_ =
      if equal tool_name tool_get_comments
      then filter_comments data_
      else if equal tool_name tool_get_pull_request
      then filter_pull_request data_
      else if equal tool_name tool_get_changes
      then filter_changes data_
      else filter_long_strings unmarshal marshal max_len data_
