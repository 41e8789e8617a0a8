-- ===== src/Filter/Payload.antt =====
-- bitbucket/payload.go and rules.go. The first argument of `prune` is how many levels are left: the code
-- counts the depth up to 10.
pub mod Clean
use agent_sets.Prelude.{Bool, List, Option, [], if◌then◌else◌, none, some, suc, zero, ℕ, ◌&&◌, ◌∷◌}
use agent_sets.Filter.Values.{
  json_null, json_bool, json_number, json_text, json_array, json_object, items_end, json_item,
  members_end, json_member, find_member, Members, Value, Values,
}
use agent_sets.Aggregator.{member}
use agent_sets.Text.{Bytes, lit, is_some}

abbrev prune_keys : List Bytes
prune_keys =
    lit "actor"
    ∷ lit "reviewers"
    ∷ lit "participants"
    ∷ lit "links"
    ∷ lit "permittedOperations"
    ∷ lit "anchored"
    ∷ lit "version"
    ∷ lit "state"
    ∷ lit "markup"
    ∷ lit "html"
    ∷ lit "archived"
    ∷ lit "public"
    ∷ lit "forkable"
    ∷ lit "hierarchyId"
    ∷ lit "scmId"
    ∷ lit "statusMessage"
    ∷ lit "latestCommit"
    ∷ []

unfoldable pub should_prune : Bytes → Bool
unfolding member
should_prune key = member key prune_keys

unfoldable pub has_member : Bytes → Members → Bool
unfolding find_member is_some
has_member key ms = is_some (find_member key ms)

unfoldable pub is_user_object : Members → Bool
unfolding has_member
is_user_object ms =
    has_member (lit "displayName") ms && (has_member (lit "slug") ms && has_member (lit "id") ms)

unfoldable pub is_repository_object : Members → Bool
unfolding has_member
is_repository_object ms = has_member (lit "slug") ms && has_member (lit "project") ms

unfoldable pub is_ref_object : Members → Bool
unfolding has_member
is_ref_object ms = has_member (lit "displayId") ms && has_member (lit "id") ms

-- `if v != nil { m[key] = v }`
abbrev pub set_member : Bytes → Option Value → Members → Members
set_member key none rest = rest
set_member key (some json_null) rest = rest
set_member key (some (json_bool b)) rest = json_member key (json_bool b) rest
set_member key (some (json_number s)) rest = json_member key (json_number s) rest
set_member key (some (json_text s)) rest = json_member key (json_text s) rest
set_member key (some (json_array vs)) rest = json_member key (json_array vs) rest
set_member key (some (json_object ms)) rest = json_member key (json_object ms) rest

-- `project["key"]` of an object
unfoldable pub key_of : Option Value → Option Value
unfolding find_member
key_of none = none
key_of (some json_null) = none
key_of (some (json_bool b)) = none
key_of (some (json_number s)) = none
key_of (some (json_text s)) = none
key_of (some (json_array vs)) = none
key_of (some (json_object ms)) = find_member (lit "key") ms

-- `map[string]interface{}{"key": projectKey}`, if there is one
unfoldable pub as_project : Members → Option Value
as_project members_end = none
as_project (json_member k v ms) = some (json_object (json_member k v ms))

unfoldable pub simplify_user : Members → Members
unfolding find_member
simplify_user ms = set_member (lit "displayName") (find_member (lit "displayName") ms) members_end

unfoldable pub simplify_repository : Members → Members
unfolding find_member key_of as_project
simplify_repository ms =
    let project = set_member (lit "key") (key_of (find_member (lit "project") ms)) members_end in
    set_member (lit "slug") (find_member (lit "slug") ms)
      (set_member (lit "project") (as_project project) members_end)

unfoldable pub simplify_ref : Members → Members
unfolding find_member
simplify_ref ms = set_member (lit "displayId") (find_member (lit "displayId") ms) (
    set_member (lit "id") (find_member (lit "id") ms)
      (set_member (lit "repository") (find_member (lit "repository") ms) members_end))

unfoldable pub simplify : Members → Members
unfolding is_user_object is_repository_object is_ref_object simplify_user simplify_repository
    simplify_ref
simplify ms =
    if is_user_object ms
    then simplify_user ms
    else if is_repository_object ms
    then simplify_repository ms
    else if is_ref_object ms
    then simplify_ref ms
    else ms

unfoldable mutual
  unfolding should_prune simplify

  pub prune : ℕ → Value → Value
  prune zero v = v
  prune (suc n) json_null = json_null
  prune (suc n) (json_bool b) = json_bool b
  prune (suc n) (json_number s) = json_number s
  prune (suc n) (json_text s) = json_text s
  prune (suc n) (json_array vs) = json_array (prune_items n vs)
  prune (suc n) (json_object ms) = json_object (simplify (prune_members n ms))

  pub prune_items : ℕ → Values → Values
  prune_items n items_end = items_end
  prune_items n (json_item v vs) = json_item (prune n v) (prune_items n vs)

  pub prune_members : ℕ → Members → Members
  prune_members n members_end = members_end
  prune_members n (json_member k v ms) =
      let rest = prune_members n ms in
      if should_prune k then rest else json_member k (prune n v) rest

-- A payload that is an object is pruned; encoding/json is given by parameters.
unfoldable pub filter_object : (Value → Option Bytes) → Bytes → Value → Bytes
unfolding prune
filter_object marshal payload v = elim (marshal (prune 11 v)) [ none ↦ payload | some b ↦ b ]

unfoldable pub filter_payload : (Bytes → Option Members) → (Value → Option Bytes) → Bytes → Bytes
unfolding filter_object
filter_payload unmarshal marshal payload = elim (unmarshal payload) [
  | none ↦ payload
  | some ms ↦ filter_object marshal payload (json_object ms)
]
