-- ===== src/Filter/Values.antt =====
-- The JSON values that encoding/json decodes into: an object is the list of its members.
use agent_sets.Prelude.{Bool, Option, if◌then◌else◌, none, some}
use agent_sets.Text.{Bytes, equal}

mutual
  pub data Value : Type 0 where
    json_null : Value
    json_bool : Bool → Value
    json_number json_text : Bytes → Value
    json_array : Values → Value
    json_object : Members → Value

  pub data Values : Type 0 where
    items_end : Values
    json_item : Value → Values → Values

  pub data Members : Type 0 where
    members_end : Members
    json_member : Bytes → Value → Members → Members

-- `m[key]`
unfoldable pub find_member : Bytes → Members → Option Value
unfolding equal
find_member key members_end = none
find_member key (json_member k v ms) =
    let rest = find_member key ms in if equal key k then some v else rest
