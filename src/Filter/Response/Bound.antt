-- ===== src/Filter/Response/Bound.antt =====
-- No string stays long.
use agent_sets.Prelude.{
  Bool-cases, arith, inl, inr, length, length-append, length-take, ltb, take, ℕ, ◌+◌, ◌≤◌,
}
use agent_sets.Filter.Values.{
  json_null, json_bool, json_number, json_text, json_array, json_object, items_end, json_item,
  members_end, json_member, Value, Values, Members,
}
use agent_sets.Filter.Response.{
  truncate_text, truncated, truncate_recursive, truncate_items, truncate_members,
}
use agent_sets.Text.{Bytes}

mutual
  -- Every string is of `n` bytes at most.
  pub TextsWithin : ℕ → Value → Type 0
  TextsWithin n json_null = Unit
  TextsWithin n (json_bool b) = Unit
  TextsWithin n (json_number s) = Unit
  TextsWithin n (json_text s) = length s ≤ n
  TextsWithin n (json_array vs) = ItemsWithin n vs
  TextsWithin n (json_object ms) = MembersWithin n ms

  pub ItemsWithin : ℕ → Values → Type 0
  ItemsWithin n items_end = Unit
  ItemsWithin n (json_item v vs) = TextsWithin n v × ItemsWithin n vs

  pub MembersWithin : ℕ → Members → Type 0
  MembersWithin n members_end = Unit
  MembersWithin n (json_member k v ms) = TextsWithin n v × MembersWithin n ms

truncate_text-length : (n : ℕ) (s : Bytes) → length (truncate_text n s) ≤ n + 15
unfolding truncate_text
truncate_text-length n s = elim (Bool-cases (ltb n (length s))) [
  | inl e ↦ rw e (omega (arith, length-append (take n s) truncated, length-take n s))
  | inr e ↦ rw e (ground (arith, e))
]

mutual
  unfolding truncate_recursive TextsWithin

  truncate_value-Within : (n : ℕ) (v : Value) → TextsWithin (n + 15) (truncate_recursive n v)
  truncate_value-Within n json_null = tt
  truncate_value-Within n (json_bool b) = tt
  truncate_value-Within n (json_number s) = tt
  truncate_value-Within n (json_text s) = truncate_text-length n s
  truncate_value-Within n (json_array vs) = truncate_items-Within n vs
  truncate_value-Within n (json_object ms) = truncate_members-Within n ms

  truncate_items-Within : (n : ℕ) (vs : Values) → ItemsWithin (n + 15) (truncate_items n vs)
  truncate_items-Within n items_end = tt
  truncate_items-Within n (json_item v vs) = (truncate_value-Within n v, truncate_items-Within n vs)

  truncate_members-Within : (n : ℕ) (ms : Members) → MembersWithin (n + 15) (truncate_members n ms)
  truncate_members-Within n members_end = tt
  truncate_members-Within n (json_member k v ms) =
      (truncate_value-Within n v, truncate_members-Within n ms)

-- Behind the cut no string of a value, however deep, is longer than the limit and the 15 bytes of the
-- note that it was cut.
pub truncate_recursive-Within : (n : ℕ) (v : Value) → TextsWithin (n + 15) (truncate_recursive n v)
truncate_recursive-Within n v = truncate_value-Within n v
