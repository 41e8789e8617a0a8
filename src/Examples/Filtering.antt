-- ===== src/Examples/Filtering.antt =====
-- A payload that is pruned, and strings that are cut.
use agent_sets.Prelude.{refl, ◌+◌, ◌≡◌}
use agent_sets.Filter.Response.{truncate_recursive}
use agent_sets.Text.{lit}
use agent_sets.Filter.Response.Bound.{TextsWithin, truncate_recursive-Within}
use agent_sets.Filter.Payload.Clean.{CleanTo, prune-CleanTo}
use agent_sets.Filter.Payload.{prune}
use agent_sets.Filter.Values.{
  json_text, json_array, json_object, items_end, json_item, members_end, json_member, Value,
}

-- what the tests of the source give for a ref with its commit
abbrev ref : Value
ref = json_object (
    json_member (lit "displayId") (json_text (lit "main")) (
      json_member (lit "latestCommit") (json_text (lit "c0ffee"))
        (json_member (lit "id") (json_text (lit "refs/heads/main")) members_end)))

no_commit :
    prune 11 ref
    ≡ json_object (
        json_member
          (lit "displayId")
          (json_text (lit "main"))
          (json_member (lit "id") (json_text (lit "refs/heads/main")) members_end))
unfolding prune
no_commit = refl

prune-CleanTo_example : CleanTo 11 (prune 11 ref)
prune-CleanTo_example = prune-CleanTo 11 ref

truncate_recursive-Within_example :
    TextsWithin
      (3 + 15)
      (truncate_recursive 3 (json_array (json_item (json_text (lit "long")) items_end)))
truncate_recursive-Within_example =
    truncate_recursive-Within 3 (json_array (json_item (json_text (lit "long")) items_end))
