-- ===== src/Filter/Payload/Clean.antt =====
-- No key that is to be pruned is left.
use agent_sets.Prelude.{Bool-cases, Option, false, inl, inr, none, refl, some, suc, zero, ℕ, ◌≡◌}
use agent_sets.Aggregator.{member}
use agent_sets.Filter.Values.{
  json_null, json_bool, json_number, json_text, json_array, json_object, items_end, json_item,
  members_end, json_member, Value, find_member, Members, Values,
}
use agent_sets.Filter.Payload.{
  should_prune, key_of, as_project, set_member, json_object, json_item, simplify, prune,
  simplify_user, prune_members, simplify_repository, prune_items, simplify_ref, is_user_object,
  is_repository_object, is_ref_object,
}
use agent_sets.Text.{Bytes, equal, lit}

mutual
  unfolding should_prune

  -- No object of the first `n` levels has a key that is to be pruned.
  pub CleanTo : ℕ → Value → Type 0
  CleanTo zero v = Unit
  CleanTo (suc n) json_null = Unit
  CleanTo (suc n) (json_bool b) = Unit
  CleanTo (suc n) (json_number s) = Unit
  CleanTo (suc n) (json_text s) = Unit
  CleanTo (suc n) (json_array vs) = CleanItems n vs
  CleanTo (suc n) (json_object ms) = CleanMembers n ms

  pub CleanItems : ℕ → Values → Type 0
  CleanItems n items_end = Unit
  CleanItems n (json_item v vs) = CleanTo n v × CleanItems n vs

  pub CleanMembers : ℕ → Members → Type 0
  CleanMembers n members_end = Unit
  CleanMembers n (json_member k v ms) = (should_prune k ≡ false) × (CleanTo n v × CleanMembers n ms)

-- what is found in a clean object
CleanFound : ℕ → Option Value → Type 0
CleanFound n none = Unit
CleanFound n (some v) = CleanTo n v

find_member-CleanFound :
    (n : ℕ) (key : Bytes) (ms : Members) → CleanMembers n ms → CleanFound n (find_member key ms)
unfolding find_member CleanMembers CleanFound
find_member-CleanFound n key members_end h = tt
find_member-CleanFound n key (json_member k v ms) (p, (c, h)) = elim (Bool-cases (equal key k)) [
  | inl e ↦ rw e c
  | inr e ↦ rw e (find_member-CleanFound n key ms h)
]

set_member-CleanMembers :
    (n : ℕ) (key : Bytes) (o : Option Value) (rest : Members)
    → should_prune key ≡ false
    → CleanFound n o
    → CleanMembers n rest
    → CleanMembers n (set_member key o rest)
unfolding CleanMembers CleanFound
set_member-CleanMembers n key none rest p c h = h
set_member-CleanMembers n key (some json_null) rest p c h = h
set_member-CleanMembers n key (some (json_bool b)) rest p c h = (p, (c, h))
set_member-CleanMembers n key (some (json_number s)) rest p c h = (p, (c, h))
set_member-CleanMembers n key (some (json_text s)) rest p c h = (p, (c, h))
set_member-CleanMembers n key (some (json_array vs)) rest p c h = (p, (c, h))
set_member-CleanMembers n key (some (json_object ms)) rest p c h = (p, (c, h))

key_of-CleanFound : (n : ℕ) (o : Option Value) → CleanFound (suc n) o → CleanFound n (key_of o)
unfolding key_of CleanTo CleanFound
key_of-CleanFound n none h = tt
key_of-CleanFound n (some json_null) h = tt
key_of-CleanFound n (some (json_bool b)) h = tt
key_of-CleanFound n (some (json_number s)) h = tt
key_of-CleanFound n (some (json_text s)) h = tt
key_of-CleanFound n (some (json_array vs)) h = tt
key_of-CleanFound n (some (json_object ms)) h = find_member-CleanFound n (lit "key") ms h

as_project-CleanFound :
    (n : ℕ) (ms : Members) → CleanMembers n ms → CleanFound (suc n) (as_project ms)
unfolding as_project CleanTo CleanFound
as_project-CleanFound n members_end h = tt
as_project-CleanFound n (json_member k v ms) h = h

CleanFound-zero : (o : Option Value) → CleanFound 0 o
unfolding CleanFound CleanTo
CleanFound-zero none = tt
CleanFound-zero (some v) = tt

project-CleanFound :
    (n : ℕ) (o : Option Value)
    → CleanFound n o
    → CleanFound n (as_project (set_member (lit "key") (key_of o) members_end))
unfolding should_prune member equal CleanMembers
project-CleanFound zero o h =
    CleanFound-zero (as_project (set_member (lit "key") (key_of o) members_end))
project-CleanFound (suc n) o h =
    as_project-CleanFound n (set_member (lit "key") (key_of o) members_end) (
      set_member-CleanMembers n (lit "key") (key_of o) members_end refl (key_of-CleanFound n o h)
        tt)

simplify-CleanMembers : (n : ℕ) (ms : Members) → CleanMembers n ms → CleanMembers n (simplify ms)
unfolding simplify simplify_user simplify_repository simplify_ref should_prune member equal
    CleanMembers
simplify-CleanMembers n ms h =
    let found : (key : Bytes) → CleanFound n (find_member key ms) =
      λ key. find_member-CleanFound n key ms h in
    elim (Bool-cases (is_user_object ms)) [
      | inl e ↦ rw e (
          set_member-CleanMembers n (lit "displayName") (find_member (lit "displayName") ms)
            members_end refl (found (lit "displayName")) tt)
      | inr e ↦ elim (Bool-cases (is_repository_object ms)) [
        | inl d ↦
            let project =
              as_project
                (set_member (lit "key") (key_of (find_member (lit "project") ms)) members_end) in
            rw (e, d)
              (set_member-CleanMembers n (lit "slug") (find_member (lit "slug") ms)
                (set_member (lit "project") project members_end) refl (found (lit "slug"))
                (set_member-CleanMembers n (lit "project") project members_end refl
                  (project-CleanFound n (find_member (lit "project") ms) (found (lit "project")))
                  tt))
        | inr d ↦ elim (Bool-cases (is_ref_object ms)) [
          | inr c ↦ rw (e, d, c) h
          | inl c ↦
              let repository =
                set_member (lit "repository") (find_member (lit "repository") ms) members_end in
              let clean_repository =
                set_member-CleanMembers n (lit "repository") (find_member (lit "repository") ms)
                  members_end refl (found (lit "repository")) tt in
              rw (e, d, c)
                (set_member-CleanMembers n (lit "displayId") (find_member (lit "displayId") ms)
                  (set_member (lit "id") (find_member (lit "id") ms) repository) refl
                  (found (lit "displayId"))
                  (set_member-CleanMembers n (lit "id") (find_member (lit "id") ms) repository refl
                    (found (lit "id")) clean_repository))
        ]
      ]
    ]

mutual
  unfolding prune CleanTo

  prune_value-CleanTo : (n : ℕ) (v : Value) → CleanTo n (prune n v)
  prune_value-CleanTo zero v = tt
  prune_value-CleanTo (suc n) json_null = tt
  prune_value-CleanTo (suc n) (json_bool b) = tt
  prune_value-CleanTo (suc n) (json_number s) = tt
  prune_value-CleanTo (suc n) (json_text s) = tt
  prune_value-CleanTo (suc n) (json_array vs) = prune_items-CleanItems n vs
  prune_value-CleanTo (suc n) (json_object ms) =
      simplify-CleanMembers n (prune_members n ms) (prune_members-CleanMembers n ms)

  prune_items-CleanItems : (n : ℕ) (vs : Values) → CleanItems n (prune_items n vs)
  prune_items-CleanItems n items_end = tt
  prune_items-CleanItems n (json_item v vs) = (prune_value-CleanTo n v, prune_items-CleanItems n vs)

  prune_members-CleanMembers : (n : ℕ) (ms : Members) → CleanMembers n (prune_members n ms)
  prune_members-CleanMembers n members_end = tt
  prune_members-CleanMembers n (json_member k v ms) = elim (Bool-cases (should_prune k)) [
    | inl e ↦ rw e (prune_members-CleanMembers n ms)
    | inr e ↦ rw e (e, (prune_value-CleanTo n v, prune_members-CleanMembers n ms))
  ]

-- A pruned value has none of the keys that are to be pruned in the objects of its first levels, as many
-- as were pruned.
pub prune-CleanTo : (n : ℕ) (v : Value) → CleanTo n (prune n v)
prune-CleanTo n v = prune_value-CleanTo n v
