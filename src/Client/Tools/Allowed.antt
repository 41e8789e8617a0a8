-- ===== src/Client/Tools/Allowed.antt =====
-- What the cache of tools has after a refresh.
use agent_sets.Prelude.{
  All, Bool-cases, List, Occurs, Option, [], ap, append-nil, append_assoc, arith, false, inl, inr,
  none, refl, some, some-inj, subst, sym, true, ◌++◌, ◌∙◌, ◌∷◌, ◌≡◌, ◌⊎◌,
}
use agent_sets.Maps.Laws.{lookup-put}
use agent_sets.Text.Search.{equal_iff}
use agent_sets.Text.{Bytes, equal, is_some}
use agent_sets.Maps.{put, lookup}
use agent_sets.Client.Connection.{CircuitBreaker}
use agent_sets.Client.Tools.{
  ToolServer, ToolCache, Visit, Refreshing, RawToolSchema, ListedTool, add_schemas, visit_servers,
  is_allowed, schemas_of, schema_of, visit_server,
}

-- The names of the servers with the tools that they are restricted to.
abbrev pub limits : List ToolServer → List (Bytes × List Bytes)
limits [] = []
limits (sv ∷ servers) = (sv.server_name, sv.server_tools) ∷ limits servers

abbrev pub AllAllowed : List Bytes → List RawToolSchema → Type 0
AllAllowed tools = All (λ x. is_allowed tools x.tool_name ≡ true)

-- What a cache has for a name is allowed for a server of this name.
abbrev pub CacheFrom : List (Bytes × List Bytes) → ToolCache → Type 0
CacheFrom known cache =
    (n : Bytes) (ts : List RawToolSchema)
    → lookup equal n cache ≡ some ts
    → (tools : List Bytes) × Occurs (n, tools) known × AllAllowed tools ts

schemas_of-AllAllowed :
    (tools : List Bytes) (ts : List ListedTool) → AllAllowed tools (schemas_of tools ts)
unfolding schemas_of schema_of
schemas_of-AllAllowed tools [] = tt
schemas_of-AllAllowed tools (t ∷ ts) = elim (Bool-cases (is_allowed tools t.listed_name)) [
  | inl e ↦ rw e (e, schemas_of-AllAllowed tools ts)
  | inr e ↦ rw e (schemas_of-AllAllowed tools ts)
]

put-CacheFrom :
    (known : List (Bytes × List Bytes)) (cache : ToolCache) (n : Bytes) (tools : List Bytes)
    (ts : List RawToolSchema)
    → Occurs (n, tools) known
    → AllAllowed tools ts
    → CacheFrom known cache
    → CacheFrom known (put equal n ts cache)
put-CacheFrom known cache n tools ts here allowed h m us e = elim (Bool-cases (equal m n)) [
  | inl d ↦
      let same : m ≡ n = (equal_iff m n).0 d in
      let k : some ts ≡ some us = rw (lookup-put equal n m ts cache equal_iff, d) at e in
      (
        tools,
        subst (λ (x : Bytes). Occurs (x, tools) known) (sym same) here,
        subst (AllAllowed tools) (some-inj ts us k) allowed,
      )
  | inr d ↦
      let k : lookup equal m cache ≡ some us =
        rw (lookup-put equal n m ts cache equal_iff, d) at e in
      h m us k
]

add_schemas-CacheFrom :
    (known : List (Bytes × List Bytes)) (sv : ToolServer) (o : Option (List ListedTool))
    (r : Refreshing)
    → Occurs (sv.server_name, sv.server_tools) known
    → CacheFrom known r.new_cache
    → CacheFrom known (add_schemas sv o r).new_cache
unfolding add_schemas
add_schemas-CacheFrom known sv none r here h = h
add_schemas-CacheFrom known sv (some tools) r here h =
    put-CacheFrom known r.new_cache sv.server_name sv.server_tools _ here
      (schemas_of-AllAllowed sv.server_tools tools) h

pub limits-append : (xs ys : List ToolServer) → limits (xs ++ ys) ≡ limits xs ++ limits ys
limits-append [] ys = refl
limits-append (x ∷ xs) ys = ap (◌∷◌ (x.server_name, x.server_tools)) (limits-append xs ys)

add_schemas-visited :
    (sv : ToolServer) (o : Option (List ListedTool)) (r : Refreshing)
    → (add_schemas sv o r).visited ≡ r.visited ++ (sv ∷ [])
unfolding add_schemas
add_schemas-visited sv none r = refl
add_schemas-visited sv (some tools) r = refl

-- A name that has an entry keeps one.
add_schemas-lookup :
    (sv : ToolServer) (o : Option (List ListedTool)) (r : Refreshing) (n : Bytes)
    → (add_schemas sv o r).any_error ≡ false
    → ((equal n sv.server_name ≡ true) ⊎ (is_some (lookup equal n r.new_cache) ≡ true))
    → is_some (lookup equal n (add_schemas sv o r).new_cache) ≡ true
unfolding add_schemas is_some
add_schemas-lookup sv none r n fine h = ground (arith, fine)
add_schemas-lookup sv (some tools) r n fine h =
    rw (lookup-put equal sv.server_name n (schemas_of sv.server_tools tools) r.new_cache equal_iff)
      (elim (Bool-cases (equal n sv.server_name)) [
        | inl e ↦ rw e refl
        | inr e ↦ rw e (elim h [ inl d ↦ ground (arith, sym e ∙ d) | inr d ↦ d ])
      ])

add_schemas_fine :
    (sv : ToolServer) (o : Option (List ListedTool)) (r : Refreshing)
    → (add_schemas sv o r).any_error ≡ false
    → r.any_error ≡ false
unfolding add_schemas
add_schemas_fine sv none r h = ground (arith, h)
add_schemas_fine sv (some tools) r h = h

module _ (cfg : CircuitBreaker) (visit : Bytes → Visit) where
  pub visit_servers-CacheFrom :
      (known : List (Bytes × List Bytes)) (servers : List ToolServer) (r : Refreshing)
      → ((x : Bytes × List Bytes) → Occurs x (limits servers) → Occurs x known)
      → CacheFrom known r.new_cache
      → CacheFrom known (visit_servers cfg visit servers r).new_cache
  unfolding visit_servers visit_server
  visit_servers-CacheFrom known [] r sub h = h
  visit_servers-CacheFrom known (sv ∷ servers) r sub h =
      visit_servers-CacheFrom known servers _ (λ x k. sub x (inr k))
        (add_schemas-CacheFrom known _ _ r (sub (sv.server_name, sv.server_tools) (inl refl)) h)

  pub visit_servers-limits :
      (servers : List ToolServer) (r : Refreshing)
      → limits (visit_servers cfg visit servers r).visited ≡ limits r.visited ++ limits servers
  unfolding visit_servers visit_server
  visit_servers-limits [] r = sym (append-nil (limits r.visited))
  visit_servers-limits (sv ∷ servers) r =
      visit_servers-limits servers (visit_server cfg (visit sv.server_name) sv r)
      ∙ ap (λ (x : List (Bytes × List Bytes)). x ++ limits servers)
          (ap limits (add_schemas-visited _ _ r) ∙ limits-append r.visited _)
      ∙ append_assoc (limits r.visited) ((sv.server_name, sv.server_tools) ∷ []) (limits servers)

  visit_servers_fine :
      (servers : List ToolServer) (r : Refreshing)
      → (visit_servers cfg visit servers r).any_error ≡ false
      → r.any_error ≡ false
  unfolding visit_servers visit_server
  visit_servers_fine [] r h = h
  visit_servers_fine (sv ∷ servers) r h = add_schemas_fine _ _ r (visit_servers_fine servers _ h)

  pub visit_servers-lookup :
      (servers : List ToolServer) (r : Refreshing) (n : Bytes)
      → (visit_servers cfg visit servers r).any_error ≡ false
      → (((tools : List Bytes) × Occurs (n, tools) (limits servers))
          ⊎ (is_some (lookup equal n r.new_cache) ≡ true))
      → is_some (lookup equal n (visit_servers cfg visit servers r).new_cache) ≡ true
  unfolding visit_servers visit_server
  visit_servers-lookup [] r n fine (inl (tools, o)) = absurd o
  visit_servers-lookup [] r n fine (inr h) = h
  visit_servers-lookup (sv ∷ servers) r n fine (inl (tools, inr later)) =
      visit_servers-lookup servers _ n fine (inl (tools, later))
  visit_servers-lookup (sv ∷ servers) r n fine (inl (tools, inl same)) =
      visit_servers-lookup servers _ n fine (
        inr (
          add_schemas-lookup _ _ r n (visit_servers_fine servers _ fine)
            (inl ((equal_iff n sv.server_name).1 (ap (λ (x : Bytes × List Bytes). x.0) same)))))
  visit_servers-lookup (sv ∷ servers) r n fine (inr h) =
      visit_servers-lookup servers _ n fine
        (inr (add_schemas-lookup _ _ r n (visit_servers_fine servers _ fine) (inr h)))
