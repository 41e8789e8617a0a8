-- ===== src/Client/Tools/Refresh.antt =====
-- What the attempts of a refresh come to.
use agent_sets.Prelude.{
  Bool, Bool-cases, List, Occurs, [], false, inl, inr, none-ne-some, refl, some, subst, suc, true,
  zero, ℕ, ◌∙◌, ◌≡◌, ◌≢◌,
}
use agent_sets.Text.{Bytes, equal, is_some}
use agent_sets.Maps.{lookup}
use agent_sets.Client.Connection.{CircuitBreaker}
use agent_sets.Client.Tools.{
  ToolCache, Visit, Refreshing, ToolState, RawToolSchema, Refreshed, visit_servers,
  do_refresh_tool_cache, refresh_tool_cache, refresh_attempts, after_attempt, refreshed,
  context_ended, refresh_failed, end_refresh,
}
use agent_sets.Client.Tools.Allowed.{
  limits, CacheFrom, visit_servers-CacheFrom, visit_servers-limits, visit_servers-lookup,
}

-- Every server has an entry, and nothing is in the cache that is not allowed.
abbrev pub IsFresh : List (Bytes × List Bytes) → ToolCache → Type 0
IsFresh known cache =
    CacheFrom known cache
    × ((n : Bytes) (tools : List Bytes)
        → Occurs (n, tools) known
        → is_some (lookup equal n cache) ≡ true)

abbrev Kept : ToolState → ToolState → Type 0
Kept s t = (limits t.servers ≡ limits s.servers) × (t.tool_cache ≡ s.tool_cache)

abbrev Attempted : ToolState → ToolState × Bool → Type 0
Attempted s (t, true) =
    (limits t.servers ≡ limits s.servers) × IsFresh (limits s.servers) t.tool_cache
Attempted s (t, false) = Kept s t

-- A refresh that is done has a fresh cache, and any other the cache of before; the servers keep their
-- names and restrictions.
abbrev pub Outcome : ToolState → ToolState × Refreshed → Type 0
Outcome s (t, refreshed) =
    (limits t.servers ≡ limits s.servers) × IsFresh (limits s.servers) t.tool_cache
Outcome s (t, context_ended) = (limits t.servers ≡ limits s.servers) × (t.tool_cache ≡ s.tool_cache)
Outcome s (t, refresh_failed) =
    (limits t.servers ≡ limits s.servers) × (t.tool_cache ≡ s.tool_cache)

Outcome-Kept : (s t : ToolState) (r : ToolState × Refreshed) → Kept s t → Outcome t r → Outcome s r
Outcome-Kept s t (u, refreshed) (k, c) (e, f) =
    (e ∙ k, subst (λ (x : List (Bytes × List Bytes)). IsFresh x u.tool_cache) k f)
Outcome-Kept s t (u, context_ended) (k, c) (e, f) = (e ∙ k, f ∙ c)
Outcome-Kept s t (u, refresh_failed) (k, c) (e, f) = (e ∙ k, f ∙ c)

none_found : (n : Bytes) (ts : List RawToolSchema) → lookup equal n [] ≢ some ts
unfolding lookup
none_found n ts h = none-ne-some ts h

module _ (cfg : CircuitBreaker) where
  do_refresh_tool_cache-Attempted :
      (visit : Bytes → Visit) (s : ToolState) → Attempted s (do_refresh_tool_cache cfg visit s)
  unfolding do_refresh_tool_cache end_refresh
  do_refresh_tool_cache-Attempted visit s =
      let start : Refreshing = record { visited = []; any_error = false; new_cache = [] } in
      let names = visit_servers-limits cfg visit s.servers start in
      elim (Bool-cases (visit_servers cfg visit s.servers start).any_error) [
        | inl e ↦ rw e (names, refl)
        | inr e ↦ rw e (
          names,
          (
            visit_servers-CacheFrom cfg visit (limits s.servers) s.servers start (λ x o. o)
                (λ n ts h. absurd (none_found n ts h)),
            λ n tools o. visit_servers-lookup cfg visit s.servers start n e (inl (tools, o)),
          ),
        )
      ]

  after_attempt-Outcome :
      (done : Bool) (again : ToolState → ToolState × Refreshed) (s : ToolState)
      (r : ToolState × Bool)
      → Attempted s r
      → ((t : ToolState) → Outcome t (again t))
      → Outcome s (after_attempt done again r)
  unfolding after_attempt
  after_attempt-Outcome done again s (t, true) h k = h
  after_attempt-Outcome true again s (t, false) h k = h
  after_attempt-Outcome false again s (t, false) h k = Outcome-Kept s t (again t) h (k t)

module _ (cfg : CircuitBreaker) (visit : ℕ → Bytes → Visit) (is_done : ℕ → Bool) where
  refresh_attempts-Outcome :
      (left n : ℕ) (s : ToolState) → Outcome s (refresh_attempts cfg visit is_done left n s)
  unfolding refresh_attempts
  refresh_attempts-Outcome zero n s = (refl, refl)
  refresh_attempts-Outcome (suc left) n s =
      after_attempt-Outcome cfg (is_done n) (refresh_attempts cfg visit is_done left (suc n)) s
        (do_refresh_tool_cache cfg (visit n) s) (do_refresh_tool_cache-Attempted cfg (visit n) s)
        (refresh_attempts-Outcome left (suc n))

  -- A refresh that is done leaves a cache in which every server has an entry, and what an entry holds is
  -- allowed for a server of its name. A refresh that fails, or whose context ends, leaves the cache as it
  -- was. No refresh changes the names of the servers or what they are restricted to.
  pub refresh_tool_cache-Outcome :
      (s : ToolState) → Outcome s (refresh_tool_cache cfg visit is_done s)
  unfolding refresh_tool_cache
  refresh_tool_cache-Outcome s = refresh_attempts-Outcome 3 0 s
