-- ===== src/Client/Tools.antt =====
-- mcp_schemas.go: the cache of the tools that the servers have. What a server lists is a parameter, and
-- the servers come in the order in which the map is visited.
pub mod Allowed
pub mod Refresh
use agent_sets.Prelude.{
  Bool, List, Option, [], false, if◌then◌else◌, none, some, suc, true, zero, ℕ, ◌++◌, ◌||◌, ◌∷◌,
}
use agent_sets.Text.{Bytes, equal}
use agent_sets.Maps.{put}
use agent_sets.Filter.Values.{Members}
use agent_sets.Client.Connection.{Connection, CircuitBreaker, get_or_reconnect}

-- The schema of a listed tool: none, an object, or another value with what `json.Marshal` and
-- `json.Unmarshal` make of it.
pub data InputSchema : Type 0 where
  no_schema : InputSchema
  schema_object : Members → InputSchema
  schema_other : Option Members → InputSchema

pub record ListedTool : Type 0 where
  pub listed_name : Bytes
  pub listed_schema : InputSchema

pub record RawToolSchema : Type 0 where
  pub tool_name : Bytes
  pub input_schema : Option Members

abbrev pub ToolCache : Type 0
ToolCache = List (Bytes × List RawToolSchema)

-- A server of the map `endpoints`, and its connection.
pub record ToolServer : Type 0 where
  pub server_name : Bytes
  pub server_tools : List Bytes  -- `allowedTools`
  pub connection : Connection

-- What a visit of a server sees: the clock, what connecting would give, and what a session lists.
pub record Visit : Type 0 where
  pub visit_time : ℕ
  pub visit_made : Option ℕ
  pub listing : ℕ → Option (List ListedTool)

unfoldable pub has_name : Bytes → List Bytes → Bool
unfolding equal
has_name n [] = false
has_name n (m ∷ ms) = equal n m || has_name n ms

unfoldable pub is_allowed : List Bytes → Bytes → Bool
unfolding has_name
is_allowed [] n = true
is_allowed (m ∷ ms) n = has_name n (m ∷ ms)

unfoldable pub schema_of : ListedTool → RawToolSchema
schema_of t = record {
  tool_name = t.listed_name;
  input_schema = elim t.listed_schema [
    | no_schema ↦ none
    | schema_object m ↦ some m
    | schema_other o ↦ o
  ];
}

unfoldable pub schemas_of : List Bytes → List ListedTool → List RawToolSchema
unfolding is_allowed schema_of
schemas_of tools [] = []
schemas_of tools (t ∷ ts) =
    let rest = schemas_of tools ts in
    if is_allowed tools t.listed_name then schema_of t ∷ rest else rest

-- The loop over the servers: their connections, whether there was an error, and the new cache.
pub record Refreshing : Type 0 where
  pub visited : List ToolServer
  pub any_error : Bool
  pub new_cache : ToolCache

unfoldable pub list_tools : Visit → Option ℕ → Option (List ListedTool)
list_tools v none = none
list_tools v (some session) = v.listing session

unfoldable pub add_schemas : ToolServer → Option (List ListedTool) → Refreshing → Refreshing
unfolding put schemas_of
add_schemas sv none r = record r { visited = r.visited ++ (sv ∷ []); any_error = true }
add_schemas sv (some tools) r = record r {
  visited = r.visited ++ (sv ∷ []);
  new_cache = put equal sv.server_name (schemas_of sv.server_tools tools) r.new_cache;
}

module _ (cfg : CircuitBreaker) where
  unfoldable pub visit_server : Visit → ToolServer → Refreshing → Refreshing
  unfolding add_schemas list_tools get_or_reconnect
  visit_server v sv r =
      let (c, session) = get_or_reconnect cfg v.visit_time v.visit_made sv.connection in
      add_schemas (record sv { connection = c }) (list_tools v session) r

  unfoldable pub visit_servers : (Bytes → Visit) → List ToolServer → Refreshing → Refreshing
  unfolding visit_server
  visit_servers visit [] r = r
  visit_servers visit (sv ∷ servers) r =
      visit_servers visit servers (visit_server (visit sv.server_name) sv r)

-- The servers and the cache of the client.
pub record ToolState : Type 0 where
  pub servers : List ToolServer
  pub tool_cache : ToolCache

-- The cache is replaced as a whole, and only without an error.
unfoldable pub end_refresh : ToolState → Refreshing → ToolState × Bool
end_refresh s r =
    if r.any_error
    then (record s { servers = r.visited }, false)
    else (record s { servers = r.visited; tool_cache = r.new_cache }, true)

module _ (cfg : CircuitBreaker) where
  unfoldable pub do_refresh_tool_cache : (Bytes → Visit) → ToolState → ToolState × Bool
  unfolding visit_servers end_refresh
  do_refresh_tool_cache visit s = end_refresh s (
      visit_servers cfg visit s.servers
        (record { visited = []; any_error = false; new_cache = [] }))

pub data Refreshed : Type 0 where
  refreshed context_ended refresh_failed : Refreshed

-- Behind an attempt: whether the context ended, and the attempts that follow.
unfoldable pub after_attempt :
    Bool → (ToolState → ToolState × Refreshed) → ToolState × Bool → ToolState × Refreshed
after_attempt done again (s, true) = (s, refreshed)
after_attempt true again (s, false) = (s, context_ended)
after_attempt false again (s, false) = again s

module _ (cfg : CircuitBreaker) (visit : ℕ → Bytes → Visit) (is_done : ℕ → Bool) where
  -- `left` attempts are still to be made, the next one with number `n`.
  unfoldable pub refresh_attempts : ℕ → ℕ → ToolState → ToolState × Refreshed
  unfolding do_refresh_tool_cache after_attempt
  refresh_attempts zero n s = (s, refresh_failed)
  refresh_attempts (suc left) n s =
      after_attempt (is_done n) (refresh_attempts left (suc n))
        (do_refresh_tool_cache cfg (visit n) s)

  unfoldable pub refresh_tool_cache : ToolState → ToolState × Refreshed
  unfolding refresh_attempts
  refresh_tool_cache s = refresh_attempts 3 0 s

-- A copy of the map.
unfoldable pub get_raw_tool_schemas : ToolState → ToolCache
get_raw_tool_schemas s = s.tool_cache
