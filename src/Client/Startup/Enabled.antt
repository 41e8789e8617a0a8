-- ===== src/Client/Startup/Enabled.antt =====
-- mcp.go: which servers are connected at the start.
use agent_sets.Prelude.{
  List, Option, [], false, if◌then◌else◌, leb, map, none, some, true, ℕ, ◌++◌, ◌+◌, ◌∷◌, ◌≡◌,
}
use agent_sets.Filter.Values.{Members}
use agent_sets.Text.{Bytes, lit}
use agent_sets.Domain.{is_empty}
use agent_sets.Config.{McpServerConfig, McpConfig}
use agent_sets.Client.Connection.{CircuitBreaker, Connection}
use agent_sets.Client.Tools.{
  ToolServer, ToolState, Visit, Refreshed, refreshed, context_ended, refresh_failed,
}
use agent_sets.Client.Tools.Allowed.{limits}
use agent_sets.Client.Tools.Refresh.{IsFresh}

-- A server with an endpoint, and its restriction.
abbrev pub entry_of : Bytes → McpServerConfig → List (Bytes × List Bytes)
entry_of name c = if is_empty c.endpoint then [] else (name, c.allowed_tools) ∷ []

-- A server that must name its tools.
abbrev pub restricted_entry : Bytes → McpServerConfig → List Bytes → List (Bytes × List Bytes)
restricted_entry name c [] = []
restricted_entry name c (t ∷ ts) = entry_of name c

abbrev pub enabled : McpConfig → List (Bytes × List Bytes)
enabled m =
    (entry_of (lit "bitbucket") m.bitbucket
      ++ restricted_entry (lit "jira") m.jira m.jira.allowed_tools)
    ++ restricted_entry (lit "confluence") m.confluence m.confluence.allowed_tools

-- A connection that was tried for the first time at `now`, by what connecting gave: the session that was
-- made, or one failure.
abbrev pub first_connection : CircuitBreaker → ℕ → Option ℕ → Connection
first_connection cfg now (some session_id) = record {
  configured = true;
  transport = true;
  session = some session_id;
  stale = false;
  circuit = none;
}
first_connection cfg now none = record {
  configured = true;
  transport = false;
  session = none;
  stale = false;
  circuit = some (record {
    failures = 1;
    last_failure = now;
    open_until = if leb cfg.failure_threshold 1 then some (now + cfg.open_duration) else none;
  });
}

-- A server behind the first try.
abbrev pub tried : CircuitBreaker → (Bytes → Visit) → Bytes × List Bytes → ToolServer
tried cfg visit (name, tools) = record {
  server_name = name;
  server_tools = tools;
  connection = first_connection cfg (visit name).visit_time (visit name).visit_made;
}

module _ {F : Type 0} (registry : List (Bytes × (Members → Option F))) (cfg : CircuitBreaker)
    (visit : Bytes → Visit) where
  abbrev tried_all : List (Bytes × List Bytes) → List ToolServer
  tried_all = map (tried cfg visit)

-- What the start has come to.
abbrev pub Started : McpConfig → ToolState × Refreshed → Type 0
Started m (t, refreshed) = (limits t.servers ≡ enabled m) × IsFresh (enabled m) t.tool_cache
Started m (t, context_ended) = (limits t.servers ≡ enabled m) × (t.tool_cache ≡ [])
Started m (t, refresh_failed) = (limits t.servers ≡ enabled m) × (t.tool_cache ≡ [])
