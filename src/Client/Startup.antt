-- ===== src/Client/Startup.antt =====
-- mcp.go: `InitializeConnections`, `SetResponseFilter` and `Close`, and the probe of main.go that asks for
-- the health of the connections. A filter of answers is a value of a type that is a parameter.
pub mod Enabled
use agent_sets.Prelude.{
  Bool, List, Option, [], false, if◌then◌else◌, none, not, some, true, ℕ, ◌&&◌, ◌++◌, ◌∷◌,
}
use agent_sets.Prelude.Int.{pos_part}
use agent_sets.Filter.Chain.{chain_filter}
use agent_sets.Text.{Bytes, lit, equal}
use agent_sets.Maps.{put, lookup}
use agent_sets.Domain.{is_empty}
use agent_sets.Filter.Values.{Members}
use agent_sets.Filter.Registry.{create}
use agent_sets.Config.{McpServerConfig, McpConfig, FilterConfig}
use agent_sets.Client.Connection.{Connection, CircuitBreaker, get_or_reconnect, is_healthy}
use agent_sets.Client.Tools.{ToolServer, ToolState, Visit, Refreshed, refresh_tool_cache}

-- What is set for a server: a filter, or a chain.
pub data ServerFilter (F : Type 0) : Type 0 where
  one_filter : F → ServerFilter F
  filter_chain : List F → ServerFilter F

unfoldable pub chain_of : {F : Type 0} → Option (ServerFilter F) → List F
chain_of none = []
chain_of (some (one_filter f)) = f ∷ []
chain_of (some (filter_chain fs)) = fs

-- Filters that cannot be made are left out.
unfoldable pub add_created :
    {F : Type 0} → List (Bytes × (Members → Option F)) → List FilterConfig → List F → List F
unfolding create
add_created registry [] fs = fs
add_created registry (c ∷ cs) fs = elim (create registry c.filter_name c.filter_options) [
  | none ↦ add_created registry cs fs
  | some f ↦ add_created registry cs (fs ++ (f ∷ []))
]

unfoldable pub setup_filters :
    {F : Type 0}
    → List (Bytes × (Members → Option F))
    → Bytes
    → List FilterConfig
    → List (Bytes × ServerFilter F)
    → List (Bytes × ServerFilter F)
unfolding chain_of add_created put lookup
setup_filters registry name [] filters = filters
setup_filters registry name (c ∷ cs) filters =
    put equal name
      (filter_chain (add_created registry (c ∷ cs) (chain_of (lookup equal name filters)))) filters

unfoldable pub set_response_filter :
    {F : Type 0} → Bytes → F → List (Bytes × ServerFilter F) → List (Bytes × ServerFilter F)
unfolding put
set_response_filter name f filters = put equal name (one_filter f) filters

abbrev new_connection : Connection
new_connection = record {
  configured = true;
  transport = false;
  session = none;
  stale = false;
  circuit = none;
}

unfoldable pub connect_server : CircuitBreaker → Visit → ToolServer → ToolServer
unfolding get_or_reconnect
connect_server cfg v sv = record sv {
  connection = (get_or_reconnect cfg v.visit_time v.visit_made sv.connection).0;
}

-- The endpoints of the client with their connections, and its filters.
pub record ClientState (F : Type 0) : Type 0 where
  pub connected : List ToolServer
  pub filters : List (Bytes × ServerFilter F)

-- The threshold and the time of the circuits; a negative one is like 0.
unfoldable pub breaker_of : McpConfig → CircuitBreaker
breaker_of m = record {
  failure_threshold = pos_part m.breaker_failure_threshold;
  open_duration = pos_part m.breaker_open_duration;
}

module _ {F : Type 0} (registry : List (Bytes × (Members → Option F))) (cfg : CircuitBreaker)
    (visit : Bytes → Visit) where
  -- `addServerConn`; that a connection fails is only logged.
  unfoldable pub add_server_conn : Bytes → McpServerConfig → ClientState F → ClientState F
  unfolding connect_server is_empty setup_filters
  add_server_conn name c st = if is_empty c.endpoint then st else record {
    connected =
        st.connected
        ++ (connect_server cfg (visit name) (record {
          server_name = name;
          server_tools = c.allowed_tools;
          connection = new_connection;
        })
            ∷ []);
    filters = setup_filters registry name c.response_filters st.filters;
  }

  -- A server that is left out unless it has allowed tools.
  unfoldable pub add_optional_conn :
      Bytes → McpServerConfig → List Bytes → ClientState F → ClientState F
  unfolding add_server_conn
  add_optional_conn name c [] st = st
  add_optional_conn name c (t ∷ ts) st = add_server_conn name c st

  unfoldable pub connect_all : McpConfig → ClientState F → ClientState F
  unfolding add_server_conn add_optional_conn
  connect_all m st = add_optional_conn (lit "confluence") m.confluence m.confluence.allowed_tools (
      add_optional_conn (lit "jira") m.jira m.jira.allowed_tools
        (add_server_conn (lit "bitbucket") m.bitbucket st))

-- The client behind its start.
pub record McpClient (F : Type 0) : Type 0 where
  pub tool_state : ToolState
  pub tool_filters : List (Bytes × ServerFilter F)
  pub fetched : Refreshed

unfoldable pub fetch_tools :
    {F : Type 0} → CircuitBreaker → (ℕ → Bytes → Visit) → (ℕ → Bool) → ClientState F → McpClient F
unfolding refresh_tool_cache
fetch_tools cfg visit is_done st =
    let (tools, r) =
      refresh_tool_cache cfg visit is_done (record { servers = st.connected; tool_cache = [] }) in
    record { tool_state = tools; tool_filters = st.filters; fetched = r }

-- `InitializeConnections` of a new client with the filters that are set: what the servers show when they
-- are connected, and in each attempt at their tools.
unfoldable pub initialize_connections :
    {F : Type 0}
    → List (Bytes × (Members → Option F))
    → (Bytes → Visit)
    → (ℕ → Bytes → Visit)
    → (ℕ → Bool)
    → McpConfig
    → List (Bytes × ServerFilter F)
    → McpClient F
unfolding connect_all fetch_tools breaker_of
initialize_connections registry first visit is_done m filters =
    fetch_tools (breaker_of m) visit is_done
      (connect_all registry (breaker_of m) first m (record { connected = []; filters = filters }))

-- `IsHealthy` over all endpoints
unfoldable pub all_healthy : List ToolServer → Bool
unfolding is_healthy
all_healthy [] = true
all_healthy (sv ∷ servers) = is_healthy sv.connection && all_healthy servers

-- The status of the readiness probe.
unfoldable pub ready_status : List ToolServer → ℕ
unfolding all_healthy
ready_status servers = if all_healthy servers then 200 else 503

-- `Close`: a transport and its session are gone; a transport that fails to close is an error.
unfoldable pub close_server : ToolServer → ToolServer
close_server sv =
    if sv.connection.transport
    then record sv { connection = record sv.connection { transport = false; session = none } }
    else sv

unfoldable pub close_all : (Bytes → Bool) → List ToolServer → List ToolServer × List Bytes
unfolding close_server
close_all closes [] = ([], [])
close_all closes (sv ∷ servers) =
    let (rest, errs) = close_all closes servers in
    (
      close_server sv ∷ rest,
      if sv.connection.transport && not (closes sv.server_name)
          then sv.server_name ∷ errs
          else errs,
    )

-- What `CallTool` does to an answer with the filter of its server.
unfoldable pub apply_filter : {A : Type 0} → Option (ServerFilter (Bytes → A → A)) → Bytes → A → A
unfolding chain_filter
apply_filter none tool result = result
apply_filter (some (one_filter f)) tool result = f tool result
apply_filter (some (filter_chain fs)) tool result = chain_filter fs tool result

unfoldable pub filtered_answer :
    {A : Type 0} → List (Bytes × ServerFilter (Bytes → A → A)) → Bytes → Bytes → A → A
unfolding apply_filter lookup
filtered_answer filters server tool result = apply_filter (lookup equal server filters) tool result
