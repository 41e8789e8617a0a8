-- ===== src/Examples/Serving.antt =====
-- A program that comes up, and the servers that it connects.
use agent_sets.Prelude.{[], false, if◌then◌else◌, none, refl, some, true, ℕ, ◌∷◌, ◌≡◌}
use agent_sets.Prelude.Int.{ℤ}
use agent_sets.Domain.{is_empty}
use agent_sets.Client.Tools.{Visit, no_schema}
use agent_sets.Client.Startup.{
  connect_all, add_server_conn, add_optional_conn, connect_server, initialize_connections,
  breaker_of, McpClient,
}
use agent_sets.Client.Connection.{get_or_reconnect}
use agent_sets.Text.{lit, equal, Bytes}
use agent_sets.Config.{Config, McpConfig}
use agent_sets.Client.Tools.Allowed.{limits}
use agent_sets.Config.Load.{Surroundings, default_config, config_text}
use agent_sets.Client.Model.{ChatParams, Completion, choices}
use agent_sets.Server.{World}

-- The file sets an endpoint and the storage, and two variables are set.
abbrev file_config : Config → Config
file_config c = record c {
  mcp = record c.mcp { bitbucket = record c.mcp.bitbucket { endpoint = lit "http://b" } };
  storage = record c.storage { driver = lit "sqlite"; dsn = lit "r.db" };
}

abbrev small_world : Surroundings
small_world = record {
  lookup_env = λ key.
      if equal key (lit "LLM_API_KEY")
      then some (lit "k")
      else if equal key (lit "WEBHOOK_SECRET")
      then some (lit "w")
      else none;
  config_file = λ path. config_text [];
  unmarshal_yaml = λ b c. some (file_config c);
}

abbrev served_config : Config
served_config = record (file_config default_config) {
  llm = record default_config.llm { api_key = lit "k" };
  server = record default_config.server { webhook_secret = lit "w" };
}

abbrev answering : ChatParams → Completion
answering params = choices (lit "hi" ∷ [])

abbrev one_tool : ℕ → Bytes → Visit
one_tool n name = record {
  visit_time = n;
  visit_made = some 7;
  listing = λ session. some (record { listed_name = lit "a"; listed_schema = no_schema } ∷ []);
}

-- A filter is a length here.
abbrev world : World ℤ
world = record {
  letters = record { to_lower = λ x. x; to_upper = λ x. x };
  around = small_world;
  send = answering;
  opens = λ dsn. true;
  response_filter = λ n. n;
  registry = [];
  first_visit = one_tool 0;
  next_visit = one_tool;
  ended = λ n. false;
}

abbrev with_third : McpConfig
with_third = record served_config.mcp {
  confluence = record served_config.mcp.confluence { endpoint = lit "http://c" };
}

abbrev small_client : McpClient ℤ
small_client =
    initialize_connections world.registry (one_tool 0) one_tool (λ n. false) with_third []

-- The third server has an endpoint and names no tool, so it is left out.
left_out :
    limits
      (connect_all world.registry
        (breaker_of with_third)
        (one_tool 0)
        with_third
        (record { connected = []; filters = [] })).connected
    ≡ (lit "bitbucket", []) ∷ []
unfolding connect_all add_server_conn add_optional_conn connect_server get_or_reconnect is_empty
    equal
left_out = refl
