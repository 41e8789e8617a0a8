-- ===== src/Config/Load.antt =====
-- internal/config/config.go: `LoadConfig`, `Validate` and `GetLogLevel`. The environment, the file system
-- and yaml.v3 are parameters.
use agent_sets.Prelude.{
  Bool, List, Option, [], false, if◌then◌else◌, none, some, true, ℕ, ◌&&◌, ◌*◌, ◌++◌, ◌||◌, ◌∷◌,
}
use agent_sets.Prelude.Int.{ltb_ℤ, pos, ℤ}
use agent_sets.Config.{
  Config, LogConfig, ServerConfig, McpServerConfig, McpConfig, PipelineConfig, level_debug,
  level_info, level_warn, level_error, LogLevel,
}
use agent_sets.Text.{Bytes, lit, join, itoa, equal}
use agent_sets.Domain.{is_empty, CaseMap}

abbrev seconds : ℕ → ℤ
seconds n = pos (n * 1000000000)

abbrev no_server : McpServerConfig
no_server = record {
  endpoint = [];
  token = [];
  auth_header = [];
  allowed_tools = [];
  response_filters = [];
}

abbrev default_log : LogConfig
default_log = record {
  level = lit "INFO";
  format = lit "text";
  output = lit "stdout";
  rotation = record { max_size = pos 100; max_backups = pos 10; max_age = pos 7; compress = true };
}

abbrev default_server : ServerConfig
default_server = record {
  port = pos 8080;
  concurrency_limit = pos 10;
  read_timeout = seconds 10;
  write_timeout = seconds 30;
  shutdown_timeout = seconds 30;
  max_body_size = pos (2 * 1024 * 1024);
  queue_size = pos 100;
  debounce_window = seconds 2;
  webhook_secret = [];
}

abbrev default_mcp : McpConfig
default_mcp = record {
  mcp_timeout = seconds 30;
  retry_attempts = pos 3;
  retry_backoff = seconds 1;
  retry_max_backoff = seconds 30;
  breaker_failure_threshold = pos 3;
  breaker_open_duration = seconds 30;
  bitbucket = no_server;
  jira = no_server;
  confluence = no_server;
}

abbrev default_pipeline : PipelineConfig
default_pipeline = record {
  pipeline_enabled = true;
  backend = lit "direct";
  max_concurrent_comments = pos 5;
  response_max_string_len = pos 100000;
  stage1_template = lit "pipeline/stage1.md";
  stage2_context = record {
    stage2_template = lit "pipeline/stage2.md";
    max_extra_files = pos 5;
    max_file_size = pos 50000;
  };
  stage3_review = record {
    stage3_template = lit "pipeline/stage3.md";
    temperature = 0;
    max_context_tokens = pos 256000;
    degradation = record {
      l1_context_lines = pos 50;
      l2_chunk_by_file = true;
      l3_diff_only = true;
    };
  };
  comment_merge = record {
    merge_enabled = true;
    high_severity_merge = lit "by_file";
    low_severity_merge = lit "to_summary";
  };
}

-- The configuration before the file is read.
abbrev pub default_config : Config
default_config = record {
  log = default_log;
  server = default_server;
  llm = record {
    llm_model = lit "gpt-4o";
    llm_endpoint = lit "https://api.openai.com/v1";
    api_key = [];
    llm_timeout = seconds 120;
  };
  mcp = default_mcp;
  prompts_dir = lit "prompts";
  webhook_max_retries = pos 2;
  pipeline = default_pipeline;
  storage = record { driver = []; dsn = []; storage_timeout = seconds 5 };
}

pub data ConfigFile : Type 0 where
  config_text : Bytes → ConfigFile
  file_missing file_unreadable : ConfigFile

-- `os.Exit(1)` is a result.
pub data Loading : Type 0 where
  config_loaded : Config → Loading
  exited : Loading

-- What the program stands in: the variables that are set, the files, and `yaml.Unmarshal` into a
-- configuration, where `none` is an error.
pub record Surroundings : Type 0 where
  pub lookup_env : Bytes → Option Bytes
  pub config_file : Bytes → ConfigFile
  pub unmarshal_yaml : Bytes → Config → Option Config

unfoldable pub or_default : Option Bytes → Bytes → Bytes
or_default (some v) fallback = v
or_default none fallback = fallback

unfoldable pub config_of_yaml : Option Config → Loading
config_of_yaml (some c) = config_loaded c
config_of_yaml none = exited

module _ (w : Surroundings) where
  unfoldable pub get_env : Bytes → Bytes → Bytes
  unfolding or_default
  get_env key fallback = or_default (w.lookup_env key) fallback

  unfoldable pub with_env_token : Bytes → McpServerConfig → McpServerConfig
  unfolding get_env
  with_env_token key s = record s { token = get_env key s.token }

  -- The variables that stand over the file.
  unfoldable pub with_env : Config → Config
  unfolding get_env with_env_token
  with_env c = record c {
    llm = record c.llm { api_key = get_env (lit "LLM_API_KEY") c.llm.api_key };
    server = record c.server {
      webhook_secret = get_env (lit "WEBHOOK_SECRET") c.server.webhook_secret;
    };
    mcp = record c.mcp {
      bitbucket = with_env_token (lit "BITBUCKET_MCP_TOKEN") c.mcp.bitbucket;
      jira = with_env_token (lit "JIRA_MCP_TOKEN") c.mcp.jira;
      confluence = with_env_token (lit "CONFLUENCE_MCP_TOKEN") c.mcp.confluence;
    };
  }

  unfoldable pub of_file : ConfigFile → Loading
  unfolding config_of_yaml
  of_file (config_text b) = config_of_yaml (w.unmarshal_yaml b default_config)
  of_file file_missing = config_loaded default_config
  of_file file_unreadable = exited

  unfoldable pub after_file : Loading → Loading
  unfolding with_env
  after_file (config_loaded c) = config_loaded (with_env c)
  after_file exited = exited

  unfoldable pub load_config : Loading
  unfolding of_file after_file get_env
  load_config =
      after_file (of_file (w.config_file (get_env (lit "CONFIG_PATH") (lit "config.yaml"))))

abbrev pub error_if : Bool → Bytes → List Bytes
error_if true e = e ∷ []
error_if false e = []

unfoldable pub validate_errors : Config → List Bytes
unfolding is_empty
validate_errors c =
    error_if (is_empty c.llm.api_key) (lit "LLM_API_KEY is required")
    ++ error_if (ltb_ℤ c.server.port (pos 1) || ltb_ℤ (pos 65535) c.server.port)
        (lit "invalid server port: " ++ itoa c.server.port)
    ++ error_if
        (is_empty c.mcp.bitbucket.endpoint
          && (is_empty c.mcp.jira.endpoint && is_empty c.mcp.confluence.endpoint))
        (lit "at least one MCP endpoint must be configured")

unfoldable pub error_of : List Bytes → Option Bytes
unfolding join
error_of [] = none
error_of (e ∷ es) = some (lit "config invalid: " ++ join (e ∷ es) (lit "; "))

-- `Validate`; `none` is nil.
unfoldable pub validate : Config → Option Bytes
unfolding validate_errors error_of
validate c = error_of (validate_errors c)

module _ (u : CaseMap) where
  unfoldable pub get_log_level : Config → LogLevel
  unfolding equal
  get_log_level c =
      let s = u.to_upper c.log.level in
      if equal s (lit "DEBUG")
      then level_debug
      else if equal s (lit "WARN") || equal s (lit "WARNING")
      then level_warn
      else if equal s (lit "ERROR")
      then level_error
      else level_info

-- The first steps of `main`: the configuration with which it goes on.
unfoldable pub or_exit : Option Bytes → Config → Loading
or_exit none c = config_loaded c
or_exit (some e) c = exited

unfoldable pub checked_config : Loading → Loading
unfolding validate or_exit
checked_config (config_loaded c) = or_exit (validate c) c
checked_config exited = exited

unfoldable pub main_config : Surroundings → Loading
unfolding load_config checked_config
main_config w = checked_config (load_config w)
