-- ===== src/Config.antt =====
-- internal/config/config.go: the configuration and its parts. A duration is a number of nanoseconds.
pub mod Load
pub mod Secrets
use agent_sets.Prelude.{Bool, List, ℕ}
use agent_sets.Prelude.Int.{ℤ}
use agent_sets.Text.{Bytes}
use agent_sets.Filter.Values.{Members}

pub record RotationConfig : Type 0 where
  pub max_size : ℤ
  pub max_backups : ℤ
  pub max_age : ℤ
  pub compress : Bool

pub record LogConfig : Type 0 where
  pub level : Bytes
  pub format : Bytes
  pub output : Bytes
  pub rotation : RotationConfig

pub record ServerConfig : Type 0 where
  pub port : ℤ
  pub concurrency_limit : ℤ
  pub read_timeout : ℤ
  pub write_timeout : ℤ
  pub shutdown_timeout : ℤ
  pub max_body_size : ℤ
  pub queue_size : ℤ
  pub debounce_window : ℤ
  pub webhook_secret : Bytes

pub record LlmConfig : Type 0 where
  pub llm_model : Bytes
  pub llm_endpoint : Bytes
  pub api_key : Bytes
  pub llm_timeout : ℤ

pub record FilterConfig : Type 0 where
  pub filter_name : Bytes
  pub filter_options : Members

pub record McpServerConfig : Type 0 where
  pub endpoint : Bytes
  pub token : Bytes
  pub auth_header : Bytes
  pub allowed_tools : List Bytes
  pub response_filters : List FilterConfig

pub record McpConfig : Type 0 where
  pub mcp_timeout : ℤ
  pub retry_attempts : ℤ
  pub retry_backoff : ℤ
  pub retry_max_backoff : ℤ
  pub breaker_failure_threshold : ℤ
  pub breaker_open_duration : ℤ
  pub bitbucket : McpServerConfig
  pub jira : McpServerConfig
  pub confluence : McpServerConfig

pub record DegradationConfig : Type 0 where
  pub l1_context_lines : ℤ
  pub l2_chunk_by_file : Bool
  pub l3_diff_only : Bool

pub record Stage2Config : Type 0 where
  pub stage2_template : Bytes
  pub max_extra_files : ℤ
  pub max_file_size : ℤ

-- The temperature is the number of its bits, as an IEEE double.
pub record Stage3Config : Type 0 where
  pub stage3_template : Bytes
  pub temperature : ℕ
  pub max_context_tokens : ℤ
  pub degradation : DegradationConfig

pub record CommentMergeConfig : Type 0 where
  pub merge_enabled : Bool
  pub high_severity_merge : Bytes
  pub low_severity_merge : Bytes

pub record PipelineConfig : Type 0 where
  pub pipeline_enabled : Bool
  pub backend : Bytes
  pub max_concurrent_comments : ℤ
  pub response_max_string_len : ℤ
  pub stage1_template : Bytes
  pub stage2_context : Stage2Config
  pub stage3_review : Stage3Config
  pub comment_merge : CommentMergeConfig

pub record StorageConfig : Type 0 where
  pub driver : Bytes
  pub dsn : Bytes
  pub storage_timeout : ℤ

pub record Config : Type 0 where
  pub log : LogConfig
  pub server : ServerConfig
  pub llm : LlmConfig
  pub mcp : McpConfig
  pub prompts_dir : Bytes
  pub webhook_max_retries : ℤ
  pub pipeline : PipelineConfig
  pub storage : StorageConfig

-- The levels of log/slog.
pub data LogLevel : Type 0 where
  level_debug level_info level_warn level_error : LogLevel
