-- ===== src/Server.antt =====
-- cmd/server/main.go: the start of the program up to the server, its probes, the logger and the shutdown.
-- Opening the database, the requests of the model and the server itself are parameters.
pub mod Starts
use agent_sets.Prelude.{Bool, List, Option, [], false, if◌then◌else◌, none, some, true, ℕ, ◌∷◌}
use agent_sets.Prelude.Int.{ℤ}
use agent_sets.Filter.Values.{Members}
use agent_sets.Text.{Bytes, lit, equal, split}
use agent_sets.Text.Trim.{trim_space}
use agent_sets.Domain.{is_empty, CaseMap}
use agent_sets.Config.{Config, RotationConfig, LogLevel}
use agent_sets.Config.Load.{
  Surroundings, Loading, main_config, get_log_level, config_loaded, exited,
}
use agent_sets.Client.Model.{ChatParams, Completion, new_llm, ping, OpenAiAdapter}
use agent_sets.Client.Tools.{ToolServer, Visit}
use agent_sets.Client.Startup.{ready_status, McpClient, initialize_connections, set_response_filter}

pub data LogWriter : Type 0 where
  to_stdout to_stderr : LogWriter
  to_file : Bytes → RotationConfig → LogWriter

pub record Logger : Type 0 where
  pub writers : List LogWriter
  pub log_level : LogLevel
  pub is_json : Bool

unfoldable pub writer_of : RotationConfig → Bytes → LogWriter
unfolding equal
writer_of r output =
    if equal output (lit "stderr")
    then to_stderr
    else if equal output (lit "stdout")
    then to_stdout
    else to_file output r

unfoldable pub writers_of : RotationConfig → List Bytes → List LogWriter
unfolding writer_of trim_space is_empty
writers_of r [] = []
writers_of r (output ∷ outputs) =
    let rest = writers_of r outputs in
    if is_empty (trim_space output) then rest else writer_of r (trim_space output) ∷ rest

unfoldable pub or_stdout : List LogWriter → List LogWriter
or_stdout [] = to_stdout ∷ []
or_stdout (w ∷ ws) = w ∷ ws

unfoldable pub setup_logger : CaseMap → Config → Logger
unfolding writers_of or_stdout get_log_level split
setup_logger u c = record {
  writers = or_stdout (writers_of c.log.rotation (split c.log.output b','));
  log_level = get_log_level u c;
  is_json = equal c.log.format (lit "json");
}

-- The storage that is used, if any, by its data source name.
pub data Store : Type 0 where
  no_store broken_store : Store
  sqlite_store : Bytes → Store

unfoldable pub open_store : (Bytes → Bool) → Config → Store
unfolding equal
open_store opens c =
    if equal c.storage.driver (lit "sqlite")
    then (if opens c.storage.dsn then sqlite_store c.storage.dsn else broken_store)
    else no_store

-- What the program starts in: requests of the model, a database that opens or not, the filter of a length
-- limit, the registered filters, and what the servers of tools show.
pub record World (F : Type 0) : Type 0 where
  pub letters : CaseMap
  pub around : Surroundings
  pub send : ChatParams → Completion
  pub opens : Bytes → Bool
  pub response_filter : ℤ → F
  pub registry : List (Bytes × (Members → Option F))
  pub first_visit : Bytes → Visit
  pub next_visit : ℕ → Bytes → Visit
  pub ended : ℕ → Bool

-- What is handed to the server.
pub record Parts (F : Type 0) : Type 0 where
  pub part_config : Config
  pub part_logger : Logger
  pub part_llm : OpenAiAdapter
  pub part_client : McpClient F
  pub part_store : Store

-- `os.Exit(1)`, or the server with its parts.
pub data Start (F : Type 0) : Type 0 where
  start_exit : Start F
  serving : Parts F → Start F

module _ {F : Type 0} (w : World F) where
  -- The same filter for the three servers, and the connections; an error of these is only logged.
  unfoldable pub start_client : Config → McpClient F
  unfolding initialize_connections set_response_filter
  start_client c =
      let f = w.response_filter c.pipeline.response_max_string_len in
      initialize_connections w.registry w.first_visit w.next_visit w.ended c.mcp (
        set_response_filter (lit "confluence") f
          (set_response_filter (lit "jira") f (set_response_filter (lit "bitbucket") f [])))

  unfoldable pub parts_with : Config → Store → Parts F
  unfolding start_client new_llm setup_logger
  parts_with c store = record {
    part_config = c;
    part_logger = setup_logger w.letters c;
    part_llm = new_llm c;
    part_client = start_client c;
    part_store = store;
  }

  unfoldable pub with_store : Config → Store → Start F
  unfolding parts_with
  with_store c broken_store = start_exit
  with_store c no_store = serving (parts_with c no_store)
  with_store c (sqlite_store dsn) = serving (parts_with c (sqlite_store dsn))

  unfoldable pub after_ping : Config → Option Bytes → Start F
  unfolding open_store with_store
  after_ping c none = with_store c (open_store w.opens c)
  after_ping c (some err) = start_exit

  unfoldable pub after_config : Loading → Start F
  unfolding after_ping new_llm ping
  after_config exited = start_exit
  after_config (config_loaded c) = after_ping c (ping (new_llm c) w.send)

  unfoldable pub start_up : Start F
  unfolding main_config after_config
  start_up = after_config (main_config w.around)

-- Who answers a path, and with which status where it is a probe.
pub data Route : Type 0 where
  to_webhook to_metrics : Route
  answers : ℕ → Route

unfoldable pub route : List ToolServer → Bytes → Route
unfolding equal ready_status
route servers path =
    if equal path (lit "/webhook")
    then to_webhook
    else if equal path (lit "/health/live")
    then answers 200
    else if equal path (lit "/health/ready")
    then answers (ready_status servers)
    else if equal path (lit "/metrics")
    then to_metrics
    else answers 404

-- How the program ends behind a signal. The first argument says whether the server stopped in time, the
-- second whether the jobs did.
pub data Shutdown : Type 0 where
  exit_forced tasks_completed tasks_left : Shutdown

unfoldable pub shut_down : Bool → Bool → Shutdown
shut_down false drained = exit_forced
shut_down true true = tasks_completed
shut_down true false = tasks_left
