-- ===== src/Examples/Starting.antt =====
-- Configurations, the start of the program, and the clients that it makes.
use agent_sets.Prelude.{
  [], arith, false, if◌then◌else◌, inl, length, ltb, none, refl, some, some-inj, subst, suc, true,
  zero, ℕ, ◌↔◌, ◌∷◌, ◌≡◌, ◌≤◌, ◌⊎◌,
}
use agent_sets.Prelude.Int.{pos, ℤ}
use agent_sets.Client.Transport.Quotes.{split_with_quotes-quoted}
use agent_sets.Client.Model.Retries.{
  with_client, api_error, ask_llm_to_extract_status, is_transient, failed_after, error_text,
}
use agent_sets.Client.Transport.{split_with_quotes, end_arg, read_chars, read_char}
use agent_sets.Webhook.Parser.{Json, PayloadParser, retries, replied, ask_llm_to_extract}
use agent_sets.Client.Model.{
  OpenAiAdapter, new_llm, new_openai_adapter_with_config, set_timeout, sem_size,
}
use agent_sets.Domain.{is_empty}
use agent_sets.Text.{Bytes, equal, lit, join}
use agent_sets.Client.Model.Slots.{
  ChatReach, ChatCalls, ChatReach-Within, idle, next, called, entered, no_calls, take_slot,
  free_slot, CanEnter,
}
use agent_sets.Config.{Config}
use agent_sets.Config.Load.{
  Surroundings, main_config, validate, load_config, validate_errors, default_config, get_env,
  error_of, or_default, of_file, config_of_yaml, after_file, with_env, with_env_token, or_exit,
  config_loaded, config_text, checked_config,
}
use agent_sets.Config.Secrets.{IsUsable, validate_iff, SkipsTagged}

-- A file that sets the endpoint of the first server, and two variables.
abbrev with_endpoint : Bytes → Config → Config
with_endpoint e c = record c {
  mcp = record c.mcp { bitbucket = record c.mcp.bitbucket { endpoint = e } };
}

abbrev surroundings : Surroundings
surroundings = record {
  lookup_env = λ key.
      if equal key (lit "LLM_API_KEY")
      then some (lit "k")
      else if equal key (lit "BITBUCKET_MCP_TOKEN")
      then some (lit "t")
      else none;
  config_file = λ path. config_text (lit "http://b");
  unmarshal_yaml = λ b c. some (with_endpoint b c);
}

abbrev started_config : Config
started_config = record (with_endpoint (lit "http://b") default_config) {
  llm = record default_config.llm { api_key = lit "k" };
  mcp = record default_config.mcp {
    bitbucket = record default_config.mcp.bitbucket { endpoint = lit "http://b"; token = lit "t" };
  };
}

started : main_config surroundings ≡ config_loaded started_config
unfolding main_config load_config get_env or_default of_file config_of_yaml after_file with_env
    with_env_token checked_config or_exit validate validate_errors error_of is_empty equal
started = refl

-- Nothing is set.
refused :
    validate default_config
    ≡ some (
        lit "config invalid: LLM_API_KEY is required; at least one MCP endpoint must be configured")
unfolding validate validate_errors error_of is_empty equal join
refused = refl

skips_tagged : SkipsTagged surroundings
skips_tagged b c d h =
    subst
      (λ (x : Config).
        (x.server.webhook_secret ≡ c.server.webhook_secret)
        × (x.mcp.bitbucket.token ≡ c.mcp.bitbucket.token)
        × (x.mcp.jira.token ≡ c.mcp.jira.token)
        × (x.mcp.confluence.token ≡ c.mcp.confluence.token))
      (some-inj (with_endpoint b c) d h) (refl, refl, refl, refl)

validate_iff_example : (validate started_config ≡ none) ↔ IsUsable started_config
validate_iff_example = validate_iff started_config

abbrev adapter : OpenAiAdapter
adapter = new_llm started_config

-- One call is at a request and one waits.
abbrev two_calls : ChatCalls
two_calls = record { in_front = 2 ∷ []; requesting = 1 ∷ []; in_use = 1 }

reach_two : ChatReach adapter.slots two_calls
unfolding new_llm new_openai_adapter_with_config set_timeout sem_size take_slot free_slot
reach_two =
    next (record { in_front = []; requesting = 1 ∷ []; in_use = 1 }) two_calls
      (next (record { in_front = 1 ∷ []; requesting = []; in_use = 0 })
        (record { in_front = []; requesting = 1 ∷ []; in_use = 1 })
        (next no_calls (record { in_front = 1 ∷ []; requesting = []; in_use = 0 }) idle (called 1))
        (entered [] [] 1 refl (omega arith)))
      (called 2)

ChatReach-Within_example :
    (1 ≤ adapter.slots)
    × (1 ≤ adapter.slots)
    × (two_calls.in_use ≡ length two_calls.requesting)
    × ((two_calls.in_front ≡ [])
        ⊎ ((length two_calls.requesting ≡ adapter.slots) ⊎ CanEnter adapter.slots two_calls))
ChatReach-Within_example = ChatReach-Within started_config two_calls reach_two

abbrev no_json : Json
no_json = record {
  valid = λ b. false;
  get = λ b path. none;
  unmarshal = λ b. none;
  unmarshal_error = λ b. [];
}

abbrev payload_parser : PayloadParser
payload_parser = record {
  json = no_json;
  max_retries = pos 2;
  prompt = none;
  payload_filter = none;
  llm = λ n prompt body. replied [];
  is_done = λ n. false;
}

-- The service is busy twice, and then refuses.
abbrev statuses : ℕ → ℤ
statuses zero = pos 429
statuses (suc zero) = pos 503
statuses (suc (suc n)) = pos 400

abbrev messages : ℕ → Bytes
messages k = k ∷ []

abbrev busy_parser : PayloadParser
busy_parser = with_client adapter (λ k params. api_error (statuses k) (messages k)) payload_parser

ask_llm_to_extract_status_example :
    (last : ℕ) × (last ≤ 2)
    × ((j : ℕ) → (if ltb j last then is_transient (statuses j) else true) ≡ true)
    × ((last ≡ 2) ⊎ (is_transient (statuses last) ≡ false))
    × (ask_llm_to_extract busy_parser []
        ≡ failed_after (error_text (statuses last) (messages last)) (suc last))
unfolding retries
ask_llm_to_extract_status_example =
    ask_llm_to_extract_status adapter (λ k params. api_error (statuses k) (messages k))
      payload_parser [] statuses messages (λ k. refl) (λ k params. refl)

split_with_quotes-quoted_example :
    split_with_quotes (lit "\"npx\" \"my server\"") ≡ lit "npx" ∷ lit "my server" ∷ []
unfolding join
split_with_quotes-quoted_example =
    split_with_quotes-quoted b'"' (lit "npx" ∷ lit "my server" ∷ []) (inl refl)
      ((λ h. ground (arith, h), ground arith), ((λ h. ground (arith, h), ground arith), tt))

-- An argument without a byte is lost.
empty_argument : split_with_quotes (lit "npx \"\" a") ≡ lit "npx" ∷ lit "a" ∷ []
unfolding split_with_quotes end_arg read_chars read_char is_empty equal
empty_argument = refl
