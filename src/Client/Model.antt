-- ===== src/Client/Model.antt =====
-- openai_adapter.go and factory.go: the client of the language model. The requests that the openai package
-- makes are a parameter.
pub mod Slots
pub mod Retries
use agent_sets.Prelude.{
  Bool, List, Option, [], false, if◌then◌else◌, none, some, suc, true, zero, ℕ, ◌&&◌, ◌++◌, ◌||◌,
  ◌∷◌,
}
use agent_sets.Prelude.Int.{eqb_ℤ, leb_ℤ, ltb_ℤ, negsuc, pos, ℤ}
use agent_sets.Text.{Bytes, lit}
use agent_sets.Config.{Config}
use agent_sets.Domain.{is_empty}
use agent_sets.Webhook.Parser.{LlmError, LlmReply, replied, llm_failed}

pub record OpenAiAdapter : Type 0 where
  pub adapter_model : Bytes
  pub adapter_endpoint : Bytes
  pub adapter_key : Bytes
  pub adapter_timeout : ℤ
  pub max_concurrency : ℤ
  pub slots : ℕ  -- the capacity of `sem`

pub data ChatMessage : Type 0 where
  system_message user_message : Bytes → ChatMessage

pub record ChatParams : Type 0 where
  pub chat_model : Bytes
  pub messages : List ChatMessage

-- An error of the openai package; the status is there when `errors.As` finds an `openai.Error`.
pub record RequestError : Type 0 where
  pub api_status : Option ℤ
  pub cause : LlmError

-- The texts of the choices, or an error.
pub data Completion : Type 0 where
  choices : List Bytes → Completion
  request_failed : RequestError → Completion

unfoldable pub new_openai_adapter : Bytes → OpenAiAdapter
new_openai_adapter model = record {
  adapter_model = model;
  adapter_endpoint = [];
  adapter_key = [];
  adapter_timeout = pos 0;
  max_concurrency = pos 1;
  slots = 1;
}

unfoldable pub sem_size : ℤ → ℕ
sem_size (pos zero) = 1
sem_size (pos (suc n)) = suc n
sem_size (negsuc n) = 1

unfoldable pub new_openai_adapter_with_config : Bytes → Bytes → Bytes → ℤ → OpenAiAdapter
unfolding sem_size
new_openai_adapter_with_config model endpoint key concurrency = record {
  adapter_model = model;
  adapter_endpoint = endpoint;
  adapter_key = key;
  adapter_timeout = pos 120_000_000_000;
  max_concurrency = concurrency;
  slots = sem_size concurrency;
}

unfoldable pub set_timeout : ℤ → OpenAiAdapter → OpenAiAdapter
set_timeout d a = record a { adapter_timeout = d }

unfoldable pub model_name : OpenAiAdapter → Bytes
model_name a = lit "openai-" ++ a.adapter_model

unfoldable pub get_config : OpenAiAdapter → Bytes × Bytes
get_config a = (a.adapter_endpoint, a.adapter_key)

-- `NewLLM`; `int` of the limit keeps its 64 bits.
unfoldable pub new_llm : Config → OpenAiAdapter
unfolding new_openai_adapter_with_config set_timeout
new_llm cfg =
    let a =
      new_openai_adapter_with_config cfg.llm.llm_model cfg.llm.llm_endpoint cfg.llm.api_key
        cfg.server.concurrency_limit in
    if ltb_ℤ (pos 0) cfg.llm.llm_timeout then set_timeout cfg.llm.llm_timeout a else a

-- 429, and 500 to 599
unfoldable pub is_retryable_status : ℤ → Bool
is_retryable_status status =
    eqb_ℤ status (pos 429) || (leb_ℤ (pos 500) status && ltb_ℤ status (pos 600))

unfoldable pub mark_retryable : Bool → LlmError → LlmError
mark_retryable true e = record e { text = lit "retryable error: " ++ e.text; retryable = true }
mark_retryable false e = e

-- `wrapError` of an error that is not nil
unfoldable pub wrap_error : RequestError → LlmError
unfolding mark_retryable is_retryable_status
wrap_error e = elim e.api_status [
  | some status ↦ mark_retryable (is_retryable_status status) e.cause
  | none ↦ e.cause
]

unfoldable pub openai_request : RequestError → RequestError
openai_request e = record e {
  cause = record e.cause { text = lit "openai request: " ++ e.cause.text };
}

unfoldable pub with_model : OpenAiAdapter → ChatParams → ChatParams
unfolding is_empty
with_model a params =
    if is_empty params.chat_model then record params { chat_model = a.adapter_model } else params

pub data Chatted : Type 0 where
  chatted : List Bytes → Chatted
  chat_failed : LlmError → Chatted

unfoldable pub of_completion : Completion → Chatted
unfolding wrap_error openai_request
of_completion (choices cs) = chatted cs
of_completion (request_failed e) = chat_failed (wrap_error (openai_request e))

-- `Chat`, where `gave_up` is the error of a context that ended in front of the semaphore.
unfoldable pub chat :
    OpenAiAdapter → (ChatParams → Completion) → Option LlmError → ChatParams → Chatted
unfolding of_completion with_model
chat a send none params = of_completion (send (with_model a params))
chat a send (some err) params = chat_failed err

unfoldable pub query_messages : Bytes → Bytes → List ChatMessage
unfolding is_empty
query_messages prompt input =
    if is_empty prompt
    then user_message input ∷ []
    else system_message prompt ∷ user_message input ∷ []

unfoldable pub first_choice : Chatted → LlmReply
first_choice (chatted []) = llm_failed (record {
  text = lit "no openai response";
  retryable = false;
  deadline_exceeded = false;
  canceled = false;
})
first_choice (chatted (c ∷ cs)) = replied c
first_choice (chat_failed err) = llm_failed err

unfoldable pub simple_text_query :
    OpenAiAdapter → (ChatParams → Completion) → Option LlmError → Bytes → Bytes → LlmReply
unfolding chat first_choice query_messages
simple_text_query a send gave_up prompt input = first_choice (
    chat a send gave_up
      (record { chat_model = a.adapter_model; messages = query_messages prompt input }))

-- `Ping`; `none` is nil.
unfoldable pub ping : OpenAiAdapter → (ChatParams → Completion) → Option Bytes
ping a send =
    elim (send
      (record { chat_model = a.adapter_model; messages = user_message (lit "hello") ∷ [] })) [
        | choices cs ↦ none
        | request_failed e ↦ some (lit "llm ping failed: " ++ e.cause.text)
      ]
