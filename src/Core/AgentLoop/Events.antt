-- ===== src/Core/AgentLoop/Events.antt =====
-- The events of crates/visp-core/src/provider.rs and agent.rs, the errors of error.rs, and the
-- conversions between them. A JSON value is its serialised text, a cost (an `f64`) its bits; the
-- channel on which a query is answered is left out of the event, and its answers are an input of the
-- loop (World).
use visp.Base.{ℕ, Bool, true, false, Option, none, some, List, [], ◌++◌, Text, codes}
use visp.Core.Message.{ToolCallRequest}

-- crates/visp-core/src/error.rs
pub data LlmError : Type 0 where
  network auth stream : (message : Text) → LlmError
  rate_limit : (retry_after_secs : ℕ) → LlmError
  api : (status : ℕ) (message : Text) → LlmError
  cancelled : LlmError

pub data AgentErrorCode : Type 0 where
  llm_auth llm_rate_limit llm_api llm_network llm_stream max_iterations stuck_in_loop :
      AgentErrorCode
  code_cancelled internal code_session_busy : AgentErrorCode

-- crates/visp-core/src/provider_metadata.rs
pub record ProviderMetadata : Type 0 where
  pub model : Text
  pub finish_reasons : List Text
  pub input_tokens : ℕ
  pub output_tokens : ℕ
  pub cache_read_input_tokens : Option ℕ
  pub cache_creation_input_tokens : Option ℕ
  pub latency_ms : ℕ

-- The four counts of tokens that usage events carry.
pub record Usage : Type 0 where
  pub input_tokens : ℕ
  pub output_tokens : ℕ
  pub cache_creation_input_tokens : ℕ
  pub cache_read_input_tokens : ℕ

pub data ChatEvent : Type 0 where
  chat_text_delta : Text → ChatEvent
  chat_tool_call : ToolCallRequest → ChatEvent
  chat_thinking_block : (block : Text) → ChatEvent
  chat_usage_info : Usage → (tool_calls : ℕ) (cost : Option ℕ) → ChatEvent
  chat_usage_delta : Usage → ChatEvent
  chat_output_metadata : ProviderMetadata → ChatEvent
  chat_image_block : (path mime_type : Text) (remote_url : Option Text) → ChatEvent
  chat_image_error : (reason : Text) → ChatEvent
  chat_done : ChatEvent

pub data PermissionKind : Type 0 where
  approval question : PermissionKind

pub data ToolOutcome : Type 0 where
  success failure denied outcome_cancelled truncated : ToolOutcome

abbrev pub into_is_error : ToolOutcome → Bool
into_is_error success = false
into_is_error _ = true

pub data AgentEvent : Type 0 where
  text_delta : Text → AgentEvent
  thinking_block : (block : Text) → AgentEvent
  thinking_delta : Text → AgentEvent
  usage_info : Usage → (tool_calls : ℕ) (cost : Option ℕ) → AgentEvent
  usage_delta : Usage → AgentEvent
  tool_call_request : ToolCallRequest → AgentEvent
  tool_call_result : (call_id tool_name content : Text) (is_error : Bool) → ToolOutcome → AgentEvent
  pre_tool_use : (call_id tool_name : Text) (requires_approval : Bool) → AgentEvent
  status_update : Text → AgentEvent
  error : AgentErrorCode → (message : Text) → AgentEvent
  done : AgentEvent
  image_block : (path mime_type : Text) (remote_url : Option Text) → AgentEvent
  image_error : (reason : Text) → AgentEvent
  user_query :
      (query_id message : Text) (options : List Text) (allow_other : Bool)
      → PermissionKind
      → AgentEvent

-- The messages to the orchestrator that the loop sends.
pub data AgentMessage : Type 0 where
  msg_text_delta : Text → AgentMessage
  msg_thinking_block : (block : Text) → AgentMessage
  msg_usage_info : Usage → (tool_calls : ℕ) (cost : Option ℕ) → AgentMessage
  msg_usage_delta : Usage → AgentMessage
  msg_status_update : Text → AgentMessage
  msg_error : AgentErrorCode → (message : Text) → AgentMessage
  msg_tool_call_request : ToolCallRequest → AgentMessage
  msg_tool_call_result : (call_id tool_name content : Text) (is_error : Bool) → AgentMessage
  msg_done : AgentMessage

unfoldable pub event_to_msg : AgentEvent → Option AgentMessage
event_to_msg (text_delta s) = some (msg_text_delta s)
event_to_msg (thinking_block v) = some (msg_thinking_block v)
event_to_msg (thinking_delta s) = none
event_to_msg (usage_info u tool_calls cost) = some (msg_usage_info u tool_calls cost)
event_to_msg (usage_delta u) = some (msg_usage_delta u)
event_to_msg (tool_call_request call) = some (msg_tool_call_request call)
event_to_msg (tool_call_result call_id tool_name content is_error outcome) =
    some (msg_tool_call_result call_id tool_name content is_error)
event_to_msg (pre_tool_use call_id tool_name requires_approval) = none
event_to_msg (status_update s) = some (msg_status_update s)
event_to_msg (error code message) = some (msg_error code message)
event_to_msg done = some msg_done
event_to_msg (image_block path mime_type remote_url) = none
event_to_msg (image_error reason) = none
event_to_msg (user_query query_id message options allow_other kind) = none

-- `decimal` prints a number.
unfoldable pub llm_error_to_code : (decimal : ℕ → Text) → LlmError → AgentErrorCode × Text
llm_error_to_code decimal (network msg) = (llm_network, msg)
llm_error_to_code decimal (rate_limit secs) =
    (llm_rate_limit, codes "rate limited, retry after " ++ (decimal secs ++ codes "s"))
llm_error_to_code decimal (auth msg) = (llm_auth, msg)
llm_error_to_code decimal (api status message) =
    (llm_api, codes "status " ++ (decimal status ++ (codes ": " ++ message)))
llm_error_to_code decimal (stream msg) = (llm_stream, msg)
llm_error_to_code decimal cancelled = (code_cancelled, codes "agent cancelled")

-- crates/visp-core/src/agent.rs: the answer to a query. The index is an `i32`; a negative one is
-- `none`. `unwrap_or_default` gives the index 0 and no text.
pub record UserQueryResult : Type 0 where
  pub selected_index : Option ℕ
  pub text : Text

abbrev pub default_answer : UserQueryResult
default_answer = record { selected_index = some 0; text = [] }

abbrev pub unwrap_or_default : Option UserQueryResult → UserQueryResult
unwrap_or_default none = default_answer
unwrap_or_default (some r) = r
