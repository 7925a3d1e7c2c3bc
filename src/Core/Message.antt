-- ===== src/Core/Message.antt =====
-- crates/visp-core/src/message.rs: a message of a conversation and the estimate of its tokens.
-- JSON values are held as their serialised text, times and counts as numbers; the cost in dollars
-- (`actual_cost`, an `f64`) is left out, since no operation modelled here reads it. The f64 division
-- of the estimate is exact for every length below 2^53.
use visp.Base.{
  ℕ, ◌+◌, ◌/◌, ◌-◌, min, Bool, true, false, Option, none, some, List, [], ◌∷◌, Text, byte_len,
  codes, add32, u32_mod,
}

pub data MessageType : Type 0 where
  text thinking tool_call tool_result error status system user : MessageType

pub data Role : Type 0 where
  system user assistant tool : Role

pub record ToolCallRequest : Type 0 where
  pub id : Text
  pub name : Text
  pub arguments : Text

pub record ImageData : Type 0 where
  pub path : Text
  pub base64 : Text
  pub mime_type : Text

pub record Message : Type 0 where
  pub role : Role
  pub kind : MessageType
  pub content : Text
  pub tool_call_id : Option Text
  pub tool_calls : Option (List ToolCallRequest)
  pub extra_blocks : Option (List Text)
  pub skip_context : Bool
  pub estimated_tokens : ℕ
  pub actual_tokens_input : Option ℕ
  pub actual_tokens_output : Option ℕ
  pub actual_cache_read : Option ℕ
  pub actual_cache_write : Option ℕ
  pub provider_metadata : Option Text
  pub tool_result_is_error : Option Bool
  pub tool_result_duration_ms : Option ℕ
  pub tool_call_count : Option ℕ
  pub created_at : Option ℕ
  pub images : List ImageData

-- `==` on roles.
abbrev pub role_eq : Role → Role → Bool
role_eq Role.system Role.system = true
role_eq Role.user Role.user = true
role_eq assistant assistant = true
role_eq tool tool = true
role_eq _ _ = false

-- One token for four bytes, rounded up; the cast to `u32` saturates.
unfoldable pub estimate_tokens : Text → ℕ
estimate_tokens s = min ((byte_len s + 3) / 4) (u32_mod - 1)

estimate_calls : ℕ → List ToolCallRequest → ℕ
estimate_calls total [] = total
estimate_calls total (c ∷ cs) =
    estimate_calls
      (add32 total (
        add32 (add32 (estimate_tokens c.id) (estimate_tokens c.name))
          (estimate_tokens c.arguments)))
      cs

abbrev estimate_call_id : Option Text → ℕ → ℕ
estimate_call_id none total = total
estimate_call_id (some id) total = add32 total (estimate_tokens id)

abbrev estimate_tool_calls : Option (List ToolCallRequest) → ℕ → ℕ
estimate_tool_calls none total = total
estimate_tool_calls (some calls) total = estimate_calls total calls

unfoldable pub estimate_message_tokens : Message → ℕ
unfolding estimate_calls
estimate_message_tokens m =
    let content = add32 (estimate_tokens m.content) 1 in
    estimate_tool_calls m.tool_calls (estimate_call_id m.tool_call_id content)

-- The literal that every constructor of the source writes out.
abbrev pub bare : Role → MessageType → Text → Message
bare role kind content = record {
  role = role;
  kind = kind;
  content = content;
  tool_call_id = none;
  tool_calls = none;
  extra_blocks = none;
  skip_context = false;
  estimated_tokens = 0;
  actual_tokens_input = none;
  actual_tokens_output = none;
  actual_cache_read = none;
  actual_cache_write = none;
  provider_metadata = none;
  tool_result_is_error = none;
  tool_result_duration_ms = none;
  tool_call_count = none;
  created_at = none;
  images = [];
}

abbrev pub counted : Message → Message
counted m = record m { estimated_tokens = estimate_message_tokens m }

-- The constructors: `Message::system`, `user`, `assistant_with_metadata`, `tool_with_duration`,
-- `tool_call`, `thinking`, `error` and `status`.
abbrev pub of_system : Text → Message
of_system content = counted (bare Role.system MessageType.system content)

abbrev pub of_user : Text → Message
of_user content = counted (bare Role.user MessageType.user content)

abbrev pub of_assistant : Text → Option Text → Message
of_assistant content metadata =
    counted (record (bare assistant text content) { provider_metadata = metadata })

abbrev pub of_tool : Text → Text → Option ℕ → Message
of_tool content call_id duration_ms = counted (record (bare tool tool_result content) {
  tool_call_id = some call_id;
  tool_result_duration_ms = duration_ms;
})

abbrev pub of_tool_call : List ToolCallRequest → Message
of_tool_call calls = record (bare assistant tool_call []) { tool_calls = some calls }

abbrev pub of_thinking : Text → Message
of_thinking content = bare assistant thinking content

abbrev pub of_error : Text → Message
of_error content = bare Role.system error content

abbrev pub of_status : Text → Message
of_status content = bare Role.system status content

-- A call of a tool with a short name, for the tests.
abbrev pub call_named : Text → ToolCallRequest
call_named id = record { id = id; name = codes "bash"; arguments = codes "{}" }
