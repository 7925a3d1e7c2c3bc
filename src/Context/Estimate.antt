-- ===== src/Context/Estimate.antt =====
-- The token budget, and what a message will cost in a prompt once its tool output is cut.
use visp.Base.{
  ℕ, ◌+◌, ◌-◌, ◌*◌, ◌/◌, ◌%◌, min, max, List, ◌++◌, map, Text, codes, length, take, ltb, leb,
  if◌then◌else◌, ◌&&◌, add32, sum32, u32_mod,
}
use visp.Core.Message.{tool, Message, role_eq}

unfoldable pub calculate_available : ℕ → ℕ → ℕ
calculate_available max_context_tokens output_tokens =
    let capped_output = min output_tokens (max_context_tokens * 3 % u32_mod / 4) in
    max_context_tokens - max capped_output 4000

-- What a cut tool output is taken to cost.
abbrev pub cut_tokens : ℕ → ℕ
cut_tokens max_chars = add32 (min ((max_chars + 3) / 4) (u32_mod - 1)) 1

unfoldable pub estimate_message_tokens_for_prompt : ℕ → Message → ℕ
estimate_message_tokens_for_prompt max_chars msg =
    if role_eq msg.role tool && ltb max_chars (length msg.content)
    then cut_tokens max_chars
    else msg.estimated_tokens

unfoldable pub estimate_messages_tokens_for_prompt : ℕ → List Message → ℕ
estimate_messages_tokens_for_prompt max_chars messages =
    sum32 (map (estimate_message_tokens_for_prompt max_chars) messages)

abbrev pub truncated_mark : Text
truncated_mark = codes "... (truncated)"

unfoldable pub truncate_tool_output : Text → ℕ → Text
truncate_tool_output content max_chars =
    if leb (length content) max_chars then content else take max_chars content ++ truncated_mark
