-- ===== src/Core/AgentLoop/Decide.antt =====
-- `handle_stream_result` of crates/visp-core/src/agent_loop.rs: what an answer without tool calls
-- comes to. The messages are written to the loop's history first, then to the session.
use visp.Base.{
  ℕ, Bool, true, false, not, ◌&&◌, Option, none, some, List, [], ◌∷◌, ◌++◌, Text, codes, text_eq,
  if◌then◌else◌, ltb, any, length,
}
use visp.Core.Message.{Message, of_thinking, of_assistant, counted}
use visp.Core.Session.{SessionStore, SessionError, completed}
use visp.Core.AgentLoop.Events.{ProviderMetadata, user_query, question, usage_info, done, internal}
use visp.Core.AgentLoop.Marker.{UserQueryMarker, parse_user_query_marker, strip_user_query_marker}
use visp.Core.AgentLoop.World.{
  Outside, Loop, Action, ◌>>=◌, send_event, fail, finish, store_message, push_history,
}
use visp.Core.AgentLoop.Stream.{StreamOutput}

pub data StreamDecision : Type 0 where
  decided_done decided_continue decided_thinking_only : StreamDecision
  decided_user_query : StreamDecision

abbrev pub nonempty : {A : Type 0} → List A → Bool
nonempty [] = false
nonempty (x ∷ xs) = true

-- Some finish reason is one of two.
abbrev finished_by : Text → Text → Option ProviderMetadata → Bool
finished_by r s none = false
finished_by r s (some m) = any (λ t. if text_eq t r then true else text_eq t s) m.finish_reasons

unfoldable pub provider_claims_tool_calls : Option ProviderMetadata → Bool
unfolding text_eq
provider_claims_tool_calls m = finished_by (codes "tool_calls") (codes "function_call") m

abbrev pub has_metadata : Option ProviderMetadata → Bool
has_metadata none = false
has_metadata (some m) = true

abbrev pub blocks_or_none : List Text → Option (List Text)
blocks_or_none [] = none
blocks_or_none (b ∷ bs) = some (b ∷ bs)

module _ {C S : Type 0} (st : SessionStore C S) (out : Outside C) (l : Loop C)
    (metadata_text : ProviderMetadata → Text) where
  abbrev pub metadata_json : Option ProviderMetadata → Option Text
  metadata_json none = none
  metadata_json (some m) = some (metadata_text m)

  abbrev pub not_appended : Text → SessionError → Action S (Unit {0})
  not_appended what e =
      fail st out l internal
        (codes "Failed to append " ++ (what ++ (codes " message: " ++ out.error_text e)))

  abbrev pub skip : Action S (Unit {0})
  skip w = (some tt, w)

  abbrev pub append_both : Text → Message → Action S (Unit {0})
  append_both what m = do _ ← push_history m; store_message st out l m (not_appended what)

  -- `extract_thinking_text`
  abbrev pub extract_thinking_text : List Text → Option Text
  extract_thinking_text [] = none
  extract_thinking_text (block ∷ blocks) = out.thinking_of block

  unfoldable pub save_thinking : Option Text → Option (List Text) → Action S (Unit {0})
  unfolding store_message fail
  save_thinking none blocks = skip
  save_thinking (some thinking) blocks =
      append_both (codes "thinking")
        (counted (record (of_thinking thinking) { extra_blocks = blocks }))

  abbrev pub text_message : StreamOutput → Text → Message
  text_message o content = record (of_assistant content (metadata_json o.provider_metadata)) {
    extra_blocks = blocks_or_none o.thinking_blocks;
    actual_tokens_input = some o.usage.input_tokens;
    actual_tokens_output = some o.usage.output_tokens;
    actual_cache_read = some o.usage.cache_read_input_tokens;
    actual_cache_write = some o.usage.cache_creation_input_tokens;
  }

  unfoldable pub save_text : StreamOutput → Text → Action S (Unit {0})
  unfolding store_message fail
  save_text o [] = skip
  save_text o (c ∷ s) = append_both (codes "assistant") (text_message o (c ∷ s))

  abbrev pub decide : StreamDecision → Action S StreamDecision
  decide d w = (some d, w)

  -- The marker is found: the user is asked.
  abbrev pub ask_user : StreamOutput → UserQueryMarker → Action S StreamDecision
  ask_user o marker = do
    _ ← save_thinking (extract_thinking_text o.thinking_blocks) none
    _ ← save_text o (strip_user_query_marker o.text_buffer)
    _ ← λ w.
        send_event st out l
          (user_query (codes "query-" ++ out.decimal (length w.history)) marker.message
            marker.options marker.allow_other question)
          w
    decide decided_user_query

  abbrev pub inconsistent : Action S StreamDecision
  inconsistent =
      fail st out l internal (codes "provider 报告 tool_calls 但未解析到任何工具调用（SSE 解析与 provider 形态不一致）")

  abbrev pub empty_response : ℕ → Action S StreamDecision
  empty_response output_tokens = fail st out l internal (
      codes "LLM returned empty response after consuming "
      ++ (out.decimal output_tokens
          ++ codes
              " output tokens. If thinking mode is enabled, the thinking may have been redacted or the output budget exhausted. Try increasing budget_tokens or max_tokens."))

  abbrev pub think_on : StreamOutput → Action S StreamDecision
  think_on o = do
    _ ← save_thinking (extract_thinking_text o.thinking_blocks) (some o.thinking_blocks)
    decide decided_thinking_only

  abbrev pub complete : StreamOutput → ℕ → Action S StreamDecision
  complete o total_tool_calls = do
    _ ← save_thinking (extract_thinking_text o.thinking_blocks) none
    _ ← save_text o o.text_buffer
    _ ← send_event st out l (usage_info o.usage total_tool_calls o.cost)
    _ ← send_event st out l done
    λ w. (some decided_done, finish st out l completed w)

  -- No marker and no tool calls. The source tests an empty answer for the claim of tool calls first,
  -- then for its tokens, and any answer for the claim again.
  abbrev pub without_marker : StreamOutput → ℕ → Action S StreamDecision
  without_marker o total_tool_calls =
      let claims = provider_claims_tool_calls o.provider_metadata in
      let no_text = not (nonempty o.text_buffer) in
      let no_thinking = not (nonempty o.thinking_blocks) in
      if claims
      then inconsistent
      else if (no_text && no_thinking) && ltb 0 o.usage.output_tokens
      then empty_response o.usage.output_tokens
      else if (no_text && nonempty o.thinking_blocks) && has_metadata o.provider_metadata
      then think_on o
      else complete o total_tool_calls

  abbrev pub without_calls : StreamOutput → ℕ → Option UserQueryMarker → Action S StreamDecision
  without_calls o total_tool_calls (some marker) = ask_user o marker
  without_calls o total_tool_calls none = without_marker o total_tool_calls

  unfoldable pub handle_stream_result : StreamOutput → ℕ → Action S StreamDecision
  unfolding save_thinking save_text send_event finish fail provider_claims_tool_calls
      parse_user_query_marker strip_user_query_marker
  handle_stream_result o total_tool_calls =
      if nonempty o.tool_calls
      then decide decided_continue
      else without_calls o total_tool_calls (parse_user_query_marker o.text_buffer)
