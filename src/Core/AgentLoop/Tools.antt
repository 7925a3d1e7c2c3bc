-- ===== src/Core/AgentLoop/Tools.antt =====
-- `execute_tool_calls` of crates/visp-core/src/agent_loop.rs. The spawned tasks are taken to run one
-- after the other, in the order in which they were spawned; what tasks do to the sessions between the
-- awaits of another is among the calls of others (World). `join_all` gives their results in that order
-- too, so the sort by index that follows changes nothing.
pub mod Answers
pub mod Kept
pub mod History
use visp.Base.{
  ℕ, ◌%◌, u32_mod, zero, suc, ◌+◌, Bool, true, false, not, ◌&&◌, Option, none, some, List, [], ◌∷◌,
  ◌++◌, Text, codes, if◌then◌else◌, add32, length, map, ◌==◌,
}
use visp.Core.Message.{
  Message, assistant, tool_call, counted, bare, of_tool, of_system, ToolCallRequest,
}
use visp.Core.Session.{SessionStore, SessionError, SessionStatus}
use visp.Core.ToolRegistry.{ToolRegistry}
use visp.Core.AgentLoop.Events.{
  ProviderMetadata, AgentEvent, status_update, image_block, internal, stuck_in_loop,
}
use visp.Core.AgentLoop.Marker.{trim, strip_prefix, find_char}
use visp.Core.AgentLoop.World.{
  Outside, Loop, World, Action, bound, ◌>>=◌, ToolRun, await, is_cancelled, send_event, fail_anyway,
  store_message, push_history,
}
use visp.Core.AgentLoop.Stream.{StreamOutput}
use visp.Core.AgentLoop.Decide.{blocks_or_none, metadata_json}
use visp.Core.AgentLoop.DoomLoop.{DoomLoop, Verdict, goes_on, warns, stuck, round_sig, watch_round}
use visp.Core.AgentLoop.Task.{ToolExecResult, run_task}

abbrev pub drop_last : Text → Text
drop_last [] = []
drop_last (c ∷ []) = []
drop_last (c ∷ d ∷ s) = c ∷ drop_last (d ∷ s)

-- The event of one image marker, from the trimmed text inside it.
abbrev pub image_of : Text → List AgentEvent
image_of [] = []
image_of (c ∷ s) =
    if c == b'|' then image_block [] [] (some (trim s)) ∷ [] else image_block (c ∷ s) [] none ∷ []

abbrev pub opens_image : Text → Option Text
opens_image s = strip_prefix (codes "<image: ") s

-- The image markers of a text, after `skip` characters of it.
unfoldable pub images_of : ℕ → Text → List AgentEvent
unfolding trim strip_prefix find_char
images_of skip [] = []
images_of (suc skip) (c ∷ s) = images_of skip s
images_of zero (c ∷ s) = elim (opens_image (c ∷ s)) [
  | none ↦ images_of zero s
  | some value ↦ elim (find_char b'>' value) [
    | none ↦ []
    | some found ↦ image_of (trim (drop_last found.0)) ++ images_of (7 + length found.0) s
  ]
]

-- A tool's result as a message of the conversation.
abbrev pub result_message : ToolExecResult → Message
result_message r = record (of_tool r.result.content r.call_id r.duration_ms) {
  tool_result_is_error = some r.result.is_error;
}

abbrev pub warning_text : Text
warning_text =
    codes
      "You appear to be repeating the same tool calls. Please change your approach or summarize the current progress."

module _ {C S : Type 0} (st : SessionStore C S) (out : Outside C) (l : Loop C)
    (metadata_text : ProviderMetadata → Text) (registry : ToolRegistry (ℕ → ToolRun)) where
  abbrev pub calls_message : StreamOutput → Message
  calls_message o = counted (record (bare assistant tool_call o.text_buffer) {
    tool_calls = some o.tool_calls;
    extra_blocks = blocks_or_none o.thinking_blocks;
    actual_tokens_input = some o.usage.input_tokens;
    actual_tokens_output = some o.usage.output_tokens;
    actual_cache_read = some o.usage.cache_read_input_tokens;
    actual_cache_write = some o.usage.cache_creation_input_tokens;
    provider_metadata = metadata_json st out l metadata_text o.provider_metadata;
    tool_call_count = some (length o.tool_calls % u32_mod);
  })

  -- Appended to the history, then to the session; where that fails, the loop ends.
  abbrev pub append_or_end : Text → Message → Action S (Unit {0})
  append_or_end what m = do
    _ ← push_history m
    store_message st out l m (λ e.
        fail_anyway st out l internal
          (codes "Failed to append " ++ (what ++ (codes ": " ++ out.error_text e))))

  -- What a verdict on the round does.
  abbrev pub act_on : Verdict × DoomLoop → Action S DoomLoop
  act_on (goes_on, d) w = (some d, w)
  act_on (stuck, d) w =
      fail_anyway st out l stuck_in_loop
        (codes "Agent stuck in repeated tool call loop after warning") w
  act_on (warns, d) w =
      let (_, w') =
        send_event st out l
          (status_update (codes "Agent appears stuck in a loop of repeated tool calls")) w in
      (some d, record w' { history = w'.history ++ of_system warning_text ∷ [] })

  -- The tasks, and a look for a cancel after each: it aborts the others, and no result is kept.
  unfoldable pub run_tasks : List ToolCallRequest → World S → List ToolExecResult × World S
  unfolding run_task is_cancelled
  run_tasks [] w = ([], w)
  run_tasks (call ∷ calls) w =
      let (r, w') = run_task st out l registry call w in
      let (rs, w'') = run_tasks calls w' in
      if is_cancelled st out l w'
      then ([], w')
      else if is_cancelled st out l w''
      then ([], w'')
      else (r ∷ rs, w'')

  -- The images that a result mentions are sent on; nothing hangs on their arrival.
  abbrev pub send_images : List AgentEvent → World S → World S
  send_images [] w = w
  send_images (e ∷ es) w = send_images es (send_event st out l e w).1

  unfoldable pub append_results : List ToolExecResult → Action S (Unit {0})
  unfolding send_event store_message fail_anyway images_of
  append_results [] w = (some tt, w)
  append_results (r ∷ rs) w =
      bound
        (λ _ w'.
          append_results rs
            (if r.result.is_error then w' else send_images (images_of 0 r.result.content) w'))
        (append_or_end (codes "tool result") (result_message r) w)

  -- The count of calls and the state of the detection that the next round starts with.
  unfoldable pub execute_tool_calls : StreamOutput → ℕ → DoomLoop → Action S (ℕ × DoomLoop)
  unfolding send_event store_message fail_anyway watch_round round_sig run_tasks append_results
  execute_tool_calls o total_tool_calls doom = do
    _ ← append_or_end (codes "assistant message") (calls_message o)
    doom' ←
        act_on (watch_round l.cfg.doom_loop_threshold doom (round_sig out.parse_json o.tool_calls))
    _ ← λ w. let (results, w') = run_tasks o.tool_calls w in append_results results w'
    λ w. (some (add32 total_tool_calls (length o.tool_calls % u32_mod), doom'), w)
