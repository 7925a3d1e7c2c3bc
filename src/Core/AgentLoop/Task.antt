-- ===== src/Core/AgentLoop/Task.antt =====
-- One call of a tool in `execute_tool_calls` of crates/visp-core/src/agent_loop.rs, from the spawn of
-- its task to its result: the approval, the arguments, the tool, and what is told of it.
pub mod Approval
use visp.Base.{
  ℕ, zero, suc, ◌+◌, Bool, true, false, not, ◌&&◌, Option, none, some, List, [], ◌∷◌, ◌++◌, Text,
  codes, if◌then◌else◌, add32, length, byte_len, map, ◌==◌,
}
use visp.Core.Message.{
  Message, assistant, tool_call, counted, bare, of_tool, of_system, ToolCallRequest,
}
use visp.Core.Session.{SessionStore, SessionError, SessionStatus}
use visp.Core.Session.Manager.{is_tool_approved, add_approved_tool}
use visp.Core.ToolRegistry.{ToolRegistry, get, execute}
use visp.Core.AgentLoop.Events.{
  ProviderMetadata, AgentEvent, AgentMessage, tool_call_request, tool_call_result, pre_tool_use,
  user_query, approval, msg_tool_call_request, msg_tool_call_result, ToolOutcome, success, failure,
  denied, outcome_cancelled, truncated, into_is_error, status_update, image_block, internal,
  stuck_in_loop, UserQueryResult, unwrap_or_default,
}
use visp.Core.AgentLoop.Marker.{trim, strip_prefix, find_char}
use visp.Core.AgentLoop.World.{
  Outside, Loop, World, Action, ◌>>=◌, ToolResult, ToolRun, returns, panics, await, is_cancelled,
  send_event, fail_anyway, store_message, push_history, tell, try_forward,
}
use visp.Core.AgentLoop.Stream.{StreamOutput}
use visp.Core.AgentLoop.Decide.{blocks_or_none, metadata_json}
use visp.Core.AgentLoop.DoomLoop.{DoomLoop, Verdict, goes_on, warns, stuck, round_sig, watch_round}

pub record ToolExecResult : Type 0 where
  pub call_id : Text
  pub result : ToolResult
  pub duration_ms : Option ℕ

abbrev pub error_result : Text → ToolResult
error_result content = record { content = content; is_error = true }

-- Empty arguments are those of a call without parameters.
abbrev pub raw_args : Text → Text
raw_args arguments = elim (trim arguments) [ [] ↦ codes "{}" | c ∷ s ↦ arguments ]

module _ {C S : Type 0} (st : SessionStore C S) (out : Outside C) (l : Loop C)
    (registry : ToolRegistry (ℕ → ToolRun)) where
  -- The result is told to the orchestrator and to the user, and is what the task returns.
  unfoldable pub conclude :
      ToolCallRequest → ToolOutcome → ToolResult → Option ℕ → World S → ToolExecResult × World S
  unfolding tell try_forward
  conclude call outcome result duration_ms w =
      let w' =
        try_forward st out l (msg_tool_call_result call.id call.name result.content result.is_error)
          w in
      (
        record { call_id = call.id; result = result; duration_ms = duration_ms },
        tell st out l
            (tool_call_result call.id call.name result.content (into_is_error outcome) outcome) w',
      )

  -- What the tool itself comes to; a panic of it is seen where the results are collected.
  abbrev pub ran : ToolCallRequest → ToolRun → World S → ToolExecResult × World S
  ran call (panics message) w = (
    record {
      call_id = call.id;
      result = error_result (codes "Tool execution panicked: " ++ message);
      duration_ms = none;
    },
    w,
  )
  ran call (returns result ms) w =
      conclude call (if result.is_error then failure else success) result (some ms) w

  abbrev pub ran_or_unknown :
      ToolCallRequest → Option (ℕ → ToolRun) → World S → ToolExecResult × World S
  ran_or_unknown call none w =
      ran call (returns (error_result (codes "Tool not found in registry")) 0) w
  ran_or_unknown call (some tool) w = ran call (tool w.now) w

  abbrev pub truncated_text : ToolCallRequest → Text
  truncated_text call =
      codes "[TRUNCATED] Tool call arguments incomplete ("
      ++ (out.decimal (byte_len call.arguments)
          ++ (codes " bytes, parse: "
              ++ (out.parse_error (raw_args call.arguments)
                  ++ codes
                      "). The content exceeded max_output_tokens.\nTo fix this, split the content into smaller parts:\n- Use multiple smaller write_file or edit_file calls\n- Or use edit_file to incrementally build the file\n- Do NOT retry the same large write_file call — it will fail again.")))

  -- Past the approval: the arguments are parsed, and the tool runs.
  abbrev pub run_tool : Bool → ToolCallRequest → Option Text → World S → ToolExecResult × World S
  run_tool requires call none w =
      conclude call truncated (error_result (truncated_text call)) none w
  run_tool requires call (some args) w =
      let told = tell st out l (pre_tool_use call.id call.name requires) w in
      ran_or_unknown call (execute registry call.name args) (await st out l told)

  abbrev pub no_answer : UserQueryResult
  no_answer = record { selected_index = none; text = [] }

  -- The first of a cancel, the time-out and the answer.
  abbrev pub approval_answer : Bool → Option (Option UserQueryResult) → UserQueryResult
  approval_answer true r = no_answer
  approval_answer false none = no_answer
  approval_answer false (some r) = unwrap_or_default r

  -- Index 0 allows the call, 2 the tool for the session; any other answer denies.
  abbrev pub approved : ToolCallRequest → Option ℕ → World S → Bool × World S
  approved call none w = (false, w)
  approved call (some i) w =
      if i == 0
      then (true, w)
      else if i == 2
      then (true, record w { sm = (add_approved_tool st w.sm l.sid call.name).1 })
      else (false, w)

  -- The user is asked whether the tool may run.
  abbrev pub asking : ToolCallRequest → World S → World S
  asking call w =
      let message =
        codes "Allow tool: "
        ++ (call.name ++ (codes "(" ++ (out.format_args call.arguments ++ codes ")?"))) in
      tell st out l (user_query call.id message [] false approval) w

  abbrev pub ask_approval : ToolCallRequest → World S → Bool × World S
  ask_approval call w =
      let asked = asking call w in
      let waited = await st out l asked in
      let answer = approval_answer (is_cancelled st out l waited) (out.approval asked.now) in
      approved call answer.selected_index waited

  abbrev pub if_approved : Bool → ToolCallRequest → Bool × World S → ToolExecResult × World S
  if_approved requires call (true, w) =
      run_tool requires call (out.parse_json (raw_args call.arguments)) w
  if_approved requires call (false, w) =
      conclude call denied (error_result (codes "User denied")) none w

  abbrev pub registered : Text → Bool
  registered name = elim (get registry name) [ none ↦ false | some tool ↦ true ]

  abbrev pub or_null : Option Text → Text
  or_null none = codes "null"
  or_null (some v) = v

  unfoldable pub run_task : ToolCallRequest → World S → ToolExecResult × World S
  unfolding conclude tell try_forward await is_cancelled execute get is_tool_approved
      add_approved_tool trim
  run_task call w0 =
      let w = await st out l w0 in
      let requested =
        tell st out l (tool_call_request call)
          (try_forward st out l (msg_tool_call_request call) w) in
      let requires =
        registered call.name
        && out.requires_approval call.name (or_null (out.parse_json call.arguments)) in
      if is_cancelled st out l w
      then conclude call outcome_cancelled (error_result (codes "Cancelled")) none w
      else if_approved requires call (
          if requires && not (is_tool_approved st requested.sm l.sid call.name)
          then ask_approval call requested
          else (true, requested))
