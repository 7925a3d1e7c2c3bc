-- ===== src/Core/AgentLoop/Tools/Kept.antt =====
-- The tasks of the tools leave the loop's history alone (crates/visp-core/src/agent_loop.rs).
use visp.Base.{
  ℕ, ◌≡◌, refl, ◌∙◌, Bool, true, false, not, ◌&&◌, Option, none, some, List, [], ◌∷◌, ◌++◌, Text,
  codes, if◌then◌else◌, if_both, ◌==◌,
}
use visp.Core.Message.{ToolCallRequest}
use visp.Core.ToolRegistry.{ToolRegistry, execute}
use visp.Core.Session.{SessionStore}
use visp.Core.Session.Manager.{is_tool_approved}
use visp.Core.AgentLoop.Events.{
  ProviderMetadata, AgentEvent, AgentMessage, ToolOutcome, tool_call_request, tool_call_result,
  pre_tool_use, user_query, approval, msg_tool_call_request, msg_tool_call_result, into_is_error,
  outcome_cancelled,
}
use visp.Core.AgentLoop.World.{
  Outside, World, Loop, ToolRun, ToolResult, returns, panics, await, is_cancelled, tell,
  try_forward,
}
use visp.Core.AgentLoop.Task.{
  conclude, ran, ran_or_unknown, run_tool, if_approved, approved, ask_approval, approval_answer,
  raw_args, registered, or_null, run_task, error_result,
}
use visp.Core.AgentLoop.Tools.{run_tasks}

module _ {C S : Type 0} (st : SessionStore C S) (out : Outside C) (l : Loop C)
    (registry : ToolRegistry (ℕ → ToolRun)) where
  abbrev Kept : {A : Type 0} → World S → A × World S → Type 0
  Kept w r = r.1.history ≡ w.history

  abbrev Same : World S → World S → Type 0
  Same w u = u.history ≡ w.history

  tell-history : (e : AgentEvent) (w : World S) → Same w (tell st out l e w)
  unfolding tell await
  tell-history e w = if_both (Same w) (out.receives w.now) refl refl

  try_forward-history : (msg : AgentMessage) (w : World S) → Same w (try_forward st out l msg w)
  unfolding try_forward
  try_forward-history msg w = if_both (Same w) (l.has_global_tx && out.has_room w.now) refl refl

  conclude-history :
      (call : ToolCallRequest) (outcome : ToolOutcome) (result : ToolResult) (ms : Option ℕ)
      (w : World S)
      → Kept w (conclude st out l registry call outcome result ms w)
  unfolding conclude
  conclude-history call outcome result ms w =
      tell-history
        (tool_call_result call.id call.name result.content (into_is_error outcome) outcome) _
      ∙ try_forward-history (msg_tool_call_result call.id call.name result.content result.is_error)
          w

  ran-history :
      (call : ToolCallRequest) (r : ToolRun) (w : World S) → Kept w (ran st out l registry call r w)
  ran-history call (panics message) w = refl
  ran-history call (returns result ms) w = conclude-history call _ result (some ms) w

  ran_or_unknown-history :
      (call : ToolCallRequest) (o : Option (ℕ → ToolRun)) (w : World S)
      → Kept w (ran_or_unknown st out l registry call o w)
  ran_or_unknown-history call none w = conclude-history call _ _ (some 0) w
  ran_or_unknown-history call (some tool) w = ran-history call (tool w.now) w

  run_tool-history :
      (requires : Bool) (call : ToolCallRequest) (args : Option Text) (w : World S)
      → Kept w (run_tool st out l registry requires call args w)
  unfolding await
  run_tool-history requires call none w = conclude-history call _ _ none w
  run_tool-history requires call (some args) w =
      let told = tell st out l (pre_tool_use call.id call.name requires) w in
      ran_or_unknown-history call (execute registry call.name args) (await st out l told)
      ∙ tell-history (pre_tool_use call.id call.name requires) w

  if_approved-history :
      (requires : Bool) (call : ToolCallRequest) (w : World S) (r : Bool × World S)
      → Kept w r
      → Kept w (if_approved st out l registry requires call r)
  if_approved-history requires call w (true, u) h =
      run_tool-history requires call (out.parse_json (raw_args call.arguments)) u ∙ h
  if_approved-history requires call w (false, u) h = conclude-history call _ _ none u ∙ h

  approved-history :
      (call : ToolCallRequest) (index : Option ℕ) (w : World S)
      → Kept w (approved st out l registry call index w)
  approved-history call none w = refl
  approved-history call (some i) w =
      if_both (Kept w) (i == 0) refl (if_both (Kept w) (i == 2) refl refl)

  ask_approval-history :
      (call : ToolCallRequest) (w : World S) → Kept w (ask_approval st out l registry call w)
  unfolding await
  ask_approval-history call w =
      let message =
        codes "Allow tool: "
        ++ (call.name ++ (codes "(" ++ (out.format_args call.arguments ++ codes ")?"))) in
      let asked = tell st out l (user_query call.id message [] false approval) w in
      let waited = await st out l asked in
      approved-history call
        (approval_answer st out l registry (is_cancelled st out l waited)
          (out.approval asked.now)).selected_index
        waited
      ∙ tell-history (user_query call.id message [] false approval) w

  run_task-history :
      (call : ToolCallRequest) (w0 : World S) → Kept w0 (run_task st out l registry call w0)
  unfolding run_task await
  run_task-history call w0 =
      let w = await st out l w0 in
      let forwarded = try_forward st out l (msg_tool_call_request call) w in
      let requested = tell st out l (tool_call_request call) forwarded in
      let e : requested.history ≡ w0.history =
        tell-history (tool_call_request call) forwarded
        ∙ try_forward-history (msg_tool_call_request call) w in
      let requires =
        registered st out l registry call.name
        && out.requires_approval call.name
            (or_null st out l registry (out.parse_json call.arguments)) in
      let asked : Bool × World S = ask_approval st out l registry call requested in
      let unasked : Bool × World S = (true, requested) in
      let test = requires && not (is_tool_approved st requested.sm l.sid call.name) in
      let answered : Bool × World S = if test then asked else unasked in
      let f : Kept w0 answered =
        if_both (Kept w0) test {x = asked} {y = unasked} (ask_approval-history call requested ∙ e)
          e in
      if_both (Kept w0) (is_cancelled st out l w)
        {x = conclude st out l registry call outcome_cancelled (error_result (codes "Cancelled"))
          none w}
        {y = if_approved st out l registry requires call answered}
        (conclude-history call outcome_cancelled (error_result (codes "Cancelled")) none w)
        (if_approved-history requires call w0 answered f)

  module _ (metadata_text : ProviderMetadata → Text) where
    pub run_tasks-history :
        (calls : List ToolCallRequest) (w : World S)
        → Kept w (run_tasks st out l metadata_text registry calls w)
    unfolding run_tasks
    run_tasks-history [] w = refl
    run_tasks-history (call ∷ calls) w =
        let w' = (run_task st out l registry call w).1 in
        let e : w'.history ≡ w.history = run_task-history call w in
        let f = run_tasks-history calls w' ∙ e in
        if_both (Kept w) (is_cancelled st out l w') e (
          if_both (Kept w)
            (is_cancelled st out l (run_tasks st out l metadata_text registry calls w').1) f f)
