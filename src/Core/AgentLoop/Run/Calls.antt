-- ===== src/Core/AgentLoop/Run/Calls.antt =====
-- The same of the tools (crates/visp-core/src/agent_loop.rs). A task never makes the loop return.
use visp.Base.{
  ℕ, Bool, true, false, not, ◌&&◌, Option, none, some, List, [], ◌∷◌, ◌++◌, Text, codes,
  if◌then◌else◌, if_both, ◌==◌,
}
use visp.Core.Message.{Message, ToolCallRequest}
use visp.Core.ToolRegistry.{ToolRegistry, execute}
use visp.Core.Session.{SessionStore}
use visp.Core.Session.Manager.{is_tool_approved}
use visp.Core.AgentLoop.Events.{
  ProviderMetadata, AgentEvent, ToolOutcome, success, failure, denied, outcome_cancelled, truncated,
  into_is_error, tool_call_request, tool_call_result, pre_tool_use, user_query, approval,
  msg_tool_call_request, msg_tool_call_result,
}
use visp.Core.AgentLoop.World.{
  Outside, World, Loop, ToolRun, ToolResult, returns, panics, await, is_cancelled, send_event, tell,
  try_forward,
}
use visp.Core.AgentLoop.World.Safe.{
  Keeps, Goes, then_Post, send_event-Inv, fail_anyway-Post, store_message-Goes, tell-Inv,
  try_forward-Inv,
}
use visp.Core.AgentLoop.Stream.{StreamOutput}
use visp.Core.AgentLoop.DoomLoop.{DoomLoop, Verdict, goes_on, warns, stuck, round_sig, watch_round}
use visp.Core.AgentLoop.Task.{
  ToolExecResult, conclude, ran, ran_or_unknown, run_tool, raw_args, approved, ask_approval,
  approval_answer, if_approved, registered, or_null, run_task, error_result, truncated_text,
}
use visp.Core.AgentLoop.Tools.{
  result_message, calls_message, append_or_end, act_on, run_tasks, send_images, images_of,
  append_results, execute_tool_calls,
}

module _ {C S : Type 0} {st : SessionStore C S} {out : Outside C} {l : Loop C}
    {Inv Failed Done Asked : World S → Type 0} (k : Keeps st out l Inv Failed Done Asked)
    (registry : ToolRegistry (ℕ → ToolRun)) where
  abbrev Valid : {A : Type 0} → A × World S → Type 0
  Valid r = Inv r.1

  conclude-Inv :
      (call : ToolCallRequest) (outcome : ToolOutcome) (result : ToolResult) (ms : Option ℕ)
      (w : World S)
      → Inv w
      → Valid (conclude st out l registry call outcome result ms w)
  unfolding conclude
  conclude-Inv call outcome result ms w v =
      tell-Inv k (tool_call_result call.id call.name result.content (into_is_error outcome) outcome)
        _
        (try_forward-Inv k (msg_tool_call_result call.id call.name result.content result.is_error) w
          v)

  ran-Inv :
      (call : ToolCallRequest) (r : ToolRun) (w : World S)
      → Inv w
      → Valid (ran st out l registry call r w)
  ran-Inv call (panics message) w v = v
  ran-Inv call (returns result ms) w v =
      conclude-Inv call (if result.is_error then failure else success) result (some ms) w v

  ran_or_unknown-Inv :
      (call : ToolCallRequest) (o : Option (ℕ → ToolRun)) (w : World S)
      → Inv w
      → Valid (ran_or_unknown st out l registry call o w)
  ran_or_unknown-Inv call none w v =
      ran-Inv call (returns (error_result (codes "Tool not found in registry")) 0) w v
  ran_or_unknown-Inv call (some tool) w v = ran-Inv call (tool w.now) w v

  run_tool-Inv :
      (requires : Bool) (call : ToolCallRequest) (args : Option Text) (w : World S)
      → Inv w
      → Valid (run_tool st out l registry requires call args w)
  run_tool-Inv requires call none w v =
      conclude-Inv call truncated (error_result (truncated_text st out l registry call)) none w v
  run_tool-Inv requires call (some args) w v =
      let told = tell st out l (pre_tool_use call.id call.name requires) w in
      ran_or_unknown-Inv call (execute registry call.name args) (await st out l told)
        (k.awaits told (tell-Inv k (pre_tool_use call.id call.name requires) w v))

  approved-Inv :
      (call : ToolCallRequest) (index : Option ℕ) (w : World S)
      → Inv w
      → Valid (approved st out l registry call index w)
  approved-Inv call none w v = v
  approved-Inv call (some i) w v =
      if_both Valid (i == 0) v (if_both Valid (i == 2) (k.approves call.name w v) v)

  ask_approval-Inv :
      (call : ToolCallRequest) (w : World S) → Inv w → Valid (ask_approval st out l registry call w)
  ask_approval-Inv call w v =
      let message =
        codes "Allow tool: "
        ++ (call.name ++ (codes "(" ++ (out.format_args call.arguments ++ codes ")?"))) in
      let asked = tell st out l (user_query call.id message [] false approval) w in
      let waited = await st out l asked in
      approved-Inv call
        (approval_answer st out l registry (is_cancelled st out l waited)
          (out.approval asked.now)).selected_index
        waited (k.awaits asked (tell-Inv k (user_query call.id message [] false approval) w v))

  if_approved-Inv :
      (requires : Bool) (call : ToolCallRequest) (r : Bool × World S)
      → Valid r
      → Valid (if_approved st out l registry requires call r)
  if_approved-Inv requires call (true, w) v =
      run_tool-Inv requires call (out.parse_json (raw_args call.arguments)) w v
  if_approved-Inv requires call (false, w) v =
      conclude-Inv call denied (error_result (codes "User denied")) none w v

  run_task-Inv :
      (call : ToolCallRequest) (w0 : World S) → Inv w0 → Valid (run_task st out l registry call w0)
  unfolding run_task
  run_task-Inv call w0 v0 =
      let w = await st out l w0 in
      let v = k.awaits w0 v0 in
      let forwarded = try_forward st out l (msg_tool_call_request call) w in
      let requested = tell st out l (tool_call_request call) forwarded in
      let v' =
        tell-Inv k (tool_call_request call) forwarded
          (try_forward-Inv k (msg_tool_call_request call) w v) in
      let requires =
        registered st out l registry call.name
        && out.requires_approval call.name
            (or_null st out l registry (out.parse_json call.arguments)) in
      if_both Valid (is_cancelled st out l w)
        (conclude-Inv call outcome_cancelled (error_result (codes "Cancelled")) none w v)
        (if_approved-Inv requires call _ (
          if_both Valid (requires && not (is_tool_approved st requested.sm l.sid call.name))
            (ask_approval-Inv call requested v') v'))

  module _ (metadata_text : ProviderMetadata → Text) where
    run_tasks-Inv :
        (calls : List ToolCallRequest) (w : World S)
        → Inv w
        → Valid (run_tasks st out l metadata_text registry calls w)
    unfolding run_tasks
    run_tasks-Inv [] w v = v
    run_tasks-Inv (call ∷ calls) w v =
        let w' = (run_task st out l registry call w).1 in
        let v' = run_task-Inv call w v in
        let v'' = run_tasks-Inv calls w' v' in
        if_both Valid (is_cancelled st out l w') v' (
          if_both Valid
            (is_cancelled st out l (run_tasks st out l metadata_text registry calls w').1) v'' v'')

    append_or_end-Goes :
        (what : Text) (m : Message) (w : World S)
        → Inv w
        → Goes k (append_or_end st out l metadata_text registry what m w)
    append_or_end-Goes what m w v =
        store_message-Goes k m _ (record w { history = w.history ++ m ∷ [] })
          (λ e w' v'. fail_anyway-Post k (λ _ _. Unit) _ _ w' v')
          (k.notes (w.history ++ m ∷ []) w v)

    act_on-Goes :
        (verdict : Verdict × DoomLoop) (w : World S)
        → Inv w
        → Goes k (act_on st out l metadata_text registry verdict w)
    act_on-Goes (goes_on, d) w v = (v, tt)
    act_on-Goes (stuck, d) w v = fail_anyway-Post k (λ _ _. Unit) _ _ w v
    act_on-Goes (warns, d) w v = (k.notes _ _ (send_event-Inv k _ w v), tt)

    send_images-Inv :
        (events : List AgentEvent) (w : World S)
        → Inv w
        → Inv (send_images st out l metadata_text registry events w)
    send_images-Inv [] w v = v
    send_images-Inv (e ∷ es) w v =
        send_images-Inv es (send_event st out l e w).1 (send_event-Inv k e w v)

    append_results-Goes :
        (results : List ToolExecResult) (w : World S)
        → Inv w
        → Goes k (append_results st out l metadata_text registry results w)
    unfolding append_results
    append_results-Goes [] w v = (v, tt)
    append_results-Goes (r ∷ rs) w v =
        then_Post k (λ _ _. Unit) _ _
          (append_or_end-Goes (codes "tool result") (result_message r) w v)
          (λ _ w' v'. append_results-Goes rs _ (
            if_both (λ (u : World S). Inv u) r.result.is_error v'
              (send_images-Inv (images_of 0 r.result.content) w' v')))

    pub execute_tool_calls-Goes :
        (o : StreamOutput) (total : ℕ) (doom : DoomLoop) (w : World S)
        → Inv w
        → Goes k (execute_tool_calls st out l metadata_text registry o total doom w)
    unfolding execute_tool_calls
    execute_tool_calls-Goes o total doom w v =
        then_Post k (λ _ _. Unit) _ _
          (append_or_end-Goes (codes "assistant message")
            (calls_message st out l metadata_text registry o) w v)
          (λ _ w1 v1.
            then_Post k (λ _ _. Unit) _ _
              (act_on-Goes
                (watch_round l.cfg.doom_loop_threshold doom (round_sig out.parse_json o.tool_calls))
                w1 v1)
              (λ doom' w2 v2.
                then_Post k (λ _ _. Unit) _ _
                  (append_results-Goes (run_tasks st out l metadata_text registry o.tool_calls w2).0
                    _ (run_tasks-Inv o.tool_calls w2 v2))
                  (λ _ w3 v3. (v3, tt))))
