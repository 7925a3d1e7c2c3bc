-- ===== src/Core/AgentLoop/Tools/Answers.antt =====
-- The history after a round of tools (crates/visp-core/src/agent_loop.rs): one result for each call.
use visp.Base.{
  ℕ, ◌≡◌, refl, ◌⊎◌, inl, inr, Bool, true, false, Option, none, some, List, [], ◌∷◌, map, Text,
  if_both, if_cases,
}
use visp.Core.Message.{ToolCallRequest}
use visp.Core.ToolRegistry.{ToolRegistry, execute}
use visp.Core.Session.{SessionStore}
use visp.Core.AgentLoop.Events.{ProviderMetadata}
use visp.Core.AgentLoop.World.{Outside, World, Loop, ToolRun, returns, panics, await, is_cancelled}
use visp.Core.AgentLoop.Task.{
  ToolExecResult, conclude, ran, ran_or_unknown, run_tool, if_approved, run_task,
}
use visp.Core.AgentLoop.Tools.{run_tasks}

-- The results have the ids of the calls, one for each in order.
abbrev pub call_ids : List ToolCallRequest → List Text
call_ids calls = map (λ (c : ToolCallRequest). c.id) calls

abbrev pub result_ids : List ToolExecResult → List Text
result_ids results = map (λ (r : ToolExecResult). r.call_id) results

module _ {C S : Type 0} (st : SessionStore C S) (out : Outside C) (l : Loop C)
    (registry : ToolRegistry (ℕ → ToolRun)) where
  abbrev IdOf : ToolCallRequest → ToolExecResult × World S → Type 0
  IdOf call r = r.0.call_id ≡ call.id

  ran-IdOf :
      (call : ToolCallRequest) (r : ToolRun) (w : World S)
      → IdOf call (ran st out l registry call r w)
  unfolding conclude
  ran-IdOf call (returns result ms) w = refl
  ran-IdOf call (panics message) w = refl

  ran_or_unknown-IdOf :
      (call : ToolCallRequest) (o : Option (ℕ → ToolRun)) (w : World S)
      → IdOf call (ran_or_unknown st out l registry call o w)
  unfolding conclude
  ran_or_unknown-IdOf call none w = refl
  ran_or_unknown-IdOf call (some tool) w = ran-IdOf call (tool w.now) w

  run_tool-IdOf :
      (requires : Bool) (call : ToolCallRequest) (args : Option Text) (w : World S)
      → IdOf call (run_tool st out l registry requires call args w)
  unfolding conclude
  run_tool-IdOf requires call none w = refl
  run_tool-IdOf requires call (some args) w =
      ran_or_unknown-IdOf call (execute registry call.name args) _

  if_approved-IdOf :
      (requires : Bool) (call : ToolCallRequest) (r : Bool × World S)
      → IdOf call (if_approved st out l registry requires call r)
  unfolding conclude
  if_approved-IdOf requires call (true, w) = run_tool-IdOf requires call _ w
  if_approved-IdOf requires call (false, w) = refl

  run_task-IdOf :
      (call : ToolCallRequest) (w : World S) → IdOf call (run_task st out l registry call w)
  unfolding run_task conclude
  run_task-IdOf call w =
      if_both (IdOf call) (is_cancelled st out l (await st out l w)) refl
        (if_approved-IdOf _ call _)

  module _ (metadata_text : ProviderMetadata → Text) where
    -- A result for each call, or a cancel and none.
    abbrev pub Complete : List ToolCallRequest → List ToolExecResult × World S → Type 0
    Complete calls r =
        (result_ids r.0 ≡ call_ids calls) ⊎ ((r.0 ≡ []) × (is_cancelled st out l r.1 ≡ true))

    Complete-more :
        (call : ToolCallRequest) (calls : List ToolCallRequest) (r : ToolExecResult)
        (rs : List ToolExecResult) (w : World S)
        → r.call_id ≡ call.id
        → is_cancelled st out l w ≡ false
        → Complete calls (rs, w)
        → Complete (call ∷ calls) (r ∷ rs, w)
    Complete-more call calls r rs w e live (inl ids) = inl (λ i. e i ∷ ids i)
    Complete-more call calls r rs w e live (inr (_, stopped)) = absurd (cc)

    pub run_tasks-Complete :
        (calls : List ToolCallRequest) (w : World S)
        → Complete calls (run_tasks st out l metadata_text registry calls w)
    unfolding run_tasks
    run_tasks-Complete [] w = inl refl
    run_tasks-Complete (call ∷ calls) w =
        let w' = (run_task st out l registry call w).1 in
        let rest = run_tasks st out l metadata_text registry calls w' in
        if_cases (Complete (call ∷ calls)) (is_cancelled st out l w') (λ e. inr (refl, e))
          (λ _.
            if_cases (Complete (call ∷ calls)) (is_cancelled st out l rest.1) (λ e. inr (refl, e))
              (λ live.
                Complete-more call calls (run_task st out l registry call w).0 rest.0 rest.1
                  (run_task-IdOf call w) live (run_tasks-Complete calls w')))
