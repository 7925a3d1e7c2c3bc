-- ===== src/Core/AgentLoop/Run/Ends.antt =====
-- Every way out of the loop of crates/visp-core/src/agent_loop.rs finishes the session.
use visp.Base.{ℕ, zero, suc, Option, none, some, Text, if_both, ltb, add32, ◌≤◌}
use visp.Core.Message.{Message}
use visp.Core.ToolRegistry.{ToolRegistry}
use visp.Core.Session.{SessionStatus, completed, SessionStore, IsSessionStore}
use visp.Core.Session.Manager.Invariant.{IsValid}
use visp.Core.AgentLoop.Events.{ProviderMetadata}
use visp.Core.AgentLoop.World.{Outside, World, Loop, ToolRun}
use visp.Core.AgentLoop.World.Safe.{Keeps, Post, Goes, bound-Post, then_Post, fail_anyway-Post}
use visp.Core.AgentLoop.Stream.{StreamOutput}
use visp.Core.AgentLoop.Decide.{
  StreamDecision, decided_done, decided_continue, decided_thinking_only, decided_user_query,
}
use visp.Core.AgentLoop.Prompt.{PromptInputs}
use visp.Core.AgentLoop.Run.{
  Vars, first_vars, max_consecutive_thinking_only, Next, again, is_done, Ending, returned,
  out_of_fuel, thought_on, on_decision, round, ended_or, rounds, started, run_agent_loop,
}
use visp.Core.AgentLoop.World.Finished.{Valid, ValidEnded, IsValid-Keeps}
use visp.Core.AgentLoop.Run.Parts.{ask_provider-Goes, take_answer-Goes, begin-Goes}
use visp.Core.AgentLoop.Run.Turns.{setup_iteration-Post, Decided, handle_stream_result-Decides}
use visp.Core.AgentLoop.Run.Calls.{execute_tool_calls-Goes}

module _ {C S : Type 0} (st : SessionStore C S) (laws : IsSessionStore st) (out : Outside C)
    (l : Loop C) (metadata_text : ProviderMetadata → Text) (p : PromptInputs)
    (registry : ToolRegistry (ℕ → ToolRun)) where
  abbrev rules :
      Keeps st out l
        (Valid st l)
        (ValidEnded st l SessionStatus.error)
        (ValidEnded st l completed)
        (λ _. Unit)
  rules = IsValid-Keeps st l out laws

  abbrev Comes : Next → World S → Type 0
  Comes is_done w = ValidEnded st l completed w
  Comes (again v) w = Unit

  thought_on-Post :
      (v : Vars) (w : World S)
      → IsValid st w.sm
      → Post rules Comes (thought_on st out l metadata_text p registry v w)
  thought_on-Post v w h =
      if_both (Post rules Comes)
        (ltb max_consecutive_thinking_only (add32 v.consecutive_thinking_only 1))
        (fail_anyway-Post rules Comes _ _ w h) (h, tt)

  on_decision-Post :
      (v : Vars) (o : StreamOutput) (d : StreamDecision) (w : World S)
      → IsValid st w.sm
      → Decided rules metadata_text d w
      → Post rules Comes (on_decision st out l metadata_text p registry v o d w)
  on_decision-Post v o decided_done w h e = (h, e)
  on_decision-Post v o decided_user_query w h e =
      then_Post rules Comes _ _ (take_answer-Goes rules metadata_text p registry o w h)
        (λ _ w' h'. (h', tt))
  on_decision-Post v o decided_continue w h e =
      then_Post rules Comes _ _
        (execute_tool_calls-Goes rules registry metadata_text o v.total_tool_calls v.doom w h)
        (λ r w' h'. (h', tt))
  on_decision-Post v o decided_thinking_only w h e = thought_on-Post v w h

  round-Post :
      (v : Vars) (w : World S)
      → IsValid st w.sm
      → Post rules Comes (round st out l metadata_text p registry v w)
  unfolding round
  round-Post v w h =
      bound-Post rules (λ _ _. v.iteration ≤ l.cfg.hard_limit) Comes _ _
        (setup_iteration-Post rules p registry v.iteration w h)
        (λ ic w1 h1 _.
          then_Post rules Comes _ _ (ask_provider-Goes rules metadata_text p registry ic w1 h1)
            (λ o w2 h2.
              bound-Post rules (Decided rules metadata_text) Comes _ _
                (handle_stream_result-Decides rules metadata_text o v.total_tool_calls w2 h2)
                (λ d w3 h3 e. on_decision-Post v o d w3 h3 e)))

  -- Where the loop has returned, the session is finished with the status of that way out.
  abbrev pub Finishes : Ending S → Type 0
  Finishes (returned status w) = ValidEnded st l status w
  Finishes (out_of_fuel w) = IsValid st w.sm

  ended_or-Finishes :
      (r : Option Next × World S) (go : Vars → World S → Ending S)
      → Post rules Comes r
      → ((v : Vars) (w : World S) → IsValid st w.sm → Finishes (go v w))
      → Finishes (ended_or st out l metadata_text p registry r go)
  ended_or-Finishes (none, w) go h k = h
  ended_or-Finishes (some is_done, w) go h k = h.1
  ended_or-Finishes (some (again v), w) go h k = k v w h.0

  rounds-Finishes :
      (fuel : ℕ) (v : Vars) (w : World S)
      → IsValid st w.sm
      → Finishes (rounds st out l metadata_text p registry fuel v w)
  unfolding rounds
  rounds-Finishes zero v w h = h
  rounds-Finishes (suc fuel) v w h =
      ended_or-Finishes (round st out l metadata_text p registry v w)
        (rounds st out l metadata_text p registry fuel) (round-Post v w h) (rounds-Finishes fuel)

  started-Finishes :
      (fuel : ℕ) (r : Option (Unit {0}) × World S)
      → Goes rules r
      → Finishes (started st out l metadata_text p registry fuel r)
  started-Finishes fuel (none, w) h = h
  started-Finishes fuel (some _, w) h = rounds-Finishes fuel first_vars w h.0

-- Over any store that keeps the contract, whatever the provider, the tools and the user answer, whatever
-- others do to the session manager between the steps, and whether the receiver of the events is there or
-- not: where the loop returns, the session has no loop in flight, and if it is still stored, its status
-- is completed on the way out through the sending of `Done` and error on every other.
pub run_agent_loop-Finishes :
    {C S : Type 0} (st : SessionStore C S) (out : Outside C) (l : Loop C)
    (metadata_text : ProviderMetadata → Text) (p : PromptInputs)
    (registry : ToolRegistry (ℕ → ToolRun)) (fuel : ℕ) (m : Message) (w : World S)
    (laws : IsSessionStore st)
    → IsValid st w.sm
    → Finishes st laws out l metadata_text p registry
        (run_agent_loop st out l metadata_text p registry fuel m w)
unfolding run_agent_loop
run_agent_loop-Finishes st out l metadata_text p registry fuel m w laws v =
    started-Finishes st laws out l metadata_text p registry fuel _
      (begin-Goes (IsValid-Keeps st l out laws) metadata_text p registry m w v)
