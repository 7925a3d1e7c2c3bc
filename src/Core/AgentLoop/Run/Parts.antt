-- ===== src/Core/AgentLoop/Run/Parts.antt =====
-- The rules for what `run_agent_loop` of crates/visp-core/src/agent_loop.rs does itself.
use visp.Base.{ℕ, suc, Option, none, some, [], ◌∷◌, ◌++◌, Text, if_both}
use visp.Core.Message.{Message, of_user}
use visp.Core.ToolRegistry.{ToolRegistry}
use visp.Core.Session.{SessionStore}
use visp.Core.AgentLoop.Events.{ProviderMetadata, unwrap_or_default}
use visp.Core.AgentLoop.Cleanup.{cleanup_orphan_tool_uses}
use visp.Core.AgentLoop.Marker.{parse_user_query_marker}
use visp.Core.AgentLoop.World.{
  Outside, World, Loop, ToolRun, Reply, streaming, refused, await, is_cancelled,
}
use visp.Core.AgentLoop.World.Safe.{Keeps, Goes, then_Post, fail_anyway-Post, store_message-Goes}
use visp.Core.AgentLoop.Retry.{call_llm_with_retry}
use visp.Core.AgentLoop.Stream.{StreamOutput, nothing_collected}
use visp.Core.AgentLoop.Prompt.{PromptInputs, IterationContext}
use visp.Core.AgentLoop.Run.{
  answer_text, options_of, on_reply, ask_provider, append_user, take_answer, begin,
}
use visp.Core.AgentLoop.Run.Steps.{retried-Inv, collect_stream_events-Goes}

module _ {C S : Type 0} {st : SessionStore C S} {out : Outside C} {l : Loop C}
    {Inv Failed Done Asked : World S → Type 0} (k : Keeps st out l Inv Failed Done Asked)
    (metadata_text : ProviderMetadata → Text) (p : PromptInputs)
    (registry : ToolRegistry (ℕ → ToolRun)) where
  on_reply-Goes :
      (r : Option Reply × World S) → Inv r.1 → Goes k (on_reply st out l metadata_text p registry r)
  on_reply-Goes (none, w) v = fail_anyway-Post k (λ _ _. Unit) _ _ w v
  on_reply-Goes (some (refused e), w) v = fail_anyway-Post k (λ _ _. Unit) _ _ w v
  on_reply-Goes (some (streaming items), w) v =
      collect_stream_events-Goes k items nothing_collected w v

  pub ask_provider-Goes :
      (ic : IterationContext) (w : World S)
      → Inv w
      → Goes k (ask_provider st out l metadata_text p registry ic w)
  unfolding ask_provider
  ask_provider-Goes (messages, tools) w v =
      on_reply-Goes (call_llm_with_retry st out l messages tools (suc l.cfg.llm_retry_attempts) 0 w)
        (retried-Inv k messages tools (suc l.cfg.llm_retry_attempts) 0 w v)

  append_user-Goes :
      (m : Message) (w : World S)
      → Inv w
      → Goes k (append_user st out l metadata_text p registry m w)
  append_user-Goes m w v =
      store_message-Goes k m _ w (λ e w' v'. fail_anyway-Post k (λ _ _. Unit) _ _ w' v') v

  pub take_answer-Goes :
      (o : StreamOutput) (w : World S)
      → Inv w
      → Goes k (take_answer st out l metadata_text p registry o w)
  unfolding take_answer
  take_answer-Goes o w v =
      let waited = await st out l w in
      let v' = k.awaits w v in
      let m = of_user (
        answer_text (options_of (parse_user_query_marker o.text_buffer))
          (unwrap_or_default (out.answer w.now))) in
      if_both (Goes k) (is_cancelled st out l waited)
        (fail_anyway-Post k {A = Unit {0}} (λ _ _. Unit) _ _ waited v')
        (append_user-Goes m (record waited { history = waited.history ++ m ∷ [] })
          (k.notes (waited.history ++ m ∷ []) waited v'))

  pub begin-Goes :
      (m : Message) (w : World S) → Inv w → Goes k (begin st out l metadata_text p registry m w)
  begin-Goes m w v =
      if_both (Goes k) (is_cancelled st out l w) (fail_anyway-Post k (λ _ _. Unit) _ _ w v) (
        then_Post k (λ _ _. Unit) _ _
          (append_user-Goes m (record w { history = cleanup_orphan_tool_uses w.history })
            (k.notes (cleanup_orphan_tool_uses w.history) w v))
          (λ _ w' v'. (k.notes (w'.history ++ m ∷ []) w' v', tt)))
