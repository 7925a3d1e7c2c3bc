-- ===== src/Core/AgentLoop/Run/Turns.antt =====
-- The same of the prompt and of the decision on an answer, which may finish the session as completed
-- (crates/visp-core/src/agent_loop.rs).
use visp.Base.{
  ℕ, not, ◌&&◌, Option, none, some, List, [], ◌∷◌, ◌++◌, Text, codes, if_both, ltb, ◌≤◌, Bool-cases,
  inl, inr, tests,
}
use visp.Core.Message.{Message, counted, of_thinking}
use visp.Core.ToolRegistry.{ToolRegistry}
use visp.Core.Session.{completed, Result, ok, err, SessionStore}
use visp.Core.AgentLoop.Events.{ProviderMetadata, done}
use visp.Core.AgentLoop.Marker.{UserQueryMarker, parse_user_query_marker, strip_user_query_marker}
use visp.Core.AgentLoop.World.{Outside, World, Loop, Action, ToolRun, is_cancelled}
use visp.Core.AgentLoop.World.Safe.{
  Keeps, Post, Goes, then_Post, bound-Post, question-Post, send_event-Goes, fail-Post,
  store_message-Goes,
}
use visp.Core.AgentLoop.Stream.{StreamOutput}
use visp.Core.AgentLoop.Decide.{
  StreamDecision, decided_done, decided_user_query, nonempty, has_metadata,
  provider_claims_tool_calls, not_appended, append_both, extract_thinking_text, save_thinking,
  save_text, text_message, ask_user, think_on, complete, without_marker, without_calls,
  handle_stream_result,
}
use visp.Core.AgentLoop.Prompt.{
  PromptInputs, IterationContext, setup_iteration, with_template, template_of,
}

module _ {C S : Type 0} {st : SessionStore C S} {out : Outside C} {l : Loop C}
    {Inv Failed Done Asked : World S → Type 0} (k : Keeps st out l Inv Failed Done Asked) where
  module _ (p : PromptInputs) (registry : ToolRegistry (ℕ → ToolRun)) where
    abbrev Within : ℕ → IterationContext → World S → Type 0
    Within iteration ic w = iteration ≤ l.cfg.hard_limit

    with_template-Post :
        (iteration : ℕ) (r : Result Text) (w : World S)
        → iteration ≤ l.cfg.hard_limit
        → Inv w
        → Post k (Within iteration) (with_template st out l p registry iteration r w)
    with_template-Post iteration (err e) w h v = fail-Post k (Within iteration) _ _ w v
    with_template-Post iteration (ok template) w h v = (v, h)

    -- The prompt is built only within the limit.
    pub setup_iteration-Post :
        (iteration : ℕ) (w : World S)
        → Inv w
        → Post k
            (λ _ _. iteration ≤ l.cfg.hard_limit)
            (setup_iteration st out l p registry iteration w)
    unfolding setup_iteration
    setup_iteration-Post iteration w v =
        if_both (Post k (Within iteration)) (is_cancelled st out l w)
          (fail-Post k (Within iteration) _ _ w v)
          (elim (Bool-cases (ltb l.cfg.hard_limit iteration)) [
            | inl over ↦ rw over (fail-Post k (Within iteration) _ _ w v)
            | inr within ↦ rw within (
                with_template-Post iteration (template_of (st.get w.sm.store l.sid)) w (omega tests)
                  v)
          ])

  module _ (metadata_text : ProviderMetadata → Text) where
    append_both-Goes :
        (what : Text) (m : Message) (w : World S)
        → Inv w
        → Goes k (append_both st out l metadata_text what m w)
    append_both-Goes what m w v =
        store_message-Goes k m (not_appended st out l metadata_text what)
          (record w { history = w.history ++ m ∷ [] })
          (λ e w' v'. fail-Post k (λ _ _. Unit) _ _ w' v') (k.notes (w.history ++ m ∷ []) w v)

    save_thinking-Goes :
        (thinking : Option Text) (blocks : Option (List Text)) (w : World S)
        → Inv w
        → Goes k (save_thinking st out l metadata_text thinking blocks w)
    unfolding save_thinking
    save_thinking-Goes none blocks w v = (v, tt)
    save_thinking-Goes (some thinking) blocks w v =
        append_both-Goes (codes "thinking")
          (counted (record (of_thinking thinking) { extra_blocks = blocks })) w v

    save_text-Goes :
        (o : StreamOutput) (s : Text) (w : World S)
        → Inv w
        → Goes k (save_text st out l metadata_text o s w)
    unfolding save_text
    save_text-Goes o [] w v = (v, tt)
    save_text-Goes o (c ∷ s) w v =
        append_both-Goes (codes "assistant") (text_message st out l metadata_text o (c ∷ s)) w v

    -- Where the answer is done, the session is completed.
    abbrev pub Decided : StreamDecision → World S → Type 0
    Decided decided_done w = Done w
    Decided decided_user_query w = Asked w
    Decided d w = Unit

    abbrev Decides : Option StreamDecision × World S → Type 0
    Decides r = Post k Decided r

    ask_user-Decides :
        (o : StreamOutput) (marker : UserQueryMarker) (w : World S)
        → Inv w
        → Decides (ask_user st out l metadata_text o marker w)
    ask_user-Decides o marker w v =
        then_Post k Decided _ _
          (save_thinking-Goes (extract_thinking_text st out l metadata_text o.thinking_blocks) none
            w v)
          (λ _ w1 v1.
            then_Post k Decided _ _ (save_text-Goes o (strip_user_query_marker o.text_buffer) w1 v1)
              (λ _ w2 v2.
                bound-Post k (λ _ u. Asked u) Decided _ _
                  (question-Post k _ marker.message marker.options marker.allow_other w2 v2)
                  (λ _ w3 v3 asked. (v3, asked))))

    complete-Decides :
        (o : StreamOutput) (total : ℕ) (w : World S)
        → Inv w
        → Decides (complete st out l metadata_text o total w)
    complete-Decides o total w v =
        then_Post k Decided _ _
          (save_thinking-Goes (extract_thinking_text st out l metadata_text o.thinking_blocks) none
            w v)
          (λ _ w1 v1. then_Post k Decided _ _ (save_text-Goes o o.text_buffer w1 v1) (λ _ w2 v2.
            then_Post k Decided _ _ (send_event-Goes k _ w2 v2) (λ _ w3 v3.
              then_Post k Decided _ _ (send_event-Goes k done w3 v3)
                (λ _ w4 v4. (k.finishes completed w4 v4, k.completes w4 v4)))))

    think_on-Decides :
        (o : StreamOutput) (w : World S) → Inv w → Decides (think_on st out l metadata_text o w)
    think_on-Decides o w v =
        then_Post k Decided _ _
          (save_thinking-Goes (extract_thinking_text st out l metadata_text o.thinking_blocks)
            (some o.thinking_blocks) w v)
          (λ _ w1 v1. (v1, tt))

    abbrev DecidesAll : Action S StreamDecision → Type 0
    DecidesAll a = (w : World S) → Inv w → Decides (a w)

    without_marker-Decides :
        (o : StreamOutput) (total : ℕ) → DecidesAll (without_marker st out l metadata_text o total)
    without_marker-Decides o total =
        let no_text = not (nonempty o.text_buffer) in
        let no_thinking = not (nonempty o.thinking_blocks) in
        if_both DecidesAll (provider_claims_tool_calls o.provider_metadata)
          (λ w v. fail-Post k Decided _ _ w v)
          (if_both DecidesAll ((no_text && no_thinking) && ltb 0 o.usage.output_tokens)
            (λ w v. fail-Post k Decided _ _ w v)
            (if_both DecidesAll
              ((no_text && nonempty o.thinking_blocks) && has_metadata o.provider_metadata)
              (think_on-Decides o) (complete-Decides o total)))

    without_calls-Decides :
        (o : StreamOutput) (total : ℕ) (marker : Option UserQueryMarker)
        → DecidesAll (without_calls st out l metadata_text o total marker)
    without_calls-Decides o total (some marker) = ask_user-Decides o marker
    without_calls-Decides o total none = without_marker-Decides o total

    pub handle_stream_result-Decides :
        (o : StreamOutput) (total : ℕ)
        → DecidesAll (handle_stream_result st out l metadata_text o total)
    unfolding handle_stream_result
    handle_stream_result-Decides o total =
        if_both DecidesAll (nonempty o.tool_calls) (λ w v. (v, tt))
          (without_calls-Decides o total (parse_user_query_marker o.text_buffer))
