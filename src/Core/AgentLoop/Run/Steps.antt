-- ===== src/Core/AgentLoop/Run/Steps.antt =====
-- Each step of a round of crates/visp-core/src/agent_loop.rs keeps the session manager valid, and makes
-- the loop return only with the session finished.
use visp.Base.{
  ℕ, zero, suc, not, ◌||◌, Option, some, List, [], ◌∷◌, ◌++◌, Text, if◌then◌else◌, if_both, leb,
}
use visp.Core.Message.{Message}
use visp.Core.ToolRegistry.{ToolDefinition}
use visp.Core.Session.{SessionStore}
use visp.Core.AgentLoop.Events.{
  LlmError, ChatEvent, chat_text_delta, chat_tool_call, chat_thinking_block, chat_usage_info,
  chat_usage_delta, chat_output_metadata, chat_image_block, chat_image_error, chat_done, AgentEvent,
  text_delta, thinking_delta, image_block, image_error, usage_delta,
}
use visp.Core.AgentLoop.World.{
  Outside, World, Loop, Action, bound, Item, event, failing, Reply, streaming, refused, await,
  is_cancelled, send_event,
}
use visp.Core.AgentLoop.World.Safe.{Keeps, Goes, then_Post, send_event-Goes, fail-Post}
use visp.Core.AgentLoop.Retry.{call_llm_with_retry, is_retriable, retry_delay, sleep}
use visp.Core.AgentLoop.Stream.{
  StreamOutput, give, send_unless_empty, on_event, on_item, unless_cancelled, stream_ended,
  collect_stream_events, image_marker, or_empty, thinking_increment,
}

module _ {C S : Type 0} {st : SessionStore C S} {out : Outside C} {l : Loop C}
    {Inv Failed Done Asked : World S → Type 0} (k : Keeps st out l Inv Failed Done Asked) where
  pub retried-Inv :
      (messages : List Message) (tools : List ToolDefinition) (fuel attempt : ℕ) (w : World S)
      → Inv w
      → Inv (call_llm_with_retry st out l messages tools fuel attempt w).1
  unfolding call_llm_with_retry
  retried-Inv messages tools zero attempt w v = v
  retried-Inv messages tools (suc fuel) attempt w v =
      let called = k.awaits w v in
      let waiting =
        k.sleeps (retry_delay l.cfg.llm_retry_base_delay_ms attempt) _
          (k.awaits (await st out l w) called) in
      let waited =
        sleep st out l (retry_delay l.cfg.llm_retry_base_delay_ms attempt) (await st out l w) in
      let P = λ (r : Option Reply × World S). Inv r.1 in
      if_both P (is_cancelled st out l w) v
        (elim (out.chat_stream w.now messages tools)
          as (λ (r : Reply). P (elim r [
            | streaming items ↦ (some (streaming items), await st out l w)
            | refused e ↦
                if not (is_retriable e) || leb l.cfg.llm_retry_attempts attempt
                then (some (refused e), await st out l w)
                else if is_cancelled st out l waited
                then (some (refused LlmError.cancelled), waited)
                else call_llm_with_retry st out l messages tools fuel (suc attempt) waited
          ])) [
            | streaming items ↦ called
            | refused e ↦
                if_both P (not (is_retriable e) || leb l.cfg.llm_retry_attempts attempt) called (
                  if_both P (is_cancelled st out l waited) waiting
                    (retried-Inv messages tools fuel (suc attempt) waited waiting))
          ])

  send_unless_empty-Goes :
      (as_event : Text → AgentEvent) (s : Text) (w : World S)
      → Inv w
      → Goes k (send_unless_empty st out l as_event s w)
  send_unless_empty-Goes as_event [] w v = (v, tt)
  send_unless_empty-Goes as_event (c ∷ s) w v = send_event-Goes k (as_event (c ∷ s)) w v

  -- An event is sent, and something given.
  sending :
      (e : AgentEvent) (o : StreamOutput) (w : World S)
      → Inv w
      → Goes k (bound (λ _. give st out l o) (send_event st out l e w))
  sending e o w v =
      then_Post k (λ _ _. Unit) _ (send_event st out l e w) (send_event-Goes k e w v)
        (λ _ w' v'. (v', tt))

  on_event-Goes :
      (e : ChatEvent) (o : StreamOutput) (w : World S) → Inv w → Goes k (on_event st out l e o w)
  unfolding on_event
  on_event-Goes (chat_text_delta delta) o w v =
      sending (text_delta delta) (record o { text_buffer = o.text_buffer ++ delta }) w v
  on_event-Goes (chat_image_block path mime_type remote_url) o w v =
      then_Post k (λ _ _. Unit) _ (send_unless_empty st out l text_delta o.text_buffer w)
        (send_unless_empty-Goes text_delta o.text_buffer w v)
        (λ _ w' v'.
          sending (image_block path mime_type remote_url)
            (record o { text_buffer = image_marker path remote_url }) w' v')
  on_event-Goes (chat_image_error reason) o w v = sending (image_error reason) o w v
  on_event-Goes (chat_thinking_block block) o w v =
      let snapshot = or_empty (out.thinking_of block) in
      let delta = thinking_increment o.thinking_baseline snapshot in
      then_Post k (λ _ _. Unit) _ (send_unless_empty st out l thinking_delta delta w)
        (send_unless_empty-Goes thinking_delta delta w v) (λ _ w' v'. (v', tt))
  on_event-Goes (chat_usage_info usage tool_calls cost) o w v = (v, tt)
  on_event-Goes (chat_usage_delta usage) o w v = sending (usage_delta usage) o w v
  on_event-Goes (chat_tool_call call) o w v = (v, tt)
  on_event-Goes (chat_output_metadata meta) o w v = (v, tt)
  on_event-Goes chat_done o w v = (v, tt)

  abbrev GoesOn : {A : Type 0} → Action S A → Type 0
  GoesOn a = (w : World S) → Inv w → Goes k (a w)

  then_event :
      (e : ChatEvent) (o : StreamOutput) (rest : StreamOutput → Action S StreamOutput)
      → ((o' : StreamOutput) → GoesOn (rest o'))
      → GoesOn (λ w. bound rest (on_event st out l e o w))
  then_event e o rest h w v =
      then_Post k (λ _ _. Unit) rest (on_event st out l e o w) (on_event-Goes e o w v)
        (λ o' w' v'. h o' w' v')

  on_item-Goes :
      (item : Item) (o : StreamOutput) (rest : StreamOutput → Action S StreamOutput)
      → ((o' : StreamOutput) → GoesOn (rest o'))
      → GoesOn (on_item st out l item o rest)
  on_item-Goes (failing e) o rest h w v = fail-Post k (λ _ _. Unit) _ _ w v
  on_item-Goes (event chat_done) o rest h w v = (v, tt)
  on_item-Goes (event (chat_text_delta a)) o rest h w v = then_event _ o rest h w v
  on_item-Goes (event (chat_tool_call a)) o rest h w v = then_event _ o rest h w v
  on_item-Goes (event (chat_thinking_block a)) o rest h w v = then_event _ o rest h w v
  on_item-Goes (event (chat_usage_info a b c)) o rest h w v = then_event _ o rest h w v
  on_item-Goes (event (chat_usage_delta a)) o rest h w v = then_event _ o rest h w v
  on_item-Goes (event (chat_output_metadata a)) o rest h w v = then_event _ o rest h w v
  on_item-Goes (event (chat_image_block a b c)) o rest h w v = then_event _ o rest h w v
  on_item-Goes (event (chat_image_error a)) o rest h w v = then_event _ o rest h w v

  unless_cancelled-Goes :
      (go : Action S StreamOutput) → GoesOn go → GoesOn (unless_cancelled st out l go)
  unless_cancelled-Goes go h w v =
      let w' = await st out l w in
      let v' = k.awaits w v in
      if_both (Goes k) (is_cancelled st out l w') (fail-Post k (λ _ _. Unit) _ _ w' v') (h w' v')

  pub collect_stream_events-Goes :
      (items : List Item) (o : StreamOutput) → GoesOn (collect_stream_events st out l items o)
  unfolding collect_stream_events
  collect_stream_events-Goes [] o =
      unless_cancelled-Goes (stream_ended st out l) (λ w v. fail-Post k (λ _ _. Unit) _ _ w v)
  collect_stream_events-Goes (item ∷ items) o =
      unless_cancelled-Goes (on_item st out l item o (collect_stream_events st out l items))
        (on_item-Goes item o _ (collect_stream_events-Goes items))
