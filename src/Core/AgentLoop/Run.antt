-- ===== src/Core/AgentLoop/Run.antt =====
-- `run_agent_loop` of crates/visp-core/src/agent_loop.rs. The loop is on fuel; Run/Limit shows how much
-- is enough. A panic is caught outside the loop: `recover` is what is done then, whatever the state.
pub mod Steps
pub mod Turns
pub mod Calls
pub mod Parts
pub mod Limit
pub mod Ends
use visp.Base.{
  ℕ, zero, suc, Bool, true, false, Option, none, some, List, [], ◌∷◌, ◌++◌, Text, codes,
  if◌then◌else◌, add32, ltb, get_elem?,
}
use visp.Core.Message.{Message, of_user}
use visp.Core.Session.{SessionStore, SessionError, SessionStatus, completed, idle}
use visp.Core.ToolRegistry.{ToolRegistry}
use visp.Core.AgentLoop.Events.{
  LlmError, cancelled, internal, llm_error_to_code, ProviderMetadata, UserQueryResult,
  unwrap_or_default, msg_error,
}
use visp.Core.AgentLoop.Cleanup.{cleanup_orphan_tool_uses}
use visp.Core.AgentLoop.Marker.{UserQueryMarker, parse_user_query_marker}
use visp.Core.AgentLoop.World.{
  Outside, Loop, World, Action, ◌>>=◌, bound, ToolRun, Reply, streaming, refused, await,
  is_cancelled, finish, fail_anyway, cancel_anyway, store_message, push_history, try_forward,
}
use visp.Core.AgentLoop.Retry.{call_llm_with_retry}
use visp.Core.AgentLoop.Stream.{StreamOutput, nothing_collected, collect_stream_events}
use visp.Core.AgentLoop.Decide.{
  StreamDecision, decided_done, decided_continue, decided_thinking_only, decided_user_query,
  nonempty, handle_stream_result,
}
use visp.Core.AgentLoop.DoomLoop.{DoomLoop}
use visp.Core.AgentLoop.Prompt.{PromptInputs, IterationContext, setup_iteration}
use visp.Core.AgentLoop.Tools.{execute_tool_calls}

-- The variables of the loop.
pub record Vars : Type 0 where
  pub total_tool_calls : ℕ
  pub iteration : ℕ
  pub consecutive_thinking_only : ℕ
  pub doom : DoomLoop

abbrev pub max_consecutive_thinking_only : ℕ
max_consecutive_thinking_only = 3

abbrev pub first_vars : Vars
first_vars = record {
  total_tool_calls = 0;
  iteration = 1;
  consecutive_thinking_only = 0;
  doom = record { window = []; warned = false };
}

-- What a round comes to: the loop goes on, or is done.
pub data Next : Type 0 where
  again : Vars → Next
  is_done : Next

-- How the loop ends: it returns, on the way out that finishes the session with a status, or the fuel
-- is used up.
pub data Ending (S : Type 0) : Type 0 where
  returned : SessionStatus → World S → Ending S
  out_of_fuel : World S → Ending S

-- The user's answer as a message: the chosen option, or the text.
abbrev pub answer_text : List Text → UserQueryResult → Text
answer_text options answer = elim answer.selected_index [
  | none ↦ answer.text
  | some i ↦ elim (get_elem? options i) [ none ↦ answer.text | some option ↦ option ]
]

abbrev options_of : Option UserQueryMarker → List Text
options_of none = []
options_of (some marker) = marker.options

module _ {C S : Type 0} (st : SessionStore C S) (out : Outside C) (l : Loop C)
    (metadata_text : ProviderMetadata → Text) (p : PromptInputs)
    (registry : ToolRegistry (ℕ → ToolRun)) where
  -- The provider is called with fuel for all its retries, so the first case does not come up.
  abbrev on_reply : Option Reply × World S → Option StreamOutput × World S
  on_reply (none, w) = cancel_anyway st out l w
  on_reply (some (refused e), w) =
      let failure = llm_error_to_code out.decimal e in fail_anyway st out l failure.0 failure.1 w
  on_reply (some (streaming items), w) = collect_stream_events st out l items nothing_collected w

  unfoldable pub ask_provider : IterationContext → Action S StreamOutput
  unfolding call_llm_with_retry fail_anyway llm_error_to_code collect_stream_events
  ask_provider (messages, tools) w =
      on_reply (call_llm_with_retry st out l messages tools (suc l.cfg.llm_retry_attempts) 0 w)

  abbrev append_user : Message → Action S (Unit {0})
  append_user m = store_message st out l m (λ e.
      fail_anyway st out l internal (codes "Failed to append user message: " ++ out.error_text e))

  -- The user's answer, or a cancel while it is waited for.
  unfoldable pub take_answer : StreamOutput → Action S (Unit {0})
  unfolding await is_cancelled fail_anyway store_message parse_user_query_marker
  take_answer o w =
      let waited = await st out l w in
      let m = of_user (
        answer_text (options_of (parse_user_query_marker o.text_buffer))
          (unwrap_or_default (out.answer w.now))) in
      if is_cancelled st out l waited
      then cancel_anyway st out l waited
      else bound (λ _. append_user m) (push_history m waited)

  abbrev next_iteration : Vars → Vars
  next_iteration v = record v { iteration = add32 v.iteration 1 }

  abbrev thought_on : Vars → Action S Next
  thought_on v w =
      let count = add32 v.consecutive_thinking_only 1 in
      if ltb max_consecutive_thinking_only count
      then fail_anyway st out l internal
          (codes "连续 " ++ (out.decimal count ++ codes " 轮仅思考无正文/工具，已中止以免空转")) w
      else (some (again (next_iteration (record v { consecutive_thinking_only = count }))), w)

  abbrev with_tools : Vars → StreamOutput → Action S Next
  with_tools v o = do
    (total, doom) ← execute_tool_calls st out l metadata_text registry o v.total_tool_calls v.doom
    λ w. (
      some (
          again (
            next_iteration
              (record v { total_tool_calls = total; consecutive_thinking_only = 0; doom = doom }))),
      w,
    )

  -- An answered query starts the next round without counting this one.
  abbrev on_decision : Vars → StreamOutput → StreamDecision → Action S Next
  on_decision v o decided_done = λ w. (some is_done, w)
  on_decision v o decided_user_query = do
    _ ← take_answer o
    λ w. (some (again (record v { consecutive_thinking_only = 0 })), w)
  on_decision v o decided_continue = with_tools v o
  on_decision v o decided_thinking_only = thought_on v

  unfoldable pub round : Vars → Action S Next
  unfolding setup_iteration ask_provider handle_stream_result take_answer execute_tool_calls
      fail_anyway
  round v = do
    ic ← setup_iteration st out l p registry v.iteration
    o ← ask_provider ic
    decision ← handle_stream_result st out l metadata_text o v.total_tool_calls
    on_decision v o decision

  abbrev ended_or : Option Next × World S → (Vars → World S → Ending S) → Ending S
  ended_or (none, w) go = returned SessionStatus.error w
  ended_or (some is_done, w) go = returned completed w
  ended_or (some (again v), w) go = go v w

  unfoldable pub rounds : ℕ → Vars → World S → Ending S
  unfolding round
  rounds zero v w = out_of_fuel w
  rounds (suc fuel) v w = ended_or (round v w) (rounds fuel)

  abbrev started : ℕ → Option (Unit {0}) × World S → Ending S
  started fuel (none, w) = returned SessionStatus.error w
  started fuel (some _, w) = rounds fuel first_vars w

  -- The user's message goes to the session first, then to the history.
  abbrev begin : Message → Action S (Unit {0})
  begin user_message w =
      if is_cancelled st out l w
      then cancel_anyway st out l w
      else bound (λ _. push_history user_message)
          (append_user user_message (record w { history = cleanup_orphan_tool_uses w.history }))

  unfoldable pub run_agent_loop : ℕ → Message → World S → Ending S
  unfolding is_cancelled fail_anyway cleanup_orphan_tool_uses store_message rounds
  run_agent_loop fuel user_message w = started fuel (begin user_message w)

  -- After a panic, which is raised again in any case. A panic under the store's lock has poisoned it: then
  -- `lock().unwrap()` in `finish_loop` panics too, before it has changed anything, and nothing is sent.
  unfoldable pub recover : (poisoned : Bool) (panic_msg : Text) → World S → World S
  unfolding finish try_forward
  recover poisoned panic_msg w =
      if poisoned
      then w
      else try_forward st out l (msg_error internal (codes "agent loop panicked: " ++ panic_msg))
          (finish st out l idle w)
