-- ===== src/Agents/Orchestrator/Ending.antt =====
-- How the orchestrator of crates/visp-agent/src/orchestrator.rs ends an agent: the handlers of `Done` and
-- of an error, over the session manager and the registry of running agents. Channels and handles are
-- numbers; what the receivers get, and what the bus is given, is kept in order. How full an inbox is, is
-- an input. Of the bus events, those that an ending publishes.
pub mod Once
pub mod Answers
use visp.Base.{
  ℕ, ◌≡◌, Bool, true, false, not, ◌&&◌, Option, none, some, List, [], ◌∷◌, ◌++◌, Text, codes,
  if◌then◌else◌,
}
use visp.Base.Dict.{Dict, lookup}
use visp.Base.Dict
use mathlib.Core.List.{reverse}
use visp.Core.Message.{Role, Message, role_eq}
use visp.Core.Session.{SessionStatus, idle, running, Session, ok, err, SessionStore}
use visp.Core.Session.Manager.{SessionManager, finish_loop}
use visp.Core.AgentLoop.Events.{
  AgentErrorCode, llm_auth, llm_rate_limit, llm_api, llm_network, llm_stream, max_iterations,
  stuck_in_loop, code_cancelled, internal, code_session_busy,
}
use visp.Hooks.Rules.{HookEventName, stop, stop_failure}
use visp.Agents.Active.{ActiveAgent, ActiveAgentRegistry}
use visp.Agents.Active

-- crates/visp-core/src/agent.rs
pub data OrchestratorMessage : Type 0 where
  sub_agent_complete : (call_id content task_id : Text) → OrchestratorMessage
  sub_agent_error : (call_id error : Text) → OrchestratorMessage
  agent_cancelled : OrchestratorMessage

-- crates/visp-hooks/src/event.rs
pub data SessionSource : Type 0 where
  startup resume : SessionSource

pub data Origin : Type 0 where
  tui headless other_client : Origin

pub data StopStatus : Type 0 where
  stop_completed stop_cancelled : StopStatus

pub record HookContext : Type 0 where
  pub schema : ℕ
  pub hook_event_name : HookEventName
  pub session_id : Text
  pub cwd : Text
  pub source : SessionSource
  pub origin : Origin
  pub seq : Option ℕ

-- `(input_tokens, output_tokens, tool_calls)`
pub record TurnUsage : Type 0 where
  pub input_tokens : ℕ
  pub output_tokens : ℕ
  pub tool_calls : ℕ

pub data BusEvent : Type 0 where
  hook_stop : HookContext → StopStatus → TurnUsage → BusEvent
  hook_stop_failure : HookContext → (code message : Text) → BusEvent

-- `AgentMessage::Done` and `AgentMessage::Error`
pub data AgentEnd : Type 0 where
  agent_done : AgentEnd
  agent_failed : AgentErrorCode → Text → AgentEnd

-- What `try_send` finds.
pub data Inbox : Type 0 where
  has_space full closed : Inbox

-- The fields that an ending or a cancellation reads or changes, with what was sent, and the tokens of
-- running agents that were cancelled; those of the loops are the session manager's.
pub record Orchestrator (S : Type 0) : Type 0 where
  pub session_mgr : SessionManager S
  pub active_agents : ActiveAgentRegistry
  pub sub_agent_handles : Dict ℕ
  pub pending_responses : Dict ℕ
  pub session_sources : Dict SessionSource
  pub latest_usage : Dict TurnUsage
  pub responses : List (ℕ × Text)
  pub inboxes : List (ℕ × OrchestratorMessage)
  pub waiting : List (ℕ × OrchestratorMessage)
  pub published : List BusEvent
  pub cancelled_agents : List ℕ

-- The derived `Debug`
abbrev code_name : AgentErrorCode → Text
code_name c = elim c [
  | llm_auth ↦ codes "LlmAuth"
  | llm_rate_limit ↦ codes "LlmRateLimit"
  | llm_api ↦ codes "LlmApi"
  | llm_network ↦ codes "LlmNetwork"
  | llm_stream ↦ codes "LlmStream"
  | max_iterations ↦ codes "MaxIterations"
  | stuck_in_loop ↦ codes "StuckInLoop"
  | code_cancelled ↦ codes "Cancelled"
  | internal ↦ codes "Internal"
  | code_session_busy ↦ codes "SessionBusy"
]

abbrev is_cancel : AgentErrorCode → Bool
is_cancel c = elim c [ code_cancelled ↦ true | _ ↦ false ]

abbrev or_else : {A : Type 0} → A → Option A → A
or_else a none = a
or_else _ (some a) = a

abbrev is_running : SessionStatus → Bool
is_running s = elim s [ running ↦ true | _ ↦ false ]

-- The first message of an assistant, not empty, in a history that is read from its end.
abbrev last_answer : List Message → Text
last_answer [] = []
last_answer (m ∷ ms) = elim m.content [
  | [] ↦ last_answer ms
  | c ∷ s ↦ if role_eq m.role Role.assistant then c ∷ s else last_answer ms
]

module _ {C S : Type 0} (st : SessionStore C S) (inbox_of : ℕ → Inbox) where
  unfoldable pub session_is_running : Orchestrator S → Text → Bool
  session_is_running o session_id = elim (st.get o.session_mgr.store session_id) [
    | ok session ↦ is_running session.status
    | err _ ↦ false
  ]

  unfoldable pub extract_result : Orchestrator S → Text → Text
  extract_result o session_id = elim (st.get o.session_mgr.store session_id) [
    | ok session ↦ last_answer (reverse session.history)
    | err _ ↦ []
  ]

  abbrev hook_context : Orchestrator S → Text → HookEventName → HookContext
  hook_context o session_id name = record {
    schema = 1;
    hook_event_name = name;
    session_id = session_id;
    cwd = elim (st.get o.session_mgr.store session_id) [
      | ok session ↦ session.project_path
      | err _ ↦ []
    ];
    source = or_else startup (lookup session_id o.session_sources);
    origin = tui;
    seq = none;
  }

  -- `publish_stop`, with the usage that is taken out before it.
  abbrev pub publish_stop : StopStatus → Text → Orchestrator S → Orchestrator S
  publish_stop status session_id o = record o {
    latest_usage = Dict.remove session_id o.latest_usage;
    published =
        o.published
        ++ hook_stop (hook_context o session_id stop) status (
            or_else (record { input_tokens = 0; output_tokens = 0; tool_calls = 0 })
              (lookup session_id o.latest_usage))
          ∷ [];
  }

  abbrev pub publish_stop_failure : Text → (code message : Text) → Orchestrator S → Orchestrator S
  publish_stop_failure session_id code message o = record o {
    published =
        o.published ++ hook_stop_failure (hook_context o session_id stop_failure) code message ∷ [];
  }

  -- Out of the registry and of the handles, and `let _ = finish_loop`.
  unfoldable pub ended : SessionStatus → Text → Orchestrator S → Orchestrator S
  unfolding Active.remove finish_loop
  ended status session_id o = record o {
    active_agents = (Active.remove o.active_agents session_id).1;
    sub_agent_handles = Dict.remove session_id o.sub_agent_handles;
    session_mgr = (finish_loop st o.session_mgr session_id status).1;
  }

  -- The pending response is taken out and answered.
  abbrev pub respond : Text → ℕ → Text → Orchestrator S → Orchestrator S
  respond session_id tx content o = record o {
    pending_responses = Dict.remove session_id o.pending_responses;
    responses = o.responses ++ (tx, content) ∷ [];
  }

  abbrev put_in_inbox : ℕ → OrchestratorMessage → Orchestrator S → Orchestrator S
  put_in_inbox inbox msg o = record o { inboxes = o.inboxes ++ (inbox, msg) ∷ [] }

  -- Into a full inbox a task of its own sends later.
  abbrev pub send_result : Inbox → ℕ → OrchestratorMessage → Orchestrator S → Orchestrator S
  send_result has_space inbox msg o = put_in_inbox inbox msg o
  send_result full inbox msg o = record o { waiting = o.waiting ++ (inbox, msg) ∷ [] }
  send_result closed inbox msg o = o

  -- A full inbox loses the error.
  abbrev pub try_send_error : Inbox → ℕ → OrchestratorMessage → Orchestrator S → Orchestrator S
  try_send_error has_space inbox msg o = put_in_inbox inbox msg o
  try_send_error full inbox msg o = o
  try_send_error closed inbox msg o = o

  unfoldable pub send_sub_agent_error :
      (parent_session_id call_id error : Text) → Orchestrator S → Orchestrator S
  send_sub_agent_error parent_session_id call_id error o =
      elim (lookup parent_session_id o.active_agents) [
        | none ↦ o
        | some parent ↦
            try_send_error (inbox_of parent.inbox) parent.inbox (sub_agent_error call_id error) o
      ]

  unfoldable pub send_to_parent : Text → OrchestratorMessage → Orchestrator S → Orchestrator S
  send_to_parent parent_id msg o = elim (lookup parent_id o.active_agents) [
    | none ↦ o
    | some parent ↦ send_result (inbox_of parent.inbox) parent.inbox msg o
  ]

  -- Behind the cleanup of `handle_done`.
  unfoldable pub report_done : Text → ActiveAgent → Orchestrator S → Orchestrator S
  unfolding extract_result send_to_parent
  report_done session_id a o = elim (lookup session_id o.pending_responses) [
    | some tx ↦ respond session_id tx (extract_result o session_id) o
    | none ↦ elim a.parent_session_id [
      | some parent_id ↦
          send_to_parent parent_id
            (sub_agent_complete (or_else [] a.pending_call_id) (extract_result o session_id) []) o
      | none ↦ publish_stop stop_completed session_id o
    ]
  ]

  -- A root whose session runs again: a newer turn has taken it over.
  unfoldable pub is_stale : Orchestrator S → Text → ActiveAgent → Bool
  unfolding session_is_running
  is_stale o session_id a = elim a.parent_session_id [
    | none ↦ session_is_running o session_id
    | some _ ↦ false
  ]

  unfoldable pub handle_done : Orchestrator S → Text → Orchestrator S
  unfolding is_stale report_done ended
  handle_done o session_id = elim (lookup session_id o.active_agents) [
    | none ↦ o
    | some a ↦
        if is_stale o session_id a then o else report_done session_id a (ended idle session_id o)
  ]

  abbrev report_root_error : Text → AgentErrorCode → Text → Orchestrator S → Orchestrator S
  report_root_error session_id code message o =
      if is_cancel code
      then publish_stop stop_cancelled session_id o
      else publish_stop_failure session_id (code_name code) message o

  unfoldable pub report_error :
      Text → AgentErrorCode → Text → ActiveAgent → Orchestrator S → Orchestrator S
  unfolding send_sub_agent_error
  report_error session_id code message a o = elim (lookup session_id o.pending_responses) [
    | some tx ↦ respond session_id tx (codes "[SubAgent Error] " ++ message) o
    | none ↦ elim a.parent_session_id [
      | some parent_id ↦ send_sub_agent_error parent_id (or_else [] a.pending_call_id) message o
      | none ↦ report_root_error session_id code message o
    ]
  ]

  -- A cancellation has one text.
  abbrev pub normalized : AgentErrorCode → Text → Text
  normalized code message = if is_cancel code then codes "agent cancelled" else message

  unfoldable pub handle_agent_error : Orchestrator S → Text → AgentErrorCode → Text → Orchestrator S
  unfolding is_stale report_error ended
  handle_agent_error o session_id code error_message = elim (lookup session_id o.active_agents) [
    | none ↦ o
    | some a ↦
        if is_stale o session_id a
        then o
        else report_error session_id code (normalized code error_message) a
            (ended SessionStatus.error session_id o)
  ]

  -- What `handle_agent_message` does for `Done` and for an error, before it looks for queued spawns.
  unfoldable pub handle_end : Orchestrator S → Text → AgentEnd → Orchestrator S
  unfolding handle_done handle_agent_error
  handle_end o session_id agent_done = handle_done o session_id
  handle_end o session_id (agent_failed code message) = handle_agent_error o session_id code message
