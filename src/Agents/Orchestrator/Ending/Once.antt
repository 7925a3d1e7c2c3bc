-- ===== src/Agents/Orchestrator/Ending/Once.antt =====
-- A second ending of an agent.
use visp.Base.{
  ◌≡◌, refl, sym, ◌∙◌, ap, inl, inr, ℕ, true, false, none, some, Text, Bool-cases, Option-cases,
  text_eq_refl, if_both,
}
use visp.Base.Dict.{lookup, remove, lookup-remove}
use visp.Core.Session.{SessionStatus, idle, SessionStore}
use visp.Core.AgentLoop.Events.{AgentErrorCode}
use visp.Agents.Active.{ActiveAgent, ActiveAgentRegistry}
use visp.Agents.Active
use visp.Agents.Orchestrator.Ending.{
  Orchestrator, Inbox, has_space, full, closed, OrchestratorMessage, AgentEnd, agent_done,
  agent_failed, sub_agent_error, handle_end, handle_done, handle_agent_error, send_result,
  try_send_error, report_done, report_error, ended, is_stale, is_cancel, send_to_parent,
  send_sub_agent_error, normalized,
}

module _ {C S : Type 0} (st : SessionStore C S) (inbox_of : ℕ → Inbox) where
  -- The two reports leave the registry as it is.
  send_result-agents :
      (i : Inbox) (inbox : ℕ) (msg : OrchestratorMessage) (o : Orchestrator S)
      → (send_result st inbox_of i inbox msg o).active_agents ≡ o.active_agents
  send_result-agents has_space inbox msg o = refl
  send_result-agents full inbox msg o = refl
  send_result-agents closed inbox msg o = refl

  try_send_error-agents :
      (i : Inbox) (inbox : ℕ) (msg : OrchestratorMessage) (o : Orchestrator S)
      → (try_send_error st inbox_of i inbox msg o).active_agents ≡ o.active_agents
  try_send_error-agents has_space inbox msg o = refl
  try_send_error-agents full inbox msg o = refl
  try_send_error-agents closed inbox msg o = refl

  send_to_parent-agents :
      (parent_id : Text) (msg : OrchestratorMessage) (o : Orchestrator S)
      → (send_to_parent st inbox_of parent_id msg o).active_agents ≡ o.active_agents
  unfolding send_to_parent
  send_to_parent-agents parent_id msg o = elim (Option-cases (lookup parent_id o.active_agents)) [
    | inl e ↦ rw (e, send_to_parent) refl
    | inr (p, e) ↦ rw (e, send_to_parent) (send_result-agents (inbox_of p.inbox) p.inbox msg o)
  ]

  send_sub_agent_error-agents :
      (parent_id call_id message : Text) (o : Orchestrator S)
      → (send_sub_agent_error st inbox_of parent_id call_id message o).active_agents
        ≡ o.active_agents
  unfolding send_sub_agent_error
  send_sub_agent_error-agents parent_id call_id message o =
      elim (Option-cases (lookup parent_id o.active_agents)) [
        | inl e ↦ rw (e, send_sub_agent_error) refl
        | inr (p, e) ↦
            rw (e, send_sub_agent_error)
              (try_send_error-agents (inbox_of p.inbox) p.inbox (sub_agent_error call_id message) o)
      ]

  report_done-agents :
      (session_id : Text) (a : ActiveAgent) (o : Orchestrator S)
      → (report_done st inbox_of session_id a o).active_agents ≡ o.active_agents
  unfolding report_done
  report_done-agents session_id a o = elim (Option-cases (lookup session_id o.pending_responses)) [
    | inr (tx, e) ↦ rw (e, report_done) refl
    | inl e ↦ elim (Option-cases a.parent_session_id) [
      | inl f ↦ rw (e, report_done, f) refl
      | inr (p, f) ↦ rw (e, report_done, f) (send_to_parent-agents p _ o)
    ]
  ]

  report_error-agents :
      (session_id : Text) (code : AgentErrorCode) (message : Text) (a : ActiveAgent)
      (o : Orchestrator S)
      → (report_error st inbox_of session_id code message a o).active_agents ≡ o.active_agents
  unfolding report_error
  report_error-agents session_id code message a o =
      elim (Option-cases (lookup session_id o.pending_responses)) [
        | inr (tx, e) ↦ rw (e, report_error) refl
        | inl e ↦ elim (Option-cases a.parent_session_id) [
          | inl f ↦
              rw (e, report_error, f)
                (if_both (λ (r : Orchestrator S). r.active_agents ≡ o.active_agents)
                  (is_cancel code) refl refl)
          | inr (p, f) ↦ rw (e, report_error, f) (send_sub_agent_error-agents p _ message o)
        ]
      ]

  handle_end-gone :
      (o : Orchestrator S) (session_id : Text) (e : AgentEnd)
      → lookup session_id o.active_agents ≡ none
      → handle_end st inbox_of o session_id e ≡ o
  unfolding handle_end handle_done handle_agent_error
  handle_end-gone o session_id agent_done gone = rw (gone, handle_done) refl
  handle_end-gone o session_id (agent_failed code message) gone = rw (gone, handle_agent_error) refl

  handle_end-stale :
      (o : Orchestrator S) (session_id : Text) (e : AgentEnd) (a : ActiveAgent)
      → lookup session_id o.active_agents ≡ some a
      → is_stale st inbox_of o session_id a ≡ true
      → handle_end st inbox_of o session_id e ≡ o
  unfolding handle_end handle_done handle_agent_error
  handle_end-stale o session_id agent_done a f stale = rw (f, handle_done, stale) refl
  handle_end-stale o session_id (agent_failed code message) a f stale =
      rw (f, handle_agent_error, stale) refl

  handle_end-agents :
      (o : Orchestrator S) (session_id : Text) (e : AgentEnd) (a : ActiveAgent)
      → lookup session_id o.active_agents ≡ some a
      → is_stale st inbox_of o session_id a ≡ false
      → (handle_end st inbox_of o session_id e).active_agents ≡ remove session_id o.active_agents
  unfolding handle_end handle_done handle_agent_error ended Active.remove
  handle_end-agents o session_id agent_done a f fresh =
      rw (f, handle_done, fresh)
        (report_done-agents session_id a (ended st inbox_of idle session_id o))
  handle_end-agents o session_id (agent_failed code message) a f fresh =
      rw (f, handle_agent_error, fresh)
        (report_error-agents session_id code (normalized st inbox_of code message) a
          (ended st inbox_of SessionStatus.error session_id o))

-- Whatever ends an agent, `Done` or an error, a second ending of the same session changes nothing: the
-- parent, the pending response and the bus get at most one report of it. This holds also where the agent
-- was not registered, and where the session of a root runs again.
pub handle_end_once :
    {C S : Type 0} (st : SessionStore C S) (inbox_of : ℕ → Inbox) (o : Orchestrator S)
    (session_id : Text) (first second : AgentEnd)
    → handle_end st inbox_of (handle_end st inbox_of o session_id first) session_id second
      ≡ handle_end st inbox_of o session_id first
handle_end_once {S = S} st inbox_of o session_id first second =
    let again : Orchestrator S → Orchestrator S = λ r. handle_end st inbox_of r session_id second in
    let after = handle_end st inbox_of o session_id first in
    elim (Option-cases (lookup session_id o.active_agents)) [
      | inl gone ↦
          let same = handle_end-gone st inbox_of o session_id first gone in
          ap again same ∙ handle_end-gone st inbox_of o session_id second gone ∙ sym same
      | inr (a, f) ↦ elim (Bool-cases (is_stale st inbox_of o session_id a)) [
        | inl stale ↦
            let same = handle_end-stale st inbox_of o session_id first a f stale in
            ap again same ∙ handle_end-stale st inbox_of o session_id second a f stale ∙ sym same
        | inr fresh ↦
            let out : lookup session_id after.active_agents ≡ none =
              ap (lookup session_id) (handle_end-agents st inbox_of o session_id first a f fresh)
              ∙ lookup-remove session_id session_id o.active_agents
              ∙ rw (text_eq_refl session_id) refl in
            handle_end-gone st inbox_of after session_id second out
      ]
    ]
