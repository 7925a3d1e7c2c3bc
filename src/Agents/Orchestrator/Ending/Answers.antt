-- ===== src/Agents/Orchestrator/Ending/Answers.antt =====
-- What the waiting parent of a sub-agent gets when the sub-agent ends.
use visp.Base.{
  ℕ, ◌≡◌, refl, sym, ◌∙◌, ap, inl, inr, false, none, some, [], ◌∷◌, ◌++◌, Text, codes,
  if◌then◌else◌, some_inj, text_eq_refl,
}
use visp.Base.Dict.{Dict, lookup, remove, lookup-remove}
use mathlib.Core.List.{reverse}
use visp.Core.Session.{SessionStatus, idle, Session, SessionStore, IsSessionStore}
use visp.Core.Session.Manager.{SessionManager, finish_loop}
use visp.Core.Session.Manager.Invariant.{IsValid}
use visp.Core.Session.Manager.Preserves.{modify-cases}
use visp.Agents.Active.{ActiveAgent}
use visp.Agents.Active
use visp.Agents.Orchestrator.Ending.{
  Orchestrator, Inbox, AgentEnd, agent_done, agent_failed, handle_end, handle_done,
  handle_agent_error, report_done, report_error, ended, is_stale, is_cancel, extract_result,
  last_answer, respond,
}

module _ {C S : Type 0} (st : SessionStore C S) (laws : IsSessionStore st) where
  finish_loop-shows :
      (m : SessionManager S) (id : Text) (status : SessionStatus) (x : Session C)
      → IsValid st m
      → st.find m.store id ≡ some x
      → st.find (finish_loop st m id status).1.store id ≡ some (record x { status = status })
  unfolding finish_loop
  finish_loop-shows m id status x v found =
      elim (modify-cases st laws m id (λ y. record y { status = status }) (λ y. refl) v) [
        | inl (unknown, _) ↦ absurd (cc)
        | inr (y, s, e, eq, shows) ↦
            rw (finish_loop, eq)
              (shows id
                ∙ rw (text_eq_refl id) (
                    ap (λ (z : Session C). some (record z { status = status }))
                      (some_inj (sym e ∙ found))))
      ]

-- The status and the answer that an ending stands for.
abbrev pub end_status : AgentEnd → SessionStatus
end_status agent_done = idle
end_status (agent_failed code message) = SessionStatus.error

abbrev pub answer_of : {C : Type 0} → AgentEnd → Session C → Text
answer_of agent_done x = last_answer (reverse x.history)
answer_of (agent_failed code message) x =
    codes "[SubAgent Error] " ++ (if is_cancel code then codes "agent cancelled" else message)

lookup-remove_same : {V : Type 0} (k : Text) (d : Dict V) → lookup k (remove k d) ≡ none
lookup-remove_same k d = lookup-remove k k d ∙ rw (text_eq_refl k) refl

not_stale :
    {C S : Type 0} (st : SessionStore C S) (inbox_of : ℕ → Inbox) (o : Orchestrator S)
    (session_id : Text) (a : ActiveAgent) (parent_id : Text)
    → a.parent_session_id ≡ some parent_id
    → is_stale st inbox_of o session_id a ≡ false
unfolding is_stale
not_stale st inbox_of o session_id a parent_id p = rw (is_stale, p) refl

handle_end-respond :
    {C S : Type 0} (st : SessionStore C S) (inbox_of : ℕ → Inbox) (o : Orchestrator S)
    (session_id : Text) (e : AgentEnd) (a : ActiveAgent) (parent_id : Text) (tx : ℕ) (x : Session C)
    → IsSessionStore st
    → IsValid st o.session_mgr
    → lookup session_id o.active_agents ≡ some a
    → a.parent_session_id ≡ some parent_id
    → lookup session_id o.pending_responses ≡ some tx
    → st.find o.session_mgr.store session_id ≡ some x
    → handle_end st inbox_of o session_id e
      ≡ respond st inbox_of session_id tx
          (answer_of e x)
          (ended st inbox_of (end_status e) session_id o)
unfolding handle_end handle_done handle_agent_error report_done report_error ended extract_result
handle_end-respond st inbox_of o session_id agent_done a parent_id tx x laws v f p w found =
    let shown = finish_loop-shows st laws o.session_mgr session_id idle x v found in
    let said : extract_result st inbox_of (ended st inbox_of idle session_id o) session_id
        ≡ last_answer (reverse x.history) =
      rw
        (
          extract_result,
          laws.get_lem (finish_loop st o.session_mgr session_id idle).1.store session_id,
          shown,
        )
        refl in
    rw (f, handle_done, not_stale st inbox_of o session_id a parent_id p, w, report_done)
      (ap (λ s. respond st inbox_of session_id tx s (ended st inbox_of idle session_id o)) said)
handle_end-respond st inbox_of o session_id (agent_failed code message) a parent_id tx x laws v f p
      w found =
    rw (f, handle_agent_error, not_stale st inbox_of o session_id a parent_id p, w, report_error)
      refl

-- When a stored sub-agent ends whose parent waits for a response, exactly that response is answered, once:
-- after `Done` with the last text of an assistant in the session's history that is not empty, after an
-- error with its message, or that of a cancellation. Nothing goes to an inbox or to the bus, the sub-agent
-- is no longer registered, and its session is idle, or in error.
pub handle_end_answers :
    {C S : Type 0} (st : SessionStore C S) (inbox_of : ℕ → Inbox) (o : Orchestrator S)
    (session_id : Text) (e : AgentEnd) (a : ActiveAgent) (parent_id : Text) (tx : ℕ) (x : Session C)
    → IsSessionStore st
    → IsValid st o.session_mgr
    → lookup session_id o.active_agents ≡ some a
    → a.parent_session_id ≡ some parent_id
    → lookup session_id o.pending_responses ≡ some tx
    → st.find o.session_mgr.store session_id ≡ some x
    → let after = handle_end st inbox_of o session_id e in
      (after.responses ≡ o.responses ++ (tx, answer_of e x) ∷ [])
      × (lookup session_id after.pending_responses ≡ none)
      × (after.inboxes ≡ o.inboxes)
      × (after.waiting ≡ o.waiting)
      × (after.published ≡ o.published)
      × (lookup session_id after.active_agents ≡ none)
      × (st.find after.session_mgr.store session_id ≡ some (record x { status = end_status e }))
unfolding ended Active.remove
handle_end_answers {S = S} st inbox_of o session_id e a parent_id tx x laws v f p w found =
    let answered =
      respond st inbox_of session_id tx (answer_of e x)
        (ended st inbox_of (end_status e) session_id o) in
    let eq : handle_end st inbox_of o session_id e ≡ answered =
      handle_end-respond st inbox_of o session_id e a parent_id tx x laws v f p w found in
    (
      ap (λ (r : Orchestrator S). r.responses) eq,
      ap (λ (r : Orchestrator S). lookup session_id r.pending_responses) eq
          ∙ lookup-remove_same session_id o.pending_responses,
      ap (λ (r : Orchestrator S). r.inboxes) eq,
      ap (λ (r : Orchestrator S). r.waiting) eq,
      ap (λ (r : Orchestrator S). r.published) eq,
      ap (λ (r : Orchestrator S). lookup session_id r.active_agents) eq
          ∙ lookup-remove_same session_id o.active_agents,
      ap (λ (r : Orchestrator S). st.find r.session_mgr.store session_id) eq
          ∙ finish_loop-shows st laws o.session_mgr session_id (end_status e) x v found,
    )
