-- ===== src/Tests/Endings.antt =====
-- The endings of crates/visp-agent/src/orchestrator.rs for a main agent and a sub-agent that it waits for.
use visp.Base.{ℕ, ◌≡◌, refl, none, some, List, [], ◌∷◌, ◌++◌, Text, codes, text_eq}
use visp.Base.Dict.{lookup, insert, contains_key}
use visp.Core.Message.{Message, of_user, of_assistant}
use visp.Core.Session.{Session, SessionStore, IsSessionStore}
use visp.Core.Session.InMemory
use visp.Core.Session.InMemory.{Sessions, in_memory}
use visp.Core.Session.InMemory.Laws.{in_memory-IsSessionStore}
use visp.Core.Session.Manager
use visp.Core.Session.Manager.{SessionManager, new_session}
use visp.Core.Session.Manager.Invariant.{IsValid}
use visp.Core.Session.Manager.Runs.{Call, creates, appends, step, run, new, run-IsValid}
use visp.Core.AgentLoop.Events.{code_cancelled}
use visp.Agents.Active.{ActiveAgent}
use visp.Agents.Orchestrator.Ending.{
  Orchestrator, Inbox, has_space, agent_done, agent_failed, handle_end,
}
use visp.Agents.Orchestrator.Ending.Once.{handle_end_once}
use visp.Agents.Orchestrator.Ending.Answers.{answer_of, end_status, handle_end_answers}

abbrev store : SessionStore Text (Sessions Text)
store = in_memory Text

abbrev laws : IsSessionStore store
laws = in_memory-IsSessionStore Text

abbrev template : Text → Text
template path = codes "work"

abbrev found_it : Message
found_it = of_assistant (codes "found it") none

abbrev calls : List (Call Text)
calls =
    creates (codes "sub") (codes "p") 0 (codes "model")
    ∷ appends (codes "sub") found_it
    ∷ appends (codes "sub") (of_user (codes "go on"))
    ∷ []

nothing_stored : (k : Text) → store.find [] k ≡ none
unfolding lookup
nothing_stored k = refl

abbrev manager : SessionManager (Sessions Text)
manager = run store template (new []) calls

manager-IsValid : IsValid store manager
manager-IsValid = run-IsValid store template [] calls laws nothing_stored

abbrev sub_session : Session Text
sub_session =
    record (new_session store (codes "sub") (codes "p") 0 (codes "model") (codes "work")) {
      history = found_it ∷ of_user (codes "go on") ∷ [];
    }

sub_session_stored : store.find manager.store (codes "sub") ≡ some sub_session
unfolding run step Manager.create Manager.append_message insert lookup contains_key text_eq
    InMemory.create InMemory.append_message
sub_session_stored = refl

abbrev sub_agent : ActiveAgent
sub_agent = record {
  session_id = codes "sub";
  parent_session_id = some (codes "main");
  agent_name = codes "explorer";
  cancel_token = 0;
  inbox = 0;
  pending_call_id = some (codes "call");
  started_at = 0;
}

abbrev orchestrator : Orchestrator (Sessions Text)
orchestrator = record {
  session_mgr = manager;
  active_agents = (codes "sub", sub_agent) ∷ [];
  sub_agent_handles = (codes "sub", 0) ∷ [];
  pending_responses = (codes "sub", 7) ∷ [];
  session_sources = [];
  latest_usage = [];
  responses = [];
  inboxes = [];
  waiting = [];
  published = [];
  cancelled_agents = [];
}

abbrev inbox_of : ℕ → Inbox
inbox_of i = has_space

handle_end_once_example :
    handle_end store inbox_of
      (handle_end store inbox_of orchestrator (codes "sub") agent_done)
      (codes "sub")
      (agent_failed code_cancelled (codes "late"))
    ≡ handle_end store inbox_of orchestrator (codes "sub") agent_done
handle_end_once_example =
    handle_end_once store inbox_of orchestrator (codes "sub") agent_done
      (agent_failed code_cancelled (codes "late"))

registered : lookup (codes "sub") orchestrator.active_agents ≡ some sub_agent
unfolding lookup text_eq
registered = refl

awaited : lookup (codes "sub") orchestrator.pending_responses ≡ some 7
unfolding lookup text_eq
awaited = refl

the_answer : answer_of agent_done sub_session ≡ codes "found it"
the_answer = refl

handle_end_answers_example :
    let after = handle_end store inbox_of orchestrator (codes "sub") agent_done in
    (after.responses ≡ orchestrator.responses ++ (7, answer_of agent_done sub_session) ∷ [])
    × (lookup (codes "sub") after.pending_responses ≡ none)
    × (after.inboxes ≡ orchestrator.inboxes)
    × (after.waiting ≡ orchestrator.waiting)
    × (after.published ≡ orchestrator.published)
    × (lookup (codes "sub") after.active_agents ≡ none)
    × (store.find after.session_mgr.store (codes "sub")
        ≡ some (record sub_session { status = end_status agent_done }))
handle_end_answers_example =
    handle_end_answers store inbox_of orchestrator (codes "sub") agent_done sub_agent (codes "main")
      7 sub_session laws manager-IsValid registered refl awaited sub_session_stored
