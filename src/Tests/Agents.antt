-- ===== src/Tests/Agents.antt =====
-- The registry of crates/visp-agent/src/active_agent.rs with a main agent, its sub-agent and one below.
use visp.Base.{
  ℕ, ◌≡◌, refl, ◌⊎◌, ◌↔◌, Option, none, some, [], List, ◌∷◌, Text, codes, text_eq, arith, Member,
}
use visp.Base.Dict.{lookup, values}
use visp.Agents.Active.{
  ActiveAgent, ActiveAgentRegistry, is_child_of, children_of, compute_depth, descendants_of,
}
use visp.Agents.Orchestrator.Ending.{Orchestrator}
use visp.Agents.Orchestrator.Cancel.{cancel_agent, IsBelow, cancel_agent_lem}
use visp.Agents.Active.Depth.{HasDepth, compute_depth-HasDepth}
use visp.Agents.Active.Descendants.{HasHeight, IsDescendant, descendants_of_lem}

abbrev agent_below : Option Text → Text → ActiveAgent
agent_below parent id = record {
  session_id = id;
  parent_session_id = parent;
  agent_name = codes "default";
  cancel_token = 0;
  inbox = 0;
  pending_call_id = none;
  started_at = 0;
}

abbrev agent_a : ActiveAgent
agent_a = agent_below none (codes "a")

abbrev agent_b : ActiveAgent
agent_b = agent_below (some (codes "a")) (codes "b")

abbrev agent_c : ActiveAgent
agent_c = agent_below (some (codes "b")) (codes "c")

-- The parent of the last agent is gone.
abbrev agents : ActiveAgentRegistry
agents =
    (codes "a", agent_a)
    ∷ (codes "b", agent_b)
    ∷ (codes "c", agent_c)
    ∷ (codes "d", agent_below (some (codes "x")) (codes "d"))
    ∷ []

three_levels : HasHeight agents 2 (codes "a")
unfolding children_of is_child_of values text_eq
three_levels = ((refl, tt), tt)

depth_two : HasDepth agents 2 (codes "c")
unfolding lookup text_eq
depth_two =
    (agent_c, codes "b", refl, refl, (agent_b, codes "a", refl, refl, (agent_a, refl, refl)))

-- The loops of the agent, of one two levels below and of one elsewhere are in flight.
abbrev orchestrator : Orchestrator Text
orchestrator = record {
  session_mgr = record {
    store = [];
    running_tokens = (codes "a", 0) ∷ (codes "c", 1) ∷ (codes "d", 2) ∷ [];
    next_token = 3;
    cancelled = [];
  };
  active_agents = agents;
  sub_agent_handles = [];
  pending_responses = [];
  session_sources = [];
  latest_usage = [];
  responses = [];
  inboxes = [];
  waiting = [];
  published = [];
  cancelled_agents = [];
}

descendants_of_lem_example :
    (fuel : ℕ) × (found : List ActiveAgent) × (descendants_of fuel agents (codes "a") ≡ some found)
    × ((a : ActiveAgent) → Member a found ↔ IsDescendant agents (codes "a") a)
descendants_of_lem_example = descendants_of_lem agents 2 (codes "a") three_levels

cancel_agent_lem_example :
    (fuel : ℕ) × (after : Orchestrator Text) × (cancel_agent fuel orchestrator (codes "a")
      ≡ some after)
    × ((k : Text)
        → IsBelow agents (codes "a") k
        → (lookup k after.session_mgr.running_tokens ≡ none)
          × ((t : ℕ)
              → lookup k orchestrator.session_mgr.running_tokens ≡ some t
              → Member t after.session_mgr.cancelled))
    × ((k : Text) (t : ℕ)
        → lookup k orchestrator.session_mgr.running_tokens ≡ some t
        → IsBelow agents (codes "a") k ⊎ (lookup k after.session_mgr.running_tokens ≡ some t))
    × ((t : ℕ)
        → Member t after.session_mgr.cancelled
        → Member t []
          ⊎ ((k : Text) × IsBelow agents (codes "a") k
              × (lookup k orchestrator.session_mgr.running_tokens ≡ some t)))
    × ((a : ActiveAgent)
        → (lookup (codes "a") agents ≡ some a) ⊎ IsDescendant agents (codes "a") a
        → Member a.cancel_token after.cancelled_agents)
cancel_agent_lem_example = cancel_agent_lem orchestrator 2 (codes "a") three_levels

compute_depth-HasDepth_example : compute_depth 3 agents (codes "c") ≡ some 2
compute_depth-HasDepth_example = compute_depth-HasDepth agents 2 (codes "c") (omega arith) depth_two
