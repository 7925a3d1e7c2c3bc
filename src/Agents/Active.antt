-- ===== src/Agents/Active.antt =====
-- crates/visp-agent/src/active_agent.rs: the running agents by session id, and the tree of their parents.
-- Tokens, channels and instants are numbers that are only kept. The order of `values()` of the hash map
-- is that of the association list; no theorem depends on it. The two loops run on fuel, since a cycle
-- of parents keeps them going; `none` is a loop that has not returned.
pub mod Descendants
pub mod Depth
use mathlib.Core.List.{reverse}
use visp.Base.{
  ℕ, zero, suc, Bool, true, false, Option, none, some, List, [], ◌∷◌, ◌++◌, map, Text, text_eq,
  filter, length, add32,
}
use visp.Base.Dict.{Dict, lookup, insert, values}
use visp.Base.Dict

pub record ActiveAgent : Type 0 where
  pub session_id : Text
  pub parent_session_id : Option Text
  pub agent_name : Text
  pub cancel_token : ℕ
  pub inbox : ℕ
  pub pending_call_id : Option Text
  pub started_at : ℕ

abbrev pub ActiveAgentRegistry : Type 0
ActiveAgentRegistry = Dict ActiveAgent

unfoldable pub register : ActiveAgentRegistry → ActiveAgent → ActiveAgentRegistry
register agents agent = insert agent.session_id agent agents

-- `remove`, which returns the agent.
unfoldable pub remove : ActiveAgentRegistry → Text → Option ActiveAgent × ActiveAgentRegistry
remove agents session_id = (lookup session_id agents, Dict.remove session_id agents)

-- `parent_session_id.as_deref() == Some(parent_id)`
unfoldable pub is_child_of : Text → ActiveAgent → Bool
is_child_of parent_id a = elim a.parent_session_id [ none ↦ false | some p ↦ text_eq p parent_id ]

unfoldable pub children_of : ActiveAgentRegistry → Text → List ActiveAgent
unfolding values is_child_of
children_of agents parent_id = filter (is_child_of parent_id) (values agents)

abbrev ids : List ActiveAgent → List Text
ids agents = map (λ (a : ActiveAgent). a.session_id) agents

-- The loop of `descendants_of`; the head of the list is the end of the vector `queue`.
unfoldable pub descend :
    (fuel : ℕ)
    → ActiveAgentRegistry
    → (queue : List Text) → (result : List ActiveAgent) → Option (List ActiveAgent)
unfolding children_of
descend zero agents queue result = none
descend (suc fuel) agents [] result = some result
descend (suc fuel) agents (current ∷ queue) result =
    let children = children_of agents current in
    descend fuel agents (reverse (ids children) ++ queue) (result ++ children)

unfoldable pub descendants_of : (fuel : ℕ) → ActiveAgentRegistry → Text → Option (List ActiveAgent)
unfolding descend
descendants_of fuel agents parent_id = descend fuel agents (parent_id ∷ []) []

-- The loop of `compute_depth` from `depth` on.
unfoldable pub climb : (fuel : ℕ) → ActiveAgentRegistry → (depth : ℕ) → (current : Text) → Option ℕ
unfolding lookup
climb zero agents depth current = none
climb (suc fuel) agents depth current = elim (lookup current agents) [
  | none ↦ some 0
  | some agent ↦ elim agent.parent_session_id [
    | none ↦ some depth
    | some parent ↦ climb fuel agents (add32 depth 1) parent
  ]
]

unfoldable pub compute_depth : (fuel : ℕ) → ActiveAgentRegistry → Text → Option ℕ
unfolding climb
compute_depth fuel agents session_id = climb fuel agents 0 session_id
