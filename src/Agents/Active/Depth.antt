-- ===== src/Agents/Active/Depth.antt =====
-- The depth of an agent in the tree of running agents.
use visp.Base.{ℕ, zero, suc, ◌+◌, ◌<◌, ◌≡◌, refl, ◌∙◌, ap, none, some, Text, add32, u32_mod, arith}
use visp.Base.Dict.{lookup}
use visp.Agents.Active.{ActiveAgent, ActiveAgentRegistry, climb, compute_depth}

-- `d` steps from an agent to its parent lead to an agent without a parent.
abbrev pub HasDepth : ActiveAgentRegistry → ℕ → Text → Type 0
HasDepth agents zero id =
    (a : ActiveAgent) × (lookup id agents ≡ some a) × (a.parent_session_id ≡ none)
HasDepth agents (suc d) id =
    (a : ActiveAgent) × (p : Text) × (lookup id agents ≡ some a)
    × (a.parent_session_id ≡ some p)
    × HasDepth agents d p

-- `n` steps lead to an id that no running agent has.
abbrev pub LeadsOut : ActiveAgentRegistry → ℕ → Text → Type 0
LeadsOut agents zero id = lookup id agents ≡ none
LeadsOut agents (suc n) id =
    (a : ActiveAgent) × (p : Text) × (lookup id agents ≡ some a)
    × (a.parent_session_id ≡ some p)
    × LeadsOut agents n p

climb-HasDepth :
    (agents : ActiveAgentRegistry) (d depth : ℕ) (id : Text)
    → depth + d < u32_mod
    → HasDepth agents d id
    → climb (suc d) agents depth id ≡ some (depth + d)
unfolding climb
climb-HasDepth agents zero depth id small (a, e, root) = rw (e, climb, root) (ap some (omega arith))
climb-HasDepth agents (suc d) depth id small (a, p, e, up, h) =
    rw (e, climb, up)
      (climb-HasDepth agents d (add32 depth 1) p (omega arith) h ∙ ap some (omega arith))

climb-LeadsOut :
    (agents : ActiveAgentRegistry) (n depth : ℕ) (id : Text)
    → LeadsOut agents n id
    → climb (suc n) agents depth id ≡ some 0
unfolding climb
climb-LeadsOut agents zero depth id e = rw (e, climb) refl
climb-LeadsOut agents (suc n) depth id (a, p, e, up, h) =
    rw (e, climb, up) (climb-LeadsOut agents n (add32 depth 1) p h)

-- `compute_depth` of an agent from which `d` parents lead to the root returns `d`, within `d + 1` rounds,
-- where `d` fits a `u32`.
pub compute_depth-HasDepth :
    (agents : ActiveAgentRegistry) (d : ℕ) (id : Text)
    → d < u32_mod
    → HasDepth agents d id
    → compute_depth (suc d) agents id ≡ some d
unfolding compute_depth
compute_depth-HasDepth agents d id small h =
    climb-HasDepth agents d 0 id (omega arith) h ∙ ap some (omega arith)

-- An agent one of whose ancestors is no longer running has depth 0, however far away that ancestor is.
pub compute_depth-LeadsOut :
    (agents : ActiveAgentRegistry) (n : ℕ) (id : Text)
    → LeadsOut agents n id
    → compute_depth (suc n) agents id ≡ some 0
unfolding compute_depth
compute_depth-LeadsOut agents n id h = climb-LeadsOut agents n 0 id h
