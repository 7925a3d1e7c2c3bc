-- ===== src/Agents/Orchestrator/Cancel.antt =====
-- `cancel_agent` of crates/visp-agent/src/orchestrator.rs: an agent is cancelled with all below it. The
-- walk over the tree takes the fuel of `descendants_of`; `none` is a walk that has not returned.
mod Stopped
use visp.Base.{
  ℕ, ◌≡◌, refl, sym, ◌∙◌, ap, ◌⊎◌, inl, inr, true, false, Option, none, some, List, [], ◌∷◌, Text,
  text_eq, text_eq_refl, text_eq→eq, if◌then◌else◌, Option-cases, Bool-cases, Member, subst, map,
  Any-map,
}
use visp.Base.Dict.{lookup, contains_key, lookup-remove}
use visp.Core.Session.Manager.{SessionManager, has_inflight_loop}
use visp.Core.Session.Manager
use visp.Agents.Orchestrator.Cancel.Stopped.{
  stop_all, stop_all-gone, stop_all-goes_on, stop_all-cancels, stop_all-only,
}
use visp.Agents.Active.{ActiveAgent, ActiveAgentRegistry, descendants_of}
use visp.Agents.Active.Descendants.{HasHeight, IsDescendant, descendants_of_lem}
use visp.Agents.Orchestrator.Ending.{Orchestrator}

abbrev ids_of : List ActiveAgent → List Text
ids_of agents = map (λ (a : ActiveAgent). a.session_id) agents

module _ {S : Type 0} where
  -- `agent.cancel_token.cancel()`
  abbrev cancel_token : ActiveAgent → Orchestrator S → Orchestrator S
  cancel_token a o = record o { cancelled_agents = a.cancel_token ∷ o.cancelled_agents }

  -- `self.session_mgr.cancel_agent(session_id)`
  abbrev cancel_loop : Text → Orchestrator S → Orchestrator S
  cancel_loop session_id o = record o {
    session_mgr = Manager.cancel_agent o.session_mgr session_id;
  }

  abbrev cancel_known : Option ActiveAgent → Orchestrator S → Orchestrator S
  cancel_known none o = o
  cancel_known (some a) o = cancel_token a o

  unfoldable pub cancel_children : List ActiveAgent → Orchestrator S → Orchestrator S
  unfolding Manager.cancel_agent
  cancel_children [] o = o
  cancel_children (child ∷ rest) o =
      cancel_children rest (cancel_loop child.session_id (cancel_token child o))

  unfoldable pub cancel_agent : (fuel : ℕ) → Orchestrator S → Text → Option (Orchestrator S)
  unfolding cancel_children lookup descendants_of Manager.cancel_agent
  cancel_agent fuel o session_id =
      let stopped = cancel_loop session_id (cancel_known (lookup session_id o.active_agents) o) in
      elim (descendants_of fuel o.active_agents session_id) [
        | none ↦ none
        | some children ↦ some (cancel_children children stopped)
      ]

  cancel_children-mgr :
      (cs : List ActiveAgent) (o : Orchestrator S)
      → (cancel_children cs o).session_mgr ≡ stop_all (ids_of cs) o.session_mgr
  unfolding cancel_children
  cancel_children-mgr [] o = refl
  cancel_children-mgr (c ∷ cs) o =
      cancel_children-mgr cs (cancel_loop c.session_id (cancel_token c o))

  cancel_known-mgr :
      (found : Option ActiveAgent) (o : Orchestrator S)
      → (cancel_known found o).session_mgr ≡ o.session_mgr
  cancel_known-mgr none o = refl
  cancel_known-mgr (some a) o = refl

  -- The tokens of the agents themselves.
  cancel_children-keeps :
      (cs : List ActiveAgent) (o : Orchestrator S) (t : ℕ)
      → Member t o.cancelled_agents
      → Member t (cancel_children cs o).cancelled_agents
  unfolding cancel_children
  cancel_children-keeps [] o t h = h
  cancel_children-keeps (c ∷ cs) o t h =
      cancel_children-keeps cs (cancel_loop c.session_id (cancel_token c o)) t (inr h)

  cancel_children-tokens :
      (cs : List ActiveAgent) (o : Orchestrator S) (a : ActiveAgent)
      → Member a cs
      → Member a.cancel_token (cancel_children cs o).cancelled_agents
  unfolding cancel_children
  cancel_children-tokens [] o a h = absurd h
  cancel_children-tokens (c ∷ cs) o a (inr h) =
      cancel_children-tokens cs (cancel_loop c.session_id (cancel_token c o)) a h
  cancel_children-tokens (c ∷ cs) o a (inl e) =
      cancel_children-keeps cs (cancel_loop c.session_id (cancel_token c o)) a.cancel_token
        (inl (ap (λ (x : ActiveAgent). x.cancel_token) e))

-- The session of an agent, or of one of its descendants.
abbrev pub IsBelow : ActiveAgentRegistry → Text → Text → Type 0
IsBelow agents session_id k =
    (session_id ≡ k) ⊎ ((a : ActiveAgent) × IsDescendant agents session_id a × (a.session_id ≡ k))

Member-ids :
    (cs : List ActiveAgent) (a : ActiveAgent) → Member a cs → Member a.session_id (ids_of cs)
Member-ids cs a h =
    Any-map _ _ (λ (x : ActiveAgent). x.session_id) cs
      (λ x e. ap (λ (y : ActiveAgent). y.session_id) e) h

ids-Member :
    (cs : List ActiveAgent) (k : Text)
    → Member k (ids_of cs)
    → (a : ActiveAgent) × Member a cs × (a.session_id ≡ k)
ids-Member [] k h = absurd h
ids-Member (c ∷ cs) k (inl e) = (c, inl refl, e)
ids-Member (c ∷ cs) k (inr h) = let (a, m, e) = ids-Member cs k h in (a, inr m, e)

IsBelow-ids :
    (agents : ActiveAgentRegistry) (session_id k : Text) (found : List ActiveAgent)
    → ((a : ActiveAgent) → IsDescendant agents session_id a → Member a found)
    → IsBelow agents session_id k
    → Member k (session_id ∷ ids_of found)
IsBelow-ids agents session_id k found all (inl e) = inl e
IsBelow-ids agents session_id k found all (inr (a, d, e)) =
    inr (subst (λ j. Member j (ids_of found)) e (Member-ids found a (all a d)))

ids-IsBelow :
    (agents : ActiveAgentRegistry) (session_id k : Text) (found : List ActiveAgent)
    → ((a : ActiveAgent) → Member a found → IsDescendant agents session_id a)
    → Member k (session_id ∷ ids_of found)
    → IsBelow agents session_id k
ids-IsBelow agents session_id k found all (inl e) = inl e
ids-IsBelow agents session_id k found all (inr h) =
    let (a, m, e) = ids-Member found k h in inr (a, all a m, e)

-- Where the tree below an agent is finite, a cancellation returns. Then no session of the agent or of a
-- descendant has a token in flight, and each token that one had is cancelled; every other token in flight
-- stays in flight, and no other token is cancelled than before and those. The tokens that the registry
-- keeps with the agent and its descendants are cancelled too.
pub cancel_agent_lem :
    {S : Type 0} (o : Orchestrator S) (height : ℕ) (session_id : Text)
    → HasHeight o.active_agents height session_id
    → (fuel : ℕ) × (after : Orchestrator S) × (cancel_agent fuel o session_id ≡ some after)
      × ((k : Text)
          → IsBelow o.active_agents session_id k
          → (lookup k after.session_mgr.running_tokens ≡ none)
            × ((t : ℕ)
                → lookup k o.session_mgr.running_tokens ≡ some t
                → Member t after.session_mgr.cancelled))
      × ((k : Text) (t : ℕ)
          → lookup k o.session_mgr.running_tokens ≡ some t
          → IsBelow o.active_agents session_id k
            ⊎ (lookup k after.session_mgr.running_tokens ≡ some t))
      × ((t : ℕ)
          → Member t after.session_mgr.cancelled
          → Member t o.session_mgr.cancelled
            ⊎ ((k : Text) × IsBelow o.active_agents session_id k
                × (lookup k o.session_mgr.running_tokens ≡ some t)))
      × ((a : ActiveAgent)
          → (lookup session_id o.active_agents ≡ some a) ⊎ IsDescendant o.active_agents session_id a
          → Member a.cancel_token after.cancelled_agents)
unfolding cancel_agent
cancel_agent_lem {S} o height session_id h =
    let (fuel, found, e, iff) = descendants_of_lem o.active_agents height session_id h in
    let agents = o.active_agents in
    let m : SessionManager S = o.session_mgr in
    let ids : List Text = session_id ∷ ids_of found in
    let known : Orchestrator S = cancel_known (lookup session_id agents) o in
    let stopped : Orchestrator S = cancel_loop session_id known in
    let after : Orchestrator S = cancel_children found stopped in
    let mgr : after.session_mgr ≡ stop_all ids m =
      cancel_children-mgr found stopped
      ∙ ap (λ u. stop_all ids u) (cancel_known-mgr (lookup session_id agents) o) in
    let below : (k : Text) → Member k ids → IsBelow agents session_id k =
      λ k i. ids-IsBelow agents session_id k found (λ a. (iff a).0) i in
    (
      fuel,
      after,
      rw (e, cancel_agent) refl,
      λ k b.
          let i = IsBelow-ids agents session_id k found (λ a. (iff a).1) b in
          (
            ap (λ (u : SessionManager S). lookup k u.running_tokens) mgr ∙ stop_all-gone ids m k i,
            λ t held.
                subst (λ (u : SessionManager S). Member t u.cancelled) (sym mgr)
                  (stop_all-cancels ids m k t i held),
          ),
      λ k t held. elim (stop_all-goes_on ids m k t held) [
        | inl i ↦ inl (below k i)
        | inr on ↦ inr (ap (λ (u : SessionManager S). lookup k u.running_tokens) mgr ∙ on)
      ],
      λ t c.
          elim (stop_all-only ids m t
            (subst (λ (u : SessionManager S). Member t u.cancelled) mgr c)) [
              | inl was ↦ inl was
              | inr (k, i, held) ↦ inr (k, below k i, held)
            ],
      λ a d. elim d [
        | inl f ↦ cancel_children-keeps found stopped a.cancel_token (
            subst
              (λ (x : Option ActiveAgent).
                Member a.cancel_token (cancel_loop session_id (cancel_known x o)).cancelled_agents)
              (sym f) (inl refl))
        | inr below_it ↦ cancel_children-tokens found stopped a ((iff a).1 below_it)
      ],
    )
