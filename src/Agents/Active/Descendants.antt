-- ===== src/Agents/Active/Descendants.antt =====
-- The descendants of a running agent: the loop returns on a tree, and finds exactly the agents below.
use mathlib.Core.List.{reverse, reverse-cons}
use visp.Base.{
  ℕ, zero, suc, ◌↔◌, some_inj, ◌≡◌, refl, sym, ap, subst, ◌⊎◌, inl, inr, some, List, [], ◌∷◌, ◌++◌,
  Text, All, All-mono, All-append, Any, Any-append_cases, Any-append_left, Any-append_right,
  Any-map, Member, All-Member, All-self, append-nil,
}
use visp.Agents.Active.{ActiveAgent, ActiveAgentRegistry, children_of, ids, descend, descendants_of}

-- The tree below an agent has at most `k` levels; a cycle of parents has no such `k`.
abbrev pub HasHeight : ActiveAgentRegistry → ℕ → Text → Type 0
HasHeight agents zero id = children_of agents id ≡ []
HasHeight agents (suc k) id = All (HasHeight agents k) (ids (children_of agents id))

-- `a` is a child of the agent, or of one of its descendants.
pub data IsDescendant (agents : ActiveAgentRegistry) (id : Text) : ActiveAgent → Type 0 where
  child : (a : ActiveAgent) → Member a (children_of agents id) → IsDescendant agents id a
  below :
      (a b : ActiveAgent)
      → IsDescendant agents id b
      → Member a (children_of agents b.session_id)
      → IsDescendant agents id a

module _ (agents : ActiveAgentRegistry) where
  -- With some fuel the loop returns on this queue, whatever was found before.
  Returns : List Text → Type 0
  Returns queue =
      (result : List ActiveAgent)
      → (fuel : ℕ) × (found : List ActiveAgent) × (descend fuel agents queue result ≡ some found)

  pushed-Returns :
      (P : Text → Type 0) (children queue : List Text)
      → ((id : Text) (queue : List Text) → P id → Returns queue → Returns (id ∷ queue))
      → All P children
      → Returns queue
      → Returns (children ++ queue)
  pushed-Returns P [] queue visit h r = r
  pushed-Returns P (c ∷ cs) queue visit h r =
      visit c (cs ++ queue) h.0 (pushed-Returns P cs queue visit h.1 r)

  All-reverse : (P : Text → Type 0) (xs : List Text) → All P xs → All P (reverse xs)
  All-reverse P [] h = tt
  All-reverse P (x ∷ xs) h =
      subst (All P) (sym (reverse-cons x xs))
        (All-append P (reverse xs) (x ∷ []) (All-reverse P xs h.1) (h.0, tt))

  visit-Returns :
      (k : ℕ) (id : Text) (queue : List Text)
      → HasHeight agents k id
      → Returns queue
      → Returns (id ∷ queue)
  unfolding descend Returns
  visit-Returns zero id queue h r result =
      let (fuel, found, e) = r (result ++ []) in (suc fuel, found, rw (h, descend) e)
  visit-Returns (suc k) id queue h r result =
      let children = children_of agents id in
      let (fuel, found, e) =
        pushed-Returns (HasHeight agents k) (reverse (ids children)) queue (visit-Returns k)
          (All-reverse _ (ids children) h) r (result ++ children) in
      (suc fuel, found, e)

  Any-reverse : (P : Text → Type 0) (xs : List Text) → Any P xs → Any P (reverse xs)
  Any-reverse P [] h = absurd h
  Any-reverse P (x ∷ xs) (inl h) =
      subst (Any P) (sym (reverse-cons x xs)) (Any-append_right P (reverse xs) (x ∷ []) (inl h))
  Any-reverse P (x ∷ xs) (inr h) =
      subst (Any P) (sym (reverse-cons x xs))
        (Any-append_left P (reverse xs) (x ∷ []) (Any-reverse P xs h))

  -- What stands in the queue is the root or a descendant.
  IsBelow : Text → Text → Type 0
  IsBelow root id =
      (id ≡ root) ⊎ ((b : ActiveAgent) × IsDescendant agents root b × (b.session_id ≡ id))

  children-IsDescendant :
      (root id : Text) → IsBelow root id → All (IsDescendant agents root) (children_of agents id)
  unfolding IsBelow
  children-IsDescendant root id (inl e) =
      subst (λ r. All (IsDescendant agents r) (children_of agents id)) e
        (All-mono (children_of agents id) (λ a m. child a m) (All-self (children_of agents id)))
  children-IsDescendant root id (inr (b, d, e)) =
      subst (λ i. All (IsDescendant agents root) (children_of agents i)) e
        (All-mono (children_of agents b.session_id) (λ a m. below a b d m)
          (All-self (children_of agents b.session_id)))

  All-ids :
      (P : Text → Type 0) (agents_found : List ActiveAgent)
      → All (λ (a : ActiveAgent). P a.session_id) agents_found
      → All P (ids agents_found)
  All-ids P [] h = tt
  All-ids P (a ∷ agents_found) h = (h.0, All-ids P agents_found h.1)

  descend_sound :
      (root : Text) (fuel : ℕ) (queue : List Text) (result found : List ActiveAgent)
      → All (IsBelow root) queue
      → All (IsDescendant agents root) result
      → descend fuel agents queue result ≡ some found
      → All (IsDescendant agents root) found
  unfolding descend IsBelow
  descend_sound root zero queue result found q r e = absurd (cc)
  descend_sound root (suc fuel) [] result found q r e =
      let same : some result ≡ some found = e in
      subst (All (IsDescendant agents root)) (some_inj same) r
  descend_sound root (suc fuel) (current ∷ queue) result found q r e =
      let children = children_of agents current in
      let d = children-IsDescendant root current q.0 in
      let below_all : All (IsBelow root) (ids children) =
        All-ids (IsBelow root) children
          (All-mono children (λ (a : ActiveAgent) k. inr (a, k, refl)) d) in
      descend_sound root fuel (reverse (ids children) ++ queue) (result ++ children) found
        (All-append _ (reverse (ids children)) queue (All-reverse _ (ids children) below_all) q.1)
        (All-append _ result children r d) e

  -- All children of these agents are in the list.
  Covers : List ActiveAgent → List Text → Type 0
  Covers result seen = All (λ s. All (λ c. Member c result) (children_of agents s)) seen

  moved :
      (current : Text) (seen rest queue : List Text) (id : Text)
      → Member id (seen ++ current ∷ queue)
      → Member id ((current ∷ seen) ++ (rest ++ queue))
  moved current seen rest queue id h = elim (Any-append_cases _ seen (current ∷ queue) h) [
    | inl old ↦ inr (Any-append_left _ seen (rest ++ queue) old)
    | inr (inl this) ↦ inl this
    | inr (inr later) ↦
        inr (Any-append_right _ seen (rest ++ queue) (Any-append_right _ rest queue later))
  ]

  descend_complete :
      (fuel : ℕ) (queue seen : List Text) (result found : List ActiveAgent)
      → Covers result seen
      → All (λ (a : ActiveAgent). Member a.session_id (seen ++ queue)) result
      → descend fuel agents queue result ≡ some found
      → (seen' : List Text) × Covers found seen'
        × All (λ (a : ActiveAgent). Member a.session_id seen') found
        × ((id : Text) → Member id (seen ++ queue) → Member id seen')
  unfolding descend Covers
  descend_complete zero queue seen result found c k e = absurd (cc)
  descend_complete (suc fuel) [] seen result found c k e =
      let same : result ≡ found = some_inj e in
      (
        seen,
        subst (λ l. Covers l seen) same c,
        subst (All (λ (a : ActiveAgent). Member a.session_id seen)) same (
            All-mono result (λ (a : ActiveAgent) h. subst (Member a.session_id) (append-nil seen) h)
              k),
        λ id h. subst (Member id) (append-nil seen) h,
      )
  descend_complete (suc fuel) (current ∷ queue) seen result found c k e =
      let children = children_of agents current in
      let rest = reverse (ids children) in
      let covered : Covers (result ++ children) (current ∷ seen) = (
        All-mono children (λ a m. Any-append_right _ result children m) (All-self children),
        All-mono seen
            (λ s h. All-mono (children_of agents s) (λ a m. Any-append_left _ result children m) h)
            c,
      ) in
      let known : All
          (λ (a : ActiveAgent). Member a.session_id ((current ∷ seen) ++ (rest ++ queue)))
          (result ++ children) =
        All-append _ result children
          (All-mono result (λ (a : ActiveAgent) h. moved current seen rest queue a.session_id h) k)
          (All-mono children
            (λ (a : ActiveAgent) m. inr (
              Any-append_right _ seen (rest ++ queue) (
                Any-append_left _ rest queue (
                  Any-reverse _ (ids children) (
                    Any-map _ _ (λ (b : ActiveAgent). b.session_id) children
                      (λ b f. ap (λ (z : ActiveAgent). z.session_id) f) m)))))
            (All-self children)) in
      let (seen', covers, all_seen, more) =
        descend_complete fuel (rest ++ queue) (current ∷ seen) (result ++ children) found covered
          known e in
      (seen', covers, all_seen, λ id h. more id (moved current seen rest queue id h))

  descendant-Member :
      (root : Text) (seen : List Text) (found : List ActiveAgent)
      → Covers found seen
      → All (λ (a : ActiveAgent). Member a.session_id seen) found
      → Member root seen
      → (a : ActiveAgent) → IsDescendant agents root a
      → Member a found
  unfolding Covers
  descendant-Member root seen found covers all_seen here a (child _ m) =
      All-Member _ a (children_of agents root) (All-Member _ root seen covers here) m
  descendant-Member root seen found covers all_seen here a (below _ b d m) =
      let b_found = descendant-Member root seen found covers all_seen here b d in
      let b_seen = All-Member _ b found all_seen b_found in
      All-Member _ a (children_of agents b.session_id)
        (All-Member _ b.session_id seen covers b_seen) m

-- Where the tree below an agent is finite, `descendants_of` returns, and has found exactly the children of
-- the agent and of its descendants.
pub descendants_of_lem :
    (agents : ActiveAgentRegistry) (k : ℕ) (id : Text)
    → HasHeight agents k id
    → (fuel : ℕ) × (found : List ActiveAgent) × (descendants_of fuel agents id ≡ some found)
      × ((a : ActiveAgent) → Member a found ↔ IsDescendant agents id a)
unfolding descendants_of Returns IsBelow Covers
descendants_of_lem agents k id h =
    let (fuel, found, e) = visit-Returns agents k id [] h (λ result. (1, result, refl)) [] in
    let (seen, covers, all_seen, more) =
      descend_complete agents fuel (id ∷ []) [] [] found tt tt e in
    (
      fuel,
      found,
      e,
      λ a. (
        All-Member _ a found (descend_sound agents id fuel (id ∷ []) [] found (inl refl, tt) tt e),
        descendant-Member agents id seen found covers all_seen (more id (inl refl)) a,
      ),
    )
