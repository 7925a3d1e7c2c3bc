-- ===== src/Core/AgentLoop/Cleanup/Lost.antt =====
-- What `cleanup_orphan_tool_uses` of crates/visp-core/src/agent.rs does where a message of the system has
-- come between calls and their results.
use visp.Base.{
  ℕ, zero, suc, ◌≡◌, refl, sym, ◌∙◌, ap, inl, inr, Bool, true, false, not, Option, none, some, List,
  [], ◌∷◌, ◌++◌, Text, Bool-cases, text_eq, text_eq→eq, any, length, All, if_both, subst,
  if◌then◌else◌,
}
use visp.Core.Message.{Message, Role, ToolCallRequest, role_eq, tool, assistant, user}
use visp.Core.AgentLoop.Cleanup.{
  all_have_results, mark_tool, mark_tools, calls_of, check_message, clear_orphan_calls, found_at,
  found_call, id_of_tool, check_result, skip_orphan_results, cleanup_orphan_tool_uses, retained,
}
use visp.Core.AgentLoop.Cleanup.Answered.{unskipped, mark_tool_lem, check_result_lem}

-- The message calls a tool under this id, and it is the result of such a call.
abbrev pub calls_id : Text → Message → Bool
calls_id id m = elim (calls_of m) [
  | none ↦ false
  | some calls ↦ any (λ (c : ToolCallRequest). text_eq c.id id) calls
]

abbrev pub answers_id : Text → Message → Bool
answers_id id m = elim (id_of_tool m) [ none ↦ false | some i ↦ text_eq i id ]

module _ (id : Text) where
  abbrev Quiet : List Message → Type 0
  Quiet ms = All (λ (x : Message). calls_id id x ≡ false) ms

  abbrev Unsent : List Message → Type 0
  Unsent ms = All (λ (x : Message). (calls_id id x ≡ false) × (answers_id id x ≡ false)) ms

  calls_id-unskipped : (x y : Message) → unskipped x ≡ unskipped y → calls_id id x ≡ calls_id id y
  calls_id-unskipped x y e = ap (calls_id id) e

  mark_tools-Quiet : (n : ℕ) (ms : List Message) → Quiet ms → Quiet (mark_tools n ms)
  mark_tools-Quiet zero ms q = q
  mark_tools-Quiet (suc n) [] q = tt
  mark_tools-Quiet (suc n) (m ∷ ms) q =
      (calls_id-unskipped (mark_tool m) m (mark_tool_lem m) ∙ q.0, mark_tools-Quiet n ms q.1)

  without_calls : (m : Message) → calls_id id (record m { tool_calls = none }) ≡ false
  without_calls m = elim (Bool-cases (role_eq m.role assistant)) [
    | inl e ↦ rw (calls_id, calls_of, e) refl
    | inr e ↦ rw (calls_id, calls_of, e) refl
  ]

  check_message-Quiet :
      (o : Option (List ToolCallRequest)) (m : Message) (rest : List Message)
      → calls_id id m ≡ false
      → Quiet rest
      → Quiet (check_message o m rest)
  check_message-Quiet none m rest q h = (q, h)
  check_message-Quiet (some calls) m rest q h =
      if_both Quiet (all_have_results calls rest) (q, h)
        (without_calls m, mark_tools-Quiet (length calls) rest h)

  clear_orphan_calls-Quiet : (ms : List Message) → Quiet ms → Quiet (clear_orphan_calls ms)
  unfolding clear_orphan_calls
  clear_orphan_calls-Quiet [] q = tt
  clear_orphan_calls-Quiet (m ∷ ms) q =
      check_message-Quiet (calls_of m) m (clear_orphan_calls ms) q.0
        (clear_orphan_calls-Quiet ms q.1)

  -- A message of the system behind the calls: they are taken out, unless there is none.
  check_message-interrupted :
      (o : Option (List ToolCallRequest)) (m s : Message) (rest : List Message)
      → calls_of m ≡ o
      → s.role ≡ Role.system
      → calls_id id s ≡ false
      → Quiet rest
      → Quiet (check_message o m (s ∷ rest))
  check_message-interrupted none m s rest e r q h = (rw (calls_id, e) refl, (q, h))
  check_message-interrupted (some []) m s rest e r q h = (rw (calls_id, e) refl, (q, h))
  check_message-interrupted (some (c ∷ calls)) m s rest e r q h =
      let system : role_eq s.role tool ≡ false = ap (λ x. role_eq x tool) r in
      let no : all_have_results (c ∷ calls) (s ∷ rest) ≡ false = rw system refl in
      subst
        (λ b. Quiet (
          if b
          then m ∷ s ∷ rest
          else record m { tool_calls = none } ∷ mark_tools (suc (length calls)) (s ∷ rest)))
        (sym no) (without_calls m, mark_tools-Quiet (suc (length calls)) (s ∷ rest) (q, h))

  system-Quiet : (s : Message) → s.role ≡ Role.system → calls_of s ≡ none
  system-Quiet s r = rw r refl

  clear_orphan_calls-interrupted :
      (before after : List Message) (m s : Message)
      → s.role ≡ Role.system
      → Quiet before
      → Quiet after
      → Quiet (clear_orphan_calls (before ++ m ∷ s ∷ after))
  unfolding clear_orphan_calls
  clear_orphan_calls-interrupted [] after m s r qb qa =
      let free = system-Quiet s r in
      rw free (
        check_message-interrupted (calls_of m) m s (clear_orphan_calls after) refl r
          (rw (calls_id, free) refl) (clear_orphan_calls-Quiet after qa))
  clear_orphan_calls-interrupted (b ∷ before) after m s r qb qa =
      check_message-Quiet (calls_of b) b _ qb.0
        (clear_orphan_calls-interrupted before after m s r qb.1 qa)

  found_at-Quiet :
      (o : Option (List ToolCallRequest)) (role : Role) (further : Bool)
      → elim o [ none ↦ false | some calls ↦ any (λ (c : ToolCallRequest). text_eq c.id id) calls ]
        ≡ false
      → further ≡ false
      → found_at o role id further ≡ false
  found_at-Quiet none role further q h = if_both (λ b. b ≡ false) (role_eq role user) refl h
  found_at-Quiet (some calls) role further q h = q

  found_call-Quiet : (before : List Message) → Quiet before → found_call id before ≡ false
  found_call-Quiet [] q = refl
  found_call-Quiet (m ∷ before) q =
      found_at-Quiet (calls_of m) m.role (found_call id before) q.0 (found_call-Quiet before q.1)

  -- A result under the id is skipped.
  check_result-skips :
      (o : Option Text) (before : List Message) (m : Message)
      → Quiet before
      → elim o [ none ↦ false | some i ↦ text_eq i id ] ≡ true
      → (check_result o before m).skip_context ≡ true
  check_result-skips none before m q h = absurd (cc)
  check_result-skips (some i) before m q h =
      let lost : found_call i before ≡ false =
        ap (λ j. found_call j before) (text_eq→eq i id h) ∙ found_call-Quiet before q in
      rw lost refl

  skip_orphan_results-Unsent :
      (before ms : List Message)
      → Quiet before
      → Quiet ms
      → Unsent (retained (skip_orphan_results before ms))
  unfolding skip_orphan_results
  skip_orphan_results-Unsent before [] qb q = tt
  skip_orphan_results-Unsent before (m ∷ ms) qb q =
      let x = check_result (id_of_tool m) before m in
      let same : unskipped x ≡ unskipped m = check_result_lem (id_of_tool m) before m in
      let rest : Unsent (retained (skip_orphan_results (m ∷ before) ms)) =
        skip_orphan_results-Unsent (m ∷ before) ms (q.0, qb) q.1 in
      elim (Bool-cases (answers_id id m)) [
        | inl answer ↦ rw (check_result-skips (id_of_tool m) before m qb answer) rest
        | inr other ↦
            if_both Unsent (not x.skip_context)
              ((calls_id-unskipped x m same ∙ q.0, ap (answers_id id) same ∙ other), rest) rest
      ]

-- Where a message of the system follows directly on an assistant's message, as the warning of a repeated
-- round does, and no other message of the history calls a tool under some id: then behind the repair no
-- message that is sent calls a tool under the id, and none is a result with it. So a call of the
-- assistant's message under such an id, and its result, are lost.
pub warned_round_lost :
    (before after : List Message) (m s : Message) (id : Text)
    → s.role ≡ Role.system
    → All (λ (x : Message). calls_id id x ≡ false) before
    → All (λ (x : Message). calls_id id x ≡ false) after
    → All
        (λ (x : Message). (calls_id id x ≡ false) × (answers_id id x ≡ false))
        (retained (cleanup_orphan_tool_uses (before ++ m ∷ s ∷ after)))
unfolding cleanup_orphan_tool_uses
warned_round_lost before after m s id r qb qa =
    skip_orphan_results-Unsent id [] (clear_orphan_calls (before ++ m ∷ s ∷ after)) tt
      (clear_orphan_calls-interrupted id before after m s r qb qa)
