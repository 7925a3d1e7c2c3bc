-- ===== src/Context/KeepHeadTail/Calls.antt =====
-- The tool calls and tool results of a list of messages, and what the parts of
-- `keep_head_and_tail` do to them.
use visp.Base.{
  ℕ, ◌≡◌, refl, sym, subst, ◌≢◌, inl, inr, true, some, List, [], ◌∷◌, map, arith, Text, length,
  filter, contains, ltb, leb, Bool-cases, some_inj, ◌∙◌, All-trivial, Option-cases, List-cases,
  Any-unmap, Any-append_cases, All, Any, All-mono, All-filter, Any-filter, All-of-length-filter,
}
use visp.Core.Message.{assistant, tool, ToolCallRequest, Message, role_eq}
use visp.Context.Estimate.{estimate_message_tokens_for_prompt}
use visp.Context.KeepHeadTail.{
  TailScan, call_ids, scan_step, scan_tail, tool_result_ids, repair_calls, repair,
}

-- A Tool message with the result of the call `id`, and an Assistant message with that call.
abbrev pub Answers : Text → Message → Type 0
Answers id m = (m.role ≡ tool) × (m.tool_call_id ≡ some id)

abbrev pub Calls : Text → Message → Type 0
Calls id m =
    (m.role ≡ assistant)
    × (cs : List ToolCallRequest) × (m.tool_calls ≡ some cs)
    × Any (λ (c : ToolCallRequest). c.id ≡ id) cs

-- The messages behind the kept indices.
abbrev pub messages : List (ℕ × Message) → List Message
messages = map (λ (p : ℕ × Message). p.1)

abbrev pub HasResults : List Message → Message → Type 0
HasResults ms m =
    m.role ≡ assistant
    → (cs : List ToolCallRequest) → m.tool_calls ≡ some cs
    → (cs ≢ []) × All (λ (c : ToolCallRequest). Any (Answers c.id) ms) cs

abbrev pub HasCall : List Message → Message → Type 0
HasCall ms m = m.role ≡ tool → (id : Text) × (m.tool_call_id ≡ some id) × Any (Calls id) ms

pub record IsPaired (ms : List Message) : Type 0 where
  pub answered : All (HasResults ms) ms
  pub called : All (HasCall ms) ms

pub result_ids→Answers :
    (ms : List Message) (id : Text) → Any (λ t. t ≡ id) (tool_result_ids ms) → Any (Answers id) ms
unfolding tool_result_ids
result_ids→Answers [] id h = absurd h
result_ids→Answers (m ∷ ms) id h = ground (arith, result_ids→Answers ms id)

pub Answers→result_ids :
    (ms : List Message) (id : Text) → Any (Answers id) ms → Any (λ t. t ≡ id) (tool_result_ids ms)
unfolding tool_result_ids
Answers→result_ids [] id h = absurd h
Answers→result_ids (m ∷ ms) id (inl (r, e)) = rw (r, e) (inl refl)
Answers→result_ids (m ∷ ms) id (inr h) = ground (arith, Answers→result_ids ms id h)

call_ids→Calls : (m : Message) (id : Text) → Any (λ t. t ≡ id) (call_ids m) → Calls id m
call_ids→Calls m id h = elim (Option-cases m.tool_calls) [
  | inl e ↦ absurd (ground arith)
  | inr (cs, e) ↦ elim (Bool-cases (role_eq m.role assistant)) [
    | inl r ↦ (ground arith, cs, e, Any-unmap _ _ cs (rw (r, e) at h))
    | inr r ↦ absurd (rw r at h)
  ]
]

-- Every confirmed id is the id of a call in the scanned tail.
abbrev pub IsConfirmed : TailScan → Type 0
IsConfirmed s =
    (id : Text) → Any (λ t. t ≡ id) s.confirmed_tool_ids → Any (Calls id) (messages s.tail_indices)

scan_step-IsConfirmed :
    (max_chars : ℕ) (p : ℕ × Message) (s : TailScan)
    → IsConfirmed s
    → IsConfirmed (scan_step max_chars p s)
unfolding scan_step
scan_step-IsConfirmed max_chars (i, m) s ok id =
    elim (Bool-cases (leb (estimate_message_tokens_for_prompt max_chars m) s.remaining)) [
      | inl fits ↦ rw fits λ h. elim (Any-append_cases _ s.confirmed_tool_ids (call_ids m) h) [
        | inl old ↦ inr (ok id old)
        | inr new ↦ inl (call_ids→Calls m id new)
      ]
      | inr over ↦ rw over (ok id)
    ]

pub scan_tail-IsConfirmed :
    (max_chars remaining : ℕ) (ps : List (ℕ × Message))
    → IsConfirmed (scan_tail max_chars remaining ps)
unfolding scan_tail
scan_tail-IsConfirmed max_chars remaining [] = λ id h. absurd h
scan_tail-IsConfirmed max_chars remaining (p ∷ ps) =
    scan_step-IsConfirmed max_chars p _ (scan_tail-IsConfirmed max_chars remaining ps)

-- `repair` leaves the role, the answered id and every message that makes no calls alone.
pub repair-role : (ids : List Text) (m : Message) → (repair ids m).role ≡ m.role
unfolding repair
repair-role ids m = ground arith

pub repair-tool_call_id :
    (ids : List Text) (m : Message) → (repair ids m).tool_call_id ≡ m.tool_call_id
unfolding repair
repair-tool_call_id ids m = ground arith

repair_calls-Calls :
    (ids : List Text) (id : Text) (m : Message) (cs : List ToolCallRequest)
    → contains ids id ≡ true
    → m.role ≡ assistant
    → m.tool_calls ≡ some cs
    → Any (λ (c : ToolCallRequest). c.id ≡ id) cs
    → Calls id (repair_calls ids m cs)
unfolding repair_calls
repair_calls-Calls ids id m cs known r e h =
    elim (List-cases (filter (λ c. contains ids c.id) cs)) [
      | inl none_left ↦ absurd (rw none_left at valid)
      | inr (c, rest, eq) ↦ elim (Bool-cases (ltb (length (c ∷ rest)) (length cs))) [
        | inl fewer ↦ rw (eq, repair_calls, fewer) (r, c ∷ rest, refl, rw eq at valid)
        | inr same ↦ rw (eq, repair_calls, same) (r, cs, e, h)
      ]
    ]
  where
    valid : Any (λ (c : ToolCallRequest). c.id ≡ id) (filter (λ c. contains ids c.id) cs)
    valid = Any-filter (λ c. contains ids c.id) cs (λ c same. rw same known) h

pub repair-Calls :
    (ids : List Text) (id : Text) (m : Message)
    → contains ids id ≡ true
    → Calls id m
    → Calls id (repair ids m)
unfolding repair
repair-Calls ids id m known (r, cs, e, h) =
    rw (r, e, repair) (repair_calls-Calls ids id m cs known r e h)

abbrev pub Known : List Text → List ToolCallRequest → Type 0
Known ids cs = (cs ≢ []) × All (λ (c : ToolCallRequest). contains ids c.id ≡ true) cs

repair_calls-Known :
    (ids : List Text) (m : Message) (calls cs : List ToolCallRequest)
    → m.tool_calls ≡ some calls
    → (repair_calls ids m calls).tool_calls ≡ some cs
    → Known ids cs
unfolding repair_calls
repair_calls-Known ids m calls cs e h = elim (List-cases (filter (λ c. contains ids c.id) calls)) [
  | inl none_left ↦ absurd (let h' = rw (none_left, repair_calls) at h in cc)
  | inr (c, rest, eq) ↦ elim (Bool-cases (ltb (length (c ∷ rest)) (length calls))) [
    | inl fewer ↦
        let h' : some (c ∷ rest) ≡ some cs = rw (eq, repair_calls, fewer) at h in
        subst (Known ids) (some_inj h') (λ nil. cc, rw eq at (All-mono valid (λ x k. k.1) passed))
    | inr same ↦
        let h' : m.tool_calls ≡ some cs = rw (eq, repair_calls, same) at h in
        subst (Known ids) (some_inj (sym e ∙ h')) (
          λ nil. let e' = rw nil at eq in cc,
          All-of-length-filter (λ c. contains ids c.id) calls (rw eq (ground arith)),
        )
  ]
]
  where
    valid : List ToolCallRequest
    valid = filter (λ c. contains ids c.id) calls

    passed : All (λ (c : ToolCallRequest). Unit {0} × (contains ids c.id ≡ true)) valid
    passed = All-filter (λ c. Unit) (λ c. contains ids c.id) calls (All-trivial calls)

pub repair-Known :
    (ids : List Text) (m : Message) (cs : List ToolCallRequest)
    → (repair ids m).role ≡ assistant
    → (repair ids m).tool_calls ≡ some cs
    → Known ids cs
unfolding repair
repair-Known ids m cs r e = elim (Option-cases m.tool_calls) [
  | inl none_made ↦ absurd (let e' = rw (role, none_made, repair) at e in cc)
  | inr (calls, made) ↦ repair_calls-Known ids m calls cs made (rw (role, made, repair) at e)
]
  where
    role : m.role ≡ assistant
    role = sym (repair-role ids m) ∙ r
