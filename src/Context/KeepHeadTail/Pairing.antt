-- ===== src/Context/KeepHeadTail/Pairing.antt =====
-- No call without its result, and no result without its call, in what `keep_head_and_tail` keeps.
use visp.Base.{
  ℕ, suc, ◌≡◌, sym, ◌∙◌, inl, inr, Bool, true, false, some, List, [], ◌∷◌, map, arith, Text, filter,
  enumerate, contains, contains→Any, Any→contains, ltb, if◌then◌else◌, Bool-cases, Option-cases,
  All, Any, All-mono, All-filter, Any-filter, Any→any, Any-mono, subst, All-trivial, All-zip,
  Any-map, All-map, Any-append_right, All-append, Member, All-self, Member→Any, map-filter,
}
use visp.Core.Message.{tool, Message}
use visp.Context.Estimate.{estimate_message_tokens_for_prompt}
use visp.Context.Turns.{is_user}
use visp.Context.KeepHeadTail.{
  scan_tail, tool_result_ids, is_paired, omitted_notice, assemble, repair, keep_tail,
  keep_head_and_tail, split_first_user,
}
use visp.Context.KeepHeadTail.Calls.{
  Answers, Calls, HasResults, HasCall, IsPaired, messages, result_ids→Answers, Answers→result_ids,
  scan_tail-IsConfirmed, repair-role, repair-tool_call_id, repair-Calls, repair-Known,
}

paired_caller :
    (confirmed present : List Text) (id : Text) (m : Message)
    → contains present id ≡ true
    → Calls id m
    → is_paired confirmed present m ≡ true
unfolding is_paired
paired_caller confirmed present id m known (r, cs, e, h) =
    rw (r, e, is_paired) (Any→any _ cs (Any-mono cs (λ c same. rw same known) h))

paired_result :
    (confirmed present : List Text) (m : Message)
    → is_paired confirmed present m ≡ true
    → m.role ≡ tool
    → (id : Text) × (m.tool_call_id ≡ some id) × (contains confirmed id ≡ true)
unfolding is_paired
paired_result confirmed present m h r = elim (Option-cases m.tool_call_id) [
  | inl e ↦ absurd (let h' = rw (r, e, is_paired) at h in cc)
  | inr (id, e) ↦ (id, e, rw (r, e, is_paired) at h)
]

-- The filter keeps, with each result, a call of it.
module _ (kept : List Message) (confirmed : List Text)
    (conf : (id : Text) → Any (λ t. t ≡ id) confirmed → Any (Calls id) kept) where
  paired : List Message
  paired = filter (is_paired confirmed (tool_result_ids kept)) kept

  paired-HasCall : All (HasCall paired) paired
  unfolding paired
  paired-HasCall =
      All-mono paired
        (λ m h r.
          let (id, e, c) = paired_result confirmed (tool_result_ids kept) m h.1 r in
          let answered = Member→Any (Answers id) m kept (r, e) h.0 in
          let present = Any→contains _ id (Answers→result_ids kept id answered) in
          (
            id,
            e,
            Any-filter _ kept (λ x call. paired_caller confirmed _ id x present call)
                (conf id (contains→Any confirmed id c)),
          ))
        (All-filter (λ m. Member m kept) _ kept (All-self kept))

module _ (P : Message → Type 0) (first_idx : ℕ) (first : Message) where
  notice-All : (b : Bool) → P omitted_notice → All P (if b then omitted_notice ∷ [] else [])
  notice-All true n = (n, tt)
  notice-All false n = tt

  pub assemble-All :
      (ps : List (ℕ × Message))
      → P first
      → P omitted_notice
      → All P (messages ps)
      → All P (assemble first_idx first ps)
  unfolding assemble
  assemble-All [] f n h = (f, tt)
  assemble-All ((i, m) ∷ ps) f n h = (f, All-append P _ (messages ((i, m) ∷ ps)) (notice-All _ n) h)

  assemble-Any :
      (ps : List (ℕ × Message)) → Any P (messages ps) → Any P (assemble first_idx first ps)
  unfolding assemble
  assemble-Any [] h = absurd h
  assemble-Any ((i, m) ∷ ps) h = inr (Any-append_right P _ (messages ((i, m) ∷ ps)) h)

-- The repair leaves every call with a result, and every result with a call.
module _ (ms : List Message) where
  fixed : Message → Message
  fixed = repair (tool_result_ids ms)

  fixed-Answers : (id : Text) (m : Message) → Answers id m → Answers id (fixed m)
  unfolding fixed
  fixed-Answers id m (r, e) = (repair-role _ m ∙ r, repair-tool_call_id _ m ∙ e)

  fixed-HasResults : (m : Message) → HasResults (map fixed ms) (fixed m)
  unfolding fixed
  fixed-HasResults m r cs e =
      let (nonempty, known) = repair-Known (tool_result_ids ms) m cs r e in
      (
        nonempty,
        All-mono cs
            (λ c k.
              Any-map (Answers c.id) (Answers c.id) fixed ms (fixed-Answers c.id)
                (result_ids→Answers ms c.id (contains→Any _ c.id k)))
            known,
      )

  fixed-HasCall : (m : Message) → HasCall ms m × Member m ms → HasCall (map fixed ms) (fixed m)
  unfolding fixed
  fixed-HasCall m (h, memb) r =
      let role = sym (repair-role (tool_result_ids ms) m) ∙ r in
      let (id, e, call) = h role in
      let answered = Answers→result_ids ms id (Member→Any (Answers id) m ms (role, e) memb) in
      (
        id,
        repair-tool_call_id (tool_result_ids ms) m ∙ e,
        Any-map (Calls id) (Calls id) fixed ms
            (λ x. repair-Calls (tool_result_ids ms) id x (Any→contains _ id answered)) call,
      )

  repair-IsPaired : All (HasCall ms) ms → IsPaired (map (repair (tool_result_ids ms)) ms)
  unfolding fixed
  repair-IsPaired h = record {
    answered =
        All-map (λ _. Unit) (HasResults (map fixed ms)) fixed ms (λ m _. fixed-HasResults m)
          (All-trivial ms);
    called =
        All-map _ (HasCall (map fixed ms)) fixed ms fixed-HasCall (All-zip _ _ ms h (All-self ms));
  }

-- The first User message and the notice are neither results nor do they make calls.
assemble-HasCall :
    (first_idx : ℕ) (first : Message) (ps : List (ℕ × Message))
    → is_user first ≡ true
    → All (HasCall (messages ps)) (messages ps)
    → All (HasCall (assemble first_idx first ps)) (assemble first_idx first ps)
assemble-HasCall first_idx first ps u h =
    assemble-All (HasCall (assemble first_idx first ps)) first_idx first ps
      (λ r. absurd (ground arith)) (λ r. absurd (ground arith))
      (All-mono (messages ps)
        (λ m c r.
          let (id, e, call) = c r in (id, e, assemble-Any (Calls id) first_idx first ps call))
        h)

keep_tail-IsPaired :
    (max_chars remaining first_idx : ℕ) (first : Message) (behind : List Message)
    → is_user first ≡ true
    → IsPaired (keep_tail max_chars (first_idx, first, behind) remaining)
unfolding keep_tail paired
keep_tail-IsPaired max_chars remaining first_idx first behind u =
    let s = scan_tail max_chars remaining (enumerate (suc first_idx) behind) in
    let kept = messages s.tail_indices in
    let here =
      map-filter (λ (p : ℕ × Message). p.1) (is_paired s.confirmed_tool_ids (tool_result_ids kept))
        s.tail_indices in
    repair-IsPaired _ (
      assemble-HasCall first_idx first _ u (
        subst (λ ms. All (HasCall ms) ms) (sym here)
          (paired-HasCall kept s.confirmed_tool_ids
            (scan_tail-IsConfirmed max_chars remaining (enumerate (suc first_idx) behind)))))

pub split_first_user-IsUser :
    (i : ℕ) (ms : List Message) (p : ℕ × Message × List Message)
    → split_first_user i ms ≡ some p
    → is_user p.1 ≡ true
unfolding split_first_user
split_first_user-IsUser i [] p h = cc
split_first_user-IsUser i (m ∷ ms) p h = ground (arith, split_first_user-IsUser (suc i) ms p)

alone-IsPaired : (m : Message) → is_user m ≡ true → IsPaired (m ∷ [])
alone-IsPaired m u = record {
  answered = ((λ r. absurd (ground arith)), tt);
  called = ((λ r. absurd (ground arith)), tt);
}

-- For every history, budget and limit: in the messages that `keep_head_and_tail` returns, each
-- Assistant message with a list of tool calls has at least one call, and for each of its calls there
-- is a Tool message with that id; and each Tool message has a call id, which is the id of a call of
-- an Assistant message among them.
pub keep_head_and_tail-IsPaired :
    (history : List Message) (budget max_chars : ℕ)
    → IsPaired (keep_head_and_tail history budget max_chars)
unfolding keep_head_and_tail
keep_head_and_tail-IsPaired history budget max_chars =
    elim (Option-cases (split_first_user 0 history)) [
      | inl e ↦ rw (e, keep_head_and_tail) (record { answered = tt; called = tt })
      | inr ((i, first, behind), e) ↦
          let u = split_first_user-IsUser 0 history (i, first, behind) e in
          elim (Bool-cases (ltb budget (estimate_message_tokens_for_prompt max_chars first))) [
            | inl over ↦ rw (e, keep_head_and_tail, over) (alone-IsPaired first u)
            | inr fits ↦
                rw (e, keep_head_and_tail, fits) (keep_tail-IsPaired max_chars _ i first behind u)
          ]
    ]
