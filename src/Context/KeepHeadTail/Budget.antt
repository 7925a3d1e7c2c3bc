-- ===== src/Context/KeepHeadTail/Budget.antt =====
-- What the messages that `keep_head_and_tail` returns cost.
use visp.Base.{
  ℕ, suc, ◌+◌, ◌≤◌, max, ◌≡◌, refl, ap, inl, inr, Bool, true, none, some, List, [], ◌∷◌, map, arith,
  Text, filter, find, enumerate, ltb, Bool-cases, Option-cases,
}
use mathlib.Core.List.{head?}
use native.Mathlib.Nat.{le_trans}
use visp.Context.KeepHeadTail.Pairing.{split_first_user-IsUser}
use visp.Core.Message.{Message}
use visp.Context.Estimate.{estimate_message_tokens_for_prompt}
use visp.Context.Cost.{cost}
use visp.Context.Turns.{is_user}
use visp.Context.KeepHeadTail.{
  TailScan, scan_step, scan_tail, tool_result_ids, is_paired, omitted_notice, assemble, repair,
  keep_tail, keep_head_and_tail, split_first_user,
}
use visp.Context.KeepHeadTail.Calls.{messages}

abbrev pub first_user_cost : ℕ → List Message → ℕ
first_user_cost max_chars history = elim (find is_user history) [
  | none ↦ 0
  | some m ↦ estimate_message_tokens_for_prompt max_chars m
]

scan_step_budget :
    (max_chars : ℕ) (p : ℕ × Message) (s : TailScan)
    → cost max_chars (messages (scan_step max_chars p s).tail_indices)
        + (scan_step max_chars p s).remaining
      ≡ cost max_chars (messages s.tail_indices) + s.remaining
unfolding scan_step
scan_step_budget max_chars (i, m) s = ground arith

-- The scan spends exactly what it takes from the budget.
scan_tail_budget :
    (max_chars remaining : ℕ) (ps : List (ℕ × Message))
    → cost max_chars (messages (scan_tail max_chars remaining ps).tail_indices)
        + (scan_tail max_chars remaining ps).remaining
      ≡ remaining
unfolding scan_tail
scan_tail_budget max_chars remaining [] = omega arith
scan_tail_budget max_chars remaining (p ∷ ps) = omega (
  arith,
  scan_step_budget max_chars p (scan_tail max_chars remaining ps),
  scan_tail_budget max_chars remaining ps,
)

estimate-repair :
    (max_chars : ℕ) (ids : List Text) (m : Message)
    → estimate_message_tokens_for_prompt max_chars (repair ids m)
      ≡ estimate_message_tokens_for_prompt max_chars m
unfolding repair estimate_message_tokens_for_prompt
estimate-repair max_chars ids m = ground arith

cost-assemble-le :
    (max_chars first_idx : ℕ) (first : Message) (ps : List (ℕ × Message))
    → cost max_chars (assemble first_idx first ps)
      ≤ estimate_message_tokens_for_prompt max_chars first
        + (estimate_message_tokens_for_prompt max_chars omitted_notice
            + cost max_chars (messages ps))
unfolding assemble
cost-assemble-le max_chars first_idx first [] = omega arith
cost-assemble-le max_chars first_idx first ((i, m) ∷ ps) = ground arith

cost-repair :
    (max_chars : ℕ) (ids : List Text) (ms : List Message)
    → cost max_chars (map (repair ids) ms) ≡ cost max_chars ms
cost-repair max_chars ids [] = refl
cost-repair max_chars ids (m ∷ ms) =
    omega (arith, estimate-repair max_chars ids m, cost-repair max_chars ids ms)

cost-filter-le :
    (max_chars : ℕ) (q : ℕ × Message → Bool) (ps : List (ℕ × Message))
    → cost max_chars (messages (filter q ps)) ≤ cost max_chars (messages ps)
cost-filter-le max_chars q [] = omega arith
cost-filter-le max_chars q (p ∷ ps) = ground (arith, cost-filter-le max_chars q ps)

repair-user : (ids : List Text) (m : Message) → is_user m ≡ true → repair ids m ≡ m
unfolding repair
repair-user ids m u = ground arith

head-assemble :
    (first_idx : ℕ) (first : Message) (ids : List Text) (ps : List (ℕ × Message))
    → is_user first ≡ true
    → head? (map (repair ids) (assemble first_idx first ps)) ≡ some first
unfolding assemble
head-assemble first_idx first ids [] u = ap some (repair-user ids first u)
head-assemble first_idx first ids (p ∷ ps) u = ap some (repair-user ids first u)

module _ (max_chars first_idx : ℕ) (first : Message) where
  cost-filtered-le :
      (q : ℕ × Message → Bool) (ids : List Text) (ps : List (ℕ × Message))
      → cost max_chars (map (repair ids) (assemble first_idx first (filter q ps)))
        ≤ estimate_message_tokens_for_prompt max_chars first
          + (estimate_message_tokens_for_prompt max_chars omitted_notice
              + cost max_chars (messages ps))
  cost-filtered-le q ids ps = omega (
    arith,
    cost-repair max_chars ids (assemble first_idx first (filter q ps)),
    cost-assemble-le max_chars first_idx first (filter q ps),
    cost-filter-le max_chars q ps,
  )

  cost-keep_tail-le :
      (remaining : ℕ) (behind : List Message)
      → cost max_chars (keep_tail max_chars (first_idx, first, behind) remaining)
        ≤ estimate_message_tokens_for_prompt max_chars first
          + (estimate_message_tokens_for_prompt max_chars omitted_notice + remaining)
  unfolding keep_tail
  cost-keep_tail-le remaining behind =
      let s = scan_tail max_chars remaining (enumerate (suc first_idx) behind) in
      let present = tool_result_ids (messages s.tail_indices) in
      let q = λ (p : ℕ × Message). is_paired s.confirmed_tool_ids present p.1 in
      let result = assemble first_idx first (filter q s.tail_indices) in
      le_trans (cost-filtered-le q (tool_result_ids result) s.tail_indices)
        (omega (arith, scan_tail_budget max_chars remaining (enumerate (suc first_idx) behind)))

  first-keep_tail :
      (remaining : ℕ) (behind : List Message)
      → is_user first ≡ true
      → head? (keep_tail max_chars (first_idx, first, behind) remaining) ≡ some first
  unfolding keep_tail
  first-keep_tail remaining behind u = head-assemble first_idx first _ _ u

find-split_first_user :
    (i : ℕ) (ms : List Message) (p : ℕ × Message × List Message)
    → split_first_user i ms ≡ some p
    → find is_user ms ≡ some p.1
unfolding split_first_user
find-split_first_user i [] p h = cc
find-split_first_user i (m ∷ ms) p h = ground (arith, find-split_first_user (suc i) ms p)

find-split_first_user-none :
    (i : ℕ) (ms : List Message) → split_first_user i ms ≡ none → find is_user ms ≡ none
unfolding split_first_user
find-split_first_user-none i [] h = refl
find-split_first_user-none i (m ∷ ms) h = ground (arith, find-split_first_user-none (suc i) ms)

-- For every history, budget and limit: what `keep_head_and_tail` returns begins with the first User
-- message of the history, and is empty where there is none. In a prompt it costs at most the larger
-- of the budget and that message's own cost, plus the cost of the notice about omitted messages,
-- which the code does not count.
pub keep_head_and_tail_budget :
    (history : List Message) (budget max_chars : ℕ)
    → (head? (keep_head_and_tail history budget max_chars) ≡ find is_user history)
      × (cost max_chars (keep_head_and_tail history budget max_chars)
          ≤ max budget (first_user_cost max_chars history)
            + estimate_message_tokens_for_prompt max_chars omitted_notice)
unfolding keep_head_and_tail
keep_head_and_tail_budget history budget max_chars =
    elim (Option-cases (split_first_user 0 history)) [
      | inl e ↦
          rw (e, keep_head_and_tail, find-split_first_user-none 0 history e) (refl, omega arith)
      | inr ((i, first, behind), e) ↦
          let u = split_first_user-IsUser 0 history (i, first, behind) e in
          let f = find-split_first_user 0 history (i, first, behind) e in
          let c : first_user_cost max_chars history
              ≡ estimate_message_tokens_for_prompt max_chars first =
            rw (f, first_user_cost) refl in
          elim (Bool-cases (ltb budget (estimate_message_tokens_for_prompt max_chars first))) [
            | inl over ↦ rw (e, keep_head_and_tail, over, f) (refl, omega arith)
            | inr fits ↦
                rw (e, keep_head_and_tail, fits, f)
                  (
                    first-keep_tail max_chars i first _ behind u,
                    le_trans (cost-keep_tail-le max_chars i first _ behind) (ground arith),
                  )
          ]
    ]
