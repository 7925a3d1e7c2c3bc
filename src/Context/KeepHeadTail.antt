-- ===== src/Context/KeepHeadTail.antt =====
-- `keep_head_and_tail`: the first User message and the latest messages that fit, without the calls
-- that lost their results and the results that lost their calls. Every index is kept together with
-- the message it points to, since the history does not change.
pub mod Calls
pub mod Pairing
pub mod Budget
use mathlib.Core.List.{filter_map}
use visp.Base.{
  ℕ, suc, ◌+◌, ◌-◌, Bool, true, false, Option, none, some, List, [], ◌∷◌, ◌++◌, map, Text, codes,
  length, filter, any, enumerate, contains, ltb, leb, if◌then◌else◌,
}
use visp.Core.Message.{Role, assistant, tool, ToolCallRequest, Message, role_eq, of_system}
use visp.Context.Estimate.{estimate_message_tokens_for_prompt}
use visp.Context.Turns.{is_user}

-- The first User message, its index and what stands behind it.
unfoldable pub split_first_user : ℕ → List Message → Option (ℕ × Message × List Message)
split_first_user i [] = none
split_first_user i (m ∷ ms) = if is_user m then some (i, m, ms) else split_first_user (suc i) ms

pub record TailScan : Type 0 where
  pub remaining : ℕ
  pub tail_indices : List (ℕ × Message)
  pub confirmed_tool_ids : List Text

abbrev pub call_ids : Message → List Text
call_ids m =
    if role_eq m.role assistant
    then elim m.tool_calls [ none ↦ [] | some calls ↦ map (λ (c : ToolCallRequest). c.id) calls ]
    else []

-- One round of the loop that runs from the last message to the one behind the first User message.
-- A push at the front stands for `push` and the `reverse` behind the loop.
unfoldable pub scan_step : ℕ → ℕ × Message → TailScan → TailScan
scan_step max_chars (i, m) s =
    let tokens = estimate_message_tokens_for_prompt max_chars m in
    if leb tokens s.remaining
    then record {
      remaining = s.remaining - tokens;
      tail_indices = (i, m) ∷ s.tail_indices;
      confirmed_tool_ids = s.confirmed_tool_ids ++ call_ids m;
    }
    else s

unfoldable pub scan_tail : ℕ → ℕ → List (ℕ × Message) → TailScan
unfolding scan_step
scan_tail max_chars remaining [] = record {
  remaining = remaining;
  tail_indices = [];
  confirmed_tool_ids = [];
}
scan_tail max_chars remaining (p ∷ ps) = scan_step max_chars p (scan_tail max_chars remaining ps)

-- The ids that the Tool messages of a list answer.
unfoldable pub tool_result_ids : List Message → List Text
tool_result_ids [] = []
tool_result_ids (m ∷ ms) =
    if role_eq m.role tool
    then elim m.tool_call_id [ none ↦ tool_result_ids ms | some id ↦ id ∷ tool_result_ids ms ]
    else tool_result_ids ms

-- The filter that drops orphan results and calls.
unfoldable pub is_paired : List Text → List Text → Message → Bool
is_paired confirmed present m =
    if role_eq m.role tool
    then elim m.tool_call_id [ none ↦ false | some id ↦ contains confirmed id ]
    else if role_eq m.role assistant
    then elim m.tool_calls [ none ↦ true | some calls ↦ any (λ c. contains present c.id) calls ]
    else true

abbrev pub omitted_notice : Message
omitted_notice = of_system (codes "[... earlier messages omitted due to context limit ...]")

-- The notice stands behind the first User message where something between is left out.
unfoldable pub assemble : ℕ → Message → List (ℕ × Message) → List Message
assemble first_idx first [] = first ∷ []
assemble first_idx first ((i, m) ∷ rest) =
    first ∷ (if ltb (first_idx + 1) i then omitted_notice ∷ [] else [])
    ++ map (λ (p : ℕ × Message). p.1) ((i, m) ∷ rest)

-- The calls without a result go; no calls at all become `None`.
unfoldable pub repair_calls : List Text → Message → List ToolCallRequest → Message
repair_calls ids m calls = elim (filter (λ c. contains ids c.id) calls) [
  | [] ↦ record m { tool_calls = none }
  | c ∷ valid ↦
      if ltb (length (c ∷ valid)) (length calls)
      then record m { tool_calls = some (c ∷ valid) }
      else m
]

unfoldable pub repair : List Text → Message → Message
unfolding repair_calls
repair ids m =
    if role_eq m.role assistant
    then elim m.tool_calls [ none ↦ m | some calls ↦ repair_calls ids m calls ]
    else m

-- The part behind the test that the first User message fits.
unfoldable pub keep_tail : ℕ → ℕ × Message × List Message → ℕ → List Message
unfolding scan_tail tool_result_ids is_paired assemble repair
keep_tail max_chars (first_idx, first, behind) remaining =
    let s = scan_tail max_chars remaining (enumerate (suc first_idx) behind) in
    let present = tool_result_ids (map (λ (p : ℕ × Message). p.1) s.tail_indices) in
    let filtered =
      filter (λ (p : ℕ × Message). is_paired s.confirmed_tool_ids present p.1) s.tail_indices in
    let result = assemble first_idx first filtered in map (repair (tool_result_ids result)) result

unfoldable pub keep_head_and_tail : List Message → ℕ → ℕ → List Message
unfolding split_first_user keep_tail
keep_head_and_tail history budget max_chars = elim (split_first_user 0 history) [
  | none ↦ []
  | some (first_idx, first, behind) ↦
      let first_user_tokens = estimate_message_tokens_for_prompt max_chars first in
      if ltb budget first_user_tokens
      then first ∷ []
      else keep_tail max_chars (first_idx, first, behind) (budget - first_user_tokens)
]
