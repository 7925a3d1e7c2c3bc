-- ===== src/Context/Trim.antt =====
-- `DefaultContextTrimmer::trim`; `none` is a panic.
pub mod Outputs
pub mod Total
pub mod Sections
use visp.Base.{
  ℕ, ◌+◌, ◌-◌, Bool, true, false, not, Option, none, some, List, [], ◌∷◌, ◌++◌, map, Text, length,
  take, drop, text_eq, leb, ltb, ◌==◌, if◌then◌else◌, add32, sub32,
}
use visp.Core.Message.{Role, tool, Message, role_eq, estimate_message_tokens}
use visp.Context.Estimate.{
  calculate_available, estimate_messages_tokens_for_prompt, truncate_tool_output,
}
use visp.Context.Turns.{find_head_end, find_tail_start, drop_old_turns}
use visp.Context.KeepHeadTail.{keep_head_and_tail}

pub record DefaultContextTrimmer : Type 0 where
  pub head_turns : ℕ
  pub tail_turns : ℕ
  pub tool_output_max_chars : ℕ

-- `Default::default`
abbrev pub default_trimmer : DefaultContextTrimmer
default_trimmer = record { head_turns = 5; tail_turns = 10; tool_output_max_chars = 8000 }

infixl 5 ◌>>=◌
abbrev pub ◌>>=◌ {ℓ κ} : {A : Type ℓ} {B : Type κ} → Option A → (A → Option B) → Option B
none >>= f = none
some a >>= f = f a

-- The cut of one message behind the selection.
unfoldable pub cut_output : ℕ → Message → Message
cut_output max_chars m =
    if role_eq m.role tool
    then (let truncated = truncate_tool_output m.content max_chars in
        if text_eq truncated m.content
        then m
        else let m' = record m { content = truncated } in
          record m' { estimated_tokens = estimate_message_tokens m' })
    else m

-- HEAD, the latest turns of MIDDLE that fit, and TAIL.
unfoldable pub trim_middle :
    DefaultContextTrimmer → List Message → ℕ → ℕ → ℕ → Option (List Message)
trim_middle t history budget head_end tail_start =
    let max_chars = t.tool_output_max_chars in
    let head = take head_end history in
    let middle = drop head_end (take tail_start history) in
    let tail = drop tail_start history in
    let head_tokens = estimate_messages_tokens_for_prompt max_chars head in
    let tail_tokens = estimate_messages_tokens_for_prompt max_chars tail in
    if ltb budget (add32 head_tokens tail_tokens)
    then some (keep_head_and_tail history budget max_chars)
    else do
      trimmed_middle ←
          drop_old_turns middle (sub32 (sub32 budget head_tokens) tail_tokens) max_chars
      some (head ++ (trimmed_middle ++ tail))

unfoldable pub trim_sections : DefaultContextTrimmer → List Message → ℕ → Option (List Message)
unfolding trim_middle
trim_sections t history budget = do
  head_end ← find_head_end history t.head_turns
  tail_start ← find_tail_start history t.tail_turns
  if leb tail_start head_end
      then some (keep_head_and_tail history budget t.tool_output_max_chars)
      else trim_middle t history budget head_end tail_start

-- The messages that stay, before their outputs are cut.
unfoldable pub trim_select : DefaultContextTrimmer → List Message → ℕ → Option (List Message)
unfolding trim_sections
trim_select t history budget =
    if budget == 0
    then some (keep_head_and_tail history 0 t.tool_output_max_chars)
    else if leb (estimate_messages_tokens_for_prompt t.tool_output_max_chars history) budget
    then some history
    else trim_sections t history budget

unfoldable pub trim :
    DefaultContextTrimmer
    → List Message
    → (max_context_tokens system_overhead output_tokens : ℕ) → Option (List Message)
unfolding trim_select cut_output
trim t [] max_context_tokens system_overhead output_tokens = some []
trim t (m ∷ ms) max_context_tokens system_overhead output_tokens = do
  let budget = calculate_available max_context_tokens output_tokens - system_overhead
  result ← trim_select t (m ∷ ms) budget
  some (map (cut_output t.tool_output_max_chars) result)
