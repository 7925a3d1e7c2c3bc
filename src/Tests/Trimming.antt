-- ===== src/Tests/Trimming.antt =====
-- The trimmer of crates/visp-context/src/lib.rs on a conversation with three turns, one of which calls
-- a tool.
use visp.Base.{
  ◌+◌, ◌≤◌, max, ◌≡◌, refl, some, none, List, [], ◌∷◌, find, codes, arith, All, byte_len,
}
use mathlib.Core.List.{head?}
use visp.Core.Message.{
  Message, of_user, of_assistant, of_tool_call, of_tool, call_named, estimate_message_tokens,
  estimate_tokens,
}
use visp.Context.Estimate.{
  estimate_message_tokens_for_prompt, estimate_messages_tokens_for_prompt, calculate_available,
}
use visp.Context.Cost.{cost}
use visp.Context.Turns.{is_user}
use visp.Context.KeepHeadTail.{omitted_notice, keep_head_and_tail}
use visp.Context.KeepHeadTail.Calls.{IsPaired}
use visp.Context.KeepHeadTail.Pairing.{keep_head_and_tail-IsPaired}
use visp.Context.KeepHeadTail.Budget.{keep_head_and_tail_budget, first_user_cost}
use visp.Context.Trim.{DefaultContextTrimmer, trim}
use visp.Context.Trim.Outputs.{OutputWithin}
use visp.Context.Trim.Total.{trim_returns, trim_panics}

abbrev conversation : List Message
conversation =
    of_user (codes "fix it")
    ∷ of_tool_call (call_named (codes "a") ∷ [])
    ∷ of_tool (codes "some output") (codes "a") none
    ∷ of_user (codes "go on")
    ∷ of_assistant (codes "done") none
    ∷ of_user (codes "thanks")
    ∷ []

abbrev small_trimmer : DefaultContextTrimmer
small_trimmer = record { head_turns = 1; tail_turns = 1; tool_output_max_chars = 20 }

conversation_estimate : estimate_messages_tokens_for_prompt 20 conversation ≡ 16
unfolding estimate_messages_tokens_for_prompt estimate_message_tokens_for_prompt
    estimate_message_tokens estimate_tokens byte_len
conversation_estimate = refl

room_left : calculate_available 4030 0 ≡ 30
unfolding calculate_available
room_left = refl

keep_head_and_tail-IsPaired_example : IsPaired (keep_head_and_tail conversation 9 20)
keep_head_and_tail-IsPaired_example = keep_head_and_tail-IsPaired conversation 9 20

keep_head_and_tail_budget_example :
    (head? (keep_head_and_tail conversation 9 20) ≡ find is_user conversation)
    × (cost 20 (keep_head_and_tail conversation 9 20)
        ≤ max 9 (first_user_cost 20 conversation)
          + estimate_message_tokens_for_prompt 20 omitted_notice)
keep_head_and_tail_budget_example = keep_head_and_tail_budget conversation 9 20

trim_returns_example :
    (result : List Message) × (trim small_trimmer conversation 4030 15 0 ≡ some result)
    × All (OutputWithin 35) result
trim_returns_example = trim_returns small_trimmer conversation 4030 15 0 (omega arith)

trim_panics_example : trim (record small_trimmer { tail_turns = 0 }) conversation 4030 15 0 ≡ none
trim_panics_example =
    trim_panics (record small_trimmer { tail_turns = 0 }) (of_user (codes "fix it")) _ 4030 15 0
      refl (omega (arith, room_left)) (omega (arith, room_left, conversation_estimate))
