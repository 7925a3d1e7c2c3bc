-- ===== src/Context/Turns.antt =====
-- The turns of a conversation: a turn runs from a User message up to the next one.
pub mod Positions
pub mod Dropping
use visp.Base.{
  ℕ, zero, suc, ◌+◌, ◌-◌, Bool, Option, none, some, List, [], ◌∷◌, map, length, take, drop,
  get_elem?, position, leb, ltb, if◌then◌else◌, sum32, true, false,
}
use visp.Core.Message.{Role, Message, role_eq}
use visp.Context.Estimate.{estimate_message_tokens_for_prompt, estimate_messages_tokens_for_prompt}

abbrev pub is_user : Message → Bool
is_user m = role_eq m.role Role.user

-- The indices of the User messages, counted from a first index on.
unfoldable pub user_positions : ℕ → List Message → List ℕ
user_positions i [] = []
user_positions i (m ∷ ms) =
    if is_user m then i ∷ user_positions (suc i) ms else user_positions (suc i) ms

-- An index out of range panics, which is `none`.
unfoldable pub find_head_end : List Message → ℕ → Option ℕ
find_head_end history n =
    let positions = user_positions 0 history in
    if leb (length positions) n then some (length history) else get_elem? positions n

unfoldable pub find_tail_start : List Message → ℕ → Option ℕ
find_tail_start history n =
    let positions = user_positions 0 history in
    let len = length positions in if ltb len n then some 0 else get_elem? positions (len - n)

-- Where the second User message of the list stands: the end of its first whole turn.
unfoldable pub turn_boundary : List Message → Option ℕ
turn_boundary messages = elim (position is_user messages) [
  | none ↦ none
  | some first_idx ↦ elim (position is_user (drop (first_idx + 1) messages)) [
    | none ↦ none
    | some second ↦ some (second + first_idx + 1)
  ]
]

-- The loop, over `messages[start..]`; `none` means that the fuel ran out.
unfoldable pub drop_loop : ℕ → ℕ → ℕ → List Message → ℕ → Option (List Message)
drop_loop max_chars budget zero rest tokens = none
drop_loop max_chars budget (suc fuel) rest tokens = elim (turn_boundary rest) [
  | none ↦ some rest
  | some boundary ↦
      let removed_tokens = estimate_messages_tokens_for_prompt max_chars (take boundary rest) in
      elim (leb (tokens - removed_tokens) budget) [
        | true ↦ some (drop boundary rest)
        | false ↦ drop_loop max_chars budget fuel (drop boundary rest) (tokens - removed_tokens)
      ]
]

unfoldable pub drop_old_turns : List Message → ℕ → ℕ → Option (List Message)
unfolding drop_loop
drop_old_turns [] budget max_chars = some []
drop_old_turns (m ∷ ms) budget max_chars =
    let tokens = estimate_messages_tokens_for_prompt max_chars (m ∷ ms) in
    if leb tokens budget
    then some (m ∷ ms)
    else drop_loop max_chars budget (suc (length ms)) (m ∷ ms) tokens
