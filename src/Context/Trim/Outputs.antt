-- ===== src/Context/Trim/Outputs.antt =====
-- The cut of the tool outputs behind the selection.
use visp.Base.{
  ℕ, ◌+◌, ◌≤◌, ◌≡◌, inl, inr, List, map, arith, tests, Text, length, take, length-append,
  length-take, leb, Bool-cases, text_eq→eq, All, All-map, All-trivial,
}
use visp.Core.Message.{tool, Message}
use visp.Context.Estimate.{truncated_mark, truncate_tool_output}
use visp.Context.Trim.{cut_output}

length-truncate_tool_output :
    (content : Text) (max_chars : ℕ)
    → length (truncate_tool_output content max_chars) ≤ max_chars + 15
unfolding truncate_tool_output
length-truncate_tool_output content max_chars = elim (Bool-cases (leb (length content) max_chars)) [
  | inl short ↦ rw short (omega tests)
  | inr long ↦ rw long (
      omega (
        arith,
        length-append (take max_chars content) truncated_mark,
        length-take max_chars content,
      ))
]

-- An output of at most `n` characters, if the message is a tool result.
abbrev pub OutputWithin : ℕ → Message → Type 0
OutputWithin n m = m.role ≡ tool → length m.content ≤ n

cut_output-OutputWithin :
    (max_chars : ℕ) (m : Message) → OutputWithin (max_chars + 15) (cut_output max_chars m)
unfolding cut_output
cut_output-OutputWithin max_chars m r = ground (
  arith,
  length-truncate_tool_output m.content max_chars,
  text_eq→eq (truncate_tool_output m.content max_chars) m.content,
)

pub cut_outputs-OutputWithin :
    (max_chars : ℕ) (ms : List Message)
    → All (OutputWithin (max_chars + 15)) (map (cut_output max_chars) ms)
cut_outputs-OutputWithin max_chars ms =
    All-map (λ _. Unit) (OutputWithin (max_chars + 15)) (cut_output max_chars) ms
      (λ m _. cut_output-OutputWithin max_chars m) (All-trivial ms)
