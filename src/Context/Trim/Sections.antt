-- ===== src/Context/Trim/Sections.antt =====
-- What `trim` selects, before tool outputs are cut.
use visp.Base.{
  ℕ, ◌+◌, ◌-◌, ◌≤◌, ◌<◌, min, ◌≡◌, ◌⊎◌, Option, some, List, ◌++◌, take, drop, true, length,
}
use visp.Core.Message.{Message}
use visp.Context.Cost.{cost}
use visp.Context.Turns.Positions.{turns, head_is}
use visp.Context.Turns.Dropping.{IsTight}
use visp.Context.Turns.{is_user}
use visp.Context.KeepHeadTail.{keep_head_and_tail}
use visp.Context.Trim.{DefaultContextTrimmer}

-- HEAD ends, and TAIL starts, at a turn's first message, if it does not end with the history or start
-- with it: HEAD holds the first `head_turns` turns and TAIL the last `tail_turns`, or all where there are
-- no more.
pub record Bounds (t : DefaultContextTrimmer) (history : List Message) (head_end tail_start : ℕ)
    : Type 0 where
  pub head : turns (take head_end history) ≡ min t.head_turns (turns history)
  pub tail : turns (drop tail_start history) ≡ min t.tail_turns (turns history)
  pub head_ends : (head_end ≡ length history) ⊎ (head_is is_user (drop head_end history) ≡ true)
  pub tail_starts : (tail_start ≡ 0) ⊎ (head_is is_user (drop tail_start history) ≡ true)

-- HEAD and TAIL leave room for messages between them.
abbrev pub Fits : DefaultContextTrimmer → List Message → ℕ → ℕ → ℕ → Type 0
Fits t history budget head_end tail_start =
    (head_end < tail_start)
    × (cost t.tool_output_max_chars (take head_end history)
          + cost t.tool_output_max_chars (drop tail_start history)
        ≤ budget)

-- The three ways to select, each with the condition under which it is taken. `sections` keeps the first
-- and the last turns whole, with the latest turns between: what it drops of them is everything up to a
-- User message, and no turn too many, since with one turn more they would pass what the first and the
-- last leave of the budget; only a single turn between them may pass the budget.
pub data Selected (t : DefaultContextTrimmer) (history : List Message) (budget : ℕ)
    (kept : List Message) : Type 0 where
  whole :
      0 < budget
      → cost t.tool_output_max_chars history ≤ budget
      → kept ≡ history
      → Selected t history budget kept
  nothing_left :
      budget ≡ 0
      → kept ≡ keep_head_and_tail history budget t.tool_output_max_chars
      → Selected t history budget kept
  edges :
      (head_end tail_start : ℕ)
      → Bounds t history head_end tail_start
      → budget < cost t.tool_output_max_chars history
      → ¬ Fits t history budget head_end tail_start
      → kept ≡ keep_head_and_tail history budget t.tool_output_max_chars
      → Selected t history budget kept
  sections :
      (head_end tail_start n : ℕ)
      → Bounds t history head_end tail_start
      → budget < cost t.tool_output_max_chars history
      → Fits t history budget head_end tail_start
      → kept
        ≡ take head_end history
          ++ (drop n (drop head_end (take tail_start history)) ++ drop tail_start history)
      → (cost t.tool_output_max_chars kept ≤ budget)
        ⊎ (turns (drop n (drop head_end (take tail_start history))) ≤ 1)
      → (n ≡ 0) ⊎ (head_is is_user (drop n (drop head_end (take tail_start history))) ≡ true)
      → IsTight t.tool_output_max_chars
          (budget
            - cost t.tool_output_max_chars (take head_end history)
            - cost t.tool_output_max_chars (drop tail_start history))
          (drop head_end (take tail_start history))
          n
      → Selected t history budget kept

-- `Selected`, of the value that a selection returns.
abbrev Selects : DefaultContextTrimmer → List Message → ℕ → Option (List Message) → Type 0
Selects t history budget r =
    (kept : List Message) × (r ≡ some kept) × Selected t history budget kept
