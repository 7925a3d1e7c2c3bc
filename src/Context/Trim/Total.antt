-- ===== src/Context/Trim/Total.antt =====
-- When `trim` returns.
use visp.Base.{
  ℕ, ◌+◌, ◌-◌, ◌<◌, ◌≡◌, refl, inl, inr, Option, none, some, List, [], ◌∷◌, map, arith, take, drop,
  leb, ltb, ◌==◌, Bool-cases, All, add32, sub32,
}
use visp.Core.Message.{Message}
use visp.Context.Estimate.{calculate_available, estimate_messages_tokens_for_prompt}
use visp.Context.Turns.Positions.{find_head_end_lem, find_tail_start_lem, find_tail_start_zero}
use visp.Context.Turns.Dropping.{drop_old_turns_lem}
use visp.Context.Trim.Outputs.{OutputWithin, cut_outputs-OutputWithin}
use visp.Context.Trim.{
  DefaultContextTrimmer, cut_output, trim_middle, trim_sections, trim_select, trim,
}

-- The result is a value, no panic.
abbrev pub Returns {ℓ} : {A : Type ℓ} → Option A → Type ℓ
Returns {A = A} o = (a : A) × (o ≡ some a)

trim_middle-Returns :
    (t : DefaultContextTrimmer) (history : List Message) (budget head_end tail_start : ℕ)
    → Returns (trim_middle t history budget head_end tail_start)
unfolding trim_middle
trim_middle-Returns t history budget head_end tail_start =
    let max_chars = t.tool_output_max_chars in
    let head_tokens = estimate_messages_tokens_for_prompt max_chars (take head_end history) in
    let tail_tokens = estimate_messages_tokens_for_prompt max_chars (drop tail_start history) in
    let middle = drop head_end (take tail_start history) in
    let left = sub32 (sub32 budget head_tokens) tail_tokens in
    let d = drop_old_turns_lem middle left max_chars in
    elim (Bool-cases (ltb budget (add32 head_tokens tail_tokens))) [
      | inl over ↦ rw over (_, refl)
      | inr fits ↦ rw (fits, d.1) (_, refl)
    ]

trim_sections-Returns :
    (t : DefaultContextTrimmer) (history : List Message) (budget : ℕ)
    → 0 < t.tail_turns
    → Returns (trim_sections t history budget)
unfolding trim_sections
trim_sections-Returns t history budget h =
    let (e, he, _, _, _) = find_head_end_lem history t.head_turns in
    let (s, hs, _, _, _) = find_tail_start_lem history t.tail_turns h in
    rw (he, hs)
      (elim (Bool-cases (leb s e)) [
        | inl meet ↦ rw meet (_, refl)
        | inr apart ↦ rw apart (trim_middle-Returns t history budget e s)
      ])

trim_select-Returns :
    (t : DefaultContextTrimmer) (history : List Message) (budget : ℕ)
    → 0 < t.tail_turns
    → Returns (trim_select t history budget)
unfolding trim_select
trim_select-Returns t history budget h = elim (Bool-cases (budget == 0)) [
  | inl empty ↦ rw empty (_, refl)
  | inr some_left ↦
      rw some_left
        (elim (Bool-cases
          (leb (estimate_messages_tokens_for_prompt t.tool_output_max_chars history) budget)) [
            | inl fits ↦ rw fits (_, refl)
            | inr over ↦ rw over (trim_sections-Returns t history budget h)
          ])
]

-- With a positive number of protected tail turns `trim` returns for every history and all token
-- counts, without a panic, and no tool output among the returned messages has more characters than
-- the limit and the 15 characters of the mark behind a cut output.
pub trim_returns :
    (t : DefaultContextTrimmer) (history : List Message)
    (max_context_tokens system_overhead output_tokens : ℕ)
    → 0 < t.tail_turns
    → (result : List Message) × (trim t history max_context_tokens system_overhead output_tokens
        ≡ some result)
      × All (OutputWithin (t.tool_output_max_chars + 15)) result
unfolding trim
trim_returns t [] max_context_tokens system_overhead output_tokens h = ([], refl, tt)
trim_returns t (m ∷ ms) max_context_tokens system_overhead output_tokens h =
    let budget = calculate_available max_context_tokens output_tokens - system_overhead in
    let (selected, eq) = trim_select-Returns t (m ∷ ms) budget h in
    (
      map (cut_output t.tool_output_max_chars) selected,
      rw eq refl,
      cut_outputs-OutputWithin t.tool_output_max_chars selected,
    )

trim_sections-panics :
    (t : DefaultContextTrimmer) (history : List Message) (budget : ℕ)
    → t.tail_turns ≡ 0
    → trim_sections t history budget ≡ none
unfolding trim_sections
trim_sections-panics t history budget z =
    let (e, he, _, _, _) = find_head_end_lem history t.head_turns in
    rw (he, z, find_tail_start_zero history)

-- With no protected tail turns `trim` panics on every history that does not fit a positive budget:
-- the code takes the index behind the last User position.
pub trim_panics :
    (t : DefaultContextTrimmer) (m : Message) (ms : List Message)
    (max_context_tokens system_overhead output_tokens : ℕ)
    → t.tail_turns ≡ 0
    → system_overhead < calculate_available max_context_tokens output_tokens
    → calculate_available max_context_tokens output_tokens - system_overhead
      < estimate_messages_tokens_for_prompt t.tool_output_max_chars (m ∷ ms)
    → trim t (m ∷ ms) max_context_tokens system_overhead output_tokens ≡ none
unfolding trim trim_select
trim_panics t m ms max_context_tokens system_overhead output_tokens z h k = ground (
  arith,
  trim_sections-panics t (m ∷ ms)
      (calculate_available max_context_tokens output_tokens - system_overhead),
)
