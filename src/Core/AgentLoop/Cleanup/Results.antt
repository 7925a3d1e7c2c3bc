-- ===== src/Core/AgentLoop/Cleanup/Results.antt =====
-- The second pass of `cleanup_orphan_tool_uses` of crates/visp-core/src/agent.rs, and both together.
use visp.Base.{
  ◌≡◌, refl, sym, ◌∙◌, ap, ◌⊎◌, inl, inr, Bool, true, false, Option, none, some, List, [], ◌∷◌, map,
  Text, Bool-cases, length,
}
use visp.Core.Message.{Message, ToolCallRequest}
use visp.Core.AgentLoop.Cleanup.{
  all_have_results, mark_tools, calls_of, check_message, clear_orphan_calls, found_call, id_of_tool,
  check_result, skip_orphan_results, cleanup_orphan_tool_uses,
}
use visp.Core.AgentLoop.Cleanup.Answered.{
  IsAnswered, Alike, unskipped, skip_orphan_results_lem, check_result_lem, found_call-Alike,
  IsAnswered-Alike, clear_orphan_calls-IsAnswered, clear_orphan_calls-answered, mark_tools_lem,
}

abbrev Serves : Option Text → Bool → List Message → Type 0
Serves none skipped before = Unit
Serves (some call_id) skipped before = (skipped ≡ true) ⊎ (found_call call_id before ≡ true)

-- Each result with an id is skipped, or the nearest earlier calls of its turn have the id; `before`
-- are the earlier messages, nearest first.
abbrev pub IsServed : List Message → List Message → Type 0
IsServed before [] = Unit
IsServed before (m ∷ ms) = Serves (id_of_tool m) m.skip_context before × IsServed (m ∷ before) ms

-- What the repair leaves alone.
abbrev pub core_of : Message → Message
core_of m = record m { tool_calls = none; skip_context = false }

check_result-Serves :
    (o : Option Text) (before passed : List Message) (m : Message)
    → Alike passed before
    → Serves o (check_result o before m).skip_context passed
check_result-Serves none before passed m e = tt
check_result-Serves (some id) before passed m e = elim (Bool-cases (found_call id before)) [
  | inl f ↦ inr (found_call-Alike id passed before e ∙ f)
  | inr f ↦ inl (rw f refl)
]

id_of_check_result :
    (o : Option Text) (before : List Message) (m : Message)
    → id_of_tool (check_result o before m) ≡ id_of_tool m
id_of_check_result o before m = ap id_of_tool (check_result_lem o before m)

-- `passed` is what the pass made of the earlier messages.
skip_orphan_results-IsServed :
    (before passed ms : List Message)
    → Alike passed before
    → IsServed passed (skip_orphan_results before ms)
unfolding skip_orphan_results
skip_orphan_results-IsServed before passed [] e = tt
skip_orphan_results-IsServed before passed (m ∷ ms) e = (
  rw (id_of_check_result (id_of_tool m) before m)
      (check_result-Serves (id_of_tool m) before passed m e),
  skip_orphan_results-IsServed (m ∷ before) (check_result (id_of_tool m) before m ∷ passed) ms
      (λ i. check_result_lem (id_of_tool m) before m i ∷ e i),
)

check_result-idle :
    (o : Option Text) (before : List Message) (m : Message)
    → Serves o m.skip_context before
    → check_result o before m ≡ m
check_result-idle none before m h = refl
check_result-idle (some id) before m (inr f) = rw f refl
check_result-idle (some id) before m (inl s) = elim (Bool-cases (found_call id before)) [
  | inl f ↦ rw f refl
  | inr f ↦ rw f (λ i. record m { skip_context = sym s i })
]

-- The second pass finds nothing to skip where every result is served.
skip_orphan_results-idle :
    (before ms : List Message) → IsServed before ms → skip_orphan_results before ms ≡ ms
unfolding skip_orphan_results
skip_orphan_results-idle before [] h = refl
skip_orphan_results-idle before (m ∷ ms) h = λ i.
    check_result-idle (id_of_tool m) before m h.0 i ∷ skip_orphan_results-idle (m ∷ before) ms h.1 i

core_of-Alike : (xs ys : List Message) → Alike xs ys → map core_of xs ≡ map core_of ys
core_of-Alike [] [] e = refl
core_of-Alike [] (y ∷ ys) e = absurd (cc)
core_of-Alike (x ∷ xs) [] e = absurd (cc)
core_of-Alike (x ∷ xs) (y ∷ ys) e =
    let head : unskipped x ≡ unskipped y = cc in
    let rest : Alike xs ys = cc in λ i. core_of (head i) ∷ core_of-Alike xs ys rest i

check_message-core_of :
    (o : Option (List ToolCallRequest)) (m : Message) (ms : List Message)
    → map core_of (check_message o m ms) ≡ core_of m ∷ map core_of ms
check_message-core_of none m ms = refl
check_message-core_of (some calls) m ms = elim (Bool-cases (all_have_results calls ms)) [
  | inl f ↦ rw f refl
  | inr f ↦ rw f (
      ap (◌∷◌ (core_of m))
        (core_of-Alike (mark_tools (length calls) ms) ms (mark_tools_lem (length calls) ms)))
]

clear_orphan_calls-core_of :
    (ms : List Message) → map core_of (clear_orphan_calls ms) ≡ map core_of ms
unfolding clear_orphan_calls
clear_orphan_calls-core_of [] = refl
clear_orphan_calls-core_of (m ∷ ms) =
    check_message-core_of (calls_of m) m (clear_orphan_calls ms)
    ∙ ap (◌∷◌ (core_of m)) (clear_orphan_calls-core_of ms)

-- After the repair of any history, each assistant's message with calls is followed by the results of
-- its calls, one for each in order; each result with an id is skipped, or the nearest calls before it
-- in its turn have the id; only `tool_calls` and `skip_context` of messages have changed; and a second
-- repair changes nothing.
pub cleanup_orphan_tool_uses-IsAnswered :
    (history : List Message)
    → IsAnswered (cleanup_orphan_tool_uses history)
      × IsServed [] (cleanup_orphan_tool_uses history)
      × (map core_of (cleanup_orphan_tool_uses history) ≡ map core_of history)
      × (cleanup_orphan_tool_uses (cleanup_orphan_tool_uses history)
          ≡ cleanup_orphan_tool_uses history)
unfolding cleanup_orphan_tool_uses
cleanup_orphan_tool_uses-IsAnswered history =
    let first = clear_orphan_calls history in
    let alike : Alike (skip_orphan_results [] first) first = skip_orphan_results_lem [] first in
    let answered : IsAnswered (skip_orphan_results [] first) =
      IsAnswered-Alike _ first alike (clear_orphan_calls-IsAnswered history) in
    let served : IsServed [] (skip_orphan_results [] first) =
      skip_orphan_results-IsServed [] [] first refl in
    (
      answered,
      served,
      core_of-Alike _ first alike ∙ clear_orphan_calls-core_of history,
      ap (skip_orphan_results []) (clear_orphan_calls-answered _ answered)
          ∙ skip_orphan_results-idle [] _ served,
    )
