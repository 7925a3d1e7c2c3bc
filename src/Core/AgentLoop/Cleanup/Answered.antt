-- ===== src/Core/AgentLoop/Cleanup/Answered.antt =====
-- What `cleanup_orphan_tool_uses` of crates/visp-core/src/agent.rs achieves on any history.
use visp.Base.{
  ℕ, zero, suc, ◌≡◌, refl, sym, ◌∙◌, ap, inl, inr, true, false, Option, none, some, List, [], ◌∷◌,
  map, Text, Bool-cases, Option-cases, length,
}
use visp.Core.Message.{Message, ToolCallRequest, role_eq, tool, assistant}
use visp.Core.AgentLoop.Cleanup.{
  all_have_results, mark_tool, mark_tools, check_calls, calls_of, clear_orphan_calls, found_call,
  id_of_tool, check_result, skip_orphan_results,
}

abbrev Answers : Option (List ToolCallRequest) → List Message → Type 0
Answers none ms = Unit
Answers (some calls) ms = all_have_results calls ms ≡ true

-- Each assistant's message with calls is followed by the results of its calls, one for each in order.
abbrev pub IsAnswered : List Message → Type 0
IsAnswered [] = Unit
IsAnswered (m ∷ ms) = Answers (calls_of m) ms × IsAnswered ms

-- Messages that differ at most in being skipped.
abbrev pub unskipped : Message → Message
unskipped m = record m { skip_context = false }

abbrev pub Alike : List Message → List Message → Type 0
Alike xs ys = map unskipped xs ≡ map unskipped ys

pub mark_tool_lem : (m : Message) → unskipped (mark_tool m) ≡ unskipped m
mark_tool_lem m = elim (Bool-cases (role_eq m.role tool)) [ inl e ↦ rw e refl | inr e ↦ rw e refl ]

pub mark_tools_lem : (n : ℕ) (ms : List Message) → Alike (mark_tools n ms) ms
mark_tools_lem zero ms = refl
mark_tools_lem (suc n) [] = refl
mark_tools_lem (suc n) (m ∷ ms) = λ i. mark_tool_lem m i ∷ mark_tools_lem n ms i

pub check_result_lem :
    (o : Option Text) (before : List Message) (m : Message)
    → unskipped (check_result o before m) ≡ unskipped m
check_result_lem none before m = refl
check_result_lem (some id) before m = elim (Bool-cases (found_call id before)) [
  | inl f ↦ rw f refl
  | inr f ↦ rw f refl
]

pub skip_orphan_results_lem : (before ms : List Message) → Alike (skip_orphan_results before ms) ms
unfolding skip_orphan_results
skip_orphan_results_lem before [] = refl
skip_orphan_results_lem before (m ∷ ms) =
    λ i. check_result_lem (id_of_tool m) before m i ∷ skip_orphan_results_lem (m ∷ before) ms i

-- The tests do not look at `skip_context`.
all_have_results-unskipped :
    (calls : List ToolCallRequest) (ms : List Message)
    → all_have_results calls (map unskipped ms) ≡ all_have_results calls ms
all_have_results-unskipped [] ms = refl
all_have_results-unskipped (c ∷ calls) [] = refl
all_have_results-unskipped (c ∷ calls) (m ∷ ms) = rw (all_have_results-unskipped calls ms) refl

found_call-unskipped :
    (id : Text) (ms : List Message) → found_call id (map unskipped ms) ≡ found_call id ms
found_call-unskipped id [] = refl
found_call-unskipped id (m ∷ ms) = rw (found_call-unskipped id ms) refl

all_have_results-Alike :
    (calls : List ToolCallRequest) (xs ys : List Message)
    → Alike xs ys
    → all_have_results calls xs ≡ all_have_results calls ys
all_have_results-Alike calls xs ys e =
    sym (all_have_results-unskipped calls xs)
    ∙ ap (all_have_results calls) e
    ∙ all_have_results-unskipped calls ys

pub found_call-Alike :
    (id : Text) (xs ys : List Message) → Alike xs ys → found_call id xs ≡ found_call id ys
found_call-Alike id xs ys e =
    sym (found_call-unskipped id xs) ∙ ap (found_call id) e ∙ found_call-unskipped id ys

Answers-Alike :
    (o : Option (List ToolCallRequest)) (xs ys : List Message)
    → Alike xs ys
    → Answers o ys
    → Answers o xs
Answers-Alike none xs ys e h = tt
Answers-Alike (some calls) xs ys e h = all_have_results-Alike calls xs ys e ∙ h

calls_of-Alike : (x y : Message) → unskipped x ≡ unskipped y → calls_of x ≡ calls_of y
calls_of-Alike x y e = ap calls_of e

pub IsAnswered-Alike : (xs ys : List Message) → Alike xs ys → IsAnswered ys → IsAnswered xs
IsAnswered-Alike [] ys e h = tt
IsAnswered-Alike (x ∷ xs) [] e h = absurd (cc)
IsAnswered-Alike (x ∷ xs) (y ∷ ys) e h =
    let head : unskipped x ≡ unskipped y = cc in
    let rest : Alike xs ys = cc in
    (
      rw (calls_of-Alike x y head) (Answers-Alike (calls_of y) xs ys rest h.0),
      IsAnswered-Alike xs ys rest h.1,
    )

check_calls-IsAnswered :
    (m : Message) (calls : List ToolCallRequest) (rest : List Message)
    → calls_of m ≡ some calls
    → IsAnswered rest
    → IsAnswered (check_calls m calls rest)
check_calls-IsAnswered m calls rest e h = elim (Bool-cases (all_have_results calls rest)) [
  | inl f ↦ rw f (rw e f, h)
  | inr f ↦ rw f (
    (elim (Bool-cases (role_eq m.role assistant)) [ inl r ↦ rw r tt | inr r ↦ rw r tt ]),
    IsAnswered-Alike (mark_tools (length calls) rest) rest (mark_tools_lem (length calls) rest) h,
  )
]

pub clear_orphan_calls-IsAnswered : (ms : List Message) → IsAnswered (clear_orphan_calls ms)
unfolding clear_orphan_calls
clear_orphan_calls-IsAnswered [] = tt
clear_orphan_calls-IsAnswered (m ∷ ms) = elim (Option-cases (calls_of m)) [
  | inl e ↦ rw e (rw e tt, clear_orphan_calls-IsAnswered ms)
  | inr (calls, e) ↦ rw e (check_calls-IsAnswered m calls _ e (clear_orphan_calls-IsAnswered ms))
]

-- The first pass finds nothing to clear where every call is answered.
pub clear_orphan_calls-answered : (ms : List Message) → IsAnswered ms → clear_orphan_calls ms ≡ ms
unfolding clear_orphan_calls
clear_orphan_calls-answered [] h = refl
clear_orphan_calls-answered (m ∷ ms) h = elim (Option-cases (calls_of m)) [
  | inl e ↦ rw (e, clear_orphan_calls-answered ms h.1) refl
  | inr (calls, e) ↦
      let full : all_have_results calls ms ≡ true = rw e at h.0 in
      rw (e, clear_orphan_calls-answered ms h.1, full) refl
]
