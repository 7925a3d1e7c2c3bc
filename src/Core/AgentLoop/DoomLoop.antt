-- ===== src/Core/AgentLoop/DoomLoop.antt =====
-- The detection of repeated tool calls in `execute_tool_calls` of crates/visp-core/src/agent_loop.rs.
pub mod Repeats
use visp.Base.{
  ℕ, suc, Bool, true, false, ◌&&◌, Option, none, some, List, [], ◌∷◌, ◌++◌, Text, text_eq,
  if◌then◌else◌, ◌==◌, ltb, all, drop, length,
}
use visp.Core.Message.{ToolCallRequest}

-- The names and parsed arguments of a round's calls.
abbrev pub Signature : Type 0
Signature = List (Text × Text)

unfoldable pub signature_eq : Signature → Signature → Bool
signature_eq [] [] = true
signature_eq ((n, a) ∷ s) ((m, b) ∷ t) = (text_eq n m && text_eq a b) && signature_eq s t
signature_eq _ _ = false

abbrev with_args : Text → Option Text → Signature → Signature
with_args name none rest = rest
with_args name (some args) rest = (name, args) ∷ rest

-- Calls whose arguments do not parse take no part.
unfoldable pub round_sig : (parse_json : Text → Option Text) → List ToolCallRequest → Signature
round_sig parse_json [] = []
round_sig parse_json (c ∷ calls) =
    with_args c.name (parse_json c.arguments) (round_sig parse_json calls)

pub record DoomLoop : Type 0 where
  pub window : List Signature
  pub warned : Bool

pub data Verdict : Type 0 where
  goes_on warns stuck : Verdict

abbrev pub all_same : List Signature → Bool
all_same [] = true
all_same (first ∷ sigs) = all (λ sig. signature_eq sig first) (first ∷ sigs)

abbrev pub judge : ℕ → DoomLoop → Verdict × DoomLoop
judge threshold d =
    if length d.window == threshold && all_same d.window
    then if d.warned then (stuck, d) else (warns, record { window = []; warned = true })
    else (goes_on, d)

abbrev pub push_sig : ℕ → List Signature → Signature → List Signature
push_sig threshold window sig =
    let longer = window ++ sig ∷ [] in
    if ltb threshold (length longer) then drop 1 longer else longer

-- A threshold of 0 turns the detection off, and a round without a valid call is passed over.
unfoldable pub watch_round : ℕ → DoomLoop → Signature → Verdict × DoomLoop
unfolding signature_eq
watch_round threshold d [] = (goes_on, d)
watch_round threshold d (s ∷ sig) =
    if threshold == 0
    then (goes_on, d)
    else judge threshold (record d { window = push_sig threshold d.window (s ∷ sig) })
