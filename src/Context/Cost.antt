-- ===== src/Context/Cost.antt =====
-- What a list of messages costs in a prompt, as a plain sum, against the `u32` sum of the code.
use visp.Base.{
  ℕ, zero, suc, ◌+◌, ◌<◌, ◌≡◌, List, [], ◌∷◌, ◌++◌, map, arith, take, drop, sum, sum32-eq-sum,
  u32_mod,
}
use visp.Core.Message.{Message}
use visp.Context.Estimate.{estimate_message_tokens_for_prompt, estimate_messages_tokens_for_prompt}

abbrev pub cost : ℕ → List Message → ℕ
cost max_chars ms = sum (map (estimate_message_tokens_for_prompt max_chars) ms)

pub estimate-cost :
    (max_chars : ℕ) (ms : List Message)
    → cost max_chars ms < u32_mod
    → estimate_messages_tokens_for_prompt max_chars ms ≡ cost max_chars ms
unfolding estimate_messages_tokens_for_prompt
estimate-cost max_chars ms small = sum32-eq-sum _ small

pub cost-take-drop :
    (max_chars n : ℕ) (ms : List Message)
    → cost max_chars (take n ms) + cost max_chars (drop n ms) ≡ cost max_chars ms
cost-take-drop max_chars zero ms = omega arith
cost-take-drop max_chars (suc n) [] = omega arith
cost-take-drop max_chars (suc n) (m ∷ ms) = omega (arith, cost-take-drop max_chars n ms)

pub cost-append :
    (max_chars : ℕ) (ms ns : List Message)
    → cost max_chars (ms ++ ns) ≡ cost max_chars ms + cost max_chars ns
cost-append max_chars [] ns = omega arith
cost-append max_chars (m ∷ ms) ns = omega (arith, cost-append max_chars ms ns)
