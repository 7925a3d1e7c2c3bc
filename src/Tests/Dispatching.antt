-- ===== src/Tests/Dispatching.antt =====
-- The dispatcher of crates/visp-hooks/src/dispatcher.rs with two rules, and one of its queues while a
-- worker runs.
use visp.Base.{
  ◌<◌, ◌≡◌, refl, ◌⊎◌, Bool, true, false, Option, none, some, List, [], ◌∷◌, ◌++◌, map, Text, codes,
  filter, arith, All, text_eq,
}
use visp.Hooks.Rules.{
  DispatchRule, DispatchInput, stop, negsuc, drop_old, matched, matches, compiled, sort_rules,
  select_matches,
}
use visp.Hooks.Rules.Sorted.{IsSorted, select_matches_lem}
use visp.Hooks.Executor.{RuleRuntime, with_capacity, dispatch, fired_at}
use visp.Hooks.Executor.Cooldown.{IsSpaced, fired_at-IsSpaced}
use visp.Hooks.Executor.Receivers.{got_event, IsServedOrIdle, dispatch_lem}
use visp.Hooks.Queue.{enqueue}
use visp.Hooks.Worker.{
  popping, handling, checking, RuleState, Reach, start, arrives, moves, Move, ensures, works, offer,
  ensure_worker, advance, is_idle,
}
use visp.Hooks.Worker.Serial.{IsServed, Reach-IsServed}
use visp.Hooks.Worker.Drain.{work_left, Reach-goes_on, Reach-work_left, Moves, stays, goes, drained}

abbrev stop_input : DispatchInput
stop_input = record { event = stop; tool_name = none; source = none; kind = none; payload = none }

abbrev rule_named : Text → DispatchRule
rule_named id = record {
  id = id;
  order = none;
  event = stop ∷ [];
  matcher = none;
  enabled = true;
  on_full = drop_old;
  parallel = false;
  cooldown_ms = 5;
}

abbrev two_rules : List DispatchRule
two_rules =
    rule_named (codes "notify") ∷ record (rule_named (codes "log")) { order = some (negsuc 0) } ∷ []

abbrev exact_regex : Text → Option (Text → Bool)
exact_regex pattern = some (text_eq pattern)

select_matches_lem_example :
    (filter (λ rule. matched rule (compiled exact_regex rule) stop_input) (sort_rules two_rules)
      ≡ select_matches exact_regex two_rules stop_input)
    × IsSorted (select_matches exact_regex two_rules stop_input)
    × All
        (λ rule. matches exact_regex rule stop_input ≡ true)
        (select_matches exact_regex two_rules stop_input)
select_matches_lem_example = select_matches_lem exact_regex two_rules stop_input

dispatch_lem_example :
    (map
        (λ (r : RuleRuntime). r.spec)
        (filter got_event (dispatch 2 (λ n. n) stop_input 0 (with_capacity exact_regex two_rules)))
      ≡ select_matches exact_regex two_rules stop_input)
    × All
        (IsServedOrIdle stop_input)
        (dispatch 2 (λ n. n) stop_input 0 (with_capacity exact_regex two_rules))
dispatch_lem_example = dispatch_lem exact_regex 2 (λ n. n) stop_input two_rules (omega arith)

fired_at-IsSpaced_example : IsSpaced 5 (some 1) (fired_at 5 (some 1) (3 ∷ 6 ∷ 8 ∷ 20 ∷ []))
fired_at-IsSpaced_example = fired_at-IsSpaced 5 (some 1) (3 ∷ 6 ∷ 8 ∷ 20 ∷ []) (omega arith)

-- One event came and its dispatch started a worker, which took it; a second event waits.
abbrev one_offered : RuleState
one_offered = record {
  queue = stop_input ∷ [];
  worker_active = false;
  starters = 1;
  workers = [];
  arrived = stop_input ∷ [];
  started = [];
}

abbrev one_worker : RuleState
one_worker = record one_offered { worker_active = true; starters = 0; workers = popping ∷ [] }

abbrev one_handled : RuleState
one_handled = record one_worker {
  queue = [];
  workers = handling stop_input ∷ [];
  started = stop_input ∷ [];
}

one_handled-Reach : Reach drop_old 1 one_handled
unfolding offer enqueue ensure_worker advance
one_handled-Reach =
    moves (moves (arrives stop_input start) (ensures 0 refl)) (works [] popping [] refl)

Reach-IsServed_example : IsServed 1 one_handled
Reach-IsServed_example = Reach-IsServed drop_old 1 one_handled one_handled-Reach

Reach-goes_on_example : (is_idle one_handled ≡ true) ⊎ ((t : RuleState) × Move one_handled t)
Reach-goes_on_example = Reach-goes_on drop_old 1 one_handled one_handled-Reach

abbrev one_popping : RuleState
one_popping = record one_handled { workers = popping ∷ [] }

handled-Move : Move one_handled one_popping
unfolding advance
handled-Move = works [] (handling stop_input) [] refl

Reach-work_left_example : work_left one_popping < work_left one_handled
Reach-work_left_example =
    Reach-work_left drop_old 1 one_handled one_popping one_handled-Reach handled-Move

abbrev all_handled : RuleState
all_handled = record one_handled { worker_active = false; workers = [] }

-- The handler returns, and the worker finds the queue empty twice and ends.
handled-Moves : Moves one_handled all_handled
unfolding advance
handled-Moves =
    goes (goes (goes stays (works [] (handling stop_input) [] refl)) (works [] popping [] refl))
      (works [] checking [] refl)

all_handled-idle : is_idle all_handled ≡ true
unfolding is_idle
all_handled-idle = refl

drained_example : all_handled.started ≡ one_handled.started ++ one_handled.queue
drained_example = drained one_handled all_handled handled-Moves all_handled-idle
