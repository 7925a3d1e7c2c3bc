-- ===== src/Hooks/Executor.antt =====
-- `Executor` and `RuleRuntime` of crates/visp-hooks/src/dispatcher.rs: the cooldown of a rule and the
-- dispatch of an event to all rules. The clock is an argument: `clock n` is what the n-th rule reads.
pub mod Cooldown
pub mod Receivers
use visp.Base.{
  ℕ, zero, suc, ◌+◌, ◌-◌, ◌≤◌, ◌<◌, ◌≡◌, refl, ◌∙◌, inl, inr, Bool, true, false, ◌||◌, Option, none,
  some, List, [], ◌∷◌, ◌++◌, map, Text, if◌then◌else◌, filter, ltb, ◌==◌, arith, tests, Bool-cases,
}
use visp.Hooks.Rules.{
  DispatchRule, DispatchInput, QueuePolicy, MatcherState, matched, compiled, sort_rules,
  select_matches,
}
use visp.Hooks.Rules.Sorted.{select_matches_lem}
use visp.Hooks.Queue.{enqueue, enqueue-cases}
use visp.Hooks.Worker.{RuleState, initial, offer, ensure_worker}

-- The events of a `parallel` rule go to tasks of their own, `spawned`.
pub record RuleRuntime : Type 0 where
  pub spec : DispatchRule
  pub matcher : MatcherState
  pub last_fired : Option ℕ
  pub state : RuleState
  pub spawned : List DispatchInput

unfoldable pub new_runtime : (regex : Text → Option (Text → Bool)) → DispatchRule → RuleRuntime
unfolding compiled
new_runtime regex spec = record {
  spec = spec;
  matcher = compiled regex spec;
  last_fired = none;
  state = initial;
  spawned = [];
}

-- The rules of `Executor::with_capacity`.
unfoldable pub with_capacity :
    (regex : Text → Option (Text → Bool)) → List DispatchRule → List RuleRuntime
unfolding new_runtime sort_rules
with_capacity regex rules = map (new_runtime regex) (sort_rules rules)

-- Whether the rule may fire, and the time it fired last; `duration_since` stops at 0.
unfoldable pub cooldown_allows : (cooldown_ms : ℕ) → Option ℕ → (now : ℕ) → Bool × Option ℕ
cooldown_allows cooldown_ms last_fired now =
    if cooldown_ms == 0 then (true, last_fired) else elim last_fired [
      | none ↦ (true, some now)
      | some prev ↦ if ltb (now - prev) cooldown_ms then (false, some prev) else (true, some now)
    ]

-- `ensure_worker` follows an event that was taken.
unfoldable pub enqueue_and_start :
    QueuePolicy → (capacity : ℕ) → RuleState → DispatchInput → RuleState
unfolding offer enqueue ensure_worker
enqueue_and_start on_full capacity s input =
    let s' = offer on_full capacity s input in
    if (enqueue on_full capacity s.queue input).0 then ensure_worker s' s.starters else s'

-- The part of `dispatch` behind the two gates.
unfoldable pub fire : (capacity : ℕ) → RuleRuntime → DispatchInput → RuleRuntime
unfolding enqueue_and_start
fire capacity r input =
    if r.spec.parallel
    then record r { spawned = r.spawned ++ input ∷ [] }
    else record r { state = enqueue_and_start r.spec.on_full capacity r.state input }

unfoldable pub dispatch_rule : (capacity now : ℕ) → DispatchInput → RuleRuntime → RuleRuntime
unfolding matched cooldown_allows fire
dispatch_rule capacity now input r =
    let (allowed, last) = cooldown_allows r.spec.cooldown_ms r.last_fired now in
    if matched r.spec r.matcher input
    then (if allowed
        then fire capacity (record r { last_fired = last }) input
        else record r { last_fired = last })
    else r

unfoldable pub dispatch :
    (capacity : ℕ) (clock : ℕ → ℕ) → DispatchInput → (n : ℕ) → List RuleRuntime → List RuleRuntime
unfolding dispatch_rule
dispatch capacity clock input n [] = []
dispatch capacity clock input n (r ∷ rs) =
    dispatch_rule capacity (clock n) input r ∷ dispatch capacity clock input (suc n) rs

-- The times, of those at which a matching event comes, at which the rule fires.
unfoldable pub fired_at : (cooldown_ms : ℕ) → Option ℕ → List ℕ → List ℕ
unfolding cooldown_allows
fired_at cooldown_ms last [] = []
fired_at cooldown_ms last (now ∷ later) =
    let (allowed, last') = cooldown_allows cooldown_ms last now in
    let rest = fired_at cooldown_ms last' later in if allowed then now ∷ rest else rest
