-- ===== src/Hooks/Executor/Receivers.antt =====
-- The rules that an executor gives its first event to.
use visp.Base.{
  ℕ, suc, ◌≡◌, refl, ◌∙◌, inl, inr, Bool, true, false, ◌||◌, ◌&&◌, ◌⊎◌, ◌<◌, ltb, All, ap, sym,
  subst, Option, none, List, [], ◌∷◌, map, Text, if◌then◌else◌, filter, arith, Bool-cases,
}
use visp.Hooks.Rules.{
  DispatchRule, DispatchInput, QueuePolicy, matched, compiled, sort_rules, select_matches,
}
use visp.Hooks.Rules.Sorted.{select_matches_lem}
use visp.Hooks.Queue.{enqueue}
use visp.Hooks.Worker.{RuleState, initial, popping, offer, ensure_worker}
use visp.Hooks.Executor.{
  RuleRuntime, new_runtime, with_capacity, cooldown_allows, enqueue_and_start, fire, dispatch_rule,
  dispatch,
}

abbrev is_nonempty : {A : Type 0} → List A → Bool
is_nonempty [] = false
is_nonempty (x ∷ xs) = true

-- The rule has an event: in its queue with a worker to take it, or in a task of its own.
abbrev pub got_event : RuleRuntime → Bool
got_event r = (is_nonempty r.state.queue && r.state.worker_active) || is_nonempty r.spawned

-- Where the event is, for a parallel rule and for one that is not, if it was the first one.
abbrev pub IsGiven : DispatchInput → Bool → RuleRuntime → Type 0
IsGiven input true r = (r.spawned ≡ input ∷ []) × (r.state ≡ initial)
IsGiven input false r =
    (r.spawned ≡ [])
    × (r.state.queue ≡ input ∷ [])
    × (r.state.worker_active ≡ true)
    × (r.state.workers ≡ popping ∷ [])

-- A rule behind the first dispatch: it has the event, or no event and no worker.
abbrev pub IsServedOrIdle : DispatchInput → RuleRuntime → Type 0
IsServedOrIdle input r =
    ((got_event r ≡ true) × IsGiven input r.spec.parallel r)
    ⊎ ((got_event r ≡ false) × (r.spawned ≡ []) × (r.state ≡ initial))

abbrev first_state : DispatchInput → RuleState
first_state input = record {
  queue = input ∷ [];
  worker_active = true;
  starters = 0;
  workers = popping ∷ [];
  arrived = input ∷ [];
  started = [];
}

-- The first event of a rule fits its queue, whatever is done when that is full.
enqueue_and_start-first :
    (on_full : QueuePolicy) (capacity : ℕ) (input : DispatchInput)
    → 0 < capacity
    → enqueue_and_start on_full capacity initial input ≡ first_state input
unfolding enqueue_and_start offer enqueue ensure_worker
enqueue_and_start-first on_full capacity input h =
    let room : ltb 0 capacity ≡ true = ground arith in
    rw (enqueue_and_start, offer, enqueue, room) refl

fire-first :
    (capacity : ℕ) (r : RuleRuntime) (input : DispatchInput)
    → 0 < capacity
    → r.state ≡ initial
    → r.spawned ≡ []
    → (got_event (fire capacity r input) ≡ true)
      × IsGiven input r.spec.parallel (fire capacity r input)
unfolding fire
fire-first capacity r input h e f = elim (Bool-cases r.spec.parallel) [
  | inl free ↦ rw (free, fire, f) (rw e (refl, (refl, refl)))
  | inr serial ↦
      rw (serial, fire, e, f, enqueue_and_start-first r.spec.on_full capacity input h)
        (refl, (refl, refl, refl, refl))
]

first_allowed : (cooldown_ms now : ℕ) → (cooldown_allows cooldown_ms none now).0 ≡ true
unfolding cooldown_allows
first_allowed cooldown_ms now = ground arith

fire-kept :
    (capacity : ℕ) (r : RuleRuntime) (input : DispatchInput) → (fire capacity r input).spec ≡ r.spec
unfolding fire
fire-kept capacity r input = elim (Bool-cases r.spec.parallel) [
  | inl free ↦ rw (free, fire) refl
  | inr serial ↦ rw (serial, fire) refl
]

dispatch_rule-spec :
    (capacity now : ℕ) (input : DispatchInput) (r : RuleRuntime)
    → (dispatch_rule capacity now input r).spec ≡ r.spec
unfolding dispatch_rule fire
dispatch_rule-spec capacity now input r = elim (Bool-cases (matched r.spec r.matcher input)) [
  | inr miss ↦ rw miss refl
  | inl hit ↦ elim (Bool-cases (cooldown_allows r.spec.cooldown_ms r.last_fired now).0) [
    | inr soon ↦ rw (hit, soon) refl
    | inl late ↦
        rw (hit, late)
          (fire-kept capacity
            (record r { last_fired = (cooldown_allows r.spec.cooldown_ms r.last_fired now).1 })
            input)
  ]
]

dispatch_rule-first :
    (regex : Text → Option (Text → Bool)) (capacity now : ℕ) (input : DispatchInput)
    (spec : DispatchRule)
    → 0 < capacity
    → (got_event (dispatch_rule capacity now input (new_runtime regex spec))
        ≡ matched spec (compiled regex spec) input)
      × IsServedOrIdle input (dispatch_rule capacity now input (new_runtime regex spec))
unfolding dispatch_rule new_runtime
dispatch_rule-first regex capacity now input spec h =
    elim (Bool-cases (matched spec (compiled regex spec) input)) [
      | inr miss ↦ rw miss (refl, inr (refl, refl, refl))
      | inl hit ↦
          let r : RuleRuntime = record (new_runtime regex spec) {
            last_fired = (cooldown_allows spec.cooldown_ms none now).1;
          } in
          let (got, given) = fire-first capacity r input h refl refl in
          let same = sym (ap (λ (x : DispatchRule). x.parallel) (fire-kept capacity r input)) in
          rw (hit, first_allowed spec.cooldown_ms now)
            (got, inl (got, subst (λ b. IsGiven input b (fire capacity r input)) same given))
    ]

cons_eq : {x y : DispatchRule} {xs ys : List DispatchRule} → x ≡ y → xs ≡ ys → x ∷ xs ≡ y ∷ ys
cons_eq e f = cc

receivers-cons :
    (r : RuleRuntime) (rs : List RuleRuntime) (x : DispatchRule) (ys : List DispatchRule)
    (keep : Bool)
    → got_event r ≡ keep
    → r.spec ≡ x
    → map (λ (q : RuleRuntime). q.spec) (filter got_event rs) ≡ ys
    → map (λ (q : RuleRuntime). q.spec) (filter got_event (r ∷ rs)) ≡ (if keep then x ∷ ys else ys)
receivers-cons r rs x ys true e same rest = rw e (cons_eq same rest)
receivers-cons r rs x ys false e same rest = rw e rest

dispatch_fresh :
    (regex : Text → Option (Text → Bool)) (capacity : ℕ) (clock : ℕ → ℕ) (input : DispatchInput)
    (n : ℕ) (rules : List DispatchRule)
    → 0 < capacity
    → (map
          (λ (r : RuleRuntime). r.spec)
          (filter got_event (dispatch capacity clock input n (map (new_runtime regex) rules)))
        ≡ filter (λ rule. matched rule (compiled regex rule) input) rules)
      × All (IsServedOrIdle input) (dispatch capacity clock input n (map (new_runtime regex) rules))
unfolding dispatch new_runtime
dispatch_fresh regex capacity clock input n [] h = (refl, tt)
dispatch_fresh regex capacity clock input n (x ∷ xs) h =
    let (got, served) = dispatch_rule-first regex capacity (clock n) input x h in
    let (rest, all_served) = dispatch_fresh regex capacity clock input (suc n) xs h in
    (
      receivers-cons (dispatch_rule capacity (clock n) input (new_runtime regex x))
          (dispatch capacity clock input (suc n) (map (new_runtime regex) xs)) x _
          (matched x (compiled regex x) input) got
          (dispatch_rule-spec capacity (clock n) input (new_runtime regex x)) rest,
      (served, all_served),
    )

-- With queues of a positive capacity, the first event that an executor dispatches reaches exactly the
-- rules of `select_matches`, in their order, each once in the list, whatever the clock, the policies and
-- the cooldowns: for a parallel rule it is given to a task of its own, for another it is alone in the queue
-- and one worker is started to take it. No other rule has an event or a
-- worker.
pub dispatch_lem :
    (regex : Text → Option (Text → Bool)) (capacity : ℕ) (clock : ℕ → ℕ) (input : DispatchInput)
    (rules : List DispatchRule)
    → 0 < capacity
    → (map
          (λ (r : RuleRuntime). r.spec)
          (filter got_event (dispatch capacity clock input 0 (with_capacity regex rules)))
        ≡ select_matches regex rules input)
      × All (IsServedOrIdle input) (dispatch capacity clock input 0 (with_capacity regex rules))
unfolding with_capacity
dispatch_lem regex capacity clock input rules h =
    let (chosen, served) = dispatch_fresh regex capacity clock input 0 (sort_rules rules) h in
    (chosen ∙ (select_matches_lem regex rules input).0, served)
