-- ===== src/Hooks/Worker/Serial.antt =====
-- At most one worker at any time, no event forgotten in the queue, and the order of arrival.
use visp.Base.{
  ℕ, ◌≤◌, ◌<◌, max, ◌≡◌, refl, sym, subst, ◌⊎◌, inl, inr, Bool, true, false, List, [], ◌∷◌, ◌++◌,
  length, arith, Bool-cases, List-cases, append_assoc,
}
use visp.Hooks.Rules.{DispatchInput, QueuePolicy}
use visp.Hooks.Queue.{enqueue-bounded, enqueue-cases, IsSublist, enqueue-IsSublist}
use visp.Hooks.Worker.{
  Worker, popping, handling, checking, RuleState, offer, ensure_worker, advance, ensures, works,
  Reach, start, arrives, moves,
}

-- The flag says whether a worker is there, and there is at most one.
abbrev pub IsSerial : Bool → List Worker → Type 0
IsSerial true [] = ⊥
IsSerial true (w ∷ []) = Unit
IsSerial true (w ∷ v ∷ ws) = ⊥
IsSerial false [] = Unit
IsSerial false (w ∷ ws) = ⊥

-- The queue is empty, or a worker is there or about to be started.
abbrev pub IsAwake : List DispatchInput → Bool → ℕ → Type 0
IsAwake queue active starters = (queue ≡ []) ⊎ ((active ≡ true) ⊎ (0 < starters))

pub record IsServed (capacity : ℕ) (s : RuleState) : Type 0 where
  pub serial : IsSerial s.worker_active s.workers
  pub awake : IsAwake s.queue s.worker_active s.starters
  pub bounded : length s.queue ≤ max 1 capacity
  pub in_order : IsSublist (s.started ++ s.queue) s.arrived

-- The one worker is the one that moves.
pub alone :
    (active : Bool) (before : List Worker) (w : Worker) (after : List Worker)
    → IsSerial active (before ++ w ∷ after)
    → (active ≡ true) × (before ≡ []) × (after ≡ [])
alone true [] w [] h = (refl, refl, refl)
alone true [] w (v ∷ after) h = absurd h
alone true (b ∷ []) w after h = absurd h
alone true (b ∷ c ∷ before) w after h = absurd h
alone false [] w after h = absurd h
alone false (b ∷ before) w after h = absurd h

offer-IsServed :
    (on_full : QueuePolicy) (capacity : ℕ) (s : RuleState) (event : DispatchInput)
    → IsServed capacity s
    → IsServed capacity (offer on_full capacity s event)
unfolding offer
offer-IsServed on_full capacity s event v = record {
  serial = v.serial;
  awake = elim (enqueue-cases on_full capacity s.queue event) [
    | inl taken ↦ inr (inr (rw taken (omega arith)))
    | inr (refused, same) ↦ rw (refused, same) v.awake
  ];
  bounded = enqueue-bounded on_full capacity s.queue event v.bounded;
  in_order = enqueue-IsSublist on_full capacity s.started s.queue s.arrived event v.in_order;
}

ensure_worker-IsServed :
    (capacity : ℕ) (s : RuleState) (n : ℕ)
    → IsServed capacity s
    → IsServed capacity (ensure_worker s n)
unfolding ensure_worker
ensure_worker-IsServed capacity s n v = elim (Bool-cases s.worker_active) [
  | inl on ↦ rw on (record {
    serial = subst (λ b. IsSerial b s.workers) on v.serial;
    awake = inr (inl refl);
    bounded = v.bounded;
    in_order = v.in_order;
  })
  | inr off ↦ rw off (record {
    serial = no_worker s.workers (subst (λ b. IsSerial b s.workers) off v.serial);
    awake = inr (inl refl);
    bounded = v.bounded;
    in_order = v.in_order;
  })
]
  where
    no_worker : (ws : List Worker) → IsSerial false ws → IsSerial true (popping ∷ ws)
    no_worker [] h = tt
    no_worker (w ∷ ws) h = absurd h

-- Another worker takes the place of the one that moved.
IsSerial-replace :
    (active : Bool) (before : List Worker) (w v : Worker) (after : List Worker)
    → IsSerial active (before ++ w ∷ after)
    → IsSerial active (before ++ v ∷ after)
IsSerial-replace active before w v after h =
    let (on, b, a) = alone active before w after h in rw (on, b, a) tt

advance-IsServed :
    (capacity : ℕ) (s : RuleState) (before : List Worker) (w : Worker) (after : List Worker)
    → s.workers ≡ before ++ w ∷ after
    → IsServed capacity s
    → IsServed capacity (advance s before w after)
unfolding advance
advance-IsServed capacity s before popping after e v =
    let h = subst (IsSerial s.worker_active) e v.serial in
    let (on, _, _) = alone s.worker_active before popping after h in
    elim (List-cases s.queue) [
      | inl empty ↦ rw empty (record {
        serial = IsSerial-replace s.worker_active before popping checking after h;
        awake = inl refl;
        bounded = omega arith;
        in_order = subst (λ q. IsSublist (s.started ++ q) s.arrived) empty v.in_order;
      })
      | inr (event, queue, some_there) ↦ rw some_there (record {
        serial = IsSerial-replace s.worker_active before popping (handling event) after h;
        awake = inr (inl on);
        bounded =
            let b = subst (λ q. length q ≤ max 1 capacity) some_there v.bounded in omega arith;
        in_order =
            let o = subst (λ q. IsSublist (s.started ++ q) s.arrived) some_there v.in_order in
            subst (λ l. IsSublist l s.arrived) (sym (append_assoc s.started (event ∷ []) queue)) o;
      })
    ]
advance-IsServed capacity s before (handling event) after e v =
    let h = subst (IsSerial s.worker_active) e v.serial in
    record {
      serial = IsSerial-replace s.worker_active before (handling event) popping after h;
      awake = v.awake;
      bounded = v.bounded;
      in_order = v.in_order;
    }
advance-IsServed capacity s before checking after e v =
    let h = subst (IsSerial s.worker_active) e v.serial in
    let (on, b, a) = alone s.worker_active before checking after h in
    elim (List-cases s.queue) [
      | inl empty ↦ rw empty (record {
        serial = rw (b, a) tt;
        awake = inl refl;
        bounded = omega arith;
        in_order = subst (λ q. IsSublist (s.started ++ q) s.arrived) empty v.in_order;
      })
      | inr (event, queue, some_there) ↦ rw some_there (record {
        serial = IsSerial-replace s.worker_active before checking popping after h;
        awake = inr (inl on);
        bounded = subst (λ q. length q ≤ max 1 capacity) some_there v.bounded;
        in_order = subst (λ q. IsSublist (s.started ++ q) s.arrived) some_there v.in_order;
      })
    ]

-- In every state that any interleaving of dispatches and worker tasks reaches: a worker task is there
-- exactly if `worker_active` is set, and never two; while the queue holds an event, a worker is there
-- or about to be started; the queue holds at most `capacity` events, or one if the capacity is 0; and
-- the events handed to the handler, followed by the queued ones, are in the order of arrival, each as
-- often as it came at most.
pub Reach-IsServed :
    (on_full : QueuePolicy) (capacity : ℕ) (s : RuleState)
    → Reach on_full capacity s
    → IsServed capacity s
Reach-IsServed on_full capacity s start = record {
  serial = tt;
  awake = inl refl;
  bounded = omega arith;
  in_order = tt;
}
Reach-IsServed on_full capacity t (arrives {s} event r) =
    offer-IsServed on_full capacity s event (Reach-IsServed on_full capacity s r)
Reach-IsServed on_full capacity t (moves {s} r (ensures n e)) =
    ensure_worker-IsServed capacity s n (Reach-IsServed on_full capacity s r)
Reach-IsServed on_full capacity t (moves {s} r (works before w after e)) =
    advance-IsServed capacity s before w after e (Reach-IsServed on_full capacity s r)
