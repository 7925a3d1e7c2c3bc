-- ===== src/Hooks/Worker.antt =====
-- One rule of crates/visp-hooks/src/dispatcher.rs that is not parallel, with the tasks that touch it, in
-- any interleaving: dispatches that enqueue and then call `ensure_worker`, and the tasks that run
-- `run_worker`. A task does one thing at a time under the lock of the queue or on `worker_active`. Any
-- number of workers may be there, so that there is only one is a theorem.
pub mod Serial
pub mod Drain
use visp.Base.{ℕ, suc, ◌≡◌, Bool, true, false, not, ◌&&◌, List, [], ◌∷◌, ◌++◌, if◌then◌else◌}
use visp.Hooks.Rules.{DispatchInput, QueuePolicy}
use visp.Hooks.Queue.{enqueue}

-- Where a worker is: before `pop_front`, in the handler, before the test of the empty queue.
pub data Worker : Type 0 where
  popping : Worker
  handling : DispatchInput → Worker
  checking : Worker

-- `starters` counts the dispatches between `enqueue` and `ensure_worker`; `arrived` records
-- every event that a dispatch offered to `enqueue`, also one that it refused, and `started` those that were
-- handed to the handler.
pub record RuleState : Type 0 where
  pub queue : List DispatchInput
  pub worker_active : Bool
  pub starters : ℕ
  pub workers : List Worker
  pub arrived : List DispatchInput
  pub started : List DispatchInput

abbrev pub initial : RuleState
initial = record {
  queue = [];
  worker_active = false;
  starters = 0;
  workers = [];
  arrived = [];
  started = [];
}

-- `enqueue` in `dispatch`; where it fails, the dispatch is over.
unfoldable pub offer : QueuePolicy → (capacity : ℕ) → RuleState → DispatchInput → RuleState
offer on_full capacity s event =
    let (taken, queue) = enqueue on_full capacity s.queue event in
    record s {
      queue = queue;
      starters = if taken then suc s.starters else s.starters;
      arrived = s.arrived ++ event ∷ [];
    }

-- The `swap` of `ensure_worker`, and the task it spawns; `n` other dispatches are still before it.
unfoldable pub ensure_worker : RuleState → (n : ℕ) → RuleState
ensure_worker s n =
    if s.worker_active
    then record s { starters = n }
    else record s { starters = n; worker_active = true; workers = popping ∷ s.workers }

-- One step of `run_worker` for the worker between `before` and `after`.
unfoldable pub advance : RuleState → List Worker → Worker → List Worker → RuleState
advance s before popping after = elim s.queue [
  | [] ↦ record s { workers = before ++ checking ∷ after }
  | event ∷ queue ↦ record s {
    queue = queue;
    workers = before ++ handling event ∷ after;
    started = s.started ++ event ∷ [];
  }
]
advance s before (handling event) after = record s { workers = before ++ popping ∷ after }
advance s before checking after = elim s.queue [
  | [] ↦ record s { worker_active = false; workers = before ++ after }
  | event ∷ queue ↦ record s { workers = before ++ popping ∷ after }
]

-- What the tasks do by themselves.
pub data Move (s : RuleState) : RuleState → Type 0 where
  ensures : (n : ℕ) → s.starters ≡ suc n → Move s (ensure_worker s n)
  works :
      (before : List Worker) (w : Worker) (after : List Worker)
      → s.workers ≡ before ++ w ∷ after
      → Move s (advance s before w after)

pub data Reach (on_full : QueuePolicy) (capacity : ℕ) : RuleState → Type 0 where
  start : Reach on_full capacity initial
  arrives :
      {s : RuleState} (event : DispatchInput)
      → Reach on_full capacity s
      → Reach on_full capacity (offer on_full capacity s event)
  moves : {s t : RuleState} → Reach on_full capacity s → Move s t → Reach on_full capacity t

-- `idle`, for this rule.
unfoldable pub is_idle : RuleState → Bool
is_idle s = elim s.queue [ [] ↦ true | e ∷ es ↦ false ] && not s.worker_active
