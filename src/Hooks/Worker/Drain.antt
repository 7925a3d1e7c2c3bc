-- ===== src/Hooks/Worker/Drain.antt =====
-- The tasks of a rule come to an end when no event arrives, and have then handled the whole queue: what
-- `drain` waits for.
use visp.Base.{
  ℕ, suc, ◌+◌, ◌*◌, ◌<◌, ◌-◌, ◌≡◌, refl, sym, ◌∙◌, ap, subst, ◌⊎◌, inl, inr, Bool, true, false,
  List, [], ◌∷◌, ◌++◌, length, arith, Bool-cases, List-cases, append_assoc, append-nil,
}
use visp.Hooks.Rules.{DispatchInput, QueuePolicy}
use visp.Hooks.Worker.{
  Worker, popping, handling, checking, RuleState, ensure_worker, advance, Move, ensures, works,
  Reach, is_idle,
}
use visp.Hooks.Worker.Serial.{IsSerial, IsAwake, alone, Reach-IsServed}

-- The steps that a worker may still take before it takes up an event or ends.
unfoldable pub worker_work : List DispatchInput → Worker → ℕ
worker_work [] checking = 1
worker_work (e ∷ es) checking = 3
worker_work q popping = 2
worker_work q (handling event) = 3

unfoldable pub workers_work : List DispatchInput → List Worker → ℕ
unfolding worker_work
workers_work q [] = 0
workers_work q (w ∷ ws) = worker_work q w + workers_work q ws

unfoldable pub work_left : RuleState → ℕ
unfolding workers_work
work_left s = 4 * length s.queue + (workers_work s.queue s.workers + 3 * s.starters)

ensure_worker-work_left :
    (s : RuleState) (n : ℕ) → s.starters ≡ suc n → work_left (ensure_worker s n) < work_left s
unfolding work_left ensure_worker
ensure_worker-work_left s n e = elim (Bool-cases s.worker_active) [
  | inl on ↦ rw on (omega arith)
  | inr off ↦ rw off (work s.queue)
]
  where
    work :
        (q : List DispatchInput)
        → 4 * length q + (workers_work q (popping ∷ s.workers) + 3 * n)
          < 4 * length q + (workers_work q s.workers + 3 * s.starters)
    work [] = omega arith
    work (x ∷ xs) = omega arith

advance-work_left :
    (s : RuleState) (before : List Worker) (w : Worker) (after : List Worker)
    → s.workers ≡ before ++ w ∷ after
    → IsSerial s.worker_active s.workers
    → work_left (advance s before w after) < work_left s
unfolding work_left advance
advance-work_left s before popping after e serial =
    let (on, b, a) =
      alone s.worker_active before popping after (subst (IsSerial s.worker_active) e serial) in
    elim (List-cases s.queue) [
      | inl empty ↦ rw (empty, e, b, a) (omega arith)
      | inr (event, [], some_there) ↦ rw (some_there, e, b, a) (omega arith)
      | inr (event, x ∷ queue, some_there) ↦ rw (some_there, e, b, a) (omega arith)
    ]
advance-work_left s before (handling event) after e serial =
    let (on, b, a) =
      alone s.worker_active before (handling event) after
        (subst (IsSerial s.worker_active) e serial) in
    elim (List-cases s.queue) [
      | inl empty ↦ rw (empty, e, b, a) (omega arith)
      | inr (x, queue, some_there) ↦ rw (some_there, e, b, a) (omega arith)
    ]
advance-work_left s before checking after e serial =
    let (on, b, a) =
      alone s.worker_active before checking after (subst (IsSerial s.worker_active) e serial) in
    elim (List-cases s.queue) [
      | inl empty ↦ rw (empty, e, b, a) (omega arith)
      | inr (x, queue, some_there) ↦ rw (some_there, e, b, a) (omega arith)
    ]

Move-work_left :
    (s t : RuleState) → IsSerial s.worker_active s.workers → Move s t → work_left t < work_left s
Move-work_left s t serial (ensures n e) = ensure_worker-work_left s n e
Move-work_left s t serial (works before w after e) = advance-work_left s before w after e serial

-- A rule that is not idle has a task that can move.
busy :
    (s : RuleState) (ws : List Worker)
    → s.workers ≡ ws
    → IsAwake s.queue s.worker_active s.starters
    → IsSerial s.worker_active s.workers
    → (is_idle s ≡ true) ⊎ ((t : RuleState) × Move s t)
unfolding is_idle
busy s (w ∷ ws) e awake serial = inr (advance s [] w ws, works [] w ws e)
busy s [] e awake serial = elim (List-cases s.queue) [
  | inl empty ↦
      inl
        (rw (empty, is_idle, off s.worker_active (subst (IsSerial s.worker_active) e serial)) refl)
  | inr (event, queue, some_there) ↦ inr (
    ensure_worker s (s.starters - 1),
    ensures (s.starters - 1) (waiting event queue some_there awake),
  )
]
  where
    off : (active : Bool) → IsSerial active [] → active ≡ false
    off true h = absurd h
    off false h = refl

    waiting :
        (event : DispatchInput) (queue : List DispatchInput)
        → s.queue ≡ event ∷ queue
        → IsAwake s.queue s.worker_active s.starters
        → s.starters ≡ suc (s.starters - 1)
    waiting event queue some_there (inl empty) = absurd (cc)
    waiting event queue some_there (inr (inl on)) =
        absurd (let h = off s.worker_active (subst (IsSerial s.worker_active) e serial) in cc)
    waiting event queue some_there (inr (inr h)) = omega arith

-- In any reachable state the rule is idle or one of its tasks can move, whether or not an event arrives.
pub Reach-goes_on :
    (on_full : QueuePolicy) (capacity : ℕ) (s : RuleState)
    → Reach on_full capacity s
    → (is_idle s ≡ true) ⊎ ((t : RuleState) × Move s t)
Reach-goes_on on_full capacity s r =
    let v = Reach-IsServed on_full capacity s r in busy s s.workers refl v.awake v.serial

-- From any reachable state, each move of a task brings `work_left` down: as long as no event arrives, the
-- tasks move only finitely often.
pub Reach-work_left :
    (on_full : QueuePolicy) (capacity : ℕ) (s t : RuleState)
    → Reach on_full capacity s
    → Move s t
    → work_left t < work_left s
Reach-work_left on_full capacity s t r m =
    Move-work_left s t (Reach-IsServed on_full capacity s r).serial m

-- Any number of moves.
pub data Moves (s : RuleState) : RuleState → Type 0 where
  stays : Moves s s
  goes : {t u : RuleState} → Moves s t → Move t u → Moves s u

Move-order : (s t : RuleState) → Move s t → t.started ++ t.queue ≡ s.started ++ s.queue
unfolding ensure_worker advance
Move-order s t (ensures n e) = elim (Bool-cases s.worker_active) [
  | inl on ↦ rw on refl
  | inr off ↦ rw off refl
]
Move-order s t (works before popping after e) = elim (List-cases s.queue) [
  | inl empty ↦ rw empty refl
  | inr (event, queue, some_there) ↦ rw some_there (append_assoc s.started (event ∷ []) queue)
]
Move-order s t (works before (handling event) after e) = refl
Move-order s t (works before checking after e) = elim (List-cases s.queue) [
  | inl empty ↦ rw empty refl
  | inr (event, queue, some_there) ↦ rw some_there refl
]

Moves-order : (s t : RuleState) → Moves s t → t.started ++ t.queue ≡ s.started ++ s.queue
Moves-order s t stays = refl
Moves-order s t (goes {t = u} ms m) = Move-order u t m ∙ Moves-order s u ms

is_idle-queue : (s : RuleState) → is_idle s ≡ true → s.queue ≡ []
unfolding is_idle
is_idle-queue s h = elim (List-cases s.queue) [
  | inl empty ↦ empty
  | inr (event, queue, some_there) ↦ absurd (let h' = rw (some_there, is_idle) at h in cc)
]

-- When the tasks of a rule have moved, without a new event, until the rule is idle, the handler has got
-- every event that was queued, in the order of the queue and behind those it had got before.
pub drained : (s t : RuleState) → Moves s t → is_idle t ≡ true → t.started ≡ s.started ++ s.queue
drained s t ms h =
    sym (append-nil t.started)
    ∙ ap (λ q. t.started ++ q) (sym (is_idle-queue t h))
    ∙ Moves-order s t ms
