-- ===== src/Hooks/Queue.antt =====
-- The queue of one rule: `enqueue` of crates/visp-hooks/src/dispatcher.rs, and what it does to the order
-- of the events.
use visp.Base.{
  ℕ, ◌≤◌, max, ◌≡◌, refl, ◌⊎◌, inl, inr, Bool, true, false, List, [], ◌∷◌, ◌++◌, if◌then◌else◌,
  length, ltb, arith, length-append, Bool-cases, tests, subst, append_assoc,
}
use visp.Hooks.Rules.{DispatchInput, QueuePolicy, drop_new, drop_old, coalesce_latest}

-- `pop_front`, for its effect.
abbrev pop_front : {A : Type 0} → List A → List A
pop_front [] = []
pop_front (x ∷ xs) = xs

-- The branches of a full queue.
unfoldable overflow : QueuePolicy → List DispatchInput → DispatchInput → Bool × List DispatchInput
overflow drop_new queue event = (false, queue)
overflow drop_old queue event = (true, pop_front queue ++ event ∷ [])
overflow coalesce_latest queue event = (true, event ∷ [])

-- Whether the event was taken, and the queue behind the call.
unfoldable pub enqueue :
    QueuePolicy → (capacity : ℕ) → List DispatchInput → DispatchInput → Bool × List DispatchInput
unfolding overflow
enqueue on_full capacity queue event =
    if ltb (length queue) capacity
    then (true, queue ++ event ∷ [])
    else overflow on_full queue event

length-pop_front :
    {A : Type 0} (xs : List A) (x : A) → length (pop_front xs ++ x ∷ []) ≤ max 1 (length xs)
length-pop_front [] x = omega arith
length-pop_front (y ∷ ys) x = omega (arith, length-append ys (x ∷ []))

overflow-bounded :
    (on_full : QueuePolicy) (capacity : ℕ) (queue : List DispatchInput) (event : DispatchInput)
    → length queue ≤ max 1 capacity
    → length (overflow on_full queue event).1 ≤ max 1 capacity
unfolding overflow
overflow-bounded drop_new capacity queue event h = h
overflow-bounded drop_old capacity queue event h = omega (arith, length-pop_front queue event)
overflow-bounded coalesce_latest capacity queue event h = omega arith

pub enqueue-bounded :
    (on_full : QueuePolicy) (capacity : ℕ) (queue : List DispatchInput) (event : DispatchInput)
    → length queue ≤ max 1 capacity
    → length (enqueue on_full capacity queue event).1 ≤ max 1 capacity
unfolding enqueue
enqueue-bounded on_full capacity queue event h = elim (Bool-cases (ltb (length queue) capacity)) [
  | inl room ↦ rw room (omega (tests, length-append queue (event ∷ [])))
  | inr full ↦ rw full (overflow-bounded on_full capacity queue event h)
]

-- The first list is the second one with some members left out.
abbrev pub IsSublist : {A : Type 0} → List A → List A → Type 0
IsSublist [] ys = Unit
IsSublist (x ∷ xs) [] = ⊥
IsSublist (x ∷ xs) (y ∷ ys) = ((x ≡ y) × IsSublist xs ys) ⊎ IsSublist (x ∷ xs) ys

module _ {A : Type 0} where
  IsSublist-tail : (x : A) (xs ys : List A) → IsSublist (x ∷ xs) ys → IsSublist xs ys
  IsSublist-tail x [] ys h = tt
  IsSublist-tail x (z ∷ zs) [] h = absurd h
  IsSublist-tail x (z ∷ zs) (y ∷ ys) (inl (_, h)) = inr h
  IsSublist-tail x (z ∷ zs) (y ∷ ys) (inr h) = inr (IsSublist-tail x (z ∷ zs) ys h)

  -- A member in the middle goes.
  pub IsSublist-remove :
      (before : List A) (x : A) (after ys : List A)
      → IsSublist (before ++ x ∷ after) ys
      → IsSublist (before ++ after) ys
  IsSublist-remove [] x after ys h = IsSublist-tail x after ys h
  IsSublist-remove (b ∷ before) x after [] h = absurd h
  IsSublist-remove (b ∷ before) x after (y ∷ ys) (inl (e, h)) =
      inl (e, IsSublist-remove before x after ys h)
  IsSublist-remove (b ∷ before) x after (y ∷ ys) (inr h) =
      inr (IsSublist-remove (b ∷ before) x after ys h)

  pub IsSublist-initial :
      (before after ys : List A) → IsSublist (before ++ after) ys → IsSublist before ys
  IsSublist-initial [] after ys h = tt
  IsSublist-initial (b ∷ before) after [] h = absurd h
  IsSublist-initial (b ∷ before) after (y ∷ ys) (inl (e, h)) =
      inl (e, IsSublist-initial before after ys h)
  IsSublist-initial (b ∷ before) after (y ∷ ys) (inr h) =
      inr (IsSublist-initial (b ∷ before) after ys h)

  IsSublist-last : (x : A) (ys : List A) → IsSublist (x ∷ []) (ys ++ x ∷ [])
  IsSublist-last x [] = inl (refl, tt)
  IsSublist-last x (y ∷ ys) = inr (IsSublist-last x ys)

  pub IsSublist-snoc :
      (xs ys : List A) (x : A) → IsSublist xs ys → IsSublist (xs ++ x ∷ []) (ys ++ x ∷ [])
  IsSublist-snoc [] ys x h = IsSublist-last x ys
  IsSublist-snoc (z ∷ zs) [] x h = absurd h
  IsSublist-snoc (z ∷ zs) (y ∷ ys) x (inl (e, h)) = inl (e, IsSublist-snoc zs ys x h)
  IsSublist-snoc (z ∷ zs) (y ∷ ys) x (inr h) = inr (IsSublist-snoc (z ∷ zs) ys x h)

  pub IsSublist-more : (xs ys : List A) (x : A) → IsSublist xs ys → IsSublist xs (ys ++ x ∷ [])
  IsSublist-more [] ys x h = tt
  IsSublist-more (z ∷ zs) [] x h = absurd h
  IsSublist-more (z ∷ zs) (y ∷ ys) x (inl (e, h)) = inl (e, IsSublist-more zs ys x h)
  IsSublist-more (z ∷ zs) (y ∷ ys) x (inr h) = inr (IsSublist-more (z ∷ zs) ys x h)

  -- A member behind the kept ones.
  pub IsSublist-add :
      (before after ys : List A) (x : A)
      → IsSublist (before ++ after) ys
      → IsSublist (before ++ (after ++ x ∷ [])) (ys ++ x ∷ [])
  IsSublist-add before after ys x h =
      subst (λ l. IsSublist l (ys ++ x ∷ [])) (append_assoc before after (x ∷ []))
        (IsSublist-snoc (before ++ after) ys x h)

IsSublist-pop_front :
    {A : Type 0} (before queue ys : List A)
    → IsSublist (before ++ queue) ys
    → IsSublist (before ++ pop_front queue) ys
IsSublist-pop_front before [] ys h = h
IsSublist-pop_front before (x ∷ queue) ys h = IsSublist-remove before x queue ys h

overflow-IsSublist :
    (on_full : QueuePolicy) (started queue arrived : List DispatchInput) (event : DispatchInput)
    → IsSublist (started ++ queue) arrived
    → IsSublist (started ++ (overflow on_full queue event).1) (arrived ++ event ∷ [])
unfolding overflow
overflow-IsSublist drop_new started queue arrived event h =
    IsSublist-more (started ++ queue) arrived event h
overflow-IsSublist drop_old started queue arrived event h =
    IsSublist-add started (pop_front queue) arrived event
      (IsSublist-pop_front started queue arrived h)
overflow-IsSublist coalesce_latest started queue arrived event h =
    IsSublist-snoc started arrived event (IsSublist-initial started queue arrived h)

-- What was handed out, followed by the queue, stays in the order of arrival.
pub enqueue-IsSublist :
    (on_full : QueuePolicy) (capacity : ℕ) (started queue arrived : List DispatchInput)
    (event : DispatchInput)
    → IsSublist (started ++ queue) arrived
    → IsSublist (started ++ (enqueue on_full capacity queue event).1) (arrived ++ event ∷ [])
unfolding enqueue
enqueue-IsSublist on_full capacity started queue arrived event h =
    elim (Bool-cases (ltb (length queue) capacity)) [
      | inl room ↦ rw room (IsSublist-add started queue arrived event h)
      | inr full ↦ rw full (overflow-IsSublist on_full started queue arrived event h)
    ]

overflow-cases :
    (on_full : QueuePolicy) (queue : List DispatchInput) (event : DispatchInput)
    → ((overflow on_full queue event).0 ≡ true)
      ⊎ (((overflow on_full queue event).0 ≡ false) × ((overflow on_full queue event).1 ≡ queue))
unfolding overflow
overflow-cases drop_new queue event = inr (refl, refl)
overflow-cases drop_old queue event = inl refl
overflow-cases coalesce_latest queue event = inl refl

-- An event that is refused leaves the queue as it was.
pub enqueue-cases :
    (on_full : QueuePolicy) (capacity : ℕ) (queue : List DispatchInput) (event : DispatchInput)
    → ((enqueue on_full capacity queue event).0 ≡ true)
      ⊎ (((enqueue on_full capacity queue event).0 ≡ false)
          × ((enqueue on_full capacity queue event).1 ≡ queue))
unfolding enqueue
enqueue-cases on_full capacity queue event = elim (Bool-cases (ltb (length queue) capacity)) [
  | inl room ↦ inl (rw room refl)
  | inr full ↦ rw full (overflow-cases on_full queue event)
]
