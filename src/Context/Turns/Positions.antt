-- ===== src/Context/Turns/Positions.antt =====
-- Where HEAD ends and TAIL starts: after the first, and before the last, so many turns.
use visp.Base.{
  ℕ, zero, suc, ◌+◌, ◌-◌, ◌≤◌, ◌<◌, min, ◌≡◌, refl, ap, ◌⊎◌, inl, inr, Bool, true, false, none,
  some, List, [], ◌∷◌, arith, length, take, drop, get_elem?, filter, leb, ltb, Bool-cases, tests,
}
use visp.Core.Message.{Message}
use visp.Context.Turns.{is_user, user_positions, find_head_end, find_tail_start}

-- How many User messages a list holds.
abbrev pub turns : List Message → ℕ
turns ms = length (filter is_user ms)

-- The list begins with an element that passes the test.
abbrev pub head_is {ℓ} : {A : Type ℓ} → (A → Bool) → List A → Bool
head_is p [] = false
head_is p (x ∷ xs) = p x

length-user_positions : (i : ℕ) (ms : List Message) → length (user_positions i ms) ≡ turns ms
unfolding user_positions
length-user_positions i [] = refl
length-user_positions i (m ∷ ms) = ground (arith, length-user_positions (suc i) ms)

-- What the index of the `n`th User message, from 0, says of the messages on both sides of it.
record Cut (i : ℕ) (ms : List Message) (n p : ℕ) : Type 0 where
  pub offset : ℕ
  pub index : p ≡ i + offset
  pub inside : offset < length ms
  pub before : turns (take offset ms) ≡ n
  pub behind : turns (drop offset ms) + n ≡ turns ms
  pub begins : head_is is_user (drop offset ms) ≡ true

Cut-user :
    {i n p : ℕ} (m : Message) (ms : List Message)
    → is_user m ≡ true
    → Cut (suc i) ms n p
    → Cut i (m ∷ ms) (suc n) p
Cut-user m ms u c = record {
  offset = suc c.offset;
  index = omega arith;
  inside = omega arith;
  before = rw u (omega arith);
  behind = rw u (omega arith);
  begins = c.begins;
}

Cut-other :
    {i n p : ℕ} (m : Message) (ms : List Message)
    → is_user m ≡ false
    → Cut (suc i) ms n p
    → Cut i (m ∷ ms) n p
Cut-other m ms u c = record {
  offset = suc c.offset;
  index = omega arith;
  inside = omega arith;
  before = rw u (omega arith);
  behind = rw u (omega arith);
  begins = c.begins;
}

user_positions-Cut :
    (i : ℕ) (ms : List Message) (n p : ℕ)
    → get_elem? (user_positions i ms) n ≡ some p
    → Cut i ms n p
unfolding user_positions
user_positions-Cut i [] n p h = cc
user_positions-Cut i (m ∷ ms) zero p h = elim (Bool-cases (is_user m)) [
  | inl u ↦ record {
    offset = 0;
    index = ground arith;
    inside = omega arith;
    before = refl;
    behind = omega arith;
    begins = u;
  }
  | inr u ↦ Cut-other m ms u (user_positions-Cut (suc i) ms zero p (rw (u, user_positions) at h))
]
user_positions-Cut i (m ∷ ms) (suc n) p h = elim (Bool-cases (is_user m)) [
  | inl u ↦ Cut-user m ms u (user_positions-Cut (suc i) ms n p (rw (u, user_positions) at h))
  | inr u ↦ Cut-other m ms u (user_positions-Cut (suc i) ms (suc n) p (rw (u, user_positions) at h))
]

Cut-offset : {ms : List Message} {n p : ℕ} (c : Cut 0 ms n p) → p ≡ c.offset
Cut-offset c = omega arith

take-length {ℓ} : {A : Type ℓ} (xs : List A) → take (length xs) xs ≡ xs
take-length [] = refl
take-length (x ∷ xs) = ap (◌∷◌ x) (take-length xs)

get_elem?-length {ℓ} : {A : Type ℓ} (xs : List A) → get_elem? xs (length xs) ≡ none
get_elem?-length [] = refl
get_elem?-length (x ∷ xs) = get_elem?-length xs

get_elem?-none {ℓ} : {A : Type ℓ} (xs : List A) → get_elem? xs (length xs - 0) ≡ none
get_elem?-none xs = let e : length xs - 0 ≡ length xs = omega arith in rw e (get_elem?-length xs)

get_elem?-total {ℓ} :
    {A : Type ℓ} (xs : List A) (n : ℕ) → n < length xs → (x : A) × (get_elem? xs n ≡ some x)
get_elem?-total [] n h = absurd (omega arith)
get_elem?-total (x ∷ xs) zero h = (x, refl)
get_elem?-total (x ∷ xs) (suc n) h = get_elem?-total xs n (omega arith)

-- `find_head_end` never panics. The messages before the index that it returns hold exactly the first
-- `n` turns, or all of them where the history has no more; the index is the end of the history or that of
-- a User message.
pub find_head_end_lem :
    (history : List Message) (n : ℕ)
    → (e : ℕ) × (find_head_end history n ≡ some e)
      × (e ≤ length history)
      × (turns (take e history) ≡ min n (turns history))
      × ((e ≡ length history) ⊎ (head_is is_user (drop e history) ≡ true))
unfolding find_head_end
find_head_end_lem history n =
    let positions = user_positions 0 history in
    elim (Bool-cases (leb (length positions) n)) [
      | inl few ↦ (
        length history,
        rw few refl,
        omega arith,
        rw take-length (omega (tests, length-user_positions 0 history)),
        inl refl,
      )
      | inr more ↦
          let (e, at_n) = get_elem?-total positions n (omega (tests)) in
          let c = user_positions-Cut 0 history n e at_n in
          (
            e,
            rw (more, at_n) refl,
            omega arith,
            rw (Cut-offset c) (omega arith),
            inr (rw (Cut-offset c) c.begins),
          )
    ]

-- `find_tail_start` does not panic for a positive number of turns. The messages from the index that
-- it returns hold exactly the last `n` turns, or all of them where the history has no more; the index is
-- 0 or that of a User message.
pub find_tail_start_lem :
    (history : List Message) (n : ℕ)
    → 0 < n
    → (s : ℕ) × (find_tail_start history n ≡ some s)
      × (s ≤ length history)
      × (turns (drop s history) ≡ min n (turns history))
      × ((s ≡ 0) ⊎ (head_is is_user (drop s history) ≡ true))
unfolding find_tail_start
find_tail_start_lem history n h =
    let positions = user_positions 0 history in
    elim (Bool-cases (ltb (length positions) n)) [
      | inl few ↦
          (0, rw few refl, omega arith, omega (tests, length-user_positions 0 history), inl refl)
      | inr more ↦
          let k = length positions - n in
          let enough : n ≤ length positions = ground arith in
          let (s, at_k) = get_elem?-total positions k (omega arith) in
          let c = user_positions-Cut 0 history k s at_k in
          (
            s,
            rw (more, at_k) refl,
            omega arith,
            rw (Cut-offset c) (omega (arith, length-user_positions 0 history)),
            inr (rw (Cut-offset c) c.begins),
          )
    ]

-- For no turns at all it always panics: the index lies behind the last position.
pub find_tail_start_zero : (history : List Message) → find_tail_start history 0 ≡ none
unfolding find_tail_start
find_tail_start_zero history = rw (get_elem?-none (user_positions 0 history)) (ground arith)
