-- ===== src/Context/Turns/Dropping.antt =====
-- `drop_old_turns` drops whole turns from the front, until the rest fits or one turn is left.
use visp.Base.{
  ℕ, zero, suc, ◌+◌, ◌-◌, ◌≤◌, ◌<◌, ◌≡◌, refl, ap, sym, ◌∙◌, ◌⊎◌, inl, inr, Bool, true, Option,
  none, some, List, [], ◌∷◌, arith, tests, length, take, drop, filter, position, leb, Bool-cases,
  subst, some_inj, Option-cases, u32_mod,
}
use visp.Core.Message.{Message}
use visp.Context.Estimate.{estimate_messages_tokens_for_prompt}
use visp.Context.Turns.{is_user, turn_boundary, drop_loop, drop_old_turns}
use visp.Context.Turns.Positions.{turns, head_is}
use visp.Context.Cost.{cost, cost-take-drop, estimate-cost}

module _ {ℓ} {A : Type ℓ} where
  drop-nil : (n : ℕ) → drop {A = A} n [] ≡ []
  drop-nil zero = refl
  drop-nil (suc n) = refl

  drop-drop : (a b : ℕ) (xs : List A) → drop b (drop a xs) ≡ drop (a + b) xs
  drop-drop zero b xs = let e : zero + b ≡ b = omega arith in rw e
  drop-drop (suc a) b [] = drop-nil b ∙ sym (drop-nil (suc a + b))
  drop-drop (suc a) b (x ∷ xs) =
      let e : suc a + b ≡ suc (a + b) = omega arith in rw e (drop-drop a b xs)

  -- Splitting at the first element that passes a test.
  length-filter-position :
      (p : A → Bool) (xs : List A) (i : ℕ)
      → position p xs ≡ some i
      → (i < length xs)
        × (length (filter p (drop i xs)) ≡ length (filter p xs))
        × (length (filter p xs) ≡ suc (length (filter p (drop (suc i) xs))))
  length-filter-position p [] i h = cc
  length-filter-position p (x ∷ xs) zero h = elim (Bool-cases (p x)) [
    | inl e ↦ (omega arith, refl, rw e (omega arith))
    | inr e ↦ absurd (ground arith)
  ]
  length-filter-position p (x ∷ xs) (suc i) h = elim (Bool-cases (p x)) [
    | inl e ↦ absurd (ground arith)
    | inr e ↦
        let t = length-filter-position p xs i (ground arith) in
        (omega arith, rw e (omega arith), rw e (omega arith))
  ]

  head_is-position :
      (p : A → Bool) (xs : List A) (i : ℕ) → position p xs ≡ some i → head_is p (drop i xs) ≡ true
  head_is-position p [] i h = cc
  head_is-position p (x ∷ xs) zero h = ground arith
  head_is-position p (x ∷ xs) (suc i) h = head_is-position p xs i (ground arith)

  length-filter-no_position :
      (p : A → Bool) (xs : List A) → position p xs ≡ none → length (filter p xs) ≡ 0
  length-filter-no_position p [] h = refl
  length-filter-no_position p (x ∷ xs) h = ground (arith, length-filter-no_position p xs)

  length-drop : (n : ℕ) (xs : List A) → length (drop n xs) ≡ length xs - n
  length-drop zero xs = omega arith
  length-drop (suc n) [] = omega arith
  length-drop (suc n) (x ∷ xs) = omega (arith, length-drop n xs)

boundary-turns :
    (ms : List Message) (i j b : ℕ)
    → position is_user ms ≡ some i
    → position is_user (drop (i + 1) ms) ≡ some j
    → j + i + 1 ≡ b
    → (0 < b)
      × (b < length ms)
      × (turns (drop b ms) + 1 ≡ turns ms)
      × (head_is is_user (drop b ms) ≡ true)
boundary-turns ms i j b e f eq =
    let k : suc i ≡ i + 1 = omega arith in
    let f' : position is_user (drop (suc i) ms) ≡ some j = rw k f in
    let first = length-filter-position is_user ms i e in
    let second = length-filter-position is_user (drop (suc i) ms) j f' in
    let sum_up : suc i + j ≡ b = omega arith in
    let same : drop j (drop (suc i) ms) ≡ drop b ms =
      drop-drop (suc i) j ms ∙ ap (λ n. drop n ms) sum_up in
    (
      omega arith,
      omega (arith, length-drop (suc i) ms),
      omega (arith, ap turns same),
      subst (λ r. head_is is_user r ≡ true) same (head_is-position is_user _ j f'),
    )

turn_boundary-some :
    (ms : List Message) (b : ℕ)
    → turn_boundary ms ≡ some b
    → (0 < b)
      × (b < length ms)
      × (turns (drop b ms) + 1 ≡ turns ms)
      × (head_is is_user (drop b ms) ≡ true)
unfolding turn_boundary
turn_boundary-some ms b h = elim (Option-cases (position is_user ms)) [
  | inl e ↦ absurd (let h' = rw (e, turn_boundary) at h in cc)
  | inr (i, e) ↦ elim (Option-cases (position is_user (drop (i + 1) ms))) [
    | inl f ↦ absurd (let h' = rw (e, turn_boundary, f) at h in cc)
    | inr (j, f) ↦
        let h' : some (j + i + 1) ≡ some b = rw (e, turn_boundary, f) at h in
        boundary-turns ms i j b e f (some_inj h')
  ]
]

turn_boundary-none : (ms : List Message) → turn_boundary ms ≡ none → turns ms ≤ 1
unfolding turn_boundary
turn_boundary-none ms h = elim (Option-cases (position is_user ms)) [
  | inl e ↦ omega (arith, length-filter-no_position is_user ms e)
  | inr (i, e) ↦ elim (Option-cases (position is_user (drop (i + 1) ms))) [
    | inl f ↦
        let k : suc i ≡ i + 1 = omega arith in
        let f' : position is_user (drop (suc i) ms) ≡ none = rw k f in
        let first = length-filter-position is_user ms i e in
        omega (arith, length-filter-no_position is_user (drop (suc i) ms) f')
    | inr (j, f) ↦ absurd (let h' = rw (e, turn_boundary, f) at h in cc)
  ]
]

-- Nothing is dropped, or the messages from one turn earlier on did not fit.
abbrev pub IsTight : ℕ → ℕ → List Message → ℕ → Type 0
IsTight max_chars budget rest n =
    (n ≡ 0)
    ⊎ ((k b : ℕ) × (n ≡ k + b)
        × (turn_boundary (drop k rest) ≡ some b)
        × (budget < cost max_chars (drop k rest)))

-- What a run of the loop from `rest` leaves of it.
abbrev Remains : ℕ → ℕ → List Message → ℕ → Option (List Message) → Type 0
Remains max_chars budget rest tokens result =
    (n : ℕ) × (result ≡ some (drop n rest))
    × ((n ≡ 0) ⊎ (head_is is_user (drop n rest) ≡ true))
    × (cost max_chars rest < u32_mod
        → tokens ≡ cost max_chars rest
        → budget < tokens
        → ((cost max_chars (drop n rest) ≤ budget) ⊎ (turns (drop n rest) ≤ 1))
          × IsTight max_chars budget rest n)

left_exact :
    (max_chars b : ℕ) (rest : List Message) (tokens : ℕ)
    → cost max_chars rest < u32_mod
    → tokens ≡ cost max_chars rest
    → tokens - estimate_messages_tokens_for_prompt max_chars (take b rest)
      ≡ cost max_chars (drop b rest)
left_exact max_chars b rest tokens small exact =
    omega (arith, cost-take-drop max_chars b rest, estimate-cost max_chars (take b rest))

IsTight-after :
    (max_chars budget b n : ℕ) (rest : List Message)
    → turn_boundary rest ≡ some b
    → budget < cost max_chars rest
    → IsTight max_chars budget (drop b rest) n
    → IsTight max_chars budget rest (b + n)
IsTight-after max_chars budget b n rest e over (inl z) = inr (0, b, omega arith, e, over)
IsTight-after max_chars budget b n rest e over (inr (k, c, sum_up, at, more)) = inr (
  b + k,
  c,
  omega arith,
  subst (λ r. turn_boundary r ≡ some c) (drop-drop b k rest) at,
  subst (λ r. budget < cost max_chars r) (drop-drop b k rest) more,
)

Remains-after :
    (max_chars budget b : ℕ) (rest : List Message) (tokens : ℕ) (result : Option (List Message))
    → head_is is_user (drop b rest) ≡ true
    → turn_boundary rest ≡ some b
    → budget < tokens - estimate_messages_tokens_for_prompt max_chars (take b rest)
    → Remains max_chars budget
        (drop b rest)
        (tokens - estimate_messages_tokens_for_prompt max_chars (take b rest))
        result
    → Remains max_chars budget rest tokens result
Remains-after max_chars budget b rest tokens result starts e over (n, eq, begins, fits) = (
  b + n,
  eq ∙ ap some same,
  inr (
      subst (λ r. head_is is_user r ≡ true) same (elim begins [ inl z ↦ rw z starts | inr u ↦ u ])),
  λ small exact big.
      let here = left_exact max_chars b rest tokens small exact in
      let (left, tight) = fits (omega (arith, cost-take-drop max_chars b rest)) here over in
      (
        subst (λ r. (cost max_chars r ≤ budget) ⊎ (turns r ≤ 1)) same left,
        IsTight-after max_chars budget b n rest e (omega arith) tight,
      ),
)
  where
    same : drop n (drop b rest) ≡ drop (b + n) rest
    same = drop-drop b n rest

drop_loop-Remains :
    (max_chars budget fuel : ℕ) (rest : List Message) (tokens : ℕ)
    → 0 < length rest
    → length rest ≤ fuel
    → Remains max_chars budget rest tokens (drop_loop max_chars budget fuel rest tokens)
unfolding drop_loop
drop_loop-Remains max_chars budget zero rest tokens h k = absurd (omega arith)
drop_loop-Remains max_chars budget (suc fuel) rest tokens h k =
    elim (Option-cases (turn_boundary rest)) [
      | inl e ↦
          rw (e, drop_loop)
            (0, refl, inl refl, λ _ _ _. (inr (turn_boundary-none rest e), inl refl))
      | inr (b, e) ↦
          let t = turn_boundary-some rest b e in
          let removed = estimate_messages_tokens_for_prompt max_chars (take b rest) in
          elim (Bool-cases (leb (tokens - removed) budget)) [
            | inl fits ↦
                rw (e, drop_loop, fits)
                  (
                    b,
                    refl,
                    inr t.3,
                    λ small exact big. (
                      inl (omega (tests, left_exact max_chars b rest tokens small exact)),
                      inr (0, b, omega arith, e, omega arith),
                    ),
                  )
            | inr over ↦
                rw (e, drop_loop, over)
                  (Remains-after max_chars budget b rest tokens _ t.3 e (omega tests) (
                    drop_loop-Remains max_chars budget fuel (drop b rest) (tokens - removed)
                      (omega (arith, length-drop b rest)) (omega (arith, length-drop b rest))))
          ]
    ]

-- What is left, also where the cost does not fit a `u32`.
pub drop_old_turns_lem :
    (ms : List Message) (budget max_chars : ℕ)
    → (n : ℕ) × (drop_old_turns ms budget max_chars ≡ some (drop n ms))
      × ((n ≡ 0) ⊎ (head_is is_user (drop n ms) ≡ true))
      × (cost max_chars ms < u32_mod
          → ((cost max_chars (drop n ms) ≤ budget) ⊎ (turns (drop n ms) ≤ 1))
            × IsTight max_chars budget ms n)
unfolding drop_old_turns
drop_old_turns_lem [] budget max_chars = (0, refl, inl refl, λ _. (inl (omega arith), inl refl))
drop_old_turns_lem (m ∷ ms) budget max_chars =
    let tokens = estimate_messages_tokens_for_prompt max_chars (m ∷ ms) in
    elim (Bool-cases (leb tokens budget)) [
      | inl fits ↦ (
        0,
        rw fits refl,
        inl refl,
        λ small. (inl (omega (tests, estimate-cost max_chars (m ∷ ms))), inl refl),
      )
      | inr over ↦
          let (n, eq, begins, left) =
            drop_loop-Remains max_chars budget (suc (length ms)) (m ∷ ms) tokens (omega arith)
              (omega arith) in
          (
            n,
            rw over eq,
            begins,
            λ small. left small (estimate-cost max_chars (m ∷ ms) small) (omega tests),
          )
    ]
