-- ===== src/Core/AgentLoop/DoomLoop/Repeats.antt =====
-- When the detection of repeated calls in crates/visp-core/src/agent_loop.rs warns, and when it stops
-- the loop.
use visp.Base.{
  ℕ, zero, suc, ◌-◌, ◌≤◌, ◌<◌, ◌≡◌, refl, sym, ◌∙◌, ap, Bool, true, false, ◌&&◌, List, [], Text,
  ◌∷◌, ◌++◌, Bool-cases, inl, inr, arith, if◌then◌else◌, ◌==◌, ltb, leb, drop, length,
}
use visp.Core.AgentLoop.DoomLoop.{
  Signature, DoomLoop, Verdict, goes_on, warns, stuck, all_same, judge, push_sig, watch_round,
}

-- The last `n` of a list.
abbrev pub last_n {ℓ} : {A : Type ℓ} → ℕ → List A → List A
last_n n xs = drop (length xs - n) xs

-- The last `threshold` rounds, of at least as many, have the signature of the first of them.
abbrev pub repeats : ℕ → List Signature → Bool
repeats threshold rounds = leb threshold (length rounds) && all_same (last_n threshold rounds)

module _ {ℓ} {A : Type ℓ} where
  length-drop : (n : ℕ) (xs : List A) → length (drop n xs) ≡ length xs - n
  length-drop zero xs = omega arith
  length-drop (suc n) [] = omega arith
  length-drop (suc n) (x ∷ xs) = omega (arith, length-drop n xs)

  drop-append : (n : ℕ) (xs ys : List A) → n ≤ length xs → drop n (xs ++ ys) ≡ drop n xs ++ ys
  drop-append zero xs ys h = refl
  drop-append (suc n) [] ys h = absurd (omega arith)
  drop-append (suc n) (x ∷ xs) ys h = drop-append n xs ys (omega arith)

  drop-drop : (n : ℕ) (xs : List A) → drop 1 (drop n xs) ≡ drop (suc n) xs
  drop-drop zero xs = refl
  drop-drop (suc n) [] = refl
  drop-drop (suc n) (x ∷ xs) = drop-drop n xs

  length-snoc : (xs : List A) (x : A) → length (xs ++ x ∷ []) ≡ suc (length xs)
  length-snoc [] x = refl
  length-snoc (y ∷ xs) x = ap suc (length-snoc xs x)

  -- A window of the last ones moves on.
  last_n-snoc :
      (n : ℕ) (xs : List A) (x : A)
      → 0 < n
      → (if ltb n (length (last_n n xs ++ x ∷ []))
          then drop 1 (last_n n xs ++ x ∷ [])
          else last_n n xs ++ x ∷ [])
        ≡ last_n n (xs ++ x ∷ [])
  last_n-snoc n xs x pos =
      let size : length (last_n n xs ++ x ∷ []) ≡ suc (length xs - (length xs - n)) =
        length-snoc (last_n n xs) x ∙ ap suc (length-drop (length xs - n) xs) in
      let whole : drop (length xs - n) (xs ++ x ∷ []) ≡ last_n n xs ++ x ∷ [] =
        drop-append (length xs - n) xs (x ∷ []) (omega arith) in
      let all : length (xs ++ x ∷ []) ≡ suc (length xs) = length-snoc xs x in
      elim (Bool-cases (leb n (length xs))) [
        | inl full ↦
            let test : ltb n (length (last_n n xs ++ x ∷ [])) ≡ true = rw size (ground arith) in
            let count : length (xs ++ x ∷ []) - n ≡ suc (length xs - n) = ground arith in
            rw (test, count) (ap (drop 1) (sym whole) ∙ drop-drop (length xs - n) (xs ++ x ∷ []))
        | inr room ↦
            let test : ltb n (length (last_n n xs ++ x ∷ [])) ≡ false = rw size (ground arith) in
            let count : length (xs ++ x ∷ []) - n ≡ length xs - n = ground arith in
            rw (test, count) (sym whole)
      ]

  length-last_n : (n : ℕ) (xs : List A) → (length (last_n n xs) == n) ≡ leb n (length xs)
  length-last_n n xs =
      let size : length (last_n n xs) ≡ length xs - (length xs - n) =
        length-drop (length xs - n) xs in
      rw size (ground arith)

-- What the detection makes of a round, with the rounds since the last warning in view.
abbrev pub expected : ℕ → Bool → List Signature → Verdict × DoomLoop
expected threshold warned rounds =
    let d : DoomLoop = record { window = last_n threshold rounds; warned = warned } in
    if repeats threshold rounds
    then if warned then (stuck, d) else (warns, record { window = []; warned = true })
    else (goes_on, d)

judge-expected :
    (threshold : ℕ) (warned : Bool) (rounds : List Signature)
    → judge threshold (record { window = last_n threshold rounds; warned = warned })
      ≡ expected threshold warned rounds
judge-expected threshold warned rounds = rw (length-last_n threshold rounds) refl

-- With a positive threshold, and a window that holds the last rounds since the last warning, a round with
-- a valid call is judged by the rounds with it: where the last `threshold` of them have all the same
-- calls, the first time the loop is warned and starts to look anew, and after a warning it is stuck;
-- otherwise it goes on, and the window holds the last rounds again.
pub watch_round_lem :
    (threshold : ℕ) (d : DoomLoop) (seen : List Signature) (call : Text × Text) (calls : Signature)
    → 0 < threshold
    → d.window ≡ last_n threshold seen
    → watch_round threshold d (call ∷ calls)
      ≡ expected threshold d.warned (seen ++ (call ∷ calls) ∷ [])
unfolding watch_round
watch_round_lem threshold d seen call calls pos holds =
    let on : (threshold == 0) ≡ false = ground arith in
    let moved : push_sig threshold d.window (call ∷ calls)
        ≡ last_n threshold (seen ++ (call ∷ calls) ∷ []) =
      ap (λ (ws : List Signature). push_sig threshold ws (call ∷ calls)) holds
      ∙ last_n-snoc threshold seen (call ∷ calls) pos in
    rw on (
      ap (λ (ws : List Signature). judge threshold (record { window = ws; warned = d.warned }))
        moved
      ∙ judge-expected threshold d.warned (seen ++ (call ∷ calls) ∷ []))
