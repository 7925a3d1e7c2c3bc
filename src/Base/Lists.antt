-- ===== src/Base/Lists.antt =====
-- Lists measured by native numbers, filtered by Boolean tests, and predicates over their members.
use Prim.Native.Nat.{ℕ, zero, suc, ◌+◌, ◌≤◌, min}
use mathlib.Core.Path.{◌≡◌, refl, ap}
use mathlib.Core.Logic.{◌⊎◌, inl, inr}
use mathlib.Core.Bool.{Bool, true, false, ◌||◌, ◌&&◌}
use mathlib.Core.List.{List, [], ◌∷◌, ◌++◌, map}
use mathlib.Core.Option.{Option, none, some}
use native.Mathlib.Omega.{arith}
use visp.Base.Tests.{if◌then◌else◌, Bool-cases, ||_cases}

module _ {ℓ} {A : Type ℓ} where
  abbrev pub length : List A → ℕ
  length [] = 0
  length (x ∷ xs) = suc (length xs)

  abbrev pub take : ℕ → List A → List A
  take zero xs = []
  take (suc n) [] = []
  take (suc n) (x ∷ xs) = x ∷ take n xs

  abbrev pub drop : ℕ → List A → List A
  drop zero xs = xs
  drop (suc n) [] = []
  drop (suc n) (x ∷ xs) = drop n xs

  abbrev pub get_elem? : List A → ℕ → Option A
  get_elem? [] i = none
  get_elem? (x ∷ xs) zero = some x
  get_elem? (x ∷ xs) (suc i) = get_elem? xs i

  -- `iter().filter(p)`
  abbrev pub filter : (A → Bool) → List A → List A
  filter p [] = []
  filter p (x ∷ xs) = if p x then x ∷ filter p xs else filter p xs

  -- `iter().any(p)` and `iter().all(p)`
  abbrev pub any : (A → Bool) → List A → Bool
  any p [] = false
  any p (x ∷ xs) = p x || any p xs

  abbrev pub all : (A → Bool) → List A → Bool
  all p [] = true
  all p (x ∷ xs) = p x && all p xs

  -- `iter().find(p)`
  abbrev pub find : (A → Bool) → List A → Option A
  find p [] = none
  find p (x ∷ xs) = if p x then some x else find p xs

  -- `iter().position(p)`
  abbrev pub position : (A → Bool) → List A → Option ℕ
  position p [] = none
  position p (x ∷ xs) =
      if p x then some 0 else elim (position p xs) [ none ↦ none | some i ↦ some (suc i) ]

  -- `iter().enumerate()`, from a first index on.
  abbrev pub enumerate : ℕ → List A → List (ℕ × A)
  enumerate n [] = []
  enumerate n (x ∷ xs) = (n, x) ∷ enumerate (suc n) xs

  pub length-append : (xs ys : List A) → length (xs ++ ys) ≡ length xs + length ys
  length-append [] ys = omega arith
  length-append (x ∷ xs) ys = omega (arith, length-append xs ys)

  pub take-append-drop : (n : ℕ) (xs : List A) → take n xs ++ drop n xs ≡ xs
  take-append-drop zero xs = refl
  take-append-drop (suc n) [] = refl
  take-append-drop (suc n) (x ∷ xs) = ap (◌∷◌ x) (take-append-drop n xs)

  pub length-take : (n : ℕ) (xs : List A) → length (take n xs) ≡ min n (length xs)
  length-take zero xs = omega arith
  length-take (suc n) [] = omega arith
  length-take (suc n) (x ∷ xs) = omega (arith, length-take n xs)

  pub length-filter-le : (p : A → Bool) (xs : List A) → length (filter p xs) ≤ length xs
  length-filter-le p [] = omega arith
  length-filter-le p (x ∷ xs) = ground (arith, length-filter-le p xs)

pub List-cases {ℓ} :
    {A : Type ℓ} (xs : List A) → (xs ≡ []) ⊎ ((y : A) × (ys : List A) × (xs ≡ y ∷ ys))
List-cases [] = inl refl
List-cases (y ∷ ys) = inr (y, ys, refl)

-- Every member, and some member, by recursion: the tactics read and build such tuples.
module _ {ℓ} {A : Type ℓ} where
  abbrev pub All {κ} : (A → Type κ) → List A → Type κ
  All P [] = Unit
  All P (x ∷ xs) = P x × All P xs

  abbrev pub Any : (A → Type 0) → List A → Type 0
  Any P [] = ⊥
  Any P (x ∷ xs) = P x ⊎ Any P xs

  pub All-append {κ} : (P : A → Type κ) (xs ys : List A) → All P xs → All P ys → All P (xs ++ ys)
  All-append P [] ys hx hy = hy
  All-append P (x ∷ xs) ys hx hy = (hx.0, All-append P xs ys hx.1 hy)

  pub All-trivial : (xs : List A) → All (λ _. Unit {0}) xs
  All-trivial [] = tt
  All-trivial (x ∷ xs) = (tt, All-trivial xs)

  pub All-zip {κ λ'} :
      (P : A → Type κ) (Q : A → Type λ') (xs : List A)
      → All P xs
      → All Q xs
      → All (λ x. P x × Q x) xs
  All-zip P Q [] h k = tt
  All-zip P Q (x ∷ xs) h k = ((h.0, k.0), All-zip P Q xs h.1 k.1)

  pub All-mono {κ λ'} :
      {P : A → Type κ} {Q : A → Type λ'} (xs : List A) → ((x : A) → P x → Q x) → All P xs → All Q xs
  All-mono [] f h = tt
  All-mono (x ∷ xs) f h = (f x h.0, All-mono xs f h.1)

  pub Any-append_left : (P : A → Type 0) (xs ys : List A) → Any P xs → Any P (xs ++ ys)
  Any-append_left P [] ys h = absurd h
  Any-append_left P (x ∷ xs) ys (inl h) = inl h
  Any-append_left P (x ∷ xs) ys (inr h) = inr (Any-append_left P xs ys h)

  pub Any-append_right : (P : A → Type 0) (xs ys : List A) → Any P ys → Any P (xs ++ ys)
  Any-append_right P [] ys h = h
  Any-append_right P (x ∷ xs) ys h = inr (Any-append_right P xs ys h)

  pub Any-append_cases : (P : A → Type 0) (xs ys : List A) → Any P (xs ++ ys) → Any P xs ⊎ Any P ys
  Any-append_cases P [] ys h = inr h
  Any-append_cases P (x ∷ xs) ys (inl h) = inl (inl h)
  Any-append_cases P (x ∷ xs) ys (inr h) = elim (Any-append_cases P xs ys h) [
    | inl k ↦ inl (inr k)
    | inr k ↦ inr k
  ]

  -- What every member of a filtered list is known of.
  pub All-filter {κ} :
      (P : A → Type κ) (p : A → Bool) (xs : List A)
      → All P xs
      → All (λ x. P x × (p x ≡ true)) (filter p xs)
  All-filter P p [] h = tt
  All-filter P p (x ∷ xs) h = elim (Bool-cases (p x)) [
    | inl e ↦ rw e ((h.0, e), All-filter P p xs h.1)
    | inr e ↦ rw e (All-filter P p xs h.1)
  ]

  -- A member that passes the test stays.
  pub Any-filter :
      {P : A → Type 0} (p : A → Bool) (xs : List A)
      → ((x : A) → P x → p x ≡ true)
      → Any P xs
      → Any P (filter p xs)
  Any-filter p [] f h = absurd h
  Any-filter p (x ∷ xs) f (inl h) = rw (f x h) (inl h)
  Any-filter p (x ∷ xs) f (inr h) = elim (Bool-cases (p x)) [
    | inl e ↦ rw e (inr (Any-filter p xs f h))
    | inr e ↦ rw e (Any-filter p xs f h)
  ]

  -- A filter that drops nothing tests true everywhere.
  pub All-of-length-filter :
      (p : A → Bool) (xs : List A) → length xs ≤ length (filter p xs) → All (λ x. p x ≡ true) xs
  All-of-length-filter p [] h = tt
  All-of-length-filter p (x ∷ xs) h = elim (Bool-cases (p x)) [
    | inl e ↦ (e, All-of-length-filter p xs (let h' = rw e at h in omega arith))
    | inr e ↦ absurd (let h' = rw e at h in omega (arith, length-filter-le p xs))
  ]

  pub any→Any : (p : A → Bool) (xs : List A) → any p xs ≡ true → Any (λ x. p x ≡ true) xs
  any→Any p [] h = cc
  any→Any p (x ∷ xs) h = elim (||_cases (p x) (any p xs) h) [
    | inl e ↦ inl e
    | inr e ↦ inr (any→Any p xs e)
  ]

  pub Any→any : (p : A → Bool) (xs : List A) → Any (λ x. p x ≡ true) xs → any p xs ≡ true
  Any→any p [] h = absurd h
  Any→any p (x ∷ xs) (inl e) = ground arith
  Any→any p (x ∷ xs) (inr h) = ground (arith, Any→any p xs h)

  pub Any-mono : {P Q : A → Type 0} (xs : List A) → ((x : A) → P x → Q x) → Any P xs → Any Q xs
  Any-mono [] f h = h
  Any-mono (x ∷ xs) f (inl h) = inl (f x h)
  Any-mono (x ∷ xs) f (inr h) = inr (Any-mono xs f h)

module _ {ℓ κ} {A : Type ℓ} {B : Type κ} where
  pub map-filter :
      (f : A → B) (p : B → Bool) (xs : List A)
      → map f (filter (λ x. p (f x)) xs) ≡ filter p (map f xs)
  map-filter f p [] = refl
  map-filter f p (x ∷ xs) = ground (arith, map-filter f p xs)

  pub Any-map :
      (P : A → Type 0) (Q : B → Type 0) (f : A → B) (xs : List A)
      → ((x : A) → P x → Q (f x))
      → Any P xs
      → Any Q (map f xs)
  Any-map P Q f [] g h = absurd h
  Any-map P Q f (x ∷ xs) g (inl h) = inl (g x h)
  Any-map P Q f (x ∷ xs) g (inr h) = inr (Any-map P Q f xs g h)

  pub All-map {λ'} :
      (P : A → Type λ') (Q : B → Type λ') (f : A → B) (xs : List A)
      → ((x : A) → P x → Q (f x))
      → All P xs
      → All Q (map f xs)
  All-map P Q f [] g h = tt
  All-map P Q f (x ∷ xs) g h = (g x h.0, All-map P Q f xs g h.1)

  pub Any-unmap :
      (P : B → Type 0) (f : A → B) (xs : List A) → Any P (map f xs) → Any (λ x. P (f x)) xs
  Any-unmap P f [] h = h
  Any-unmap P f (x ∷ xs) (inl h) = inl h
  Any-unmap P f (x ∷ xs) (inr h) = inr (Any-unmap P f xs h)
