-- ===== src/Base/Words.antt =====
-- `u32` arithmetic: the release build wraps `+` and `*`; a cast from `f64` saturates.
use Prim.Native.Nat.{ℕ, ◌-◌, ◌+◌, ◌%◌, ◌^◌, ◌<◌, ◌≤◌}
use mathlib.Core.Path.{◌≡◌, refl, ap}
use mathlib.Core.List.{List, [], ◌∷◌, ◌++◌, map}
use mathlib.Core.Bool.{Bool}
use visp.Base.Lists.{filter}
use native.Mathlib.Omega.{arith}

abbrev pub u32_mod : ℕ
u32_mod = 2 ^ 32

abbrev pub add32 : ℕ → ℕ → ℕ
add32 a b = (a + b) % u32_mod

abbrev pub sub32 : ℕ → ℕ → ℕ
sub32 a b = (a + u32_mod - b) % u32_mod

-- `iter().sum::<u32>()`
abbrev pub sum32 : List ℕ → ℕ
sum32 [] = 0
sum32 (x ∷ xs) = add32 x (sum32 xs)

-- The mathematical sum.
abbrev pub sum : List ℕ → ℕ
sum [] = 0
sum (x ∷ xs) = x + sum xs

pub sum-append : (xs ys : List ℕ) → sum (xs ++ ys) ≡ sum xs + sum ys
sum-append [] ys = omega arith
sum-append (x ∷ xs) ys = omega (arith, sum-append xs ys)

-- A sum that fits does not wrap.
pub sum32-eq-sum : (xs : List ℕ) → sum xs < u32_mod → sum32 xs ≡ sum xs
sum32-eq-sum [] h = refl
sum32-eq-sum (x ∷ xs) h = omega (arith, sum32-eq-sum xs)

module _ {ℓ} {A : Type ℓ} where
  pub sum-map-filter-le :
      (f : A → ℕ) (p : A → Bool) (xs : List A) → sum (map f (filter p xs)) ≤ sum (map f xs)
  sum-map-filter-le f p [] = omega arith
  sum-map-filter-le f p (x ∷ xs) = ground (arith, sum-map-filter-le f p xs)

  pub sum-map-eq :
      (f g : A → ℕ) (xs : List A) → ((x : A) → f x ≡ g x) → sum (map f xs) ≡ sum (map g xs)
  sum-map-eq f g [] h = refl
  sum-map-eq f g (x ∷ xs) h = omega (arith, h x, sum-map-eq f g xs h)

pub map-map {ℓ κ λ'} :
    {A : Type ℓ} {B : Type κ} {C : Type λ'} (g : B → C) (f : A → B) (xs : List A)
    → map g (map f xs) ≡ map (λ x. g (f x)) xs
map-map g f [] = refl
map-map g f (x ∷ xs) = ap (◌∷◌ (g (f x))) (map-map g f xs)
