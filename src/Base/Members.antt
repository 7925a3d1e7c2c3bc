-- ===== src/Base/Members.antt =====
-- Membership in a list, as `Any` of an equation.
use mathlib.Core.Path.{◌≡◌, refl, sym, subst}
use mathlib.Core.Logic.{inl, inr}
use mathlib.Core.List.{List, [], ◌∷◌}
use visp.Base.Lists.{All, All-mono, Any}

module _ {A : Type 0} where
  abbrev pub Member : A → List A → Type 0
  Member x xs = Any (λ y. y ≡ x) xs

  pub All-self : (xs : List A) → All (λ x. Member x xs) xs
  All-self [] = tt
  All-self (x ∷ xs) = (inl refl, All-mono xs (λ y h. inr h) (All-self xs))

  pub Member→Any : (P : A → Type 0) (x : A) (xs : List A) → P x → Member x xs → Any P xs
  Member→Any P x [] p h = absurd h
  Member→Any P x (y ∷ xs) p (inl e) = inl (subst P (sym e) p)
  Member→Any P x (y ∷ xs) p (inr h) = inr (Member→Any P x xs p h)

  pub Any→Member : (P : A → Type 0) (xs : List A) → Any P xs → (x : A) × Member x xs × P x
  Any→Member P [] h = absurd h
  Any→Member P (y ∷ xs) (inl p) = (y, inl refl, p)
  Any→Member P (y ∷ xs) (inr h) = let (x, m, p) = Any→Member P xs h in (x, inr m, p)

  pub All-Member : (P : A → Type 0) (x : A) (xs : List A) → All P xs → Member x xs → P x
  All-Member P x [] h m = absurd m
  All-Member P x (y ∷ xs) h (inl e) = subst P e h.0
  All-Member P x (y ∷ xs) h (inr m) = All-Member P x xs h.1 m
