-- ===== src/Core/ToolRegistry/Names.antt =====
-- The registry as a map from names without case: what `get` finds behind each operation.
use visp.Base.{
  ◌≡◌, refl, sym, ◌∙◌, ap, inl, inr, Bool, true, false, none, some, List, [], ◌∷◌, ◌++◌, map, Text,
  text_eq, text_eq_refl, text_eq→eq, if◌then◌else◌, any, find, arith, Bool-cases, All,
}
use visp.Core.ToolRegistry.{Tool, ascii_lower, name_eq, named}

pub name_eq_refl : (a : Text) → name_eq a a ≡ true
unfolding name_eq
name_eq_refl a = text_eq_refl (map ascii_lower a)

-- Names that are equal without case are equal to the same names.
pub name_eq_left : (a b c : Text) → name_eq a b ≡ true → name_eq a c ≡ name_eq b c
unfolding name_eq
name_eq_left a b c h =
    ap (λ l. text_eq l (map ascii_lower c)) (text_eq→eq (map ascii_lower a) (map ascii_lower b) h)

pub name_eq_right : (a b c : Text) → name_eq a b ≡ true → name_eq c a ≡ name_eq c b
unfolding name_eq
name_eq_right a b c h =
    ap (text_eq (map ascii_lower c)) (text_eq→eq (map ascii_lower a) (map ascii_lower b) h)

pub name_eq_sym : (a b : Text) → name_eq a b ≡ name_eq b a
unfolding name_eq
name_eq_sym a b = elim (Bool-cases (text_eq (map ascii_lower a) (map ascii_lower b))) [
  | inl e ↦ rw (text_eq→eq (map ascii_lower a) (map ascii_lower b) e) refl
  | inr e ↦ elim (Bool-cases (text_eq (map ascii_lower b) (map ascii_lower a))) [
    | inl f ↦ rw (text_eq→eq (map ascii_lower b) (map ascii_lower a) f) refl
    | inr f ↦ e ∙ sym f
  ]
]

module _ {R : Type 0} where
  -- No two tools have the same name.
  abbrev pub IsUnique : List (Tool R) → Type 0
  IsUnique [] = Unit
  IsUnique (t ∷ ts) = All (λ (u : Tool R). name_eq u.name t.name ≡ false) ts × IsUnique ts

  find-append :
      (p : Tool R → Bool) (ts : List (Tool R)) (t : Tool R)
      → any p ts ≡ false
      → find p (ts ++ t ∷ []) ≡ (if p t then some t else none)
  find-append p [] t h = refl
  find-append p (x ∷ ts) t h = ground (arith, find-append p ts t)

  find-append_found :
      (p : Tool R → Bool) (ts : List (Tool R)) (t : Tool R)
      → any p ts ≡ true
      → find p (ts ++ t ∷ []) ≡ find p ts
  find-append_found p [] t h = ground arith
  find-append_found p (x ∷ ts) t h = ground (arith, find-append_found p ts t)

  any-named :
      (a b : Text) (ts : List (Tool R)) → name_eq a b ≡ true → any (named a) ts ≡ any (named b) ts
  any-named a b [] h = refl
  any-named a b (t ∷ ts) h = rw (name_eq_right a b t.name h, any-named a b ts h) refl

  pub find-none : (p : Tool R → Bool) (ts : List (Tool R)) → any p ts ≡ false → find p ts ≡ none
  find-none p [] h = refl
  find-none p (x ∷ ts) h = ground (arith, find-none p ts)

  -- A tool that is added is found under its name; every other name finds what it found.
  pub find-added :
      (ts : List (Tool R)) (tool : Tool R) (name : Text)
      → any (named tool.name) ts ≡ false
      → find (named name) (ts ++ tool ∷ [])
        ≡ (if name_eq tool.name name then some tool else find (named name) ts)
  find-added ts tool name new = elim (Bool-cases (name_eq tool.name name)) [
    | inl same ↦
        let fresh : any (named name) ts ≡ false = sym (any-named tool.name name ts same) ∙ new in
        find-append (named name) ts tool fresh ∙ rw same refl
    | inr other ↦ elim (Bool-cases (any (named name) ts)) [
      | inl there ↦ rw other (find-append_found (named name) ts tool there)
      | inr fresh ↦
          find-append (named name) ts tool fresh ∙ rw other (sym (find-none (named name) ts fresh))
    ]
  ]
