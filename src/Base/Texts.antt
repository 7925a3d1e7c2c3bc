-- ===== src/Base/Texts.antt =====
-- Rust's strings as lists of code points, with the length of their UTF-8 encoding.
use Prim.Native.Nat.{ℕ, ◌+◌, ◌*◌, ◌≤◌}
use Prim.Native.Char.{code}
use Prim.Native.String.{String}
use mathlib.Core.Path.{◌≡◌, refl}
use mathlib.Core.Logic.{inl, inr, ◌↔◌}
use mathlib.Core.Bool.{Bool, true, false, ◌&&◌, ◌||◌}
use mathlib.Core.List.{List, [], ◌∷◌, ◌++◌}
use native.Mathlib.Omega.{arith}
use visp.Base.Tests.{||_cases, if◌then◌else◌, ltb, ◌==◌}
use visp.Base.Lists.{Any, length}

abbrev pub Text : Type 0
Text = List ℕ

-- A literal of the source.
abbrev pub codes : String → Text
codes String.[] = []
codes (String.◌∷◌ c s) = code c ∷ codes s

-- `char::len_utf8`
unfoldable pub utf8_width : ℕ → ℕ
utf8_width c = if ltb c 0x80 then 1 else if ltb c 0x800 then 2 else if ltb c 0x10000 then 3 else 4

-- `str::len`, in bytes; `chars().count()` is `length`.
unfoldable pub byte_len : Text → ℕ
unfolding utf8_width
byte_len [] = 0
byte_len (c ∷ s) = utf8_width c + byte_len s

-- `==` of two strings.
unfoldable pub text_eq : Text → Text → Bool
text_eq [] [] = true
text_eq (c ∷ s) (d ∷ t) = c == d && text_eq s t
text_eq _ _ = false

pub text_eq_refl : (s : Text) → text_eq s s ≡ true
unfolding text_eq
text_eq_refl [] = refl
text_eq_refl (c ∷ s) = ground (arith, text_eq_refl s)

pub text_eq→eq : (s t : Text) → text_eq s t ≡ true → s ≡ t
unfolding text_eq
text_eq→eq [] [] h = refl
text_eq→eq [] (d ∷ t) h = ground arith
text_eq→eq (c ∷ s) [] h = ground arith
text_eq→eq (c ∷ s) (d ∷ t) h = ground (arith, text_eq→eq s t)

pub text_eq_iff : (s t : Text) → (text_eq s t ≡ true) ↔ (s ≡ t)
text_eq_iff s t = (text_eq→eq s t, λ e. rw e (text_eq_refl t))

-- `contains` of a set of strings that is held as a list.
unfoldable pub contains : List Text → Text → Bool
contains [] s = false
contains (t ∷ ts) s = text_eq t s || contains ts s

pub contains→Any : (ts : List Text) (s : Text) → contains ts s ≡ true → Any (λ t. t ≡ s) ts
unfolding contains
contains→Any [] s h = cc
contains→Any (t ∷ ts) s h = elim (||_cases (text_eq t s) (contains ts s) h) [
  | inl e ↦ inl (text_eq→eq t s e)
  | inr e ↦ inr (contains→Any ts s e)
]

pub Any→contains : (ts : List Text) (s : Text) → Any (λ t. t ≡ s) ts → contains ts s ≡ true
unfolding contains
Any→contains [] s h = absurd h
Any→contains (t ∷ ts) s (inl e) = ground (arith, text_eq_iff t s)
Any→contains (t ∷ ts) s (inr h) = ground (arith, Any→contains ts s h)

pub utf8_width_bounds : (c : ℕ) → (1 ≤ utf8_width c) × (utf8_width c ≤ 4)
unfolding utf8_width
utf8_width_bounds c = ground arith

-- A text has at least one byte, and at most four, for each character.
pub byte_len_bounds : (s : Text) → (length s ≤ byte_len s) × (byte_len s ≤ 4 * length s)
unfolding byte_len
byte_len_bounds [] = omega arith
byte_len_bounds (c ∷ s) = omega (arith, utf8_width_bounds c, byte_len_bounds s)

pub byte_len-append : (s t : Text) → byte_len (s ++ t) ≡ byte_len s + byte_len t
unfolding byte_len
byte_len-append [] t = omega arith
byte_len-append (c ∷ s) t = omega (arith, byte_len-append s t)
