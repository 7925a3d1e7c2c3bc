-- ===== src/Core/TraceContext/Header.antt =====
-- Which headers `from_traceparent` takes, and what it makes of them.
use visp.Base.{
  ℕ, ◌+◌, ◌*◌, ◌<◌, ◌≡◌, refl, sym, ◌∙◌, ap, inl, inr, true, false, none, some, List, [], ◌∷◌, ◌++◌,
  Text, codes, text_eq, byte_len, utf8_width, length, ltb, ◌==◌, ==_iff, all, arith, Bool-cases,
  &&_iff, Option-cases, ◌||◌, not,
}
use visp.Core.TraceContext.{
  TraceContext, ok, is_hexdigit, lowercase, check_parent, new, split, digit, u8_from_hex,
  from_parts, from_split, from_traceparent,
}

-- A text of `n` hex digits.
abbrev pub IsHex : ℕ → Text → Type 0
IsHex n s = (length s ≡ n) × (all is_hexdigit s ≡ true)

hex-byte_len : (s : Text) → all is_hexdigit s ≡ true → byte_len s ≡ length s
unfolding byte_len utf8_width
hex-byte_len [] h = refl
hex-byte_len (c ∷ s) h =
    let (d, rest) = (&&_iff (is_hexdigit c) (all is_hexdigit s)).0 h in
    ground (arith, hex-byte_len s rest)

split-hex :
    (s rest : Text) → all is_hexdigit s ≡ true → split 45 (s ++ 45 ∷ rest) ≡ s ∷ split 45 rest
unfolding split
split-hex [] rest h = refl
split-hex (c ∷ s) rest h =
    let (d, tail) = (&&_iff (is_hexdigit c) (all is_hexdigit s)).0 h in
    let other : (c == 45) ≡ false = ground arith in rw (other, split-hex s rest tail) refl

split-last : (s : Text) → all is_hexdigit s ≡ true → split 45 s ≡ s ∷ []
unfolding split
split-last [] h = refl
split-last (c ∷ s) h =
    let (d, tail) = (&&_iff (is_hexdigit c) (all is_hexdigit s)).0 h in
    let other : (c == 45) ≡ false = ground arith in rw (other, split-last s tail) refl

digit-lt : (c : ℕ) → is_hexdigit c ≡ true → digit c < 16
digit-lt c h = ground arith

len-hex : (n : ℕ) (s : Text) → IsHex n s → (byte_len s == n) ≡ true
len-hex n s h = let e = hex-byte_len s h.1 in (==_iff (byte_len s) n).1 (e ∙ h.0)

small-ltb : (x : ℕ) → x < 256 → ltb x 256 ≡ true
small-ltb x h = ground arith

flags-hex :
    (a b : ℕ)
    → all is_hexdigit (a ∷ b ∷ []) ≡ true
    → u8_from_hex 0 (a ∷ b ∷ []) ≡ some (digit a * 16 + digit b)
unfolding u8_from_hex
flags-hex a b h =
    let (ha, rest) = (&&_iff (is_hexdigit a) (all is_hexdigit (b ∷ []))).0 h in
    let (hb, _) = (&&_iff (is_hexdigit b) true).0 rest in
    let da = digit-lt a ha in
    let db = digit-lt b hb in
    let first : ltb (0 * 16 + digit a) 256 ≡ true = small-ltb _ (omega arith) in
    let second : ltb ((0 * 16 + digit a) * 16 + digit b) 256 ≡ true = small-ltb _ (omega arith) in
    rw (first, second) (ap some (omega arith))

new-hex :
    (trace_id span_id : Text) (trace_flags : ℕ)
    → IsHex 32 trace_id
    → IsHex 16 span_id
    → new trace_id span_id trace_flags none none
      ≡ ok (record {
        trace_id = lowercase trace_id;
        span_id = lowercase span_id;
        trace_flags = trace_flags;
        trace_state = none;
        parent_span_id = none;
      })
unfolding new check_parent
new-hex trace_id span_id trace_flags t s =
    rw (new, len-hex 32 trace_id t, len-hex 16 span_id s, t.1, s.1) refl

-- `from_traceparent` takes every header `00-<trace id>-<span id>-<flags>` of 32, 16 and 2 hex digits in
-- either case, and returns the ids in lower case, the flags as the number that they write, and neither
-- a trace state nor a parent span.
pub from_traceparent_lem :
    (trace_id span_id : Text) (a b : ℕ)
    → IsHex 32 trace_id
    → IsHex 16 span_id
    → IsHex 2 (a ∷ b ∷ [])
    → from_traceparent (codes "00" ++ 45 ∷ (trace_id ++ 45 ∷ (span_id ++ 45 ∷ a ∷ b ∷ [])))
      ≡ ok (record {
        trace_id = lowercase trace_id;
        span_id = lowercase span_id;
        trace_flags = digit a * 16 + digit b;
        trace_state = none;
        parent_span_id = none;
      })
unfolding from_traceparent from_split from_parts text_eq
from_traceparent_lem trace_id span_id a b t s f =
    let parts : split 45 (codes "00" ++ 45 ∷ (trace_id ++ 45 ∷ (span_id ++ 45 ∷ a ∷ b ∷ [])))
        ≡ codes "00" ∷ trace_id ∷ span_id ∷ (a ∷ b ∷ []) ∷ [] =
      split-hex (codes "00") (trace_id ++ 45 ∷ (span_id ++ 45 ∷ a ∷ b ∷ [])) refl
      ∙ ap (◌∷◌ (codes "00")) (
          split-hex trace_id (span_id ++ 45 ∷ a ∷ b ∷ []) t.1
          ∙ ap (◌∷◌ trace_id) (
              split-hex span_id (a ∷ b ∷ []) s.1
              ∙ ap (◌∷◌ span_id) (split-last (a ∷ b ∷ []) f.1))) in
    ap from_split parts
    ∙ rw (len-hex 2 (a ∷ b ∷ []) f, f.1, flags-hex a b f.1)
        (new-hex trace_id span_id (digit a * 16 + digit b) t s)

-- The ids have 32 and 16 hex digits in lower case, and nothing is left open.
pub record IsWellFormed (tc : TraceContext) : Type 0 where
  pub trace : (t : Text) × IsHex 32 t × (tc.trace_id ≡ lowercase t)
  pub span : (s : Text) × IsHex 16 s × (tc.span_id ≡ lowercase s)
  pub state : tc.trace_state ≡ none
  pub parent : tc.parent_span_id ≡ none

IsHex-len : (n : ℕ) (s : Text) → (byte_len s == n) ≡ true → all is_hexdigit s ≡ true → IsHex n s
IsHex-len n s l h = (sym (hex-byte_len s h) ∙ (==_iff (byte_len s) n).0 l, h)

ok_inj : {a b : TraceContext} → ok a ≡ ok b → a ≡ b
ok_inj e = cc

new-IsWellFormed :
    (trace_id span_id : Text) (trace_flags : ℕ) (tc : TraceContext)
    → new trace_id span_id trace_flags none none ≡ ok tc
    → IsWellFormed tc
unfolding new check_parent
new-IsWellFormed trace_id span_id trace_flags tc e = elim (Bool-cases (byte_len trace_id == 32)) [
  | inr bad ↦ absurd (let e' = rw (new, bad) at e in cc)
  | inl l ↦ elim (Bool-cases (byte_len span_id == 16)) [
    | inr bad ↦ absurd (let e' = rw (new, l, bad) at e in cc)
    | inl k ↦ elim (Bool-cases (all is_hexdigit trace_id)) [
      | inr bad ↦ absurd (let e' = rw (new, l, k, bad) at e in cc)
      | inl h ↦ elim (Bool-cases (all is_hexdigit span_id)) [
        | inr bad ↦ absurd (let e' = rw (new, l, k, h, bad) at e in cc)
        | inl g ↦
            let same = ok_inj (rw (new, l, k, h, g) at e) in
            record {
              trace = (
                trace_id,
                IsHex-len 32 trace_id l h,
                sym (ap (λ (c : TraceContext). c.trace_id) same),
              );
              span = (
                span_id,
                IsHex-len 16 span_id k g,
                sym (ap (λ (c : TraceContext). c.span_id) same),
              );
              state = sym (ap (λ (c : TraceContext). c.trace_state) same);
              parent = sym (ap (λ (c : TraceContext). c.parent_span_id) same);
            }
      ]
    ]
  ]
]

from_parts-IsWellFormed :
    (version trace_id span_id flags_str : Text) (tc : TraceContext)
    → from_parts version trace_id span_id flags_str ≡ ok tc
    → IsWellFormed tc
unfolding from_parts
from_parts-IsWellFormed version trace_id span_id flags_str tc e =
    elim (Bool-cases (text_eq version (codes "00"))) [
      | inr bad ↦ absurd (let e' = rw (from_parts, bad) at e in cc)
      | inl v ↦
          elim (Bool-cases (not (byte_len flags_str == 2) || not (all is_hexdigit flags_str))) [
            | inl bad ↦ absurd (let e' = rw (from_parts, v, bad) at e in cc)
            | inr good ↦ elim (Option-cases (u8_from_hex 0 flags_str)) [
              | inl bad ↦ absurd (let e' = rw (from_parts, v, good, bad) at e in cc)
              | inr (trace_flags, f) ↦
                  new-IsWellFormed trace_id span_id trace_flags tc
                    (rw (from_parts, v, good, f) at e)
            ]
          ]
    ]

from_split-IsWellFormed :
    (parts : List Text) (tc : TraceContext) → from_split parts ≡ ok tc → IsWellFormed tc
unfolding from_split
from_split-IsWellFormed (version ∷ trace_id ∷ span_id ∷ flags_str ∷ []) tc e =
    from_parts-IsWellFormed version trace_id span_id flags_str tc e
from_split-IsWellFormed [] tc e = absurd (cc)
from_split-IsWellFormed (_ ∷ []) tc e = absurd (cc)
from_split-IsWellFormed (_ ∷ _ ∷ []) tc e = absurd (cc)
from_split-IsWellFormed (_ ∷ _ ∷ _ ∷ []) tc e = absurd (cc)
from_split-IsWellFormed (_ ∷ _ ∷ _ ∷ _ ∷ _ ∷ _) tc e = absurd (cc)

-- Whatever header `from_traceparent` takes, the ids that it returns are 32 and 16 hex digits in lower
-- case, without a trace state or a parent span.
pub from_traceparent-IsWellFormed :
    (s : Text) (tc : TraceContext) → from_traceparent s ≡ ok tc → IsWellFormed tc
unfolding from_traceparent
from_traceparent-IsWellFormed s tc e = from_split-IsWellFormed (split 45 s) tc e
