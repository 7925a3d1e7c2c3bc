-- ===== src/Core/TraceContext.antt =====
-- crates/visp-core/src/trace_context.rs: the W3C trace context of a request and the `traceparent` header
-- that it is read from.
pub mod Header
use visp.Base.{
  ℕ, zero, suc, ◌+◌, ◌-◌, ◌*◌, Bool, true, false, not, ◌&&◌, ◌||◌, Option, none, some, List, [],
  ◌∷◌, ◌++◌, map, Text, codes, text_eq, byte_len, if◌then◌else◌, leb, ltb, ◌==◌, all,
}
use visp.Core.ToolRegistry.{ascii_lower}

pub data TraceContextError : Type 0 where
  invalid_trace_id_length invalid_span_id_length invalid_traceparent invalid_hex : TraceContextError

pub record TraceContext : Type 0 where
  pub trace_id : Text
  pub span_id : Text
  pub trace_flags : ℕ
  pub trace_state : Option Text
  pub parent_span_id : Option Text

pub data Parsed : Type 0 where
  ok : TraceContext → Parsed
  err : TraceContextError → Parsed

-- `char::is_ascii_hexdigit`
abbrev pub is_hexdigit : ℕ → Bool
is_hexdigit c = (leb 48 c && leb c 57) || ((leb 65 c && leb c 70) || (leb 97 c && leb c 102))

abbrev pub lowercase : Text → Text
lowercase = map ascii_lower

-- The test of a parent span id, where there is one.
unfoldable check_parent : Option Text → Option TraceContextError
check_parent none = none
check_parent (some psid) =
    if not (byte_len psid == 16)
    then some invalid_span_id_length
    else if not (all is_hexdigit psid)
    then some invalid_hex
    else none

abbrev lowercase_option : Option Text → Option Text
lowercase_option none = none
lowercase_option (some s) = some (lowercase s)

unfoldable pub new :
    (trace_id span_id : Text) (trace_flags : ℕ) (trace_state parent_span_id : Option Text) → Parsed
unfolding check_parent
new trace_id span_id trace_flags trace_state parent_span_id =
    if not (byte_len trace_id == 32)
    then err invalid_trace_id_length
    else if not (byte_len span_id == 16)
    then err invalid_span_id_length
    else if not (all is_hexdigit trace_id)
    then err invalid_hex
    else if not (all is_hexdigit span_id)
    then err invalid_hex
    else elim (check_parent parent_span_id) [
      | some e ↦ err e
      | none ↦ ok (record {
        trace_id = lowercase trace_id;
        span_id = lowercase span_id;
        trace_flags = trace_flags;
        trace_state = trace_state;
        parent_span_id = lowercase_option parent_span_id;
      })
    ]

-- `str::split` at one character.
unfoldable pub split : ℕ → Text → List Text
split sep [] = [] ∷ []
split sep (c ∷ s) =
    let rest = split sep s in
    if c == sep then [] ∷ rest else elim rest [ [] ↦ (c ∷ []) ∷ [] | p ∷ ps ↦ (c ∷ p) ∷ ps ]

abbrev pub digit : ℕ → ℕ
digit c = if leb c 57 then c - 48 else if leb c 70 then c - 55 else c - 87

-- `u8::from_str_radix` of hex digits, which fails on overflow.
unfoldable pub u8_from_hex : ℕ → Text → Option ℕ
u8_from_hex value [] = some value
u8_from_hex value (c ∷ s) =
    let next = value * 16 + digit c in if ltb next 256 then u8_from_hex next s else none

-- The part of `from_traceparent` behind the split.
unfoldable pub from_parts : Text → Text → Text → Text → Parsed
unfolding new u8_from_hex
from_parts version trace_id span_id flags_str =
    if not (text_eq version (codes "00"))
    then err invalid_traceparent
    else if not (byte_len flags_str == 2) || not (all is_hexdigit flags_str)
    then err invalid_traceparent
    else elim (u8_from_hex 0 flags_str) [
      | none ↦ err invalid_traceparent
      | some trace_flags ↦ new trace_id span_id trace_flags none none
    ]

-- The test of the number of parts.
unfoldable pub from_split : List Text → Parsed
unfolding from_parts
from_split (version ∷ trace_id ∷ span_id ∷ flags_str ∷ []) =
    from_parts version trace_id span_id flags_str
from_split _ = err invalid_traceparent

unfoldable pub from_traceparent : Text → Parsed
unfolding split from_split
from_traceparent s = from_split (split 45 s)
