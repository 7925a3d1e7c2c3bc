-- ===== src/Tests/Traces.antt =====
-- A `traceparent` header for crates/visp-core/src/trace_context.rs.
use visp.Base.{◌≡◌, refl, none, ◌∷◌, ◌++◌, [], Text, codes}
use visp.Core.TraceContext.{TraceContext, ok, lowercase, from_traceparent}
use visp.Core.TraceContext.Header.{
  IsHex, IsWellFormed, from_traceparent_lem, from_traceparent-IsWellFormed,
}

abbrev sample_trace : Text
sample_trace = codes "0AF7651916cd43dd8448eb211c80319c"

abbrev sample_span : Text
sample_span = codes "b7ad6b7169203331"

abbrev sample_header : Text
sample_header = codes "00" ++ 45 ∷ (sample_trace ++ 45 ∷ (sample_span ++ 45 ∷ 48 ∷ 49 ∷ []))

abbrev sample_context : TraceContext
sample_context = record {
  trace_id = lowercase sample_trace;
  span_id = lowercase sample_span;
  trace_flags = 1;
  trace_state = none;
  parent_span_id = none;
}

trace-IsHex : IsHex 32 sample_trace
trace-IsHex = (refl, refl)

span-IsHex : IsHex 16 sample_span
span-IsHex = (refl, refl)

header_taken : from_traceparent sample_header ≡ ok sample_context
header_taken =
    from_traceparent_lem sample_trace sample_span 48 49 trace-IsHex span-IsHex (refl, refl)

from_traceparent_lem_example : from_traceparent sample_header ≡ ok sample_context
from_traceparent_lem_example =
    from_traceparent_lem sample_trace sample_span 48 49 trace-IsHex span-IsHex (refl, refl)

from_traceparent-IsWellFormed_example : IsWellFormed sample_context
from_traceparent-IsWellFormed_example =
    from_traceparent-IsWellFormed sample_header sample_context header_taken
