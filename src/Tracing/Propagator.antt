-- ===== src/Tracing/Propagator.antt =====
-- core/spakky-tracing/src/spakky/tracing/w3c_propagator.py: the header in a carrier.
use spakky_framework.Common.{String, Option, none, some, List, dict_get, dict_set}
use spakky_framework.Effects.{returned, raised}
use spakky_framework.Tracing.Hex.{Text}
use spakky_framework.Tracing.Context.{TraceContext, to_traceparent, from_traceparent}

abbrev pub Carrier : Type 0
Carrier = List (String × Text)

abbrev pub traceparent_header : String
traceparent_header = "traceparent"

-- `inject`, on the current context.
unfoldable pub inject : Option TraceContext → Carrier → Carrier
unfolding dict_set to_traceparent
inject none carrier = carrier
inject (some ctx) carrier = dict_set traceparent_header (to_traceparent ctx) carrier

-- `try: return from_traceparent(header) except Exception: return None`
unfoldable pub extract_header : Option Text → Option TraceContext
unfolding from_traceparent
extract_header none = none
extract_header (some header) = elim (from_traceparent header) [
  | returned ctx ↦ some ctx
  | raised e ↦ none
]

unfoldable pub extract : Carrier → Option TraceContext
unfolding extract_header dict_get
extract carrier = extract_header (dict_get traceparent_header carrier)
