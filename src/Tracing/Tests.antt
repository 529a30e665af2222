-- ===== src/Tracing/Tests.antt =====
-- core/spakky-tracing/src/spakky/tracing: a context, its header, and headers that are refused.
use spakky_framework.Common.{◌≡◌, refl, none, some, [], ◌∷◌, ◌++◌, replicate}
use spakky_framework.Effects.{returned, raised, invalid_traceparent}
use spakky_framework.Tracing.Hex.{
  Text, int_from, format_x, format_02x, strip_left, strip, take_hex, take_char, take_end,
}
use spakky_framework.Tracing.Context.{
  TraceContext, to_traceparent, match_traceparent, from_groups, from_traceparent,
}
use spakky_framework.Tracing.Propagator.{inject, extract}
use spakky_framework.Tracing.RoundTrip.{IsWellFormed, extract-inject}
use spakky_framework.Tracing.Validity.{from_traceparent-IsWellFormed}

-- The identifiers abab... and 7f7f..., sampled.
abbrev sampled : TraceContext
sampled = record {
  trace_id = replicate 31 97 ++ 98 ∷ [];
  span_id = replicate 15 55 ++ 102 ∷ [];
  parent_span_id = none;
  trace_flags = 1;
}

parsing : Unit {0}
unfolding int_from format_x format_02x strip_left strip take_hex take_char take_end to_traceparent
    match_traceparent from_groups from_traceparent
parsing = tt

abbrev header : Text
header =
    32
    ∷ 48
    ∷ 48
    ∷ 45
    ∷ (replicate 31 97 ++ 98 ∷ 45 ∷ (replicate 15 55 ++ 102 ∷ 45 ∷ 48 ∷ 49 ∷ 10 ∷ []))

-- Spaces and newlines around a header are stripped.
accepted : from_traceparent header ≡ returned sampled
unfolding parsing
accepted = refl

-- Identifiers that are zero are refused, and so are upper-case digits.
zero_refused :
    from_traceparent
      (48 ∷ 48 ∷ 45 ∷ (replicate 32 48 ++ 45 ∷ (replicate 16 55 ++ 45 ∷ 48 ∷ 49 ∷ [])))
    ≡ raised invalid_traceparent
unfolding parsing
zero_refused = refl

upper_refused :
    from_traceparent
      (48 ∷ 48 ∷ 45 ∷ (replicate 32 65 ++ 45 ∷ (replicate 16 55 ++ 45 ∷ 48 ∷ 49 ∷ [])))
    ≡ raised invalid_traceparent
unfolding parsing
upper_refused = refl

from_traceparent-IsWellFormed_example : IsWellFormed sampled
from_traceparent-IsWellFormed_example = from_traceparent-IsWellFormed header sampled accepted

extract-inject_example : extract (inject (some sampled) (("traceparent", []) ∷ [])) ≡ some sampled
extract-inject_example =
    extract-inject sampled from_traceparent-IsWellFormed_example (("traceparent", []) ∷ [])
