-- ===== src/Tracing/Context.antt =====
-- core/spakky-tracing/src/spakky/tracing/context.py: TraceContext.
use spakky_framework.Common.{ℕ, ◌||◌, Option, none, some, ◌∷◌, ◌++◌, replicate, if◌then◌else◌}
use spakky_framework.Effects.{Result, returned, raised, invalid_traceparent, Io, and_then, return_}
use spakky_framework.Tracing.Hex.{
  Text, text_eq, int_from, format_02x, strip, take_hex, take_char, take_end,
}

pub record TraceContext : Type 0 where
  pub trace_id : Text
  pub span_id : Text
  pub parent_span_id : Option Text
  pub trace_flags : ℕ

-- `_ZERO_TRACE_ID` and `_ZERO_SPAN_ID`
abbrev pub zero_trace_id : Text
zero_trace_id = replicate 32 48

abbrev pub zero_span_id : Text
zero_span_id = replicate 16 48

-- `f"00-{trace_id}-{span_id}-{trace_flags:02x}"`
unfoldable pub to_traceparent : TraceContext → Text
unfolding format_02x
to_traceparent ctx =
    48 ∷ 48 ∷ 45 ∷ (ctx.trace_id ++ 45 ∷ (ctx.span_id ++ 45 ∷ format_02x ctx.trace_flags))

-- What follows where a part of the pattern matched.
infixl 5 ◌>>=◌
abbrev pub ◌>>=◌ : {A B : Type 0} → Option A → (A → Option B) → Option B
none >>= f = none
some a >>= f = f a

-- `_TRACEPARENT_PATTERN.match(text)`: the groups.
unfoldable pub match_traceparent : Text → Option (Text × Text × Text × Text)
unfolding take_hex take_char take_end
match_traceparent text = do
  v ← take_hex 2 text
  t1 ← take_char 45 v.1
  t ← take_hex 32 t1
  t2 ← take_char 45 t.1
  s ← take_hex 16 t2
  t3 ← take_char 45 s.1
  f ← take_hex 2 t3
  _ ← take_end f.1
  some (v.0, t.0, s.0, f.0)

-- The rest of `from_traceparent`, on the groups.
unfoldable pub from_groups : Option (Text × Text × Text × Text) → Result TraceContext
unfolding int_from
from_groups none = raised invalid_traceparent
from_groups (some (version, trace_id, span_id, flags_hex)) =
    if text_eq trace_id zero_trace_id || text_eq span_id zero_span_id
    then raised invalid_traceparent
    else returned (record {
      trace_id = trace_id;
      span_id = span_id;
      parent_span_id = none;
      trace_flags = int_from 0 flags_hex;
    })

unfoldable pub from_traceparent : Text → Result TraceContext
unfolding from_groups match_traceparent strip
from_traceparent header = from_groups (match_traceparent (strip header))

-- `token_hex`, of the standard library, gives twice as many random digits.
module _ {W : Type 0} (token_hex : ℕ → Io W Text) where
  unfoldable pub new_root : Io W TraceContext
  new_root = and_then (token_hex 16) (λ trace_id. and_then (token_hex 8) (λ span_id.
      return_ (record {
        trace_id = trace_id;
        span_id = span_id;
        parent_span_id = none;
        trace_flags = 1;
      })))

  unfoldable pub child : TraceContext → Io W TraceContext
  child ctx = and_then (token_hex 8) (λ span_id. return_ (record {
    trace_id = ctx.trace_id;
    span_id = span_id;
    parent_span_id = some ctx.span_id;
    trace_flags = ctx.trace_flags;
  }))
