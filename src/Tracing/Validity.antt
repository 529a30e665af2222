-- ===== src/Tracing/Validity.antt =====
-- core/spakky-tracing/src/spakky/tracing/context.py: every header that is accepted is well formed.
use spakky_framework.Common.{
  ℕ, ◌≡◌, refl, Bool, true, false, ◌||◌, inl, inr, Option, none, some, length, All, Bool-cases,
}
use spakky_framework.Effects.{returned, returned_subst}
use spakky_framework.Tracing.Hex.{Text, text_eq, strip, take_hex, take_char, take_end}
use spakky_framework.Tracing.Parsing.{Hex, Digits, take_hex-Digits, int_from-less}
use spakky_framework.Tracing.Context.{
  TraceContext, zero_trace_id, zero_span_id, ◌>>=◌, match_traceparent, from_groups,
  from_traceparent,
}
use spakky_framework.Tracing.RoundTrip.{IsWellFormed}

-- The groups are digits, as many as they should be.
abbrev Matched : Option (Text × Text × Text × Text) → Type 0
Matched none = Unit
Matched (some (v, t, s, f)) =
    (All Hex t × (length t ≡ 32)) × (All Hex s × (length s ≡ 16)) × (All Hex f × (length f ≡ 2))

Matched-bind :
    {A : Type 0} (o : Option A) (then_ : A → Option (Text × Text × Text × Text))
    → ((a : A) → Matched (then_ a))
    → Matched (o >>= then_)
Matched-bind none then_ h = tt
Matched-bind (some a) then_ h = h a

Matched-Digits :
    (n : ℕ) (o : Option (Text × Text)) (then_ : Text × Text → Option (Text × Text × Text × Text))
    → Digits n o
    → ((r : Text × Text) → All Hex r.0 → length r.0 ≡ n → Matched (then_ r))
    → Matched (o >>= then_)
Matched-Digits n none then_ h k = tt
Matched-Digits n (some r) then_ (hs, same) k = k r hs same

match_traceparent-Matched : (text : Text) → Matched (match_traceparent text)
unfolding match_traceparent
match_traceparent-Matched text = Matched-bind (take_hex 2 text) _ (λ v.
    Matched-bind (take_char 45 v.1) _ (λ t1.
      Matched-Digits 32 (take_hex 32 t1) _ (take_hex-Digits 32 t1) (λ t hexes same.
        Matched-bind (take_char 45 t.1) _ (λ t2.
          Matched-Digits 16 (take_hex 16 t2) _ (take_hex-Digits 16 t2) (λ s hexes' same'.
            Matched-bind (take_char 45 s.1) _ (λ t3.
              Matched-Digits 2 (take_hex 2 t3) _ (take_hex-Digits 2 t3) (λ f hexes'' same''.
                Matched-bind (take_end f.1) _
                  (λ _. ((hexes, same), (hexes', same'), (hexes'', same''))))))))))

or-false : (a b : Bool) → (a || b) ≡ false → (a ≡ false) × (b ≡ false)
or-false true b h = absurd (cc h)
or-false false b h = (refl, h)

from_groups-IsWellFormed :
    (groups : Option (Text × Text × Text × Text)) (ctx : TraceContext)
    → Matched groups
    → from_groups groups ≡ returned ctx
    → IsWellFormed ctx
unfolding from_groups
from_groups-IsWellFormed none ctx _ h = absurd (cc h)
from_groups-IsWellFormed (some (v, t, s, f)) ctx (ts, ss, fs) h =
    elim (Bool-cases (text_eq t zero_trace_id || text_eq s zero_span_id)) [
      | inl zero ↦ absurd (cc (rw zero at h))
      | inr nonzero ↦
          let apart = or-false (text_eq t zero_trace_id) (text_eq s zero_span_id) nonzero in
          returned_subst IsWellFormed (rw nonzero at h) (record {
            trace_id-Hex = ts.0;
            trace_id_length = ts.1;
            trace_id_nonzero = apart.0;
            span_id-Hex = ss.0;
            span_id_length = ss.1;
            span_id_nonzero = apart.1;
            flags_less = int_from-less f fs.0 fs.1;
          })
    ]

-- Every context that a header is parsed to is well formed, whatever the text of the header is.
pub from_traceparent-IsWellFormed :
    (header : Text) (ctx : TraceContext) → from_traceparent header ≡ returned ctx → IsWellFormed ctx
unfolding from_traceparent
from_traceparent-IsWellFormed header ctx h =
    from_groups-IsWellFormed (match_traceparent (strip header)) ctx
      (match_traceparent-Matched (strip header)) h
