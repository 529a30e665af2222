-- ===== src/Tracing/RoundTrip.antt =====
-- core/spakky-tracing/src/spakky/tracing/context.py and w3c_propagator.py: a header that is written
-- is read again.
use Prim.Native.Nat.{◌/◌, ◌%◌}
use mathlib.Core.List.{reverse-append, reverse-reverse}
use spakky_framework.Common.{
  ℕ, ◌<◌, ◌≡◌, refl, sym, ap, ◌∙◌, false, none, some, [], ◌∷◌, ◌++◌, append_assoc,
  dict_get-dict_set, length, All, reverse, arith,
}
use spakky_framework.Effects.{returned, raised}
use spakky_framework.Tracing.Hex.{
  Text, text_eq, is_space, hex_digit, int_from, strip_left, strip, take_hex, take_char, take_end,
}
use spakky_framework.Tracing.Parsing.{
  Hex, take_hex-append, hex_digit-Hex, digit_value-hex_digit, hex_digit-not_space,
  format_02x-digits,
}
use spakky_framework.Tracing.Context.{
  TraceContext, zero_trace_id, zero_span_id, to_traceparent, match_traceparent, from_groups,
  from_traceparent,
}
use spakky_framework.Tracing.Propagator.{
  Carrier, traceparent_header, inject, extract_header, extract,
}

-- The identifiers are digits, as many as they should be and not all zero; the flags fit a byte.
pub record IsWellFormed (ctx : TraceContext) : Type 0 where
  pub trace_id-Hex : All Hex ctx.trace_id
  pub trace_id_length : length ctx.trace_id ≡ 32
  pub trace_id_nonzero : text_eq ctx.trace_id zero_trace_id ≡ false
  pub span_id-Hex : All Hex ctx.span_id
  pub span_id_length : length ctx.span_id ≡ 16
  pub span_id_nonzero : text_eq ctx.span_id zero_span_id ≡ false
  pub flags_less : ctx.trace_flags < 256

strip_left-keep : (c : ℕ) (text : Text) → is_space c ≡ false → strip_left (c ∷ text) ≡ c ∷ text
unfolding strip_left
strip_left-keep c text h = rw h refl

-- Nothing is stripped from a text with no space at either end.
strip-same :
    (c : ℕ) (mid : Text) (d : ℕ)
    → is_space c ≡ false
    → is_space d ≡ false
    → strip (c ∷ mid ++ d ∷ []) ≡ c ∷ mid ++ d ∷ []
unfolding strip
strip-same c mid d first last =
    let turned = reverse-append (c ∷ mid) (d ∷ []) in
    ap (λ t. reverse (strip_left (reverse t))) (strip_left-keep c (mid ++ d ∷ []) first)
    ∙ ap (λ t. reverse (strip_left t)) turned
    ∙ ap reverse (strip_left-keep d (reverse (c ∷ mid)) last)
    ∙ ap reverse (sym turned)
    ∙ reverse-reverse (c ∷ mid ++ d ∷ [])

module _ (ctx : TraceContext) (formed : IsWellFormed ctx) where
  abbrev flags : Text
  flags = hex_digit (ctx.trace_flags / 16) ∷ hex_digit (ctx.trace_flags % 16) ∷ []

  digits : All Hex flags
  digits =
      let low = hex_digit-Hex (ctx.trace_flags % 16) (omega arith) in
      (hex_digit-Hex (ctx.trace_flags / 16) (omega (arith, formed.flags_less)), (low, tt))

  match-groups :
      match_traceparent (48 ∷ 48 ∷ 45 ∷ (ctx.trace_id ++ 45 ∷ (ctx.span_id ++ 45 ∷ flags)))
      ≡ some (48 ∷ 48 ∷ [], ctx.trace_id, ctx.span_id, flags)
  unfolding match_traceparent take_hex take_char take_end
  match-groups =
      let e1 =
        take_hex-append 32 ctx.trace_id (45 ∷ (ctx.span_id ++ 45 ∷ flags)) formed.trace_id-Hex
          formed.trace_id_length in
      let e2 =
        take_hex-append 16 ctx.span_id (45 ∷ flags) formed.span_id-Hex formed.span_id_length in
      let e3 = take_hex-append 2 flags [] digits refl in rw (e1, e2, e3) refl

  abbrev printed : Text
  printed = 48 ∷ 48 ∷ 45 ∷ (ctx.trace_id ++ 45 ∷ (ctx.span_id ++ 45 ∷ flags))

  to_traceparent-printed : to_traceparent ctx ≡ printed
  unfolding to_traceparent
  to_traceparent-printed =
      ap (λ f. 48 ∷ 48 ∷ 45 ∷ (ctx.trace_id ++ 45 ∷ (ctx.span_id ++ 45 ∷ f)))
        (format_02x-digits ctx.trace_flags formed.flags_less)

  abbrev inner : Text
  inner =
      48 ∷ 45 ∷ (ctx.trace_id ++ 45 ∷ (ctx.span_id ++ 45 ∷ hex_digit (ctx.trace_flags / 16) ∷ []))

  inner-printed : 48 ∷ inner ++ hex_digit (ctx.trace_flags % 16) ∷ [] ≡ printed
  inner-printed =
      let low = hex_digit (ctx.trace_flags % 16) ∷ [] in
      let high = hex_digit (ctx.trace_flags / 16) ∷ [] in
      ap (λ t. 48 ∷ 48 ∷ 45 ∷ t) (append_assoc ctx.trace_id (45 ∷ (ctx.span_id ++ 45 ∷ high)) low)
      ∙ ap (λ t. 48 ∷ 48 ∷ 45 ∷ (ctx.trace_id ++ 45 ∷ t)) (append_assoc ctx.span_id (45 ∷ high) low)

  strip-printed : strip printed ≡ printed
  strip-printed =
      ap strip (sym inner-printed)
      ∙ strip-same 48 inner (hex_digit (ctx.trace_flags % 16)) refl
          (hex_digit-not_space (ctx.trace_flags % 16) (omega arith))
      ∙ inner-printed

  int_from-flags : int_from 0 flags ≡ ctx.trace_flags
  unfolding int_from
  int_from-flags =
      let high = digit_value-hex_digit (ctx.trace_flags / 16) (omega (arith, formed.flags_less)) in
      let low = digit_value-hex_digit (ctx.trace_flags % 16) (omega arith) in
      omega (arith, high, low)

  abbrev pub without_parent : TraceContext
  without_parent = record ctx { parent_span_id = none }

  from_groups-flags :
      from_groups (some (48 ∷ 48 ∷ [], ctx.trace_id, ctx.span_id, flags)) ≡ returned without_parent
  unfolding from_groups
  from_groups-flags =
      rw (formed.trace_id_nonzero, formed.span_id_nonzero)
        (ap
          (λ n. returned (record {
            trace_id = ctx.trace_id;
            span_id = ctx.span_id;
            parent_span_id = none;
            trace_flags = n;
          }))
          int_from-flags)

  from_traceparent-to_traceparent : from_traceparent (to_traceparent ctx) ≡ returned without_parent
  unfolding from_traceparent
  from_traceparent-to_traceparent =
      ap (λ t. from_groups (match_traceparent (strip t))) to_traceparent-printed
      ∙ ap (λ t. from_groups (match_traceparent t)) strip-printed
      ∙ ap from_groups match-groups
      ∙ from_groups-flags

  -- A context that is injected into a carrier, whatever the carrier held, is extracted again, with
  -- its identifiers and flags and without its parent. It holds for a well-formed context.
  pub extract-inject :
      (carrier : Carrier) → extract (inject (some ctx) carrier) ≡ some without_parent
  unfolding extract inject extract_header
  extract-inject carrier =
      ap extract_header (dict_get-dict_set traceparent_header (to_traceparent ctx) carrier)
      ∙ ap (λ r. elim r [ returned c ↦ some c | raised e ↦ none ]) from_traceparent-to_traceparent
