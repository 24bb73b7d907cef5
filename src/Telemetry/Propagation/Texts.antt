-- ===== src/Telemetry/Propagation/Texts.antt =====
-- The texts of the trace headers of crates/telemetry/src/propagation.rs, and what is documented of
-- headers and propagators.
use servr.Common.{
  in_range, ◌⊎◌, All-append, ℕ, ◌≡◌, refl, sym, ap, subst, ◌∙◌, Bool, true, Option, some, List, [],
  ◌∷◌, ◌++◌, Bytes, bytes, bytes_eq, split, split-append, split_none, Lacks, All, ◌==◌, is_hex,
  encode_hex, encode_hex-All, AreBytes, inl, inr, arith,
}
use servr.Core.Trace.{IsId, trace_len, span_len, is_valid as is_valid_id}
use servr.Telemetry.Propagation.{traceparent, Headers, Propagator}

-- The header of a span's ids in version 00, with the two digits of its flags.
abbrev pub header_text : Bytes → Bytes → Bytes → Bytes
header_text trace span flags =
    bytes "00" ++ b'-' ∷ (encode_hex trace ++ b'-' ∷ (encode_hex span ++ b'-' ∷ flags))

hex_no_dash : (cs : Bytes) → All (λ c. is_hex c ≡ true) cs → Lacks (λ c. c == b'-') cs
hex_no_dash [] h = tt
hex_no_dash (c ∷ cs) h = let digit = h.0 in (ground arith, hex_no_dash cs h.1)

pub split-header_text :
    (trace span flags : Bytes)
    → AreBytes trace
    → AreBytes span
    → Lacks (λ c. c == b'-') flags
    → split b'-' (header_text trace span flags)
      ≡ bytes "00" ∷ encode_hex trace ∷ encode_hex span ∷ flags ∷ []
split-header_text trace span flags ht hs hf =
    split-append b'-' (bytes "00") (encode_hex trace ++ b'-' ∷ (encode_hex span ++ b'-' ∷ flags))
      (refl, (refl, tt))
    ∙ ap (λ ps. bytes "00" ∷ ps)
        (split-append b'-' (encode_hex trace) (encode_hex span ++ b'-' ∷ flags)
            (hex_no_dash _ (encode_hex-All trace ht))
          ∙ ap (λ ps. encode_hex trace ∷ ps)
              (split-append b'-' (encode_hex span) flags (hex_no_dash _ (encode_hex-All span hs))
                ∙ ap (λ ps. encode_hex span ∷ ps) (split_none b'-' flags hf)))

abbrev pub is_visible : ℕ → Bool
is_visible c = in_range 32 126 c

hex_visible : (cs : Bytes) → All (λ c. is_hex c ≡ true) cs → All (λ c. is_visible c ≡ true) cs
hex_visible [] h = tt
hex_visible (c ∷ cs) h = let digit = h.0 in (ground arith, hex_visible cs h.1)

-- Not sampled, or sampled.
abbrev pub IsFlags : Bytes → Type 0
IsFlags flags = (flags ≡ bytes "00") ⊎ (flags ≡ bytes "01")

flags_visible : (flags : Bytes) → IsFlags flags → All (λ c. is_visible c ≡ true) flags
flags_visible flags (inl e) = subst (All (λ c. is_visible c ≡ true)) (sym e) (refl, (refl, tt))
flags_visible flags (inr e) = subst (All (λ c. is_visible c ≡ true)) (sym e) (refl, (refl, tt))

pub flags_no_dash : (flags : Bytes) → IsFlags flags → Lacks (λ c. c == b'-') flags
flags_no_dash flags (inl e) = subst (Lacks (λ c. c == b'-')) (sym e) (refl, (refl, tt))
flags_no_dash flags (inr e) = subst (Lacks (λ c. c == b'-')) (sym e) (refl, (refl, tt))

pub header_text_visible :
    (trace span flags : Bytes)
    → AreBytes trace
    → AreBytes span
    → IsFlags flags
    → All (λ c. is_visible c ≡ true) (header_text trace span flags)
header_text_visible trace span flags ht hs hf =
    let visible : Bytes → Type 0 = λ cs. All (λ c. is_visible c ≡ true) cs in
    let ends : visible (encode_hex span ++ b'-' ∷ flags) =
      All-append _ (encode_hex span) (b'-' ∷ flags) (hex_visible _ (encode_hex-All span hs))
        (refl, flags_visible flags hf) in
    let ids : visible (encode_hex trace ++ b'-' ∷ (encode_hex span ++ b'-' ∷ flags)) =
      All-append _ (encode_hex trace) (b'-' ∷ (encode_hex span ++ b'-' ∷ flags))
        (hex_visible _ (encode_hex-All trace ht)) (refl, ends) in
    (refl, (refl, (refl, ids)))

-- The texts of header values, as the http crate documents them.
pub record HeaderLaws (headers_of : Headers) : Type 0 where
  pub accepts :
      (text : Bytes)
      → All (λ c. is_visible c ≡ true) text
      → (v : headers_of.HeaderValue) × (headers_of.from_str text ≡ some v)
  pub shows :
      (text : Bytes) (v : headers_of.HeaderValue)
      → headers_of.from_str text ≡ some v
      → headers_of.to_str v ≡ some text
  pub named : headers_of.is_name traceparent ≡ true

-- A span's ids have their lengths, and neither is all zeros.
pub record AreIds (trace span : Bytes) : Type 0 where
  pub trace_size : IsId trace_len trace
  pub span_size : IsId span_len span
  pub trace_valid : is_valid_id trace_len trace ≡ true
  pub span_valid : is_valid_id span_len span ≡ true

-- The propagator, as W3C trace context and opentelemetry have it.
pub record Follows (p : Propagator) : Type 0 where
  pub valid_iff :
      (trace span : Bytes)
      → AreIds trace span
      → p.is_valid (record { trace_id = trace; span_id = span }) ≡ true
  pub valid_ids :
      (c : p.Context)
      → p.is_valid (p.span_context c) ≡ true
      → AreIds (p.span_context c).trace_id (p.span_context c).span_id
  pub reads :
      (get : Bytes → Option Bytes) (keys : List Bytes) (trace span flags : Bytes)
      → AreIds trace span
      → IsFlags flags
      → get traceparent ≡ some (header_text trace span flags)
      → p.span_context (p.extract_from get keys) ≡ record { trace_id = trace; span_id = span }
  pub writes :
      (c : p.Context)
      → p.is_valid (p.span_context c) ≡ true
      → (flags : Bytes) × (state : Bytes) × IsFlags flags
        × (p.fields_of c
            ≡ (
              traceparent,
              header_text (p.span_context c).trace_id (p.span_context c).span_id flags,
            )
              ∷ (bytes "tracestate", state)
              ∷ [])
