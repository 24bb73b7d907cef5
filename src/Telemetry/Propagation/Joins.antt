-- ===== src/Telemetry/Propagation/Joins.antt =====
-- Whether a trace is joined across the headers of crates/telemetry/src/propagation.rs.
use servr.Common.{
  Option-cases, ◌⊎◌, ◌≡◌, refl, sym, ap, ◌∙◌, true, false, Option, none, some, [], ◌∷◌, Bytes,
  bytes, lookup, insert, lookup-insert, bytes_eq, split, All, AreBytes, Bool-cases, inl, inr, arith,
}
use servr.Core.Float.{Float}
use servr.Core.Fault.{TelemetryFault}
use servr.Telemetry.Propagation.{
  traceparent, Headers, Propagator, and_str, HeaderMap, get, keys, set, set_all, replacement,
  put_value, mangle, extract, inject, ids_of, spares, extract_faulted,
}
use servr.Telemetry.Propagation.Texts.{
  header_text, split-header_text, is_visible, IsFlags, flags_no_dash, header_text_visible,
  HeaderLaws, AreIds, Follows,
}

module _ (headers_of : Headers) (p : Propagator) (laws : HeaderLaws headers_of)
    (w3c : Follows p) where
  open headers_of use {HeaderValue, to_str, from_str}

  abbrev Map : Type 0
  Map = HeaderMap headers_of

  extract_ids :
      (headers : Map) (trace span flags : Bytes)
      → AreIds trace span
      → IsFlags flags
      → get headers_of headers traceparent ≡ some (header_text trace span flags)
      → ids_of headers_of p (extract headers_of p headers) ≡ some (trace, span)
  unfolding extract ids_of
  extract_ids headers trace span flags ids f e =
      rw
        (
          w3c.reads (get headers_of headers) (keys headers_of headers) trace span flags ids f e,
          w3c.valid_iff trace span ids,
        )
        refl

  mangle_lem :
      (headers : Map) (v w : HeaderValue) (trace span flags random : Bytes)
      → AreIds trace span
      → IsFlags flags
      → lookup traceparent headers ≡ some v
      → to_str v ≡ some (header_text trace span flags)
      → from_str (header_text random span flags) ≡ some w
      → mangle headers_of headers random ≡ insert traceparent w headers
  unfolding mangle
  mangle_lem headers v w trace span flags random ids f there shown made =
      let parts =
        split-header_text trace span flags ids.trace_size.are_bytes ids.span_size.are_bytes
          (flags_no_dash flags f) in
      ap mangled (ap (and_str to_str) there ∙ shown)
      ∙ ap (λ ps. put_value headers_of headers (replacement headers_of ps random)) parts
      ∙ rw (put_value, made) refl
    where
      mangled : Option Bytes → Map
      mangled none = headers
      mangled (some text) =
          put_value headers_of headers (replacement headers_of (split b'-' text) random)

  mangle_get :
      (headers : Map) (v : HeaderValue) (trace span flags random : Bytes)
      → AreIds trace span
      → IsFlags flags
      → AreBytes random
      → lookup traceparent headers ≡ some v
      → to_str v ≡ some (header_text trace span flags)
      → get headers_of (mangle headers_of headers random) traceparent
        ≡ some (header_text random span flags)
  unfolding get
  mangle_get headers v trace span flags random ids f r there shown =
      let text = header_text random span flags in
      let (w, made) =
        laws.accepts text (header_text_visible random span flags r ids.span_size.are_bytes f) in
      rw (mangle_lem headers v w trace span flags random ids f there shown made) (
        ap (and_str to_str) (lookup-insert traceparent traceparent w headers)
        ∙ laws.shows text w made)

  set-some :
      (headers : Map) (key text : Bytes) (w : HeaderValue)
      → from_str text ≡ some w
      → headers_of.is_name key ≡ true
      → set headers_of headers key text ≡ insert key w headers
  unfolding set
  set-some headers key text w e named = rw (set, e, named) refl

  set-none :
      (headers : Map) (key text : Bytes)
      → (from_str text ≡ none) ⊎ (headers_of.is_name key ≡ false)
      → set headers_of headers key text ≡ headers
  unfolding set
  set-none headers key text (inl e) = rw (set, e) refl
  set-none headers key text (inr e) = elim (Option-cases (from_str text)) [
    | inl f ↦ rw (set, f) refl
    | inr (w, f) ↦ rw (set, f, e) refl
  ]

  -- Another field does not hide the trace context.
  set_state :
      (headers : Map) (state : Bytes)
      → get headers_of (set headers_of headers (bytes "tracestate") state) traceparent
        ≡ get headers_of headers traceparent
  unfolding get set
  set_state headers state = elim (Option-cases (from_str state)) [
    | inl e ↦ ap shown (set-none headers (bytes "tracestate") state (inl e))
    | inr (w, e) ↦ elim (Bool-cases (headers_of.is_name (bytes "tracestate"))) [
      | inl named ↦
          ap shown (set-some headers (bytes "tracestate") state w e named)
          ∙ ap (and_str to_str) (lookup-insert (bytes "tracestate") traceparent w headers)
      | inr unnamed ↦ ap shown (set-none headers (bytes "tracestate") state (inr unnamed))
    ]
  ]
    where
      shown : Map → Option Bytes
      shown m = and_str to_str (lookup traceparent m)

  set-traceparent :
      (headers : Map) (text : Bytes)
      → All (λ c. is_visible c ≡ true) text
      → get headers_of (set headers_of headers traceparent text) traceparent ≡ some text
  unfolding get
  set-traceparent headers text h =
      let (w, made) = laws.accepts text h in
      rw (set-some headers traceparent text w made laws.named) (
        ap (and_str to_str) (lookup-insert traceparent traceparent w headers)
        ∙ laws.shows text w made)

  set_both :
      (headers : Map) (text state : Bytes)
      → All (λ c. is_visible c ≡ true) text
      → get headers_of
          (set_all headers_of headers ((traceparent, text) ∷ (bytes "tracestate", state) ∷ []))
          traceparent
        ≡ some text
  unfolding set_all
  set_both headers text state h =
      set_state (set headers_of headers traceparent text) state ∙ set-traceparent headers text h

  -- A context of a valid span that is injected into the headers of a request, whatever they held,
  -- is continued by who extracts it from them: both have the same trace and span.
  pub extract-inject :
      (c : p.Context) (headers : Map)
      → p.is_valid (p.span_context c) ≡ true
      → ids_of headers_of p (extract headers_of p (inject headers_of p c headers))
        ≡ ids_of headers_of p c
  unfolding inject
  extract-inject c headers h =
      let sc = p.span_context c in
      let (flags, state, f, fields) = w3c.writes c h in
      let ids = w3c.valid_ids c h in
      let text = header_text sc.trace_id sc.span_id flags in
      let visible =
        header_text_visible sc.trace_id sc.span_id flags ids.trace_size.are_bytes
          ids.span_size.are_bytes f in
      let there =
        ap (λ fs. get headers_of (set_all headers_of headers fs) traceparent) fields
        ∙ set_both headers text state visible in
      extract_ids (set_all headers_of headers (p.fields_of c)) sc.trace_id sc.span_id flags ids f
        there
      ∙ sym (unfold ids_of in rw h refl)

  module _ (float : Float) where
    -- Of a client's valid `traceparent` with trace and span, an extraction keeps both where the
    -- fault is off, its rate is not above zero, or the roll is not below the rate. Else it keeps
    -- the span and takes the random trace: the join is severed, and the context is still valid.
    pub extract_faulted_ids :
        (headers : Map) (v : HeaderValue) (trace span flags random : Bytes)
        (fault : TelemetryFault float) (roll : float.F64)
        → AreIds trace span
        → AreIds random span
        → IsFlags flags
        → lookup traceparent headers ≡ some v
        → to_str v ≡ some (header_text trace span flags)
        → let found =
            ids_of headers_of p (extract_faulted headers_of p float headers fault roll random) in
          (fault.corrupt_inbound_traceparent ≡ false → found ≡ some (trace, span))
          × (float.ge float.zero_rate fault.rate ≡ true → found ≡ some (trace, span))
          × (float.ge roll fault.rate ≡ true → found ≡ some (trace, span))
          × (fault.corrupt_inbound_traceparent ≡ true
              → float.ge float.zero_rate fault.rate ≡ false
              → float.ge roll fault.rate ≡ false
              → found ≡ some (random, span))
    unfolding extract_faulted spares
    extract_faulted_ids headers v trace span flags random fault roll ids rids f there shown =
        let kept =
          extract_ids headers trace span flags ids f
            (unfold get in ap (and_str to_str) there ∙ shown) in
        let severed = extract_ids (mangle headers_of headers random) random span flags rids f (
          mangle_get headers v trace span flags random ids f rids.trace_size.are_bytes there
            shown) in
        (
          λ off. simp off kept,
          λ low. ground (arith, kept),
          λ high. ground (arith, kept),
          λ on pos below. simp (on, pos, below) severed,
        )
