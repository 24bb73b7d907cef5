-- ===== src/Telemetry/Propagation.antt =====
-- crates/telemetry/src/propagation.rs: the trace context read from headers, with the fault that
-- mangles it, and written to them. The propagator of opentelemetry_sdk and the texts of a header
-- value are parameters; the roll and the random id are arguments.
pub mod Texts
pub mod Joins
use servr.Common.{
  ℕ, Bool, true, false, not, ◌&&◌, ◌||◌, Option, none, some, List, [], ◌∷◌, ◌++◌, map, Bytes, bytes,
  lookup, insert, bytes_eq, split, encode_hex, if◌then◌else◌,
}
use servr.Core.Float.{Float}
use servr.Core.Fault.{TelemetryFault}

abbrev pub traceparent : Bytes
traceparent = bytes "traceparent"

-- `HeaderValue` of the http crate, with its `to_str` and `from_str`, and whether a text is a name.
pub record Headers : Type 1 where
  pub HeaderValue : Type 0
  pub to_str : HeaderValue → Option Bytes
  pub from_str : Bytes → Option HeaderValue
  pub is_name : Bytes → Bool

-- A span's ids, as its context in opentelemetry has them.
pub record SpanContext : Type 0 where
  pub trace_id : Bytes
  pub span_id : Bytes

-- `TraceContextPropagator` over an extractor's `get` and `keys`, the fields that it injects, and
-- the span of a context.
pub record Propagator : Type 1 where
  pub Context : Type 0
  pub extract_from : (Bytes → Option Bytes) → List Bytes → Context
  pub fields_of : Context → List (Bytes × Bytes)
  pub span_context : Context → SpanContext
  pub is_valid : SpanContext → Bool

abbrev pub and_str : {A : Type 0} → (A → Option Bytes) → Option A → Option Bytes
and_str f none = none
and_str f (some a) = f a

module _ (headers_of : Headers) where
  open headers_of use {HeaderValue, to_str, from_str, is_name}

  abbrev pub HeaderMap : Type 0
  HeaderMap = List (Bytes × HeaderValue)

  -- `HeaderExtractor::get` and `keys`.
  unfoldable pub get : HeaderMap → Bytes → Option Bytes
  get headers key = and_str to_str (lookup key headers)

  unfoldable pub keys : HeaderMap → List Bytes
  keys headers = map (λ (name, value). name) headers

  -- `HeaderInjector::set`
  unfoldable pub set : HeaderMap → Bytes → Bytes → HeaderMap
  set headers key text = elim (from_str text) [
    | none ↦ headers
    | some value ↦ if is_name key then insert key value headers else headers
  ]

  unfoldable pub set_all : HeaderMap → List (Bytes × Bytes) → HeaderMap
  unfolding set
  set_all headers [] = headers
  set_all headers ((key, text) ∷ fields) = set_all (set headers key text) fields

  -- `{}-{}-{}-{}` with the trace id replaced, for a text of four parts.
  abbrev pub replacement : List Bytes → Bytes → Option Bytes
  replacement (version ∷ trace ∷ parent ∷ flags ∷ []) random =
      some (version ++ b'-' ∷ (encode_hex random ++ b'-' ∷ (parent ++ b'-' ∷ flags)))
  replacement parts random = none

  abbrev pub put_value : HeaderMap → Option Bytes → HeaderMap
  put_value headers none = headers
  put_value headers (some text) = elim (from_str text) [
    | none ↦ headers
    | some value ↦ insert traceparent value headers
  ]

  unfoldable pub mangle : HeaderMap → Bytes → HeaderMap
  mangle headers random = elim (and_str to_str (lookup traceparent headers)) [
    | none ↦ headers
    | some value ↦ put_value headers (replacement (split b'-' value) random)
  ]

  module _ (propagator : Propagator) where
    open propagator use {Context, extract_from, fields_of, span_context, is_valid}

    unfoldable pub extract : HeaderMap → Context
    extract headers = extract_from (get headers) (keys headers)

    unfoldable pub inject : Context → HeaderMap → HeaderMap
    inject context headers = set_all headers (fields_of context)

    unfoldable pub ids_of : Context → Option (Bytes × Bytes)
    ids_of context =
        let sc = span_context context in
        if is_valid sc then some (sc.trace_id, sc.span_id) else none

    module _ (float : Float) where
      open float use {F64, zero_rate, ge}

      -- `roll >= rate`, after `rate <= 0.0`.
      unfoldable pub spares : TelemetryFault float → F64 → Bool
      spares fault roll =
          not fault.corrupt_inbound_traceparent || (ge zero_rate fault.rate || ge roll fault.rate)

      unfoldable pub extract_faulted : HeaderMap → TelemetryFault float → F64 → Bytes → Context
      extract_faulted headers fault roll random =
          if spares fault roll then extract headers else extract (mangle headers random)
