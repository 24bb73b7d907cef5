-- ===== src/Examples/Telemetry.antt =====
-- The theorems on crates/telemetry at concrete inputs: an exporter that keeps its batches, times in
-- nanoseconds, and a propagator over the header of a span's ids.
use servr.Common.{
  rsplit_once, show_ℕ, ℕ, ◌*◌, ◌≡◌, ◌∙◌, ap, refl, subst, sym, ℤ, pos, ◌+ℤ◌, ◌-ℤ◌, Bool, true,
  false, ◌&&◌, Option, none, some, List, [], ◌∷◌, ◌++◌, Bytes, bytes, any_of, Lacks, ltb, ◌==◌,
  AreBytes, split, decode_hex, decode_hex-encode_hex, inl, inr, arith, length,
}
use servr.Core.Fault.{TelemetryFault, default_telemetry}
use servr.Core.Trace.{IsId, is_valid, trace_len, span_len, zeros}
use servr.Telemetry.Chaos.{Sdk, Exporter, SpanData, Export, export, fires}
use servr.Telemetry.Chaos.Skews.{TimeLaws}
use servr.Telemetry.Chaos.Spans.{Outcome, export_outcome}
use servr.Telemetry.Metrics.{corrupt_metrics, reset_counters, bomb_line}
use servr.Telemetry.Metrics.Scrapes.{Kept, Added, corrupt_metrics_outcome}
use servr.Telemetry.Propagation.{
  traceparent, Headers, SpanContext, Propagator, extract, inject, ids_of, extract_faulted,
}
use servr.Telemetry.Propagation.Texts.{
  header_text, HeaderLaws, Follows, AreIds, IsFlags, split-header_text,
}
use servr.Telemetry.Propagation.Joins.{extract-inject, extract_faulted_ids}
use servr.Examples.Data.{percent}

abbrev fault : TelemetryFault percent
fault = record (default_telemetry percent) {
  rate = 50;
  orphan_spans = true;
  clock_skew_ms = some (pos 3600000);
  cardinality_bomb = some 3;
  counter_reset = true;
  corrupt_inbound_traceparent = true;
}

abbrev nanoseconds : Sdk
nanoseconds = record {
  SystemTime = ℤ;
  unix_epoch = pos 0;
  checked_add = λ t d. some (t +ℤ pos (d * 1000000));
  checked_sub = λ t d. some (t -ℤ pos (d * 1000000));
  Rest = Bytes;
}

some_inj : (a b : ℤ) → some a ≡ some b → b ≡ a
some_inj a b e = cc

nanoseconds-TimeLaws : TimeLaws nanoseconds (λ t. t)
nanoseconds-TimeLaws = record {
  added = λ t u d e. some_inj (t +ℤ pos (d * 1000000)) u e;
  subtracted = λ t u d e. some_inj (t -ℤ pos (d * 1000000)) u e;
}

abbrev keeping : Exporter (List (SpanData percent nanoseconds))
keeping = record {
  Inner = List (List (SpanData percent nanoseconds));
  send = λ kept batch. (kept ++ batch ∷ [], true);
}

abbrev request_span : SpanData percent nanoseconds
request_span = record {
  parent_span_id = 0 ∷ 0 ∷ 0 ∷ 0 ∷ 0 ∷ 0 ∷ 0 ∷ 5 ∷ [];
  start_time = pos 1000;
  end_time = pos 2000;
  attributes = [];
  rest = bytes "GET /api/ping";
}

-- A draw of zeros, and one that is none.
abbrev draws : List Bytes
draws = (0 ∷ 0 ∷ 0 ∷ 0 ∷ 0 ∷ 0 ∷ 0 ∷ 0 ∷ []) ∷ (9 ∷ 0 ∷ 0 ∷ 0 ∷ 0 ∷ 0 ∷ 0 ∷ 1 ∷ []) ∷ []

export_outcome_example :
    (e : Export percent nanoseconds keeping) × (export percent nanoseconds keeping []
        (request_span ∷ [])
        fault
        10
        draws
      ≡ some e)
    × Outcome percent nanoseconds
        (λ t. t)
        nanoseconds-TimeLaws
        keeping
        (fires percent fault 10)
        fault
        []
        (request_span ∷ [])
        e
unfolding is_valid zeros default_telemetry
export_outcome_example =
    export_outcome percent nanoseconds (λ t. t) nanoseconds-TimeLaws keeping [] (request_span ∷ [])
      fault 10 draws
      (
        (
          record {
            later = λ d h. (pos 1000 +ℤ pos (d * 1000000), refl);
            earlier = λ d h. (pos 1000 -ℤ pos (d * 1000000), refl);
          },
          record {
            later = λ d h. (pos 2000 +ℤ pos (d * 1000000), refl);
            earlier = λ d h. (pos 2000 -ℤ pos (d * 1000000), refl);
          },
        ),
        tt,
      )
      (omega arith)

lacks : (p : ℕ → Bool) (cs : Bytes) → any_of p cs ≡ false → Lacks p cs
lacks p [] h = tt
lacks p (c ∷ cs) h = ground (arith, lacks p cs)

abbrev rendered : Bytes
rendered = bytes "# TYPE requests counter\nrequests 17\n"

corrupt_metrics_outcome_example :
    (fires percent fault 10 ≡ false → corrupt_metrics percent rendered fault 10 7 ≡ rendered)
    × (fires percent fault 10 ≡ true
        → (base : Bytes) × (tail : Bytes) × (corrupt_metrics percent rendered fault 10 7
            ≡ base ++ tail)
          × Kept percent fault.counter_reset rendered base
          × Added percent fault.cardinality_bomb tail)
unfolding default_telemetry
corrupt_metrics_outcome_example =
    corrupt_metrics_outcome percent rendered fault 10 7 (lacks (λ c. c == 13) rendered refl)
      (omega arith) (omega arith)

resets_to_one : reset_counters rendered ≡ bytes "# TYPE requests counter\nrequests 1\n"
unfolding reset_counters rsplit_once
resets_to_one = refl

shows_series :
    bomb_line 255 12 ≡ bytes "testbed_cardinality_bomb{scrape=\"00000000000000ff\",series=\"12\"} 1"
unfolding bomb_line show_ℕ
shows_series = refl

seven-ne-eight : ¬ (◌≡◌ {A = ℕ} 7 8)
seven-ne-eight e = omega arith

-- Header values are texts.
abbrev texts : Headers
texts = record { HeaderValue = Bytes; to_str = some; from_str = some; is_name = λ name. true }

text_inj : (a b : Bytes) → some a ≡ some b → some b ≡ some a
text_inj a b e = sym e

texts-HeaderLaws : HeaderLaws texts
texts-HeaderLaws = record {
  accepts = λ text h. (text, refl);
  shows = λ text v e. text_inj text v e;
  named = refl;
}

abbrev no_span : SpanContext
no_span = record { trace_id = []; span_id = [] }

abbrev span_of : Option Bytes → Option Bytes → SpanContext
span_of (some trace) (some span) = record { trace_id = trace; span_id = span }
span_of (some trace) none = no_span
span_of none span = no_span

abbrev parsed : List Bytes → SpanContext
parsed (version ∷ trace ∷ parent ∷ flags ∷ []) = span_of (decode_hex trace) (decode_hex parent)
parsed parts = no_span

abbrev parsed_text : Option Bytes → SpanContext
parsed_text none = no_span
parsed_text (some text) = parsed (split b'-' text)

abbrev are_bytes : Bytes → Bool
are_bytes [] = true
are_bytes (b ∷ bs) = ltb b 256 && are_bytes bs

are_bytes-AreBytes : (bs : Bytes) → are_bytes bs ≡ true → AreBytes bs
are_bytes-AreBytes [] h = tt
are_bytes-AreBytes (b ∷ bs) h = ground (arith, are_bytes-AreBytes bs)

AreBytes-are_bytes : (bs : Bytes) → AreBytes bs → are_bytes bs ≡ true
AreBytes-are_bytes [] h = refl
AreBytes-are_bytes (b ∷ bs) h = let below = h.0 in ground (arith, AreBytes-are_bytes bs h.1)

abbrev is_id : ℕ → Bytes → Bool
is_id len id = length id == len && (are_bytes id && is_valid len id)

is_id-IsId : (len : ℕ) (id : Bytes) → is_id len id ≡ true → IsId len id × (is_valid len id ≡ true)
is_id-IsId len id h =
    (record { size = ground arith; are_bytes = are_bytes-AreBytes id (ground arith) }, ground arith)

is_id_lem : (len : ℕ) (id : Bytes) → IsId len id → is_valid len id ≡ true → is_id len id ≡ true
is_id_lem len id i v = ground (arith, i.size, AreBytes-are_bytes id i.are_bytes, v)

abbrev w3c : Propagator
w3c = record {
  Context = SpanContext;
  extract_from = λ get keys. parsed_text (get traceparent);
  fields_of = λ c.
      (traceparent, header_text c.trace_id c.span_id (bytes "01")) ∷ (bytes "tracestate", []) ∷ [];
  span_context = λ c. c;
  is_valid = λ sc. is_id trace_len sc.trace_id && is_id span_len sc.span_id;
}

flags_no_dash : (flags : Bytes) → IsFlags flags → Lacks (λ c. c == b'-') flags
flags_no_dash flags (inl e) = subst (Lacks (λ c. c == b'-')) (sym e) (refl, (refl, tt))
flags_no_dash flags (inr e) = subst (Lacks (λ c. c == b'-')) (sym e) (refl, (refl, tt))

w3c-reads :
    (trace span flags : Bytes)
    → AreIds trace span
    → IsFlags flags
    → parsed (split b'-' (header_text trace span flags))
      ≡ record { trace_id = trace; span_id = span }
w3c-reads trace span flags ids f =
    let parts =
      split-header_text trace span flags ids.trace_size.are_bytes ids.span_size.are_bytes
        (flags_no_dash flags f) in
    ap parsed parts
    ∙ rw
        (
          decode_hex-encode_hex trace ids.trace_size.are_bytes,
          decode_hex-encode_hex span ids.span_size.are_bytes,
        )
        refl

both_true : (a b : Bool) → (a && b) ≡ true → (a ≡ true) × (b ≡ true)
both_true a b h = ground arith

w3c-Follows : Follows w3c
w3c-Follows = record {
  valid_iff = λ trace span ids.
      rw
        (
          is_id_lem trace_len trace ids.trace_size ids.trace_valid,
          is_id_lem span_len span ids.span_size ids.span_valid,
        )
        refl;
  valid_ids = λ c h.
      let (a, b) = both_true (is_id trace_len c.trace_id) (is_id span_len c.span_id) h in
      let t = is_id-IsId trace_len c.trace_id a in
      let s = is_id-IsId span_len c.span_id b in
      record { trace_size = t.0; span_size = s.0; trace_valid = t.1; span_valid = s.1 };
  reads = λ get keys trace span flags ids f e. ap parsed_text e ∙ w3c-reads trace span flags ids f;
  writes = λ c h. (bytes "01", [], inr refl, refl);
}

abbrev trace : Bytes
trace = 1 ∷ 2 ∷ 3 ∷ 4 ∷ 5 ∷ 6 ∷ 7 ∷ 8 ∷ 9 ∷ 10 ∷ 11 ∷ 12 ∷ 13 ∷ 14 ∷ 15 ∷ 255 ∷ []

abbrev other_trace : Bytes
other_trace = 7 ∷ 7 ∷ 7 ∷ 7 ∷ 7 ∷ 7 ∷ 7 ∷ 7 ∷ 7 ∷ 7 ∷ 7 ∷ 7 ∷ 7 ∷ 7 ∷ 7 ∷ 7 ∷ []

abbrev parent : Bytes
parent = 0 ∷ 0 ∷ 0 ∷ 0 ∷ 0 ∷ 0 ∷ 0 ∷ 5 ∷ []

trace-AreIds : AreIds trace parent
unfolding is_valid zeros
trace-AreIds = record {
  trace_size = record { size = refl; are_bytes = omega arith };
  span_size = record { size = refl; are_bytes = omega arith };
  trace_valid = refl;
  span_valid = refl;
}

other_trace-AreIds : AreIds other_trace parent
unfolding is_valid zeros
other_trace-AreIds = record {
  trace_size = record { size = refl; are_bytes = omega arith };
  span_size = record { size = refl; are_bytes = omega arith };
  trace_valid = refl;
  span_valid = refl;
}

abbrev context : SpanContext
context = record { trace_id = trace; span_id = parent }

extract-inject_example :
    ids_of texts w3c
      (extract texts w3c (inject texts w3c context ((bytes "accept", bytes "*/*") ∷ [])))
    ≡ ids_of texts w3c context
unfolding is_valid zeros
extract-inject_example =
    extract-inject texts w3c texts-HeaderLaws w3c-Follows context
      ((bytes "accept", bytes "*/*") ∷ []) refl

abbrev sent : List (Bytes × Bytes)
sent = (traceparent, header_text trace parent (bytes "01")) ∷ []

extract_faulted_ids_example :
    let found = ids_of texts w3c (extract_faulted texts w3c percent sent fault 10 other_trace) in
    (fault.corrupt_inbound_traceparent ≡ false → found ≡ some (trace, parent))
    × (percent.ge percent.zero_rate fault.rate ≡ true → found ≡ some (trace, parent))
    × (percent.ge 10 fault.rate ≡ true → found ≡ some (trace, parent))
    × (fault.corrupt_inbound_traceparent ≡ true
        → percent.ge percent.zero_rate fault.rate ≡ false
        → percent.ge 10 fault.rate ≡ false
        → found ≡ some (other_trace, parent))
extract_faulted_ids_example =
    extract_faulted_ids texts w3c texts-HeaderLaws w3c-Follows percent sent
      (header_text trace parent (bytes "01")) trace parent (bytes "01") other_trace fault 10
      trace-AreIds other_trace-AreIds (inr refl) refl refl
