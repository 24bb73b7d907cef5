-- ===== src/Telemetry/Chaos.antt =====
-- The span half of crates/telemetry/src/chaos.rs: `ChaosExporter::export` and what it does to the
-- spans of a batch. The exporter inside, `SystemTime` and what else a span holds are parameters;
-- rolls and random ids are arguments.
pub mod Skews
pub mod Spans
use servr.Common.{
  ℕ, zero, suc, ◌+◌, ◌*◌, ℤ, pos, negsuc, pos_part, neg_part, leb_ℤ, Bool, true, false, not, ◌&&◌,
  Option, none, some, List, [], ◌∷◌, ◌++◌, Bytes, bytes, bytes_beq, if◌then◌else◌,
}
use servr.Core.Float.{Float}
use servr.Core.Fault.{TelemetryFault}
use servr.Core.State.{unwrap_or}
use servr.Core.Trace.{is_valid, span_len}

-- `SystemTime` with its arithmetic by durations of whole milliseconds, and what a span of
-- opentelemetry_sdk holds beside the fields that are named below: its context, name, status, ...
pub record Sdk : Type 1 where
  pub SystemTime : Type 0
  pub unix_epoch : SystemTime
  pub checked_add : SystemTime → ℕ → Option SystemTime
  pub checked_sub : SystemTime → ℕ → Option SystemTime
  pub Rest : Type 0

-- The exporter that is wrapped, and whether it answers `Ok`.
pub record Exporter (Batch : Type 0) : Type 1 where
  pub Inner : Type 0
  pub send : Inner → Batch → Inner × Bool

-- 100 * 365 * 24 * 60 * 60 * 1000
abbrev pub max_skew_ms : ℕ
max_skew_ms = 3153600000000

abbrev pub lowest_skew : ℤ
lowest_skew = negsuc 3153599999999

abbrev pub clamp : ℤ → ℤ
clamp ms =
    if leb_ℤ ms lowest_skew
    then lowest_skew
    else (if leb_ℤ (pos max_skew_ms) ms then pos max_skew_ms else ms)

abbrev pub unsigned_abs : ℤ → ℕ
unsigned_abs ms = pos_part ms + neg_part ms

abbrev pub is_at_least_zero : ℤ → Bool
is_at_least_zero ms = leb_ℤ (pos 0) ms

-- The bytes of `"x".repeat(n)`.
unfoldable pub repeat_x : ℕ → Bytes
repeat_x zero = []
repeat_x (suc n) = b'x' ∷ repeat_x n

-- The first of the random ids that is no `INVALID`, with the ids that the next call draws; none
-- while the ones drawn so far are all zeros.
unfoldable pub orphan_parent : List Bytes → Option (Bytes × List Bytes)
orphan_parent [] = none
orphan_parent (id ∷ ids) =
    let rest = orphan_parent ids in if is_valid span_len id then some (id, ids) else rest

module _ (float : Float) where
  open float use {F64, zero_rate, lt}

  unfoldable pub fires : TelemetryFault float → F64 → Bool
  fires fault roll = lt zero_rate fault.rate && lt roll fault.rate

module _ (float : Float) (sdk : Sdk) where
  open float use {F64}
  open sdk use {SystemTime, unix_epoch, checked_add, checked_sub, Rest}

  pub record SpanData : Type 0 where
    pub parent_span_id : Bytes
    pub start_time : SystemTime
    pub end_time : SystemTime
    pub attributes : List (Bytes × Bytes)
    pub rest : Rest

  unfoldable pub move_by : SystemTime → ℤ → SystemTime
  move_by at ms =
      let delta = unsigned_abs ms in
      let shifted = if is_at_least_zero ms then checked_add at delta else checked_sub at delta in
      unwrap_or shifted unix_epoch

  unfoldable pub shift : SystemTime → ℤ → SystemTime
  shift at ms = move_by at (clamp ms)

  abbrev pub skewed : Option ℤ → SpanData → SpanData
  skewed none span = span
  skewed (some ms) span = record span {
    start_time = shift span.start_time ms;
    end_time = shift span.end_time ms;
  }

  abbrev pub bloated : Option ℕ → SpanData → SpanData
  bloated none span = span
  bloated (some size) span = record span {
    attributes = span.attributes ++ (bytes "testbed.bloat", repeat_x size) ∷ [];
  }

  abbrev pub orphaned : Bool → SpanData → List Bytes → Option (SpanData × List Bytes)
  orphaned false span ids = some (span, ids)
  orphaned true span ids = elim (orphan_parent ids) [
    | none ↦ none
    | some (id, left) ↦ some (record span { parent_span_id = id }, left)
  ]

  -- With the ids that are drawn, and those that are left; none while they do not suffice.
  unfoldable pub corrupt_span :
      SpanData → TelemetryFault float → List Bytes → Option (SpanData × List Bytes)
  unfolding shift move_by orphan_parent
  corrupt_span span fault ids = elim (orphaned fault.orphan_spans span ids) [
    | none ↦ none
    | some (reparented, left) ↦
        some (bloated fault.attribute_bloat_bytes (skewed fault.clock_skew_ms reparented), left)
  ]

  unfoldable pub corrupt_batch :
      List SpanData → TelemetryFault float → List Bytes → Option (List SpanData)
  corrupt_batch [] fault ids = some []
  corrupt_batch (span ∷ batch) fault ids = elim (corrupt_span span fault ids) [
    | none ↦ none
    | some (corrupted, left) ↦ elim (corrupt_batch batch fault left) [
      | none ↦ none
      | some spans ↦ some (corrupted ∷ spans)
    ]
  ]

  module _ (exporter : Exporter (List SpanData)) where
    open exporter use {Inner, send}

    -- The exporter afterwards, whether the answer is `Ok`, and for how long the export stalled.
    pub record Export : Type 0 where
      pub inner : Inner
      pub is_ok : Bool
      pub stalled_ms : Option ℕ

    abbrev pub forward : Inner → Option ℕ → List SpanData → Export
    forward inner stalled batch =
        let (inner', answer) = send inner batch in
        record { inner = inner'; is_ok = answer; stalled_ms = stalled }

    -- With the fault in force, the roll and the random ids; none while these do not suffice.
    unfoldable pub export :
        Inner → List SpanData → TelemetryFault float → F64 → List Bytes → Option Export
    export inner batch fault roll ids =
        if not (fires float fault roll)
        then some (forward inner none batch)
        else (if fault.drop_export
            then some (record { inner = inner; is_ok = true; stalled_ms = fault.export_latency_ms })
            else elim (corrupt_batch batch fault ids) [
              | none ↦ none
              | some corrupted ↦ some (forward inner fault.export_latency_ms corrupted)
            ])
