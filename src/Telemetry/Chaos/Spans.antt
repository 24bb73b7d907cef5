-- ===== src/Telemetry/Chaos/Spans.antt =====
-- What the exporter of crates/telemetry/src/chaos.rs hands on, on each of its branches.
use servr.Common.{
  ℕ, suc, ◌≤◌, ◌≡◌, refl, sym, subst, ◌∙◌, ℤ, pos, negsuc, ◌+ℤ◌, ◌≤ℤ◌, Bool, true, false, Option,
  none, some, List, [], ◌∷◌, ◌++◌, Bytes, bytes, length, All, Aligned, Bool-cases, inl, inr, arith,
}
use servr.Core.Float.{Float}
use servr.Core.Fault.{TelemetryFault}
use servr.Core.Trace.{is_valid, span_len}
use servr.Telemetry.Chaos.{
  Sdk, Exporter, max_skew_ms, lowest_skew, clamp, unsigned_abs, repeat_x, fires, SpanData, shift,
  move_by, is_at_least_zero, orphaned, skewed, bloated, corrupt_span, corrupt_batch, Export,
  forward, export,
}
use servr.Telemetry.Chaos.Skews.{
  IsClamped, clamp-IsClamped, in_nanos, valid_ids, minus, length-repeat_x, orphan_parent-some,
  TimeLaws,
}

module _ (float : Float) (sdk : Sdk) (nanos : sdk.SystemTime → ℤ) where
  open sdk use {SystemTime, checked_add, checked_sub}

  abbrev Span : Type 0
  Span = SpanData float sdk

  -- The platform can represent the time moved by any skew that is applied.
  pub record IsMovable (t : SystemTime) : Type 0 where
    pub later : (d : ℕ) → d ≤ max_skew_ms → (u : SystemTime) × (checked_add t d ≡ some u)
    pub earlier : (d : ℕ) → d ≤ max_skew_ms → (u : SystemTime) × (checked_sub t d ≡ some u)

  abbrev pub AreMovable : List Span → Type 0
  AreMovable batch = All (λ s. IsMovable s.start_time × IsMovable s.end_time) batch

  -- Both times of a span are moved by one clamped skew, or neither is.
  abbrev pub Skewed : Option ℤ → (start end start' end' : SystemTime) → Type 0
  Skewed none start end start' end' = (start' ≡ start) × (end' ≡ end)
  Skewed (some ms) start end start' end' =
      (d : ℤ) × IsClamped ms d
      × (nanos start' ≡ nanos start +ℤ in_nanos d)
      × (nanos end' ≡ nanos end +ℤ in_nanos d)

  abbrev pub Bloated : Option ℕ → Span → Span → Type 0
  Bloated none s s' = s'.attributes ≡ s.attributes
  Bloated (some size) s s' =
      (value : Bytes) × (s'.attributes ≡ s.attributes ++ (bytes "testbed.bloat", value) ∷ [])
      × (length value ≡ size)

  -- The parent afterwards is an id that is not all zeros, or the one before.
  abbrev pub Reparented : Bool → Bytes → Bytes → Type 0
  Reparented false before after = after ≡ before
  Reparented true before after = is_valid span_len after ≡ true

  -- What a span that leaves has to do with the one that was recorded.
  pub record Changed (orphan : Bool) (skew : Option ℤ) (bloat : Option ℕ) (s s' : Span)
      : Type 0 where
    pub same_rest : s'.rest ≡ s.rest
    pub parent : Reparented orphan s.parent_span_id s'.parent_span_id
    pub times : Skewed skew s.start_time s.end_time s'.start_time s'.end_time
    pub attributes : Bloated bloat s s'

  abbrev pub Corrupted : TelemetryFault float → Span → Span → Type 0
  Corrupted fault s s' =
      Changed fault.orphan_spans fault.clock_skew_ms fault.attribute_bloat_bytes s s'

  module _ (laws : TimeLaws sdk nanos) where
    move_by_lem :
        (t : SystemTime) (d : ℤ)
        → IsMovable t
        → lowest_skew ≤ℤ d
        → d ≤ℤ pos max_skew_ms
        → nanos (move_by float sdk t d) ≡ nanos t +ℤ in_nanos d
    unfolding move_by
    move_by_lem t (pos n) m low high =
        let size : unsigned_abs (pos n) ≡ n = omega arith in
        let positive : is_at_least_zero (pos n) ≡ true = ground arith in
        let (u, e) = m.later n (omega arith) in rw (positive, size, e) (laws.added t u n e)
    move_by_lem t (negsuc n) m low high =
        let size : unsigned_abs (negsuc n) ≡ suc n = omega arith in
        let negative : is_at_least_zero (negsuc n) ≡ false = ground arith in
        let (u, e) = m.earlier (suc n) (omega arith) in
        rw (negative, size, e) (laws.subtracted t u (suc n) e ∙ minus (nanos t) n)

    shift_moves :
        (t : SystemTime) (ms : ℤ)
        → IsMovable t
        → nanos (shift float sdk t ms) ≡ nanos t +ℤ in_nanos (clamp ms)
    unfolding shift
    shift_moves t ms m = let c = clamp-IsClamped ms in move_by_lem t (clamp ms) m c.lower c.upper

    orphaned-some :
        (orphan : Bool) (n : ℕ) (s : Span) (ids : List Bytes)
        → suc n ≤ length (valid_ids ids)
        → (parent : Bytes) × (left : List Bytes) × (orphaned float sdk orphan s ids
            ≡ some (record s { parent_span_id = parent }, left))
          × Reparented orphan s.parent_span_id parent
          × (n ≤ length (valid_ids left))
    orphaned-some false n s ids h = (s.parent_span_id, ids, refl, refl, omega arith)
    orphaned-some true n s ids h =
        let (id, left, found, valid, more) = orphan_parent-some n ids h in
        (id, left, rw (orphaned, found) refl, valid, more)

    Skewed-times :
        (ms : ℤ) (start end : SystemTime)
        → IsMovable start × IsMovable end
        → Skewed (some ms) start end (shift float sdk start ms) (shift float sdk end ms)
    Skewed-times ms start end m =
        (clamp ms, clamp-IsClamped ms, shift_moves start ms m.0, shift_moves end ms m.1)

    changed_lem :
        (orphan : Bool) (skew : Option ℤ) (bloat : Option ℕ) (s : Span) (parent : Bytes)
        → IsMovable s.start_time × IsMovable s.end_time
        → Reparented orphan s.parent_span_id parent
        → Changed orphan skew bloat s
            (bloated float sdk bloat (skewed float sdk skew (record s { parent_span_id = parent })))
    changed_lem orphan none none s parent m p = record {
      same_rest = refl;
      parent = p;
      times = (refl, refl);
      attributes = refl;
    }
    changed_lem orphan none (some n) s parent m p = record {
      same_rest = refl;
      parent = p;
      times = (refl, refl);
      attributes = (repeat_x n, refl, length-repeat_x n);
    }
    changed_lem orphan (some ms) none s parent m p = record {
      same_rest = refl;
      parent = p;
      times = Skewed-times ms s.start_time s.end_time m;
      attributes = refl;
    }
    changed_lem orphan (some ms) (some n) s parent m p = record {
      same_rest = refl;
      parent = p;
      times = Skewed-times ms s.start_time s.end_time m;
      attributes = (repeat_x n, refl, length-repeat_x n);
    }

    corrupt_span-some :
        (n : ℕ) (s : Span) (fault : TelemetryFault float) (ids : List Bytes)
        → IsMovable s.start_time × IsMovable s.end_time
        → suc n ≤ length (valid_ids ids)
        → (s' : Span) × (left : List Bytes) × (corrupt_span float sdk s fault ids ≡ some (s', left))
          × Corrupted fault s s'
          × (n ≤ length (valid_ids left))
    unfolding corrupt_span
    corrupt_span-some n s fault ids m h =
        let (parent, left, found, p, more) = orphaned-some fault.orphan_spans n s ids h in
        (
          _,
          left,
          rw (found, corrupt_span) refl,
          changed_lem fault.orphan_spans fault.clock_skew_ms fault.attribute_bloat_bytes s parent m
              p,
          more,
        )

    corrupt_batch-some :
        (batch : List Span) (fault : TelemetryFault float) (ids : List Bytes)
        → AreMovable batch
        → length batch ≤ length (valid_ids ids)
        → (out : List Span) × (corrupt_batch float sdk batch fault ids ≡ some out)
          × Aligned (Corrupted fault) batch out
    unfolding corrupt_batch
    corrupt_batch-some [] fault ids m h = ([], refl, tt)
    corrupt_batch-some (s ∷ batch) fault ids m h =
        let (s', left, made, c, more) = corrupt_span-some (length batch) s fault ids m.0 h in
        let (out, rest, cs) = corrupt_batch-some batch fault left m.1 more in
        (s' ∷ out, rw (made, corrupt_batch, rest) refl, (c, cs))

    module _ (exporter : Exporter (List Span)) where
      open exporter use {Inner, send}

      -- The exporter inside gets `batch`, and its answer is the answer.
      abbrev pub Forwards : Inner → List Span → Export float sdk exporter → Type 0
      Forwards inner batch e = (e.inner ≡ (send inner batch).0) × (e.is_ok ≡ (send inner batch).1)

      -- By whether the fault fires, and whether it drops.
      abbrev pub Outcome :
          Bool → TelemetryFault float → Inner → List Span → Export float sdk exporter → Type 0
      Outcome false fault inner batch e = Forwards inner batch e × (e.stalled_ms ≡ none)
      Outcome true fault inner batch e =
          (e.stalled_ms ≡ fault.export_latency_ms)
          × (fault.drop_export ≡ true → (e.inner ≡ inner) × (e.is_ok ≡ true))
          × (fault.drop_export ≡ false
              → (out : List Span) × Aligned (Corrupted fault) batch out × Forwards inner out e)

      fired :
          (inner : Inner) (batch : List Span) (fault : TelemetryFault float) (roll : float.F64)
          {e : Export float sdk exporter}
          → fires float fault roll ≡ true
          → Outcome true fault inner batch e
          → Outcome (fires float fault roll) fault inner batch e
      fired inner batch fault roll {e} on o = subst (λ b. Outcome b fault inner batch e) (sym on) o

      -- Where the platform can represent the skewed times, and enough of the random ids are not
      -- all zeros, an export ends. Where the fault does not fire, the batch is handed on as it is,
      -- at once. Else the export stalls for the latency asked for, and either drops the batch and
      -- answers `Ok`, or hands on as many spans, in order, each changed in no more than what the
      -- fault asks for: a parent that is no zero id, both times moved by the one skew, clamped, and
      -- one attribute more of the size asked for. The answer is then the exporter's.
      pub export_outcome :
          (inner : Inner) (batch : List Span) (fault : TelemetryFault float) (roll : float.F64)
          (ids : List Bytes)
          → AreMovable batch
          → length batch ≤ length (valid_ids ids)
          → (e : Export float sdk exporter) × (export float sdk exporter inner batch fault roll ids
              ≡ some e)
            × Outcome (fires float fault roll) fault inner batch e
      unfolding export
      export_outcome inner batch fault roll ids m h = elim (Bool-cases (fires float fault roll)) [
        | inl on ↦ elim (Bool-cases fault.drop_export) [
          | inl drops ↦ (
            record { inner = inner; is_ok = true; stalled_ms = fault.export_latency_ms },
            simp (on, drops),
            fired inner batch fault roll on
                (refl, λ _. (refl, refl), λ keeps. absurd (ground arith)),
          )
          | inr keeps ↦
              let (out, made, cs) = corrupt_batch-some batch fault ids m h in
              (
                forward float sdk exporter inner fault.export_latency_ms out,
                simp (on, made, keeps),
                fired inner batch fault roll on
                    (refl, λ drops. absurd (ground arith), λ _. (out, cs, (refl, refl))),
              )
        ]
        | inr off ↦ (
          forward float sdk exporter inner none batch,
          rw off refl,
          subst (λ b. Outcome b fault inner batch (forward float sdk exporter inner none batch))
              (sym off) ((refl, refl), refl),
        )
      ]
