-- ===== src/Core/Snapshot/Saved.antt =====
-- That a control plane saved and restored is the same control plane, crates/core/src/snapshot.rs.
use servr.Common.{
  map_err, and_then-inr, map_err-inr, ℕ, ◌≡◌, ◌⊎◌, inl, inr, refl, sym, ap, subst, ◌∙◌, arith, Bool,
  true, false, Option, none, some, List, Bytes, ℤ, FitsI64, ◌==◌,
}
use servr.Core.Float.{Float}
use servr.Core.Chrono.{Chrono}
use servr.Core.Clock.{Clock, restore, new as new_clock, freeze}
use servr.Core.Config.{Scenario, default_overlay}
use servr.Core.State.{State, resolve, new, mutate, reset}
use servr.Core.State.Reset.{Call, run_calls, run_calls-new-Consistent}
use servr.Core.Snapshot.{
  version, SnapshotError, sql, could_not_open, encode, Row, Sqlite, Texts, Snapshot, capture,
  restore_clock, boot_from, row_with, row_of, step, insert_row, write, parse_time, from_row,
  read_row, read, is_set, as_flag,
}

-- What SQLite promises: a row that was put in is found in the file when it is opened again.
pub record SqliteLaws (sqlite : Sqlite) : Type 0 where
  pub exists_after :
      (row : Row) (file file' : sqlite.File)
      → sqlite.upsert row file ≡ (file', none)
      → sqlite.exists file' ≡ true
  pub found_after :
      (row : Row) (file file' file'' : sqlite.File)
      → FitsI64 row.clock_offset_ms
      → sqlite.upsert row file ≡ (file', none)
      → sqlite.open_file file' ≡ (file'', none)
      → sqlite.query_row file'' ≡ inr row

is_set-as_flag : (b : Bool) → is_set (as_flag b) ≡ b
is_set-as_flag true = refl
is_set-as_flag false = refl

row_inj : (a b : Row) → ◌≡◌ {A = SnapshotError ⊎ Row} (inr a) (inr b) → a ≡ b
row_inj a b h = cc

module _ (float : Float) (chrono : Chrono) (sqlite : Sqlite) (texts : Texts float chrono) where
  open sqlite use {File, open_file, create_table, upsert}
  open texts use {
    scenario_text, scenario_from, overlay_text, overlay_from, to_rfc3339, parse_from_rfc3339,
    run_text, run_from,
  }

  -- The texts that the snapshot's values are written as are read back.
  pub record ReadsBack (s : Snapshot float chrono) : Type 0 where
    pub created_at : parse_from_rfc3339 (to_rfc3339 s.created_at) ≡ some s.created_at
    pub virtual_now : parse_from_rfc3339 (to_rfc3339 s.virtual_now) ≡ some s.virtual_now
    pub run : run_from (run_text s.run) ≡ some s.run
    pub base : (t : Bytes) → scenario_text s.base ≡ inr t → scenario_from t ≡ inr s.base
    pub overlay : (t : Bytes) → overlay_text s.overlay ≡ inr t → overlay_from t ≡ inr s.overlay

  from_row-row_of :
      (s : Snapshot float chrono) (row : Row)
      → ReadsBack s
      → row_of float chrono sqlite texts s ≡ inr row
      → from_row float chrono sqlite texts row ≡ inr s
  unfolding from_row row_of parse_time row_with
  from_row-row_of s row r h =
      let (base, h_base, h') = and_then-inr (map_err encode (scenario_text s.base)) _ row h in
      let (overlay, h_overlay, h_row) =
        and_then-inr (map_err encode (overlay_text s.overlay)) _ row h' in
      let back_base = r.base base (map_err-inr encode (scenario_text s.base) base h_base) in
      let back_overlay =
        r.overlay overlay (map_err-inr encode (overlay_text s.overlay) overlay h_overlay) in
      let same = row_inj (row_with float chrono sqlite texts s base overlay) row h_row in
      rw
        (
          sym same,
          r.created_at,
          r.virtual_now,
          r.run,
          back_base,
          back_overlay,
          is_set-as_flag s.clock_frozen,
        )
        refl

  step-none :
      (f : Bytes → SnapshotError) (done : File × Option Bytes)
      (next : File → File × Option SnapshotError) (file' : File)
      → step float chrono sqlite texts f done next ≡ (file', none)
      → (done.1 ≡ none) × (next done.0 ≡ (file', none))
  step-none f (file, some e) next file' h = absurd (cc)
  step-none f (file, none) next file' h = (refl, h)

  insert_row_puts :
      (r : SnapshotError ⊎ Row) (file file' : File)
      → insert_row float chrono sqlite texts r file ≡ (file', none)
      → (row : Row) × (r ≡ inr row) × (upsert row file ≡ (file', none))
  insert_row_puts (inl e) file file' h = absurd (cc)
  insert_row_puts (inr row) file file' h =
      let (done, same) = step-none sql (upsert row file) (λ written. (written, none)) file' h in
      (row, refl, cc)

  -- A write that reports no error put in the row of the snapshot.
  write_puts :
      (s : Snapshot float chrono) (file file' : File)
      → write float chrono sqlite texts s file ≡ (file', none)
      → (row : Row) × (before : File) × (row_of float chrono sqlite texts s ≡ inr row)
        × (upsert row before ≡ (file', none))
  unfolding write
  write_puts s file file' h =
      let (_, h1) = step-none could_not_open (open_file file) _ file' h in
      let (_, h2) = step-none sql (create_table (open_file file).0) _ file' h1 in
      let before = (create_table (open_file file).0).0 in
      let (row, made, put) = insert_row_puts (row_of float chrono sqlite texts s) before file' h2 in
      (row, before, made, put)

  row_of_fields :
      (s : Snapshot float chrono) (row : Row)
      → row_of float chrono sqlite texts s ≡ inr row
      → (row.version ≡ s.version) × (row.clock_offset_ms ≡ s.clock_offset_ms)
  unfolding row_of row_with
  row_of_fields s row h =
      let (base, h_base, h') = and_then-inr (map_err encode (scenario_text s.base)) _ row h in
      let (overlay, h_overlay, h_row) =
        and_then-inr (map_err encode (overlay_text s.overlay)) _ row h' in
      let same = row_inj (row_with float chrono sqlite texts s base overlay) row h_row in
      (ap (λ (r : Row). r.version) (sym same), ap (λ (r : Row). r.clock_offset_ms) (sym same))

  -- The control plane after calls from boot on.
  abbrev pub history :
      Scenario float → Clock chrono → ℕ → List (Call float chrono) → State float chrono
  history base clock run ks = run_calls float chrono (new float chrono base clock run) ks

  -- What a restored control plane has in common with the one after a history, and with its boot.
  pub record Restored (base : Scenario float) (clock : Clock chrono) (run : ℕ)
      (ks : List (Call float chrono)) (s : State float chrono) : Type 0 where
    pub same_base : s.base ≡ base
    pub same_overlay : s.overlay ≡ (history base clock run ks).overlay
    pub same_resolved : s.resolved ≡ (history base clock run ks).resolved
    pub same_run : s.run ≡ (history base clock run ks).run
    pub same_offset : s.clock.offset_ms ≡ (history base clock run ks).clock.offset_ms
    pub same_frozen : s.clock.frozen ≡ (history base clock run ks).clock.frozen
    pub resets_to_boot :
        (reset float chrono s).resolved ≡ (new float chrono base clock run).resolved

  pub capture_version :
      (s : State float chrono) (wall : chrono.DateTime) (instant : ℕ)
      → (capture float chrono s wall instant).version ≡ version
  unfolding capture
  capture_version s wall instant = refl

  restore_fields :
      (offset : ℤ) (frozen : Bool) (first second : ℕ) (wall : chrono.DateTime)
      → let c = restore chrono offset frozen first second wall in
        (c.offset_ms ≡ offset) × (c.frozen ≡ frozen)
  unfolding restore new_clock freeze
  restore_fields offset true first second wall = (refl, refl)
  restore_fields offset false first second wall = (refl, refl)

  boot_from-Restored :
      (base : Scenario float) (clock : Clock chrono) (run : ℕ) (ks : List (Call float chrono))
      (wall : chrono.DateTime) (instant first second : ℕ) (later : chrono.DateTime)
      → Restored base clock run ks (
          boot_from float chrono
            (capture float chrono (history base clock run ks) wall instant)
            first
            second
            later)
  unfolding boot_from capture new mutate reset restore_clock
  boot_from-Restored base clock run ks wall instant first second later =
      let old = history base clock run ks in
      let c = run_calls-new-Consistent float chrono base clock run ks in
      let fields = restore_fields old.clock.offset_ms old.clock.frozen first second later in
      record {
        same_base = c.same_base;
        same_overlay = refl;
        same_resolved = ap (λ b. resolve float chrono b old.overlay) c.same_base ∙ sym c.published;
        same_run = refl;
        same_offset = fields.0;
        same_frozen = fields.1;
        resets_to_boot = ap (λ b. resolve float chrono b (default_overlay float)) c.same_base;
      }

  module _ (laws : SqliteLaws sqlite) where
    -- A snapshot of this version that is written without an error, whatever the file held, is what
    -- is read of the file when it can be opened again.
    pub read-write :
        (path : Bytes) (s : Snapshot float chrono) (file file' file'' : File)
        → ReadsBack s
        → FitsI64 s.clock_offset_ms
        → s.version ≡ version
        → write float chrono sqlite texts s file ≡ (file', none)
        → open_file file' ≡ (file'', none)
        → read float chrono sqlite texts path file' ≡ inr s
    unfolding read read_row
    read-write path s file file' file'' r fits current written reopened =
        let (row, before, made, put) = write_puts s file file' written in
        let (same_version, same_offset) = row_of_fields s row made in
        let there = laws.exists_after row before file' put in
        let found =
          laws.found_after row before file' file'' (subst FitsI64 (sym same_offset) fits) put
            reopened in
        let fields = from_row-row_of s row r made in
        let known : (row.version == version) ≡ true = ground arith in
        rw (there, reopened, found, known) fields

    -- A control plane with any history is captured, written without an error to a file, and the
    -- program is started from that file, which can be opened again. Where the texts written are
    -- read back and the offset is an `i64`, the new control plane has the scenario, the overlay,
    -- the published configuration and the run of the old one, and its clock's offset and whether
    -- it is frozen; and a reset of it publishes the configuration of the first boot.
    pub boot_from-write :
        (path : Bytes) (base : Scenario float) (clock : Clock chrono) (run : ℕ)
        (ks : List (Call float chrono)) (wall : chrono.DateTime) (instant : ℕ)
        (file file' file'' : File)
        → ReadsBack (capture float chrono (history base clock run ks) wall instant)
        → FitsI64 (history base clock run ks).clock.offset_ms
        → write float chrono sqlite texts
            (capture float chrono (history base clock run ks) wall instant)
            file
          ≡ (file', none)
        → open_file file' ≡ (file'', none)
        → (s : Snapshot float chrono) × (read float chrono sqlite texts path file' ≡ inr s)
          × ((first second : ℕ) (later : chrono.DateTime)
              → Restored base clock run ks (boot_from float chrono s first second later))
    unfolding capture
    boot_from-write path base clock run ks wall instant file file' file'' r fits written reopened =
        let old = history base clock run ks in
        let saved = capture float chrono old wall instant in
        let back =
          read-write path saved file file' file'' r fits (capture_version old wall instant) written
            reopened in
        (
          saved,
          back,
          λ first second later.
              boot_from-Restored base clock run ks wall instant first second later,
        )
