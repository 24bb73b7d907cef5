-- ===== src/Core/Snapshot.antt =====
-- `Snapshot` of crates/core/src/snapshot.rs: the control plane captured, written to a SQLite file of
-- one row and read back, and the boot from one in server/src/main.rs. SQLite, serde_json, and the
-- texts of an instant and of a run are parameters.
pub mod Saved
use servr.Common.{
  and_then, map_err, zero, suc, ℕ, ◌⊎◌, inl, inr, Bool, true, false, Option, none, some, Bytes,
  bytes, ℤ, pos, negsuc, ◌==◌, if◌then◌else◌,
}
use servr.Core.Float.{Float}
use servr.Core.Chrono.{Chrono}
use servr.Core.Clock.{Clock, now, restore}
use servr.Core.Config.{Scenario, Overlay}
use servr.Core.State.{State, new, mutate}

abbrev pub version : ℕ
version = 1

pub data SnapshotError : Type 0 where
  missing : Bytes → SnapshotError
  empty : Bytes → SnapshotError
  other_version : (found expected : ℕ) → SnapshotError
  could_not_open : Bytes → SnapshotError
  sql : Bytes → SnapshotError
  field : Bytes → SnapshotError
  encode : Bytes → SnapshotError
  decode : Bytes → SnapshotError

-- The columns of the one row, as the two statements name them.
pub record Row : Type 0 where
  pub version : ℕ
  pub created_at : Bytes
  pub virtual_now : Bytes
  pub run : Bytes
  pub clock_offset_ms : ℤ
  pub clock_frozen : ℤ
  pub base : Bytes
  pub overlay : Bytes

-- Why a query gives no row.
pub data QueryError : Type 0 where
  no_rows : QueryError
  failed : Bytes → QueryError

-- What is done to a file, with a message where it fails; each may leave the file changed.
pub record Sqlite : Type 1 where
  pub File : Type 0
  pub exists : File → Bool
  pub open_file : File → File × Option Bytes
  pub create_table : File → File × Option Bytes
  pub upsert : Row → File → File × Option Bytes
  pub query_row : File → QueryError ⊎ Row

-- serde_json's texts of the two JSON columns, RFC 3339, and a UUID's text.
pub record Texts (float : Float) (chrono : Chrono) : Type 0 where
  pub scenario_text : Scenario float → Bytes ⊎ Bytes
  pub scenario_from : Bytes → Bytes ⊎ Scenario float
  pub overlay_text : Overlay float → Bytes ⊎ Bytes
  pub overlay_from : Bytes → Bytes ⊎ Overlay float
  pub to_rfc3339 : chrono.DateTime → Bytes
  pub parse_from_rfc3339 : Bytes → Option chrono.DateTime
  pub run_text : ℕ → Bytes
  pub run_from : Bytes → Option ℕ

abbrev pub or_field {ℓ} : {A : Type ℓ} → Bytes → Option A → SnapshotError ⊎ A
or_field name none = inl (field name)
or_field name (some a) = inr a

abbrev pub as_flag : Bool → ℤ
as_flag true = pos 1
as_flag false = pos 0

abbrev pub is_set : ℤ → Bool
is_set (pos zero) = false
is_set (pos (suc n)) = true
is_set (negsuc n) = true

module _ (float : Float) (chrono : Chrono) where
  open chrono use {DateTime}

  pub record Snapshot : Type 0 where
    pub version : ℕ
    pub created_at : DateTime
    pub virtual_now : DateTime
    pub run : ℕ
    pub clock_offset_ms : ℤ
    pub clock_frozen : Bool
    pub base : Scenario float
    pub overlay : Overlay float

  -- With the wall clock's and the monotonic clock's readings.
  unfoldable pub capture : State float chrono → DateTime → ℕ → Snapshot
  unfolding now
  capture s wall instant = record {
    version = version;
    created_at = wall;
    virtual_now = now chrono s.clock instant;
    run = s.run;
    clock_offset_ms = s.clock.offset_ms;
    clock_frozen = s.clock.frozen;
    base = s.base;
    overlay = s.overlay;
  }

  -- With the readings that `Clock::restore` makes.
  unfoldable pub restore_clock : Snapshot → ℕ → ℕ → DateTime → Clock chrono
  unfolding restore
  restore_clock s instant later wall =
      restore chrono s.clock_offset_ms s.clock_frozen instant later wall

  -- The boot with `--restore` once the file is read.
  unfoldable pub boot_from : Snapshot → ℕ → ℕ → DateTime → State float chrono
  unfolding restore_clock new mutate
  boot_from s instant later wall =
      mutate float chrono (new float chrono s.base (restore_clock s instant later wall) s.run)
        (λ overlay. s.overlay)

  module _ (sqlite : Sqlite) (texts : Texts float chrono) where
    open sqlite use {File, exists, open_file, create_table, upsert, query_row}
    open texts use {
      scenario_text, scenario_from, overlay_text, overlay_from, to_rfc3339, parse_from_rfc3339,
      run_text, run_from,
    }

    unfoldable pub row_with : Snapshot → Bytes → Bytes → Row
    row_with s base overlay = record {
      version = s.version;
      created_at = to_rfc3339 s.created_at;
      virtual_now = to_rfc3339 s.virtual_now;
      run = run_text s.run;
      clock_offset_ms = s.clock_offset_ms;
      clock_frozen = as_flag s.clock_frozen;
      base = base;
      overlay = overlay;
    }

    -- The parameters of the `INSERT`, in the order in which they are computed.
    unfoldable pub row_of : Snapshot → SnapshotError ⊎ Row
    row_of s = and_then (map_err encode (scenario_text s.base)) (λ base.
        and_then (map_err encode (overlay_text s.overlay))
          (λ overlay. inr (row_with s base overlay)))

    -- The step failed, or the next one is taken on the file as it is left.
    abbrev pub step :
        (Bytes → SnapshotError)
        → File × Option Bytes
        → (File → File × Option SnapshotError)
        → File × Option SnapshotError
    step f (file, some e) next = (file, some (f e))
    step f (file, none) next = next file

    abbrev pub insert_row : SnapshotError ⊎ Row → File → File × Option SnapshotError
    insert_row (inl e) file = (file, some e)
    insert_row (inr row) file = step sql (upsert row file) (λ written. (written, none))

    unfoldable pub write : Snapshot → File → File × Option SnapshotError
    write s file =
        step could_not_open (open_file file)
          (λ opened. step sql (create_table opened) (insert_row (row_of s)))

    unfoldable pub parse_time : Bytes → SnapshotError ⊎ DateTime
    parse_time raw = or_field (bytes "timestamp") (parse_from_rfc3339 raw)

    -- The fields of a row of this version, in the order in which they are read.
    unfoldable pub from_row : Row → SnapshotError ⊎ Snapshot
    from_row row = and_then (parse_time row.created_at) (λ created_at.
        and_then (parse_time row.virtual_now) (λ virtual_now.
          and_then (or_field (bytes "run") (run_from row.run)) (λ run.
            and_then (map_err decode (scenario_from row.base)) (λ base.
              and_then (map_err decode (overlay_from row.overlay)) (λ overlay. inr (record {
                version = row.version;
                created_at = created_at;
                virtual_now = virtual_now;
                run = run;
                clock_offset_ms = row.clock_offset_ms;
                clock_frozen = is_set row.clock_frozen;
                base = base;
                overlay = overlay;
              }))))))

    abbrev pub queried : Bytes → QueryError ⊎ Row → SnapshotError ⊎ Row
    queried path (inl no_rows) = inl (empty path)
    queried path (inl (failed e)) = inl (sql e)
    queried path (inr row) = inr row

    unfoldable pub read_row : Row → SnapshotError ⊎ Snapshot
    read_row row =
        let fields = from_row row in
        if row.version == version then fields else inl (other_version row.version version)

    abbrev pub opened : Bytes → File × Option Bytes → SnapshotError ⊎ Snapshot
    opened path (file, some e) = inl (could_not_open e)
    opened path (file, none) = and_then (queried path (query_row file)) read_row

    unfoldable pub read : Bytes → File → SnapshotError ⊎ Snapshot
    read path file = if exists file then opened path (open_file file) else inl (missing path)
