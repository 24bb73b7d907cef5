-- ===== src/Admin/Snapshots.antt =====
-- The snapshot routes of crates/admin/src/lib.rs: the control plane written to a file of SQLite and
-- a file read back without being applied, with the status of an error. The file system is a function
-- from paths; the JSON of an answer is left as its values.
pub mod Round
use servr.Common.{
  ◌++◌, ℕ, ◌⊎◌, inl, inr, ℤ, Option, none, some, Bytes, bytes, bytes_beq, if◌then◌else◌,
}
use servr.Core.Float.{Float}
use servr.Core.Chrono.{Chrono}
use servr.Core.State.{State, unwrap_or}
use servr.Core.Snapshot.{
  SnapshotError, missing, empty, other_version, Sqlite, Texts, Snapshot, capture, write, read,
}

abbrev pub default_snapshot : Bytes
default_snapshot = bytes "testbed-snapshot.sqlite"

unfoldable pub snapshot_error_status : SnapshotError → ℕ
snapshot_error_status (missing path) = 404
snapshot_error_status (empty path) = 404
snapshot_error_status (other_version found expected) = 409
snapshot_error_status e = 500

pub record Written : Type 0 where
  pub path : Bytes
  pub run : ℕ
  pub clock_offset_ms : ℤ
  pub restore_with : Bytes

module _ (float : Float) (chrono : Chrono) (sqlite : Sqlite) (texts : Texts float chrono) where
  open chrono use {DateTime}
  open sqlite use {File}

  abbrev pub Files : Type 0
  Files = Bytes → File

  abbrev pub put : Files → Bytes → File → Files
  put files path file other = if bytes_beq path other then file else files other

  abbrev pub answer : Snapshot float chrono → Bytes → Option SnapshotError → SnapshotError ⊎ Written
  answer snapshot path (some e) = inl e
  answer snapshot path none = inr (record {
    path = path;
    run = snapshot.run;
    clock_offset_ms = snapshot.clock_offset_ms;
    restore_with = bytes "testbed --restore " ++ path;
  })

  -- With the readings of the wall clock and the monotonic clock that the capture makes.
  unfoldable pub write_snapshot :
      Files → State float chrono → Option Bytes → DateTime → ℕ → Files × (SnapshotError ⊎ Written)
  write_snapshot files s body wall instant =
      let path = unwrap_or body default_snapshot in
      let snapshot = capture float chrono s wall instant in
      let (file, result) = write float chrono sqlite texts snapshot (files path) in
      (put files path file, answer snapshot path result)

  unfoldable pub read_snapshot : Files → Option Bytes → SnapshotError ⊎ Snapshot float chrono
  read_snapshot files params =
      let path = unwrap_or params default_snapshot in
      read float chrono sqlite texts path (files path)
