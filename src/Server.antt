-- ===== src/Server.antt =====
-- The boot of server/src/main.rs: its one flag, the control plane from a snapshot or from a scenario,
-- and the port. The arguments come without the program's name, and the environment as a function
-- from names; an error ends the process with its message. The texts of `{:?}` and of errors are
-- parameters.
pub mod Restart
use servr.Common.{
  ℕ, ◌⊎◌, inl, inr, Option, none, some, List, [], ◌∷◌, ◌++◌, Bytes, bytes, bytes_beq, strip_prefix,
  if◌then◌else◌, map_err, and_then,
}
use servr.Core.Float.{Float}
use servr.Core.Chrono.{Chrono}
use servr.Core.Clock
use servr.Core.Config.{ConfigError, Scenario, from_path}
use servr.Core.State.{State, new, unwrap_or}
use servr.Core.Snapshot.{SnapshotError, Sqlite, Texts, Snapshot, boot_from, read}
use servr.Mail.Env.{Env, first_set, parsed_port}

module _ (debug : Bytes → Bytes) where
  abbrev pub separate_path : List Bytes → Bytes ⊎ (Bytes × List Bytes)
  separate_path [] = inl (bytes "error: --restore needs a path")
  separate_path (path ∷ args) = inr (path, args)

  abbrev pub joined_path : Bytes → List Bytes → Bytes ⊎ (Bytes × List Bytes)
  joined_path other args = elim (strip_prefix (bytes "--restore=") other) [
    | some path ↦ inr (path, args)
    | none ↦ inl (
        bytes "error: unknown argument "
        ++ debug other
        ++ bytes " (only --restore <path> is understood)")
  ]

  abbrev pub path_of : Bytes → List Bytes → Bytes ⊎ (Bytes × List Bytes)
  path_of arg args =
      if bytes_beq arg (bytes "--restore") then separate_path args else joined_path arg args

  -- A second argument is an error.
  abbrev pub no_more : Bytes × List Bytes → Bytes ⊎ Option Bytes
  no_more (path, []) = inr (some path)
  no_more (path, extra ∷ args) = inl (bytes "error: unexpected argument " ++ debug extra)

  unfoldable pub restore_path : List Bytes → Bytes ⊎ Option Bytes
  restore_path [] = inr none
  restore_path (arg ∷ args) = and_then (path_of arg args) no_more

-- `TESTBED_PORT` wins over `PORT`, also where it is no port.
unfoldable pub port : Env → ℕ
port var =
    unwrap_or (parsed_port (first_set (var (bytes "TESTBED_PORT")) (var (bytes "PORT")))) 8080

module _ (float : Float) (chrono : Chrono) (sqlite : Sqlite) (texts : Texts float chrono)
    (debug : Bytes → Bytes) (snapshot_text : SnapshotError → Bytes)
    (config_text : ConfigError → Bytes) (parse_toml : Bytes → Bytes ⊎ Scenario float) where
  open chrono use {DateTime}
  open sqlite use {File}

  -- The snapshots and the texts that are on disk, under their paths.
  pub record Disk : Type 0 where
    pub snapshots : Bytes → File
    pub scenarios : Bytes → Bytes ⊎ Bytes

  -- The new run's id, and what the clock reads at first.
  pub record Readings : Type 0 where
    pub run : ℕ
    pub instant : ℕ
    pub later : ℕ
    pub wall : DateTime

  unfoldable pub from_snapshot : Disk → Readings → Bytes → Bytes ⊎ State float chrono
  from_snapshot disk r path =
      and_then
        (map_err (λ e. bytes "error: " ++ snapshot_text e)
          (read float chrono sqlite texts path (disk.snapshots path)))
        (λ snapshot. inr (boot_from float chrono snapshot r.instant r.later r.wall))

  unfoldable pub from_scenario : Disk → Readings → Env → Bytes ⊎ State float chrono
  from_scenario disk r var =
      let path = unwrap_or (var (bytes "TESTBED_SCENARIO")) (bytes "scenarios/default.toml") in
      and_then
        (map_err (λ e. bytes "error: " ++ config_text e)
          (from_path float parse_toml disk.scenarios path))
        (λ scenario. inr (new float chrono scenario (Clock.new chrono r.instant r.wall) r.run))

  -- A snapshot is restored where the flag names one, and a scenario is read otherwise.
  unfoldable pub boot : Disk → Readings → Env → List Bytes → Bytes ⊎ State float chrono
  unfolding restore_path from_snapshot from_scenario
  boot disk r var args = elim (restore_path debug args) [
    | inl e ↦ inl e
    | inr none ↦ from_scenario disk r var
    | inr (some path) ↦ from_snapshot disk r path
  ]
