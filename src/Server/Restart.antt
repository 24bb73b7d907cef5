-- ===== src/Server/Restart.antt =====
-- A restart of server/src/main.rs with the file that the snapshot route of crates/admin/src/lib.rs
-- wrote.
use servr.Common.{
  ℕ, ◌≡◌, refl, sym, subst, ◌⊎◌, inr, Bool, true, false, Option, none, some, List, [], ◌∷◌, ◌++◌,
  Bytes, bytes, FitsI64, ℤ,
}
use servr.Core.Float.{Float}
use servr.Core.Chrono.{Chrono}
use servr.Core.Clock.{restore, freeze}
use servr.Core.Config.{ConfigError, Scenario}
use servr.Core.State.{State, resolve, new, mutate}
use servr.Core.Snapshot.{SnapshotError, Sqlite, Texts, capture, read, restore_clock, boot_from}
use servr.Core.Snapshot.Saved.{SqliteLaws, ReadsBack}
use servr.Admin.Snapshots.{Written, Files, write_snapshot, read_snapshot}
use servr.Admin.Snapshots.Round.{read_snapshot-write_snapshot}
use servr.Mail.Env.{Env}
use servr.Server.{restore_path, from_snapshot, boot, Readings}

-- The arguments that name a snapshot, in their two forms.
pub data Names (path : Bytes) : List Bytes → Type 0 where
  apart : Names path (bytes "--restore" ∷ path ∷ [])
  joined : Names path ((bytes "--restore=" ++ path) ∷ [])

restore_path-Names :
    (debug : Bytes → Bytes) (path : Bytes) (args : List Bytes)
    → Names path args
    → restore_path debug args ≡ inr (some path)
unfolding restore_path
restore_path-Names debug path _ apart = refl
restore_path-Names debug path _ joined = refl

module _ (float : Float) (chrono : Chrono) where
  open chrono use {DateTime}

  -- The base, the overlay, what they resolve to, the run, and the offset of the clock, which stands
  -- still if it did.
  pub record Same (s s' : State float chrono) : Type 0 where
    pub base : s'.base ≡ s.base
    pub overlay : s'.overlay ≡ s.overlay
    pub resolved : s'.resolved ≡ resolve float chrono s.base s.overlay
    pub run : s'.run ≡ s.run
    pub offset_ms : s'.clock.offset_ms ≡ s.clock.offset_ms
    pub frozen : s'.clock.frozen ≡ s.clock.frozen

  restore_kept :
      (offset : ℤ) (stopped : Bool) (instant later : ℕ) (wall : DateTime)
      → ((restore chrono offset stopped instant later wall).offset_ms ≡ offset)
        × ((restore chrono offset stopped instant later wall).frozen ≡ stopped)
  unfolding restore freeze
  restore_kept offset true instant later wall = (refl, refl)
  restore_kept offset false instant later wall = (refl, refl)

  boot_from-Same :
      (s : State float chrono) (wall now : DateTime) (at instant later : ℕ)
      → Same s (boot_from float chrono (capture float chrono s wall at) instant later now)
  unfolding boot_from restore_clock capture new mutate resolve
  boot_from-Same s wall now at instant later =
      let (offset, stopped) = restore_kept s.clock.offset_ms s.clock.frozen instant later now in
      record {
        base = refl;
        overlay = refl;
        resolved = refl;
        run = refl;
        offset_ms = offset;
        frozen = stopped;
      }

  module _ (sqlite : Sqlite) (texts : Texts float chrono) (laws : SqliteLaws sqlite)
      (debug : Bytes → Bytes) (snapshot_text : SnapshotError → Bytes)
      (config_text : ConfigError → Bytes) (parse_toml : Bytes → Bytes ⊎ Scenario float) where
    open sqlite use {File, open_file}

    -- A file written by the snapshot route without an error, under a name given or the default one,
    -- and named by the arguments of the next start, in either form: the process then starts, whatever
    -- its environment and scenario files, with the scenario, the overlay, the run and the clock's
    -- offset that the control plane had, its clock frozen if it was, and resolved from the two
    -- layers. SQLite must keep the row it
    -- takes, the file open again, the texts written be read back and the offset be an `i64`.
    pub boot-write_snapshot :
        (files : Files float chrono sqlite texts) (s : State float chrono) (path : Option Bytes)
        (wall : DateTime) (instant : ℕ) (w : Written) (reopened : File)
        (scenarios : Bytes → Bytes ⊎ Bytes)
        (r : Readings float chrono sqlite texts debug snapshot_text config_text parse_toml)
        (var : Env) (args : List Bytes)
        → ReadsBack float chrono sqlite texts (capture float chrono s wall instant)
        → FitsI64 s.clock.offset_ms
        → (write_snapshot float chrono sqlite texts files s path wall instant).1 ≡ inr w
        → open_file ((write_snapshot float chrono sqlite texts files s path wall instant).0 w.path)
          ≡ (reopened, none)
        → Names w.path args
        → let files' = (write_snapshot float chrono sqlite texts files s path wall instant).0 in
          (s' : State float chrono) × (boot float chrono sqlite texts debug snapshot_text
              config_text parse_toml
              (record { snapshots = files'; scenarios = scenarios })
              r
              var
              args
            ≡ inr s')
          × Same s s'
    unfolding boot from_snapshot read_snapshot
    boot-write_snapshot files s path wall instant w reopened scenarios r var args back fits ok opens
          named =
        let files' = (write_snapshot float chrono sqlite texts files s path wall instant).0 in
        let saved = capture float chrono s wall instant in
        let (reads, _, name, _) =
          read_snapshot-write_snapshot float chrono sqlite texts laws files s path wall instant w
            reopened back fits ok opens in
        let flag = restore_path-Names debug w.path args named in
        let here : read float chrono sqlite texts w.path (files' w.path) ≡ inr saved =
          subst (λ p. read float chrono sqlite texts p (files' p) ≡ inr saved) (sym name) reads in
        (
          boot_from float chrono saved r.instant r.later r.wall,
          rw (boot, flag, from_snapshot, here) refl,
          boot_from-Same s wall r.wall instant r.instant r.later,
        )
