-- ===== src/Admin/Runs.antt =====
-- The run routes of crates/admin/src/lib.rs: a run created, the runs listed and a run dropped in the
-- data plane, with the status of an error. The new id is an argument, and the texts of ids are
-- parameters.
pub mod Isolation
use servr.Common.{ℕ, ◌⊎◌, inl, inr, Option, none, some, List, map, Bytes, map_err}
use servr.Core.Chrono.{Chrono}
use servr.Http.Data.{
  DataError, unconfigured, unknown_run, sql, Postgres, Simple, Pools, schema, require, runs,
}
use servr.Http.Data
use servr.Http.Items.{Item, World}

pub data RunError : Type 0 where
  bad_id : Bytes → RunError
  data_error : DataError → RunError

unfoldable pub run_error_status : RunError → ℕ
run_error_status (bad_id id) = 400
run_error_status (data_error unconfigured) = 503
run_error_status (data_error (unknown_run run)) = 404
run_error_status (data_error (sql e)) = 500

pub record CreatedRun : Type 0 where
  pub run : Bytes
  pub schema_name : Bytes

module _ (chrono : Chrono) (pg : Postgres (Item chrono)) (simple : Simple) (run_text : ℕ → Bytes)
    (parse_run : Bytes → Bytes ⊎ ℕ) where
  open pg use {Db}

  abbrev pub Plane : Type 0
  Plane = World pg

  abbrev pub settled :
      {A : Type 0} → A → Db × Pools × (DataError ⊎ Unit {0}) → Plane × (RunError ⊎ A)
  settled a (db, pools, inl e) = (record { db = db; pools = some pools }, inl (data_error e))
  settled a (db, pools, inr _) = (record { db = db; pools = some pools }, inr a)

  unfoldable pub create_run : Plane → ℕ → Plane × (RunError ⊎ CreatedRun)
  unfolding require schema
  create_run w run = elim (require w.pools) [
    | inl e ↦ (w, inl (data_error e))
    | inr pools ↦
        settled (record { run = run_text run; schema_name = schema simple run })
          (Data.create_run (Item chrono) pg simple w.db pools run)
  ]

  unfoldable pub list_runs : Plane → RunError ⊎ List Bytes
  unfolding require runs
  list_runs w = elim (require w.pools) [
    | inl e ↦ inl (data_error e)
    | inr pools ↦ inr (map run_text (runs pools))
  ]

  unfoldable pub drop_run : Plane → Bytes → Plane × (RunError ⊎ Unit {0})
  unfolding require
  drop_run w id = elim (require w.pools) [
    | inl e ↦ (w, inl (data_error e))
    | inr pools ↦ elim (parse_run id) [
      | inl e ↦ (w, inl (bad_id id))
      | inr run ↦ settled tt (Data.drop_run (Item chrono) pg simple w.db pools run)
    ]
  ]
