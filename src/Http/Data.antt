-- ===== src/Http/Data.antt =====
-- `DataPlane` of crates/http/src/data.rs: a pool for each run, whose connections have the run's
-- schema as their search path, and the schemas created and dropped. PostgreSQL and the texts of run
-- ids are parameters; a pool is the schema that its connections are set to. The interned statements
-- and the race of two first uses of a pool are left out.
pub mod Pinned
use servr.Common.{
  ℕ, ◌⊎◌, inl, inr, Option, none, some, List, [], ◌∷◌, ◌++◌, map, Bytes, bytes, lookup, insert,
  remove, nat_eq,
}

pub data DataError : Type 0 where
  unconfigured : DataError
  unknown_run : (run : ℕ) → DataError
  sql : Bytes → DataError

-- A server whose statements name a schema by the connection's search path, each with an error's
-- text where it fails. A `Row` is a row of the migration's table, under its id.
pub record Postgres (Row : Type 0) : Type 1 where
  pub Db : Type 0
  pub connect : Db → Option Bytes
  pub create_schema : Db → Bytes → Db × Option Bytes
  pub drop_schema : Db → Bytes → Db × Option Bytes
  pub migrate : Db → Bytes → Db × Option Bytes
  pub select_all : Db → Bytes → Bytes ⊎ List Row
  pub select_one : Db → Bytes → ℕ → Bytes ⊎ Option Row
  pub insert_row : Db → Bytes → Row → Db × Option Bytes
  pub delete_row : Db → Bytes → ℕ → Db × (Bytes ⊎ ℕ)

-- `Uuid::simple`.
abbrev pub Simple : Type 0
Simple = ℕ → Bytes

-- `RunId::schema`
unfoldable pub schema : Simple → ℕ → Bytes
schema simple run = bytes "run_" ++ simple run

abbrev pub Pools : Type 0
Pools = List (ℕ × Bytes)

abbrev pub result : {A : Type 0} → Option Bytes → A → DataError ⊎ A
result none a = inr a
result (some e) a = inl (sql e)

unfoldable pub runs : Pools → List ℕ
runs pools = map (λ (run, pool). run) pools

unfoldable pub require : Option Pools → DataError ⊎ Pools
require none = inl unconfigured
require (some pools) = inr pools

module _ (Row : Type 0) (pg : Postgres Row) (simple : Simple) where
  open pg use {Db, connect, create_schema, drop_schema, migrate}

  -- The pool of a run, which is made on its first use.
  unfoldable pub pool : Db → Pools → ℕ → Pools × (DataError ⊎ Bytes)
  unfolding schema
  pool db pools run = elim (lookup run pools) [
    | some found ↦ (pools, inr found)
    | none ↦ elim (connect db) [
      | some e ↦ (pools, inl (sql e))
      | none ↦ (insert run (schema simple run) pools, inr (schema simple run))
    ]
  ]

  -- The migration is applied through the run's own pool.
  abbrev pub migrated : Db → Pools × (DataError ⊎ Bytes) → Db × Pools × (DataError ⊎ Unit {0})
  migrated db (pools, inl e) = (db, pools, inl e)
  migrated db (pools, inr found) = let (db', e) = migrate db found in (db', pools, result e tt)

  unfoldable pub create_run : Db → Pools → ℕ → Db × Pools × (DataError ⊎ Unit {0})
  unfolding pool
  create_run db pools run = elim (connect db) [
    | some e ↦ (db, pools, inl (sql e))
    | none ↦
        let (db', failed) = create_schema db (schema simple run) in
        elim failed [
          | some e ↦ (db', pools, inl (sql e))
          | none ↦ migrated db' (pool db' pools run)
        ]
  ]

  -- The pool goes first, whatever becomes of the schema.
  unfoldable pub drop_run : Db → Pools → ℕ → Db × Pools × (DataError ⊎ Unit {0})
  unfolding schema
  drop_run db pools run =
      let left = remove run pools in
      elim (connect db) [
        | some e ↦ (db, left, inl (sql e))
        | none ↦
            let (db', failed) = drop_schema db (schema simple run) in (db', left, result failed tt)
      ]
