-- ===== src/Http/Data/Pinned.antt =====
-- Every pool of the data plane of crates/http/src/data.rs is set to its run's schema, and what is
-- done for one run leaves the rows of the others alone.
use servr.Common.{
  ℕ, ◌≡◌, ◌≢◌, refl, sym, subst, ◌∙◌, ◌⊎◌, inl, inr, some, List, [], ◌∷◌, ◌++◌, Bytes, bytes,
  lookup, insert, remove, nat_eq, lookup-insert, lookup-remove, Option-cases, arith,
}
use servr.Http.Data.{
  DataError, Postgres, Simple, schema, Pools, pool, migrated, create_run, drop_run,
}

-- What the statements do to the rows of the schemas.
pub record SchemaLaws (Row : Type 0) (pg : Postgres Row) (rows : pg.Db → Bytes → List Row)
    : Type 0 where
  pub create_keeps : (db : pg.Db) (p q : Bytes) → rows (pg.create_schema db p).0 q ≡ rows db q
  pub migrate_keeps : (db : pg.Db) (p q : Bytes) → rows (pg.migrate db p).0 q ≡ rows db q
  pub drop_others : (db : pg.Db) (p q : Bytes) → p ≢ q → rows (pg.drop_schema db p).0 q ≡ rows db q
  pub insert_others :
      (db : pg.Db) (p q : Bytes) (row : Row) → p ≢ q → rows (pg.insert_row db p row).0 q ≡ rows db q
  pub delete_others :
      (db : pg.Db) (p q : Bytes) (id : ℕ) → p ≢ q → rows (pg.delete_row db p id).0 q ≡ rows db q

-- Different runs have different schemas, as the texts of different ids differ.
abbrev pub IsInjective : Simple → Type 0
IsInjective simple = (a b : ℕ) → simple a ≡ simple b → a ≡ b

prefix_cancel : (p a b : Bytes) → p ++ a ≡ p ++ b → a ≡ b
prefix_cancel [] a b e = e
prefix_cancel (c ∷ p) a b e = prefix_cancel p a b (cc)

pub schema-ne :
    (simple : Simple) (a b : ℕ) → IsInjective simple → a ≢ b → schema simple a ≢ schema simple b
unfolding schema
schema-ne simple a b inj d e = d (inj a b (prefix_cancel (bytes "run_") (simple a) (simple b) e))

-- Each pool is set to the schema of its run.
abbrev pub IsPinned : Simple → Pools → Type 0
IsPinned simple pools =
    (run : ℕ) (path : Bytes) → lookup run pools ≡ some path → path ≡ schema simple run

module _ (Row : Type 0) (pg : Postgres Row) (simple : Simple) (rows : pg.Db → Bytes → List Row)
    (laws : SchemaLaws Row pg rows) where
  open pg use {Db, connect, create_schema, drop_schema, migrate}

  insert-IsPinned :
      (pools : Pools) (run : ℕ)
      → IsPinned simple pools
      → IsPinned simple (insert run (schema simple run) pools)
  insert-IsPinned pools run h k path e =
      ground (arith, lookup-insert run k (schema simple run) pools, h k path)

  remove-IsPinned :
      (pools : Pools) (run : ℕ) → IsPinned simple pools → IsPinned simple (remove run pools)
  remove-IsPinned pools run h k path e = ground (arith, lookup-remove run k pools, h k path)

  -- The pools afterwards are pinned, and a pool that is given is.
  pub pool-IsPinned :
      (db : Db) (pools : Pools) (run : ℕ)
      → IsPinned simple pools
      → IsPinned simple (pool Row pg simple db pools run).0
        × ((path : Bytes)
            → (pool Row pg simple db pools run).1 ≡ inr path
            → path ≡ schema simple run)
  unfolding pool
  pool-IsPinned db pools run h = elim (Option-cases (lookup run pools)) [
    | inr (found, e) ↦ rw (pool, e) (h, λ path f. ground (arith, h run path, h run found))
    | inl n ↦ elim (Option-cases (connect db)) [
      | inr (m, e) ↦ rw (pool, n, e) (h, λ path f. absurd (cc))
      | inl c ↦ rw (pool, n, c) (insert-IsPinned pools run h, λ path f. cc)
    ]
  ]

  migrated_lem :
      (db : Db) (p : Pools × (DataError ⊎ Bytes)) (q : Bytes)
      → (rows (migrated Row pg simple db p).0 q ≡ rows db q)
        × ((migrated Row pg simple db p).1 ≡ p.0)
  migrated_lem db (pools, inl e) q = (refl, refl)
  migrated_lem db (pools, inr found) q = (laws.migrate_keeps db found q, refl)

  -- A run created, again or anew, changes no rows at all.
  pub create_run-Keeps :
      (db : Db) (pools : Pools) (run : ℕ) (q : Bytes)
      → IsPinned simple pools
      → (rows (create_run Row pg simple db pools run).0 q ≡ rows db q)
        × IsPinned simple (create_run Row pg simple db pools run).1
  unfolding create_run
  create_run-Keeps db pools run q h = elim (Option-cases (connect db)) [
    | inr (m, e) ↦ rw (create_run, e) (refl, h)
    | inl c ↦
        let kept = laws.create_keeps db (schema simple run) q in
        elim (Option-cases (create_schema db (schema simple run)).1) [
          | inr (m, e) ↦ rw (create_run, c, e) (kept, h)
          | inl s ↦
              let db' = (create_schema db (schema simple run)).0 in
              let (same, pinned) = migrated_lem db' (pool Row pg simple db' pools run) q in
              rw (create_run, c, s)
                (
                  same ∙ kept,
                  subst (IsPinned simple) (sym pinned) (pool-IsPinned db' pools run h).0,
                )
        ]
  ]

  -- A run dropped changes the rows of no other run.
  pub drop_run-Keeps :
      (db : Db) (pools : Pools) (run other : ℕ)
      → IsInjective simple
      → run ≢ other
      → IsPinned simple pools
      → (rows (drop_run Row pg simple db pools run).0 (schema simple other)
          ≡ rows db (schema simple other))
        × IsPinned simple (drop_run Row pg simple db pools run).1
  unfolding drop_run
  drop_run-Keeps db pools run other inj d h = elim (Option-cases (connect db)) [
    | inr (m, e) ↦ rw (drop_run, e) (refl, remove-IsPinned pools run h)
    | inl c ↦
        rw (drop_run, c)
          (
            laws.drop_others db (schema simple run) (schema simple other)
                (schema-ne simple run other inj d),
            remove-IsPinned pools run h,
          )
  ]
