-- ===== src/Admin/Runs/Isolation.antt =====
-- The rows of a run of the data plane, under the requests for items of crates/http/src/items.rs and
-- the run routes of crates/admin/src/lib.rs in any order.
use servr.Common.{
  ℕ, ◌≡◌, ◌≢◌, refl, sym, subst, ◌∙◌, ◌⊎◌, inl, inr, some, List, [], ◌∷◌, Bytes, Option-cases,
}
use servr.Core.Chrono.{Chrono}
use servr.Http.Data.{
  DataError, Postgres, Simple, Pools, schema, require, pool, create_run, drop_run,
}
use servr.Http.Data.Pinned.{
  SchemaLaws, IsInjective, IsPinned, schema-ne, pool-IsPinned, create_run-Keeps, drop_run-Keeps,
}
use servr.Http.Items.{
  Item, RunHeader, World, Request, list_items, get_item, create_item, delete_item, run_of, list,
  get, create, delete, query, on_pool, on_run, handle,
}
use servr.Admin.Runs.{settled, RunError}
use servr.Admin.Runs

result_cases : {A B : Type 0} (r : A ⊎ B) → ((a : A) × (r ≡ inl a)) ⊎ ((b : B) × (r ≡ inr b))
result_cases (inl a) = inl (a, refl)
result_cases (inr b) = inr (b, refl)

-- The pools that the data plane holds are set to the schemas of their runs.
abbrev pub PoolsArePinned : {Row : Type 0} → (pg : Postgres Row) → Simple → World pg → Type 0
PoolsArePinned pg simple w = (pools : Pools) → w.pools ≡ some pools → IsPinned simple pools

module _ (chrono : Chrono) (pg : Postgres (Item chrono)) (simple : Simple) (debug : Bytes → Bytes)
    (run_text : ℕ → Bytes) (parse_run : Bytes → Bytes ⊎ ℕ) where
  open pg use {Db}

  abbrev Row : Type 0
  Row = Item chrono

  -- A request for items with its run header, beside the process's own run, and the run routes.
  pub data Act : Type 0 where
    asked : RunHeader → ℕ → Request chrono pg simple debug parse_run → Act
    created : (run : ℕ) → Act
    dropped : Bytes → Act

  abbrev pub perform : World pg → Act → World pg
  perform w (asked header own q) = (handle chrono pg simple debug parse_run w header own q).0
  perform w (created run) = (Runs.create_run chrono pg simple run_text parse_run w run).0
  perform w (dropped id) = (Runs.drop_run chrono pg simple run_text parse_run w id).0

  abbrev pub perform_all : World pg → List Act → World pg
  perform_all w [] = w
  perform_all w (act ∷ acts) = perform_all (perform w act) acts

  -- A request for items that names another run, or a drop of another one. A run may be created again.
  abbrev pub Spares : ℕ → Act → Type 0
  Spares other (asked header own q) =
      (run : ℕ) → run_of debug parse_run header own ≡ inr run → run ≢ other
  Spares other (created run) = Unit
  Spares other (dropped id) = (run : ℕ) → parse_run id ≡ inr run → run ≢ other

  abbrev pub AllSpare : ℕ → List Act → Type 0
  AllSpare other [] = Unit
  AllSpare other (act ∷ acts) = Spares other act × AllSpare other acts

  module _ (rows : Db → Bytes → List (Item chrono)) (laws : SchemaLaws (Item chrono) pg rows)
      (inj : IsInjective simple) where
    abbrev Kept : ℕ → World pg → World pg → Type 0
    Kept other w w' =
        (rows w'.db (schema simple other) ≡ rows w.db (schema simple other))
        × PoolsArePinned pg simple w'

    query_keeps :
        (q : Request chrono pg simple debug parse_run) (db : Db) (path p : Bytes)
        → path ≢ p
        → rows (query chrono pg simple debug parse_run q db path).0 p ≡ rows db p
    unfolding query list get create delete
    query_keeps list_items db path p d = refl
    query_keeps (get_item id) db path p d = refl
    query_keeps (create_item name id now) db path p d =
        laws.insert_others db path p (record { id = id; name = name; created_at = now }) d
    query_keeps (delete_item id) db path p d = laws.delete_others db path p id d

    pinned_some :
        (db : Db) (pools : Pools)
        → IsPinned simple pools
        → PoolsArePinned pg simple (record { db = db; pools = some pools })
    pinned_some db pools h left e run path found = h run path (cc)

    on_pool-Kept :
        (q : Request chrono pg simple debug parse_run) (w : World pg)
        (p : Pools × (DataError ⊎ Bytes)) (other : ℕ)
        → IsPinned simple p.0
        → ((path : Bytes) → p.1 ≡ inr path → path ≢ schema simple other)
        → Kept other w (on_pool chrono pg simple debug parse_run q w.db p).0
    on_pool-Kept q w (pools, inl e) other h d = (refl, pinned_some w.db pools h)
    on_pool-Kept q w (pools, inr path) other h d = (
      query_keeps q w.db path (schema simple other) (d path refl),
      pinned_some (query chrono pg simple debug parse_run q w.db path).0 pools h,
    )

    on_run-Kept :
        (w : World pg) (run other : ℕ) (q : Request chrono pg simple debug parse_run)
        → PoolsArePinned pg simple w
        → run ≢ other
        → Kept other w (on_run chrono pg simple debug parse_run w run q).0
    unfolding on_run
    on_run-Kept w run other q h d = elim (Option-cases w.pools) [
      | inl n ↦ rw (on_run, require, n) (refl, λ left f. absurd (cc))
      | inr (pools, e) ↦
          let (pinned, path) = pool-IsPinned Row pg simple rows laws w.db pools run (h pools e) in
          let away : (p : Bytes)
              → (pool Row pg simple w.db pools run).1 ≡ inr p
              → p ≢ schema simple other =
            λ p f.
              subst (λ found. found ≢ schema simple other) (sym (path p f))
                (schema-ne simple run other inj d) in
          rw (on_run, require, e)
            (on_pool-Kept q w (pool Row pg simple w.db pools run) other pinned away)
    ]

    asked-Kept :
        (w : World pg) (other : ℕ) (header : RunHeader) (own : ℕ)
        (q : Request chrono pg simple debug parse_run)
        → PoolsArePinned pg simple w
        → Spares other (asked header own q)
        → Kept other w (perform w (asked header own q))
    unfolding handle
    asked-Kept w other header own q h s = elim (result_cases (run_of debug parse_run header own)) [
      | inl (m, e) ↦ rw (perform, handle, e) (refl, h)
      | inr (run, e) ↦ rw (perform, handle, e) (on_run-Kept w run other q h (s run e))
    ]

    settled-Kept :
        {A : Type 0} (a : A) (w : World pg) (p : Db × Pools × (DataError ⊎ Unit {0})) (other : ℕ)
        → (rows p.0 (schema simple other) ≡ rows w.db (schema simple other)) × IsPinned simple p.1
        → Kept other w (settled chrono pg simple run_text parse_run a p).0
    settled-Kept a w (db, pools, inl e) other (k, h) = (k, pinned_some db pools h)
    settled-Kept a w (db, pools, inr u) other (k, h) = (k, pinned_some db pools h)

    created-Kept :
        (w : World pg) (other run : ℕ)
        → PoolsArePinned pg simple w
        → Kept other w (perform w (created run))
    unfolding Runs.create_run
    created-Kept w other run h = elim (Option-cases w.pools) [
      | inl n ↦ simp (perform, Runs.create_run, require, n) (refl, λ left f. absurd (cc))
      | inr (pools, e) ↦
          rw (Runs.create_run, require, e)
            (settled-Kept (record { run = run_text run; schema_name = schema simple run }) w
              (create_run Row pg simple w.db pools run) other
              (create_run-Keeps Row pg simple rows laws w.db pools run (schema simple other)
                (h pools e)))
    ]

    dropped-Kept :
        (w : World pg) (other : ℕ) (id : Bytes)
        → PoolsArePinned pg simple w
        → Spares other (dropped id)
        → Kept other w (perform w (dropped id))
    unfolding Runs.drop_run
    dropped-Kept w other id h s = elim (Option-cases w.pools) [
      | inl n ↦ simp (perform, Runs.drop_run, require, n) (refl, λ left f. absurd (cc))
      | inr (pools, e) ↦ elim (result_cases (parse_run id)) [
        | inl (m, f) ↦ rw (Runs.drop_run, require, e, f) (refl, λ left g. h left (e ∙ g))
        | inr (run, f) ↦
            rw (Runs.drop_run, require, e, f)
              (settled-Kept tt w (drop_run Row pg simple w.db pools run) other (
                drop_run-Keeps Row pg simple rows laws w.db pools run other inj (s run f)
                  (h pools e)))
      ]
    ]

    perform-Kept :
        (w : World pg) (other : ℕ) (act : Act)
        → PoolsArePinned pg simple w
        → Spares other act
        → Kept other w (perform w act)
    perform-Kept w other (asked header own q) h s = asked-Kept w other header own q h s
    perform-Kept w other (created run) h s = created-Kept w other run h
    perform-Kept w other (dropped id) h s = dropped-Kept w other id h s

    -- However many requests for items of other runs, runs created and other runs dropped there are,
    -- in whatever order and with whatever failures, the rows of a run are what they were, and every
    -- pool is still set to its own run's schema. The pools must be so at first, different ids have
    -- different texts, and the server's statements keep to the schema that they name.
    pub perform_all_keeps :
        (acts : List Act) (w : World pg) (other : ℕ)
        → PoolsArePinned pg simple w
        → AllSpare other acts
        → (rows (perform_all w acts).db (schema simple other) ≡ rows w.db (schema simple other))
          × PoolsArePinned pg simple (perform_all w acts)
    perform_all_keeps [] w other h s = (refl, h)
    perform_all_keeps (act ∷ acts) w other h (s, ss) =
        let (same, pinned) = perform-Kept w other act h s in
        let (rest, last) = perform_all_keeps acts (perform w act) other pinned ss in
        (rest ∙ same, last)
