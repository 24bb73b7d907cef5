-- ===== src/Http/Items.antt =====
-- `/api/items` of crates/http/src/items.rs over the data plane: the run of a request, the four
-- handlers, and the status of an error. The rows are those of the parameter `Postgres`.
use servr.Common.{
  ℕ, zero, suc, ◌⊎◌, inl, inr, Option, none, some, List, ◌++◌, Bytes, bytes, and_then, map_err,
}
use servr.Core.Chrono.{Chrono}
use servr.Http.Data.{
  DataError, unconfigured, unknown_run, sql, Postgres, Simple, Pools, require, pool,
}

pub data ApiError : Type 0 where
  bad_run : Bytes → ApiError
  not_found : ℕ → ApiError
  data_error : DataError → ApiError

unfoldable pub api_error_status : ApiError → ℕ
api_error_status (bad_run e) = 400
api_error_status (not_found id) = 404
api_error_status (data_error unconfigured) = 503
api_error_status (data_error (unknown_run run)) = 404
api_error_status (data_error (sql e)) = 500

-- The request's run header, as a text or as bytes that are none, and the parser of run ids.
pub data RunHeader : Type 0 where
  absent : RunHeader
  unreadable : RunHeader
  header_text : Bytes → RunHeader

-- `parse` gives the id or an error's text, and `debug` is the text of `{:?}`.
abbrev pub or_bad_run : (Bytes → Bytes) → Bytes → Bytes ⊎ ℕ → ApiError ⊎ ℕ
or_bad_run debug raw (inl e) = inl (bad_run (debug raw ++ bytes " is not a run id: " ++ e))
or_bad_run debug raw (inr run) = inr run

-- The process's own run where the header is absent.
unfoldable pub run_of : (Bytes → Bytes) → (Bytes → Bytes ⊎ ℕ) → RunHeader → ℕ → ApiError ⊎ ℕ
run_of debug parse absent own = inr own
run_of debug parse unreadable own = inl (bad_run (bytes "header is not valid text"))
run_of debug parse (header_text raw) own = or_bad_run debug raw (parse raw)

-- `created_at` is virtual time.
pub record Item (chrono : Chrono) : Type 0 where
  pub id : ℕ
  pub name : Bytes
  pub created_at : chrono.DateTime

-- The server and the data plane, which is optional.
pub record World {Row : Type 0} (pg : Postgres Row) : Type 0 where
  pub db : pg.Db
  pub pools : Option Pools

module _ (chrono : Chrono) (pg : Postgres (Item chrono)) (simple : Simple) (debug : Bytes → Bytes)
    (parse_run : Bytes → Bytes ⊎ ℕ) where
  open chrono use {DateTime}
  open pg use {Db, select_all, select_one, insert_row, delete_row}

  abbrev pub Row : Type 0
  Row = Item chrono

  -- What a handler is asked for, with the new id and the virtual time that `create` reads.
  pub data Request : Type 0 where
    list_items : Request
    get_item : (id : ℕ) → Request
    create_item : (name : Bytes) (id : ℕ) (now : DateTime) → Request
    delete_item : (id : ℕ) → Request

  -- The statuses 200, 200, 201 and 204.
  pub data Answer : Type 0 where
    listed : List Row → Answer
    found : Row → Answer
    created : Row → Answer
    deleted : Answer

  abbrev pub sql_error : Bytes → ApiError
  sql_error e = data_error (sql e)

  abbrev pub or_not_found : ℕ → Option Row → ApiError ⊎ Answer
  or_not_found id none = inl (not_found id)
  or_not_found id (some row) = inr (found row)

  unfoldable pub list : Db → Bytes → Db × (ApiError ⊎ Answer)
  list db path = (db, and_then (map_err sql_error (select_all db path)) (λ rows. inr (listed rows)))

  unfoldable pub get : Db → Bytes → ℕ → Db × (ApiError ⊎ Answer)
  get db path id = (db, and_then (map_err sql_error (select_one db path id)) (or_not_found id))

  abbrev pub inserted : Row → Option Bytes → ApiError ⊎ Answer
  inserted item none = inr (created item)
  inserted item (some e) = inl (sql_error e)

  unfoldable pub create : Db → Bytes → Bytes → ℕ → DateTime → Db × (ApiError ⊎ Answer)
  create db path name id now =
      let item : Row = record { id = id; name = name; created_at = now } in
      let (db', e) = insert_row db path item in (db', inserted item e)

  abbrev pub affected : ℕ → ℕ → ApiError ⊎ Answer
  affected id zero = inl (not_found id)
  affected id (suc n) = inr deleted

  unfoldable pub delete : Db → Bytes → ℕ → Db × (ApiError ⊎ Answer)
  delete db path id =
      let (db', done) = delete_row db path id in
      (db', and_then (map_err sql_error done) (affected id))

  unfoldable pub query : Request → Db → Bytes → Db × (ApiError ⊎ Answer)
  unfolding list get create delete
  query list_items db path = list db path
  query (get_item id) db path = get db path id
  query (create_item name id now) db path = create db path name id now
  query (delete_item id) db path = delete db path id

  abbrev pub on_pool : Request → Db → Pools × (DataError ⊎ Bytes) → World pg × (ApiError ⊎ Answer)
  on_pool q db (pools, inl e) = (record { db = db; pools = some pools }, inl (data_error e))
  on_pool q db (pools, inr path) =
      let (db', answer) = query q db path in (record { db = db'; pools = some pools }, answer)

  -- Every handler begins with the data plane and the pool of the run.
  unfoldable pub on_run : World pg → ℕ → Request → World pg × (ApiError ⊎ Answer)
  unfolding pool require
  on_run w run q = elim (require w.pools) [
    | inl e ↦ (w, inl (data_error e))
    | inr pools ↦ on_pool q w.db (pool Row pg simple w.db pools run)
  ]

  unfoldable pub handle : World pg → RunHeader → ℕ → Request → World pg × (ApiError ⊎ Answer)
  unfolding run_of
  handle w header own q = elim (run_of debug parse_run header own) [
    | inl e ↦ (w, inl e)
    | inr run ↦ on_run w run q
  ]
