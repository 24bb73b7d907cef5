-- ===== src/Examples/Items.antt =====
-- The theorem on the rows of runs at a concrete server: rows kept for each schema, and requests of
-- three runs.
use servr.Common.{
  ℕ, ◌≡◌, ◌≢◌, refl, sym, subst, ◌⊎◌, inl, inr, Bool-cases, Option, none, some, List, [], ◌∷◌,
  Bytes, bytes, bytes_beq, bytes_beq_iff, if◌then◌else◌, pos, ◌==◌, lookup, nat_eq, arith,
}
use servr.Core.Chrono.{milliseconds}
use servr.Http.Data.{Postgres, schema}
use servr.Http.Data.Pinned.{SchemaLaws, IsInjective}
use servr.Http.Items.{
  Item, World, header_text, absent, create_item, delete_item, list_items, run_of,
}
use servr.Admin.Runs.Isolation.{
  Act, asked, created, dropped, perform_all, perform_all_keeps, PoolsArePinned, AllSpare,
}

abbrev Row : Type 0
Row = Item milliseconds

abbrev Tables : Type 0
Tables = Bytes → List Row

abbrev put : Tables → Bytes → List Row → Tables
put tables path rows q = if bytes_beq path q then rows else tables q

abbrev first_of : ℕ → List Row → Option Row
first_of id [] = none
first_of id (row ∷ rows) = if row.id == id then some row else first_of id rows

abbrev without : ℕ → List Row → List Row
without id [] = []
without id (row ∷ rows) = if row.id == id then without id rows else row ∷ without id rows

abbrev removed : Option Row → ℕ
removed none = 0
removed (some row) = 1

-- A server that is always reached.
abbrev tables : Postgres Row
tables = record {
  Db = Tables;
  connect = λ db. none;
  create_schema = λ db p. (db, none);
  drop_schema = λ db p. (put db p [], none);
  migrate = λ db p. (db, none);
  select_all = λ db p. inr (db p);
  select_one = λ db p id. inr (first_of id (db p));
  insert_row = λ db p row. (put db p (row ∷ db p), none);
  delete_row = λ db p id. (put db p (without id (db p)), inr (removed (first_of id (db p))));
}

put-others : (db : Tables) (p q : Bytes) (rows : List Row) → p ≢ q → put db p rows q ≡ db q
put-others db p q rows d = elim (Bool-cases (bytes_beq p q)) [
  | inl e ↦ absurd (d ((bytes_beq_iff p q).0 e))
  | inr e ↦ rw e refl
]

tables-SchemaLaws : SchemaLaws Row tables (λ db p. db p)
tables-SchemaLaws = record {
  create_keeps = λ db p q. refl;
  migrate_keeps = λ db p q. refl;
  drop_others = λ db p q d. put-others db p q [] d;
  insert_others = λ db p q row d. put-others db p q (row ∷ db p) d;
  delete_others = λ db p q id d. put-others db p q (without id (db p)) d;
}

abbrev simple : ℕ → Bytes
simple run = run ∷ []

simple-IsInjective : IsInjective simple
simple-IsInjective a b e = cc

-- The text of a run's id is its one byte.
abbrev parse_run : Bytes → Bytes ⊎ ℕ
parse_run (run ∷ []) = inr run
parse_run _ = inl (bytes "invalid length")

abbrev item : Row
item = record { id = 5; name = bytes "kept"; created_at = pos 1000 }

abbrev world : World tables
world = record {
  db = put (λ p. []) (schema simple 2) (item ∷ []);
  pools = some ((2, schema simple 2) ∷ []);
}

abbrev acts : List (Act milliseconds tables simple (λ t. t) simple parse_run)
acts =
    created 1
    ∷ asked (header_text (1 ∷ [])) 7 (create_item (bytes "other") 5 (pos 2000))
    ∷ asked absent 7 (delete_item 5)
    ∷ created 2
    ∷ asked (header_text (bytes "two")) 7 list_items
    ∷ dropped (1 ∷ [])
    ∷ []

kept-Pinned :
    (run : ℕ) (path : Bytes)
    → lookup run ((2, schema simple 2) ∷ []) ≡ some path
    → path ≡ schema simple run
unfolding schema
kept-Pinned run path e = ground arith

some_inj : {A : Type 0} (a b : A) → some a ≡ some b → a ≡ b
some_inj a b e = cc

world-Pinned : PoolsArePinned tables simple world
world-Pinned pools held run path e = kept-Pinned run path (
    subst (λ ps. lookup run ps ≡ some path) (sym (some_inj ((2, schema simple 2) ∷ []) pools held))
      e)

other_run : {A : Type 0} (a run : ℕ) → a ≢ 2 → ◌≡◌ {A = A ⊎ ℕ} (inr a) (inr run) → run ≢ 2
other_run a run d e f = absurd (d (cc))

acts-AllSpare : AllSpare milliseconds tables simple (λ t. t) simple parse_run 2 acts
unfolding run_of
acts-AllSpare = (
  tt,
  (
    (λ run e. other_run 1 run (λ z. absurd (cc)) e),
    (
      (λ run e. other_run 7 run (λ z. absurd (cc)) e),
      (tt, ((λ run e. absurd (cc)), ((λ run e. other_run 1 run (λ z. absurd (cc)) e), tt))),
    ),
  ),
)

perform_all_keeps_example :
    let after = perform_all milliseconds tables simple (λ t. t) simple parse_run world acts in
    (after.db (schema simple 2) ≡ item ∷ []) × PoolsArePinned tables simple after
unfolding schema
perform_all_keeps_example =
    perform_all_keeps milliseconds tables simple (λ t. t) simple parse_run (λ db p. db p)
      tables-SchemaLaws simple-IsInjective acts world 2 world-Pinned acts-AllSpare
