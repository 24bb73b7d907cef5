-- ===== src/Examples/Saved.antt =====
-- The theorems on snapshots and trace identifiers of crates/core at concrete inputs: a file that is
-- absent before the snapshot, and what is said of the clock after it.
use servr.Common.{to_ascii_lowercase}
use servr.Common.{
  ◌+ℤ◌, wrap_i64, FitsI64, ℕ, ◌⊎◌, ◌≡◌, refl, ap, subst, true, false, Bool, Option, none, some,
  List, [], ◌∷◌, inl, inr, bytes, Bytes, ℤ, pos, arith, parse_i64, show_ℤ, parse_i64-show_ℤ, ◌++◌,
}
use servr.Core.Chrono.{milliseconds}
use servr.Core.Clock.{advance, elapsed_since}
use servr.Core.Config.{Overlay, Scenario}
use servr.Core.State.{State, new, mutate}
use servr.Core.State.Reset.{Call, mutates, ticks, run_calls}
use servr.Core.Snapshot.{
  QueryError, no_rows, Row, Sqlite, Texts, Snapshot, capture, boot_from, write, row_of, read,
}
use servr.Core.Snapshot.Saved.{SqliteLaws, ReadsBack, Restored, history, boot_from-write}
use servr.Admin.Snapshots.{Files, Written, default_snapshot, write_snapshot}
use servr.Core.Trace.{IsId, to_string, from_str, ok, panics, span_len}
use servr.Core.Trace.Hex.{to_string-from_str, from_str-panics}
use servr.Server.{Readings, boot}
use servr.Server.Restart.{Same, joined, boot-write_snapshot}
use servr.Examples.Data.{percent, gateway_rule, scenario, clock}

-- No file, or one with a row or none.
abbrev row_query : Option (Option Row) → QueryError ⊎ Row
row_query none = inl no_rows
row_query (some none) = inl no_rows
row_query (some (some row)) = inr row

abbrev is_there : Option (Option Row) → Bool
is_there none = false
is_there (some rows) = true

abbrev created : Option (Option Row) → Option (Option Row)
created none = some none
created (some rows) = some rows

abbrev sqlite : Sqlite
sqlite = record {
  File = Option (Option Row);
  exists = is_there;
  open_file = λ file. (created file, none);
  create_table = λ file. (file, none);
  upsert = λ row file. (some (some row), none);
  query_row = row_query;
}

file_of :
    {f f' : Option (Option Row)}
    → ◌≡◌ {A = Option (Option Row) × Option Bytes} (f, none) (f', none)
    → f ≡ f'
file_of h = ap (λ (p : Option (Option Row) × Option Bytes). p.0) h

sqlite-SqliteLaws : SqliteLaws sqlite
sqlite-SqliteLaws = record {
  exists_after = λ row file file' h. subst (λ f. is_there f ≡ true) (file_of h) refl;
  found_after = λ row file file' file'' fits h k.
      subst (λ f. row_query f ≡ inr row) (file_of k)
        (subst (λ f. row_query (created f) ≡ inr row) (file_of h) refl);
}

abbrev overlay : Overlay percent
overlay = record { faults = some (gateway_rule ∷ []); telemetry = none; webhooks = none }

-- JSON's texts are stood for by constants: there is one scenario and one overlay.
abbrev texts : Texts percent milliseconds
texts = record {
  scenario_text = λ s. inr (bytes "scenario");
  scenario_from = λ t. inr scenario;
  overlay_text = λ o. inr (bytes "overlay");
  overlay_from = λ t. inr overlay;
  to_rfc3339 = show_ℤ;
  parse_from_rfc3339 = parse_i64;
  run_text = λ run. run ∷ [];
  run_from = λ text. some 7;
}

abbrev calls : List (Call percent milliseconds)
calls = mutates (λ o. overlay) ∷ ticks (λ c. advance milliseconds c 3600000) ∷ []

abbrev saved : Snapshot percent milliseconds
saved =
    capture percent milliseconds (history percent milliseconds sqlite texts scenario clock 7 calls)
      (pos 5) 9000000000

saved-ReadsBack : ReadsBack percent milliseconds sqlite texts saved
unfolding capture ◌+ℤ◌ parse_i64 show_ℤ run_calls advance mutate new wrap_i64 elapsed_since
saved-ReadsBack = record {
  created_at = parse_i64-show_ℤ (pos 5) (omega arith, omega arith);
  virtual_now = parse_i64-show_ℤ (pos 3610000) (omega arith, omega arith);
  run = refl;
  base = λ t h. refl;
  overlay = λ t h. refl;
}

abbrev file_after : Option (Option Row)
file_after = (write percent milliseconds sqlite texts saved none).0

saved_written : write percent milliseconds sqlite texts saved none ≡ (file_after, none)
unfolding write row_of
saved_written = refl

saved_reopened : sqlite.open_file file_after ≡ (file_after, none)
unfolding write row_of
saved_reopened = refl

calls_fit :
    FitsI64 (history percent milliseconds sqlite texts scenario clock 7 calls).clock.offset_ms
unfolding run_calls mutate new advance wrap_i64 ◌+ℤ◌
calls_fit = (omega arith, omega arith)

boot_from-write_example :
    (s : Snapshot percent milliseconds) × (read percent milliseconds sqlite texts
        (bytes "file")
        file_after
      ≡ inr s)
    × ((first second : ℕ) (later : ℤ)
        → Restored percent milliseconds sqlite texts scenario clock 7 calls
            (boot_from percent milliseconds s first second later))
boot_from-write_example =
    boot_from-write percent milliseconds sqlite texts sqlite-SqliteLaws (bytes "file") scenario
      clock 7 calls (pos 5) 9000000000 none file_after file_after saved-ReadsBack calls_fit
      saved_written saved_reopened

abbrev control : State percent milliseconds
control = history percent milliseconds sqlite texts scenario clock 7 calls

abbrev no_files : Files percent milliseconds sqlite texts
no_files path = none

abbrev written : Written
written = record {
  path = default_snapshot;
  run = control.run;
  clock_offset_ms = control.clock.offset_ms;
  restore_with = bytes "testbed --restore testbed-snapshot.sqlite";
}

abbrev no_scenario : Bytes → Bytes ⊎ Scenario percent
no_scenario text = inl []

abbrev restart : Readings percent milliseconds sqlite texts (λ t. t) (λ e. []) (λ e. []) no_scenario
restart = record { run = 8; instant = 5000000; later = 6000000; wall = pos 99 }

boot-write_snapshot_example :
    let files' =
      (write_snapshot percent milliseconds sqlite texts no_files control none
        (pos 5)
        9000000000).0 in
    (s' : State percent milliseconds) × (boot percent milliseconds sqlite texts
        (λ t. t)
        (λ e. [])
        (λ e. [])
        no_scenario
        (record { snapshots = files'; scenarios = λ path. inl [] })
        restart
        (λ name. none)
        (bytes "--restore=testbed-snapshot.sqlite" ∷ [])
      ≡ inr s')
    × Same percent milliseconds control s'
unfolding write_snapshot write row_of capture
boot-write_snapshot_example =
    boot-write_snapshot percent milliseconds sqlite texts sqlite-SqliteLaws (λ t. t) (λ e. [])
      (λ e. []) no_scenario no_files control none (pos 5) 9000000000 written file_after
      (λ path. inl []) restart (λ name. none) (bytes "--restore=testbed-snapshot.sqlite" ∷ [])
      saved-ReadsBack calls_fit refl refl joined

abbrev span : Bytes
span = 0 ∷ 240 ∷ 103 ∷ 170 ∷ 11 ∷ 169 ∷ 2 ∷ 183 ∷ []

span-IsId : IsId span_len span
span-IsId = record { size = refl; are_bytes = ground arith }

to_string-from_str_example :
    (id : Bytes) × (from_str span_len (bytes "00F067AA0ba902b7") ≡ ok id)
    × IsId span_len id
    × (to_string id ≡ to_ascii_lowercase (bytes "00F067AA0ba902b7"))
to_string-from_str_example =
    to_string-from_str span_len (bytes "00F067AA0ba902b7") refl (ground arith)

-- `00f067aa0ba9`, then an `a`, the two bytes of `é`, and a `b`.
from_str-panics_example :
    from_str span_len
      (to_string (0 ∷ 240 ∷ 103 ∷ 170 ∷ 11 ∷ 169 ∷ []) ++ (97 ∷ 195 ∷ 169 ∷ 98 ∷ []))
    ≡ panics
from_str-panics_example =
    from_str-panics span_len 1 (0 ∷ 240 ∷ 103 ∷ 170 ∷ 11 ∷ 169 ∷ []) 97 195 169 (98 ∷ [])
      (ground arith) refl refl refl refl
