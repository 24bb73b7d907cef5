-- ===== src/Examples/Queue.antt =====
-- The theorems on crates/queue at concrete inputs: a job that always fails, on the memory store.
use servr.Common.{
  ℕ, ◌≡◌, refl, none, some, List, [], ◌∷◌, ◌++◌, bytes, lookup, nat_eq, pos, arith, as_i64, ◌+ℤ◌,
}
use servr.Core.Chrono.{milliseconds}
use servr.Queue.Job.{Job, scheduled, running, dead, next_backoff_ms, backoff_at, can_retry}
use servr.Queue.Store.{ok, ClaimsDue, Distinct, ids, claimed}
use servr.Queue.Memory.{Jobs, memory_store, claim_due}
use servr.Queue.Memory.Laws.{IsMemory, memory_view, memory_store-Contract, claim_due_jobs}
use servr.Queue.Scheduler.{
  Messages, Handlers, Readings, World, default_handlers, register, outcome, tick,
}
use servr.Queue.Scheduler.Settle.{settle}
use servr.Queue.Scheduler.Tick.{tick_lem, tick_view, all_events}
use servr.Queue.Scheduler.Life.Views.{Tick, run_ticks}
use servr.Queue.Scheduler.Life.Attempts.{IsBounded, attempts-IsBounded}
use servr.Queue.Scheduler.Life.Failing.{InTime, Died, Fails, failing_job_dies}

abbrev J : Type 0
J = Job milliseconds (Unit {0})

abbrev failing_job : J
failing_job = record {
  id = 7;
  run = 1;
  kind = bytes "fail";
  payload = tt;
  state = scheduled;
  attempt = 0;
  max_attempts = 2;
  due_at = pos 100;
  backoff_ms = 1000 ∷ [];
  enqueued_trace = none;
  enqueued_span = none;
  last_error = none;
}

abbrev dead_job : J
dead_job = record failing_job { id = 8; state = dead; attempt = 2 }

abbrev jobs : Jobs milliseconds (Unit {0})
jobs = (7, failing_job) ∷ (8, dead_job) ∷ []

jobs-IsMemory : IsMemory milliseconds (Unit {0}) jobs
jobs-IsMemory = record { keyed = (refl, (refl, tt)); unique = ((refl, tt), (tt, tt)) }

claim_due_jobs_example :
    ClaimsDue milliseconds
      (Unit {0})
      (memory_view milliseconds (Unit {0}) jobs)
      (pos 100)
      (ok (claim_due milliseconds (Unit {0}) jobs (pos 100)).1)
claim_due_jobs_example = claim_due_jobs milliseconds (Unit {0}) jobs (pos 100) jobs-IsMemory

abbrev messages : Messages
messages = record {
  deliberate_failure = λ n. bytes "deliberate failure";
  no_handler = λ kind. bytes "no handler for " ++ kind;
}

abbrev handlers : Handlers milliseconds (Unit {0})
handlers = default_handlers milliseconds (Unit {0}) messages

abbrev Scheduler : Type 0
Scheduler = World milliseconds (Unit {0}) messages handlers (memory_store milliseconds (Unit {0}))

abbrev world : Scheduler
world = record { jobs = jobs; events = [] }

abbrev readings : J → Readings milliseconds (Unit {0})
readings j = record { started = pos 200; rescheduled = pos 200; ended = pos 201 }

tick_lem_example :
    let w' =
      tick milliseconds
        (Unit {0})
        messages
        handlers
        (memory_store milliseconds (Unit {0}))
        world
        (pos 150)
        readings in
    (js : List J) × (ok (claim_due milliseconds (Unit {0}) jobs (pos 150)).1 ≡ ok js)
    × Distinct milliseconds (Unit {0}) (ids milliseconds (Unit {0}) js)
    × (w'.events
        ≡ []
          ++ all_events milliseconds
              (Unit {0})
              messages
              handlers
              (memory_store milliseconds (Unit {0}))
              (memory_store-Contract milliseconds (Unit {0}))
              js
              readings)
    × IsMemory milliseconds (Unit {0}) w'.jobs
    × ((k : ℕ)
        → lookup k w'.jobs
          ≡ tick_view milliseconds
              (Unit {0})
              messages
              handlers
              (memory_store milliseconds (Unit {0}))
              (memory_store-Contract milliseconds (Unit {0}))
              (pos 150)
              readings
              (lookup k jobs))
tick_lem_example =
    tick_lem milliseconds (Unit {0}) messages handlers (memory_store milliseconds (Unit {0}))
      (memory_store-Contract milliseconds (Unit {0})) world (pos 150) readings jobs-IsMemory

abbrev passes : List (Tick milliseconds (Unit {0}))
passes = (pos 200, readings) ∷ (pos 5000, readings) ∷ []

abbrev after_passes : Scheduler
after_passes =
    run_ticks milliseconds (Unit {0}) messages handlers (memory_store milliseconds (Unit {0})) world
      passes

abbrev Bounded : J → Type 0
Bounded j =
    IsBounded milliseconds (Unit {0}) messages handlers (memory_store milliseconds (Unit {0}))
      (memory_store-Contract milliseconds (Unit {0})) j

failing_job-Bounded : Bounded failing_job
failing_job-Bounded = record {
  limit_fits = omega arith;
  used = omega arith;
  left = λ e. omega arith;
}

attempts-IsBounded_example : (i : J) × (lookup 7 after_passes.jobs ≡ some i) × Bounded i
attempts-IsBounded_example =
    attempts-IsBounded milliseconds (Unit {0}) messages handlers
      (memory_store milliseconds (Unit {0})) (memory_store-Contract milliseconds (Unit {0})) world
      passes 7 failing_job jobs-IsMemory refl failing_job-Bounded

abbrev retried : J
retried = record failing_job { state = running; attempt = 1 }

passes-InTime :
    InTime milliseconds
      (Unit {0})
      messages
      handlers
      (memory_store milliseconds (Unit {0}))
      (memory_store-Contract milliseconds (Unit {0}))
      passes
      (some failing_job)
unfolding settle claimed outcome can_retry next_backoff_ms backoff_at as_i64 ◌+ℤ◌ default_handlers
    register
passes-InTime = (refl, (refl, tt))

fail_kind-Fails :
    Fails milliseconds
      (Unit {0})
      messages
      handlers
      (memory_store milliseconds (Unit {0}))
      (memory_store-Contract milliseconds (Unit {0}))
      (bytes "fail")
unfolding outcome default_handlers register
fail_kind-Fails j e = (bytes "deliberate failure", rw (outcome, e) refl)

failing_job_dies_example :
    Died milliseconds
      (Unit {0})
      messages
      handlers
      (memory_store milliseconds (Unit {0}))
      (memory_store-Contract milliseconds (Unit {0}))
      2
      (lookup 7 after_passes.jobs)
failing_job_dies_example =
    failing_job_dies milliseconds (Unit {0}) messages handlers
      (memory_store milliseconds (Unit {0})) (memory_store-Contract milliseconds (Unit {0})) world
      passes 7 failing_job 1 jobs-IsMemory refl refl refl (omega arith) fail_kind-Fails refl
      passes-InTime
