-- ===== src/Examples/Admin.antt =====
-- The theorems on crates/admin at concrete inputs: rules posted, cleared and reset, and a job
-- enqueued for half a minute ahead.
use servr.Common.{◌≡◌, inr, none, some, List, [], ◌∷◌, ◌++◌, bytes, pos, arith, leb_ℤ, ◌+ℤ◌}
use servr.Core.Chrono.{milliseconds}
use servr.Core.Clock.{now, advance, elapsed_ms, running_elapsed_ms, elapsed_since}
use servr.Core.State.{State, new}
use servr.Queue.Job.{Job}
use servr.Queue.Store.{ok, has_job}
use servr.Queue.Memory.{Jobs, memory_store}
use servr.Queue.Memory.Laws.{IsMemory, memory_view, memory_store-Contract}
use servr.Admin.Control.{
  Request, Readings, post_fault, post_reset, post_advance, delete_faults, handle_all, add_fault,
  pushed, put_faults,
}
use servr.Admin.Rules.{handle_all-intended, add_fault_lost}
use servr.Admin.Jobs.{NewJob, job_of, enqueue_job, get_job}
use servr.Admin.Due.{Within, enqueue_job_due}
use servr.Examples.Data.{percent, slow_rule, gateway_rule, scenario, clock}

abbrev readings : Readings percent milliseconds
readings = record { changed = 3000000; answered = 4000000; wall = pos 9 }

abbrev requests : List (Request percent milliseconds × Readings percent milliseconds)
requests =
    (post_fault gateway_rule, readings)
    ∷ (delete_faults, readings)
    ∷ (post_advance 30000, readings)
    ∷ (post_fault slow_rule, readings)
    ∷ (post_reset, readings)
    ∷ (post_fault gateway_rule, readings)
    ∷ []

handle_all-intended_example :
    (handle_all percent milliseconds (new percent milliseconds scenario clock 7) requests).resolved
    ≡ record {
      faults = slow_rule ∷ gateway_rule ∷ [];
      telemetry = scenario.telemetry;
      webhooks = [];
    }
handle_all-intended_example = handle_all-intended percent milliseconds scenario clock 7 requests

abbrev control : State percent milliseconds
control = new percent milliseconds scenario clock 7

add_fault_lost_example :
    let read_first = pushed percent milliseconds control gateway_rule in
    let read_second = pushed percent milliseconds control slow_rule in
    let one_by_one =
      (add_fault percent milliseconds
        (add_fault percent milliseconds control gateway_rule).0
        slow_rule).0 in
    let at_once =
      put_faults percent milliseconds
        (put_faults percent milliseconds control read_first)
        read_second in
    (one_by_one.resolved.faults ≡ control.resolved.faults ++ (gateway_rule ∷ slow_rule ∷ []))
    × (at_once.resolved.faults ≡ control.resolved.faults ++ (slow_rule ∷ []))
add_fault_lost_example = add_fault_lost percent milliseconds control gateway_rule slow_rule

abbrev request : NewJob milliseconds (Unit {0})
request = record {
  kind = bytes "noop";
  delay_ms = 30000;
  payload = none;
  max_attempts = some 2;
  backoff_ms = none;
}

within : Within milliseconds (Unit {0}) clock 30000 2000000 3000000
unfolding elapsed_ms running_elapsed_ms elapsed_since ◌+ℤ◌
within = record {
  small = omega arith;
  before = (omega arith, omega arith);
  offset = (omega arith, omega arith);
  after = (omega arith, omega arith);
}

abbrev posted : Job milliseconds (Unit {0})
posted = job_of milliseconds (Unit {0}) clock 7 5 tt none 2000000 request

abbrev afterwards : Jobs milliseconds (Unit {0})
afterwards =
    (enqueue_job milliseconds (Unit {0}) (memory_store milliseconds (Unit {0})) [] posted).0

none_held : IsMemory milliseconds (Unit {0}) []
none_held = record { keyed = tt; unique = tt }

enqueue_job_due_example :
    ((enqueue_job milliseconds (Unit {0}) (memory_store milliseconds (Unit {0})) [] posted).1
      ≡ inr (5, posted.due_at))
    × (get_job milliseconds
          (Unit {0})
          (memory_store milliseconds (Unit {0}))
          afterwards
          (bytes "5")
          (some 5)
        ≡ inr posted)
    × (js : List (Job milliseconds (Unit {0}))) × (((memory_store milliseconds (Unit {0})).claim_due
          afterwards
          (now milliseconds (advance milliseconds clock 30000) 3000000)).1
        ≡ ok js)
    × (has_job milliseconds (Unit {0}) 5 js
        ≡ leb_ℤ
            (elapsed_ms milliseconds clock 2000000 +ℤ pos 30000)
            (elapsed_ms milliseconds clock 3000000 +ℤ pos 30000))
enqueue_job_due_example =
    enqueue_job_due milliseconds (Unit {0}) (memory_store milliseconds (Unit {0}))
      (IsMemory milliseconds (Unit {0})) (memory_view milliseconds (Unit {0}))
      (memory_store-Contract milliseconds (Unit {0})) [] clock 7 5 tt none request 30000 2000000
      3000000 (bytes "5") none_held within (omega arith)
