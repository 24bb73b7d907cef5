-- ===== src/Queue/Scheduler.antt =====
-- `Scheduler` of crates/queue/src/scheduler.rs, over any store. A world is the store and the
-- transitions that the bus was given, oldest first. Spans, logs and the wall clock are left out.
pub mod Settle
pub mod Tick
pub mod Life
use servr.Common.{
  ℕ, Bool, true, false, Option, none, some, List, [], ◌∷◌, ◌++◌, Bytes, bytes, bytes_eq, lookup,
  insert, as_i64, if◌then◌else◌,
}
use servr.Core.Chrono.{Chrono}
use servr.Queue.Job.{Job, JobState, scheduled, running, succeeded, dead, can_retry, next_backoff_ms}
use servr.Queue.Store.{JobStore, ok, err}

-- The texts that the code formats for an error.
pub record Messages : Type 0 where
  pub deliberate_failure : ℕ → Bytes
  pub no_handler : Bytes → Bytes

module _ (chrono : Chrono) (Payload : Type 0) where
  open chrono use {DateTime, plus}

  -- `none` is `Ok(())`.
  abbrev pub Handler : Type 0
  Handler = Job chrono Payload → Option Bytes

  abbrev pub Handlers : Type 0
  Handlers = List (Bytes × Handler)

  unfoldable pub register : Handlers → Bytes → Handler → Handlers
  register handlers kind handler = insert kind handler handlers

  -- The table that `Scheduler::new` leaves.
  unfoldable pub default_handlers : Messages → Handlers
  unfolding register
  default_handlers messages =
      register (register [] (bytes "noop") (λ j. none)) (bytes "fail")
        (λ j. some (messages.deliberate_failure j.attempt))

  -- `EventKind::JobTransition`, with the virtual time of its event.
  pub record Transition : Type 0 where
    pub job : ℕ
    pub from : JobState
    pub to : JobState
    pub attempt : ℕ
    pub at : DateTime

  -- What the virtual clock shows when a job starts, when it is rescheduled, and when its last
  -- event is emitted.
  pub record Readings : Type 0 where
    pub started : DateTime
    pub rescheduled : DateTime
    pub ended : DateTime

  pub transition : Job chrono Payload → JobState → JobState → DateTime → Transition
  transition j from to at = record {
    job = j.id;
    from = from;
    to = to;
    attempt = j.attempt;
    at = at;
  }

  module _ (messages : Messages) (handlers : Handlers) (store : JobStore chrono Payload) where
    pub record World : Type 0 where
      pub jobs : store.Store
      pub events : List Transition

    unfoldable pub outcome : Job chrono Payload → Option Bytes
    outcome j = elim (lookup j.kind handlers) [
      | some handler ↦ handler j
      | none ↦ some (messages.no_handler j.kind)
    ]

    unfoldable pub emit : World → Job chrono Payload → JobState → JobState → DateTime → World
    unfolding transition
    emit w j from to at = record w { events = w.events ++ transition j from to at ∷ [] }

    -- A failing `put` is logged, and the job goes on.
    unfoldable pub persist : World → Job chrono Payload → World
    persist w j = record w { jobs = (store.put w.jobs j).0 }

    unfoldable pub on_success : World → Job chrono Payload → Readings → World
    unfolding persist emit
    on_success w j r =
        let next = record j { state = succeeded; last_error = none } in
        emit (persist w next) next running succeeded r.ended

    unfoldable pub on_error : World → Job chrono Payload → Bytes → Readings → World
    unfolding persist emit can_retry next_backoff_ms
    on_error w j error r =
        let failing = record j { last_error = some error } in
        if can_retry chrono Payload failing
        then (let next = record failing {
          state = scheduled;
          due_at = plus r.rescheduled (as_i64 (next_backoff_ms chrono Payload failing));
        } in
            emit (persist w next) next running scheduled r.ended)
        else (let next = record failing { state = dead } in
            emit (persist w next) next running dead r.ended)

    unfoldable pub finish : World → Job chrono Payload → Option Bytes → Readings → World
    unfolding on_success on_error
    finish w j none r = on_success w j r
    finish w j (some error) r = on_error w j error r

    unfoldable pub execute : World → Job chrono Payload → Readings → World
    unfolding finish emit
    execute w j r = finish (emit w j scheduled running r.started) j (outcome j) r

    unfoldable pub execute_all :
        World → List (Job chrono Payload) → (Job chrono Payload → Readings) → World
    unfolding execute
    execute_all w [] readings = w
    execute_all w (j ∷ js) readings = execute_all (execute w j (readings j)) js readings

    -- One pass at virtual time `now`. A failing claim is logged and ends it.
    unfoldable pub tick : World → DateTime → (Job chrono Payload → Readings) → World
    unfolding execute_all
    tick w now readings =
        let (jobs, due) = store.claim_due w.jobs now in
        elim due [
          | err e ↦ record w { jobs = jobs }
          | ok js ↦ execute_all (record w { jobs = jobs }) js readings
        ]
