-- ===== src/Queue/Scheduler/Settle.antt =====
-- What one attempt makes of a job, apart from stores and events.
use servr.Common.{
  ◌≡◌, refl, ◌∙◌, ◌++◌, append_assoc, Option, none, some, [], ◌∷◌, Bytes, as_i64, if◌then◌else◌,
  Bool-cases, ltb, inl, inr, arith,
}
use servr.Core.Chrono.{Chrono}
use servr.Queue.Job.{Job, scheduled, running, succeeded, dead, can_retry, next_backoff_ms}
use servr.Queue.Store.{JobStore}
use servr.Queue.Scheduler.{
  Messages, Handlers, Readings, transition, World, outcome, emit, execute, finish,
}

module _ (chrono : Chrono) (Payload : Type 0) where
  open chrono use {DateTime, plus}

  -- The job after an attempt with this outcome, rescheduled at `at` if it may retry.
  unfoldable pub settle : Option Bytes → DateTime → Job chrono Payload → Job chrono Payload
  settle none at j = record j { state = succeeded; last_error = none }
  settle (some error) at j =
      if can_retry chrono Payload j
      then record j {
        last_error = some error;
        state = scheduled;
        due_at = plus at (as_i64 (next_backoff_ms chrono Payload j));
      }
      else record j { last_error = some error; state = dead }

  pub settle_id :
      (o : Option Bytes) (at : DateTime) (j : Job chrono Payload) → (settle o at j).id ≡ j.id
  unfolding settle
  settle_id none at j = refl
  settle_id (some error) at j = ground arith

  module _ (messages : Messages) (handlers : Handlers chrono Payload)
      (store : JobStore chrono Payload) where
    abbrev pub settled : Job chrono Payload → Readings chrono Payload → Job chrono Payload
    settled j r = settle (outcome chrono Payload messages handlers store j) r.rescheduled j

    finish_lem :
        (w : World chrono Payload messages handlers store) (j : Job chrono Payload)
        (o : Option Bytes) (r : Readings chrono Payload)
        → let next = settle o r.rescheduled j in
          let w' = finish chrono Payload messages handlers store w j o r in
          (w'.jobs ≡ (store.put w.jobs next).0)
          × (w'.events ≡ w.events ++ transition chrono Payload next running next.state r.ended ∷ [])
    unfolding finish settle
    finish_lem w j none r = (refl, refl)
    finish_lem w j (some error) r = elim (Bool-cases (ltb j.attempt j.max_attempts)) [
      | inl e ↦ rw e (refl, refl)
      | inr e ↦ rw e (refl, refl)
    ]

    -- An attempt puts the settled job into the store, and emits its two transitions, on every
    -- branch: success, a failure with a retry left, and a failure without.
    pub execute_lem :
        (w : World chrono Payload messages handlers store) (j : Job chrono Payload)
        (r : Readings chrono Payload)
        → let next = settled j r in
          let w' = execute chrono Payload messages handlers store w j r in
          (w'.jobs ≡ (store.put w.jobs next).0)
          × (w'.events
              ≡ w.events
                ++ transition chrono Payload j scheduled running r.started
                  ∷ transition chrono Payload next running next.state r.ended
                  ∷ [])
    unfolding execute
    execute_lem w j r =
        let started = emit chrono Payload messages handlers store w j scheduled running r.started in
        let o = outcome chrono Payload messages handlers store j in
        let (a, b) = finish_lem started j o r in (a, b ∙ append_assoc w.events _ _)
