-- ===== src/Admin/Jobs.antt =====
-- The job routes of crates/admin/src/lib.rs (`jobs_router`), over any job store. A job id is a
-- number, which parsing a path gives or not; the fresh id, the clock's reading and the trace of the
-- request are given.
use servr.Common.{ℕ, ◌⊎◌, inl, inr, Option, none, some, List, Bytes}
use servr.Core.Chrono.{Chrono}
use servr.Core.Clock.{Clock, now}
use servr.Common.{as_i64}
use servr.Queue.Job.{Job, new, with_payload, with_max_attempts, with_backoff, with_trace}
use servr.Queue.Store.{StoreError, not_found, Result, ok, err, JobStore}

pub data JobError : Type 0 where
  bad_id : Bytes → JobError
  store_error : StoreError → JobError

-- The status of the answer to an error.
unfoldable pub job_error_status : JobError → ℕ
job_error_status (bad_id id) = 400
job_error_status (store_error (not_found id)) = 404
job_error_status (store_error e) = 500

abbrev pub map_err {ℓ} : {A : Type ℓ} → Result A → JobError ⊎ A
map_err (ok a) = inr a
map_err (err e) = inl (store_error e)

module _ (chrono : Chrono) (Payload : Type 0) where
  open chrono use {DateTime, plus}

  -- `serde(default)` is applied to the delay.
  pub record NewJob : Type 0 where
    pub kind : Bytes
    pub delay_ms : ℕ
    pub payload : Option Payload
    pub max_attempts : Option ℕ
    pub backoff_ms : Option (List ℕ)

  abbrev pub apply_option {ℓ} :
      {A : Type ℓ}
      → (Job chrono Payload → A → Job chrono Payload)
      → Option A
      → Job chrono Payload
      → Job chrono Payload
  apply_option f none j = j
  apply_option f (some a) j = f j a

  -- `null` is the payload of a job that is given none.
  unfoldable pub job_of :
      Clock chrono → ℕ → ℕ → Payload → Option (Bytes × Bytes) → ℕ → NewJob → Job chrono Payload
  job_of clock run id null ids instant body =
      let due_at = plus (now chrono clock instant) (as_i64 body.delay_ms) in
      let job = new chrono Payload id run body.kind due_at null in
      let job = apply_option (with_payload chrono Payload) body.payload job in
      let job = apply_option (with_max_attempts chrono Payload) body.max_attempts job in
      let job = apply_option (with_backoff chrono Payload) body.backoff_ms job in
      apply_option (λ j (trace, span). with_trace chrono Payload j trace span) ids job

  module _ (store : JobStore chrono Payload) where
    open store use {Store, put, get, list}

    abbrev pub enqueued : Job chrono Payload → Result (Unit {0}) → JobError ⊎ (ℕ × DateTime)
    enqueued j (ok u) = inr (j.id, j.due_at)
    enqueued j (err e) = inl (store_error e)

    -- The answer names the id and when the job is due.
    unfoldable pub enqueue_job : Store → Job chrono Payload → Store × (JobError ⊎ (ℕ × DateTime))
    enqueue_job s job = let (s', result) = put s job in (s', enqueued job result)

    unfoldable pub get_job : Store → Bytes → Option ℕ → JobError ⊎ Job chrono Payload
    get_job s id none = inl (bad_id id)
    get_job s id (some uuid) = map_err (get s uuid)

    unfoldable pub list_jobs : Store → JobError ⊎ List (Job chrono Payload)
    list_jobs s = map_err (list s)
