-- ===== src/Admin/Due.antt =====
-- A job enqueued by crates/admin/src/lib.rs, the clock advanced, and what the job store then gives to
-- the scheduler.
use servr.Common.{
  ℕ, ◌≤◌, ◌≡◌, inr, refl, ap, ◌∙◌, arith, ◌==◌, true, Option, none, some, List, Bytes, ℤ, pos, ◌+ℤ◌,
  leb_ℤ, FitsI64, +ℤ_parts, wrap_i64-FitsI64, as_i64, as_i64-small, i64_max, min,
}
use servr.Core.Chrono.{Chrono}
use servr.Core.Clock.{Clock, now, advance, elapsed_ms, running_elapsed_ms}
use servr.Queue.Job.{
  Job, JobState, scheduled, new, with_payload, with_max_attempts, with_backoff, with_trace,
}
use servr.Queue.Store.{ok, JobStore, Contract, is_due, due_in, has_job}
use servr.Admin.Jobs.{NewJob, job_of, apply_option, enqueue_job, get_job}

module _ (chrono : Chrono) (Payload : Type 0) where
  open chrono use {DateTime, plus}

  -- What the options of a request do not change.
  abbrev kept : Job chrono Payload → ℕ × JobState × DateTime
  kept j = (j.id, j.state, j.due_at)

  kept-apply_option :
      {A : Type 0} (f : Job chrono Payload → A → Job chrono Payload)
      → ((j : Job chrono Payload) (a : A) → kept (f j a) ≡ kept j)
      → (o : Option A) (j : Job chrono Payload) → kept (apply_option chrono Payload f o j) ≡ kept j
  kept-apply_option f same none j = refl
  kept-apply_option f same (some a) j = same j a

  kept-job_of :
      (clock : Clock chrono) (run id : ℕ) (null : Payload) (ids : Option (Bytes × Bytes))
      (instant : ℕ) (body : NewJob chrono Payload)
      → kept (job_of chrono Payload clock run id null ids instant body)
        ≡ (id, scheduled, plus (now chrono clock instant) (as_i64 body.delay_ms))
  unfolding job_of new with_payload with_max_attempts with_backoff with_trace
  kept-job_of clock run id null ids instant body =
      kept-apply_option _ (λ j a. refl) ids _
      ∙ kept-apply_option _ (λ j a. refl) body.backoff_ms _
      ∙ kept-apply_option _ (λ j a. refl) body.max_attempts _
      ∙ kept-apply_option _ (λ j a. refl) body.payload _

  now-advance :
      (c : Clock chrono) (m instant : ℕ)
      → m ≤ i64_max
      → FitsI64 (c.offset_ms +ℤ pos m)
      → FitsI64 (elapsed_ms chrono c instant +ℤ (c.offset_ms +ℤ pos m))
      → now chrono (advance chrono c m) instant
        ≡ plus c.epoch_wall (elapsed_ms chrono c instant +ℤ (c.offset_ms +ℤ pos m))
  unfolding now advance elapsed_ms running_elapsed_ms
  now-advance c m instant small fits fits' =
      let least : min m i64_max ≡ m = omega arith in
      rw
        (
          least,
          now,
          wrap_i64-FitsI64 (c.offset_ms +ℤ pos m) fits,
          wrap_i64-FitsI64 (elapsed_ms chrono c instant +ℤ (c.offset_ms +ℤ pos m)) fits',
        )
        refl

  now_lem :
      (c : Clock chrono) (instant : ℕ)
      → FitsI64 (elapsed_ms chrono c instant +ℤ c.offset_ms)
      → now chrono c instant ≡ plus c.epoch_wall (elapsed_ms chrono c instant +ℤ c.offset_ms)
  unfolding now
  now_lem c instant fits =
      rw (now, wrap_i64-FitsI64 (elapsed_ms chrono c instant +ℤ c.offset_ms) fits) refl

  leb_ℤ_shift :
      (e o e' : ℤ) (d m : ℕ)
      → leb_ℤ (e +ℤ o +ℤ pos d) (e' +ℤ (o +ℤ pos m)) ≡ leb_ℤ (e +ℤ pos d) (e' +ℤ pos m)
  leb_ℤ_shift e o e' d m = ground (
    arith,
    +ℤ_parts e o,
    +ℤ_parts (e +ℤ o) (pos d),
    +ℤ_parts o (pos m),
    +ℤ_parts e' (o +ℤ pos m),
    +ℤ_parts e (pos d),
    +ℤ_parts e' (pos m),
  )

  -- The clock's readings, and the operator's advance of it, stay within an `i64`.
  pub record Within (clock : Clock chrono) (m instant later : ℕ) : Type 0 where
    pub small : m ≤ i64_max
    pub before : FitsI64 (elapsed_ms chrono clock instant +ℤ clock.offset_ms)
    pub offset : FitsI64 (clock.offset_ms +ℤ pos m)
    pub after : FitsI64 (elapsed_ms chrono clock later +ℤ (clock.offset_ms +ℤ pos m))

  is_due-job_of :
      (clock : Clock chrono) (run id : ℕ) (null : Payload) (ids : Option (Bytes × Bytes))
      (body : NewJob chrono Payload) (m instant later : ℕ)
      → Within clock m instant later
      → body.delay_ms ≤ i64_max
      → is_due chrono Payload
          (now chrono (advance chrono clock m) later)
          (job_of chrono Payload clock run id null ids instant body)
        ≡ leb_ℤ
            (elapsed_ms chrono clock instant +ℤ pos body.delay_ms)
            (elapsed_ms chrono clock later +ℤ pos m)
  is_due-job_of clock run id null ids body m instant later w small =
      let j = job_of chrono Payload clock run id null ids instant body in
      let e = elapsed_ms chrono clock instant in
      let e' = elapsed_ms chrono clock later in
      let fields = kept-job_of clock run id null ids instant body in
      let state : j.state ≡ scheduled = ap (λ (f : ℕ × JobState × DateTime). f.1) fields in
      let due : j.due_at ≡ plus (now chrono clock instant) (as_i64 body.delay_ms) =
        ap (λ (f : ℕ × JobState × DateTime). f.2) fields in
      rw
        (
          state,
          due,
          now_lem clock instant w.before,
          as_i64-small body.delay_ms small,
          now-advance clock m later w.small w.offset w.after,
          chrono.plus_plus clock.epoch_wall (e +ℤ clock.offset_ms) (pos body.delay_ms),
          chrono.le-plus clock.epoch_wall (e +ℤ clock.offset_ms +ℤ pos body.delay_ms)
              (e' +ℤ (clock.offset_ms +ℤ pos m)),
        )
        (leb_ℤ_shift e clock.offset_ms e' body.delay_ms m)

  module _ (store : JobStore chrono Payload) (IsStore : store.Store → Type 0)
      (view : store.Store → ℕ → Option (Job chrono Payload))
      (contract : Contract chrono Payload store IsStore view) where
    -- A job posted with a delay to a store that keeps its contract is answered with its id and due
    -- time and is then found under its id. The operator advances the clock, and the scheduler claims
    -- the due jobs: this one is among them exactly when the time that passed on the clock since
    -- the post, with the advance, is at least the delay.
    pub enqueue_job_due :
        (s : store.Store) (clock : Clock chrono) (run id : ℕ) (null : Payload)
        (ids : Option (Bytes × Bytes)) (body : NewJob chrono Payload) (m instant later : ℕ)
        (path : Bytes)
        → IsStore s
        → Within clock m instant later
        → body.delay_ms ≤ i64_max
        → let j = job_of chrono Payload clock run id null ids instant body in
          let s' = (enqueue_job chrono Payload store s j).0 in
          ((enqueue_job chrono Payload store s j).1 ≡ inr (id, j.due_at))
          × (get_job chrono Payload store s' path (some id) ≡ inr j)
          × (js : List (Job chrono Payload)) × ((store.claim_due s'
                (now chrono (advance chrono clock m) later)).1
              ≡ ok js)
          × (has_job chrono Payload id js
              ≡ leb_ℤ
                  (elapsed_ms chrono clock instant +ℤ pos body.delay_ms)
                  (elapsed_ms chrono clock later +ℤ pos m))
    unfolding enqueue_job get_job
    enqueue_job_due s clock run id null ids body m instant later path h w small =
        let j = job_of chrono Payload clock run id null ids instant body in
        let now' = now chrono (advance chrono clock m) later in
        let same_id : j.id ≡ id =
          ap (λ (f : ℕ × JobState × DateTime). f.0)
            (kept-job_of clock run id null ids instant body) in
        let (answered, kept_store) = contract.put_ok s j h in
        let s' = (store.put s j).0 in
        let itself : (j.id == id) ≡ true = ground arith in
        let viewed : view s' id ≡ some j = contract.put_view s j id h ∙ (rw itself refl) in
        let (js, claim, distinct, marked, exactly) = contract.claim_jobs s' now' kept_store in
        let found : store.get s' id ≡ ok j =
          contract.get_view s' id kept_store ∙ (rw viewed refl) in
        (
          rw (answered, same_id) refl,
          rw found refl,
          js,
          claim,
          exactly id
              ∙ ap (due_in chrono Payload now') viewed
              ∙ is_due-job_of clock run id null ids body m instant later w small,
        )
