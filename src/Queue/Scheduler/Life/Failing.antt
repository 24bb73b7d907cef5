-- ===== src/Queue/Scheduler/Life/Failing.antt =====
-- Retries of failing jobs, crates/queue/src/job.rs and scheduler.rs.
use servr.Common.{
  ℕ, suc, ◌+◌, ◌≤◌, ◌<◌, ◌≡◌, refl, sym, ap, ◌∙◌, true, Option, none, some, List, [], ◌∷◌, Bytes,
  length, leb, leb_ℤ, pos, as_i64-small, i64_max, arith, subst,
}
use servr.Core.Chrono.{Chrono}
use servr.Queue.Job.{Job, scheduled, dead, can_retry, next_backoff_ms, u32_mod}
use servr.Queue.Store.{JobStore, Contract, is_due, claimed}
use servr.Queue.Scheduler.{Messages, Handlers, Readings, World, outcome}
use servr.Queue.Scheduler.Settle.{settle}
use servr.Queue.Scheduler.Life.Views.{Tick, run_ticks, one_tick, ticks_view, run_ticks_view}

leb_ℤ_pos : (a b : ℕ) → leb_ℤ (pos a) (pos b) ≡ leb a b
leb_ℤ_pos a b = ground arith

module _ (chrono : Chrono) (Payload : Type 0) where
  open chrono use {DateTime, plus, le, le-plus}

  -- A failed attempt with a retry left and a backoff that an `i64` holds is due again from its
  -- backoff on, counted in virtual milliseconds from the rescheduling, and not a millisecond
  -- before.
  pub retry_due_exactly :
      (error : Bytes) (at : DateTime) (j : Job chrono Payload) (ms : ℕ)
      → can_retry chrono Payload j ≡ true
      → next_backoff_ms chrono Payload j ≤ i64_max
      → is_due chrono Payload (plus at (pos ms)) (settle chrono Payload (some error) at j)
        ≡ leb (next_backoff_ms chrono Payload j) ms
  unfolding settle
  retry_due_exactly error at j ms h fits = rw h (
      rw (as_i64-small _ fits) (
        le-plus at (pos (next_backoff_ms chrono Payload j)) (pos ms)
        ∙ leb_ℤ_pos (next_backoff_ms chrono Payload j) ms))

  module _ (messages : Messages) (handlers : Handlers chrono Payload)
      (store : JobStore chrono Payload) {IsStore : store.Store → Type 0}
      {view : store.Store → ℕ → Option (Job chrono Payload)}
      (contract : Contract chrono Payload store IsStore view) where
    abbrev views :
        List (Tick chrono Payload) → Option (Job chrono Payload) → Option (Job chrono Payload)
    views = ticks_view chrono Payload messages handlers store contract

    -- Each pass comes when the job's due time has been reached.
    abbrev pub InTime : List (Tick chrono Payload) → Option (Job chrono Payload) → Type 0
    InTime ts none = Unit
    InTime [] (some j) = Unit
    InTime ((now, r) ∷ ts) (some j) =
        (le j.due_at now ≡ true)
        × InTime ts (one_tick chrono Payload messages handlers store contract now r (some j))

    -- Every attempt of the kind fails.
    abbrev pub Fails : Bytes → Type 0
    Fails kind =
        (j : Job chrono Payload)
        → j.kind ≡ kind
        → (error : Bytes) × (outcome chrono Payload messages handlers store j ≡ some error)

    pub data Died (n : ℕ) : Option (Job chrono Payload) → Type 0 where
      died : (j : Job chrono Payload) → j.state ≡ dead → j.attempt ≡ n → Died n (some j)

    abbrev step :
        DateTime
        → (Job chrono Payload → Readings chrono Payload)
        → Option (Job chrono Payload)
        → Option (Job chrono Payload)
    step = one_tick chrono Payload messages handlers store contract

    -- A pass over a due job of a failing kind.
    failing_step :
        (now : DateTime) (r : Job chrono Payload → Readings chrono Payload) (j : Job chrono Payload)
        → j.state ≡ scheduled
        → le j.due_at now ≡ true
        → Fails j.kind
        → (error : Bytes) × (at : DateTime) × (step now r (some j)
            ≡ some (settle chrono Payload (some error) at (claimed chrono Payload j)))
    unfolding claimed
    failing_step now r j sch due fails =
        let c = claimed chrono Payload j in
        let (error, e) = fails c refl in
        (
          error,
          (r c).rescheduled,
          rw sch (rw due (ap (λ o. some (settle chrono Payload o (r c).rescheduled c)) e)),
        )

    last_attempt :
        (error : Bytes) (at : DateTime) (j : Job chrono Payload)
        → j.attempt + 1 ≡ j.max_attempts
        → j.max_attempts < u32_mod
        → Died j.max_attempts
            (some (settle chrono Payload (some error) at (claimed chrono Payload j)))
    unfolding settle claimed can_retry
    last_attempt error at j h fits = died _ (ground arith) (ground arith)

    -- What an attempt that fails with a retry left leaves of the job.
    more_attempts :
        (error : Bytes) (at : DateTime) (j : Job chrono Payload) (n : ℕ)
        → j.attempt + suc (suc n) ≡ j.max_attempts
        → j.max_attempts < u32_mod
        → let i = settle chrono Payload (some error) at (claimed chrono Payload j) in
          (i.state ≡ scheduled)
          × (i.attempt + suc n ≡ i.max_attempts)
          × (i.max_attempts ≡ j.max_attempts)
          × (i.kind ≡ j.kind)
    unfolding settle claimed can_retry
    more_attempts error at j n h fits = ground arith

    failing_views :
        (ts : List (Tick chrono Payload)) (j : Job chrono Payload) (n : ℕ)
        → length ts ≡ suc n
        → j.state ≡ scheduled
        → j.attempt + length ts ≡ j.max_attempts
        → j.max_attempts < u32_mod
        → Fails j.kind
        → InTime ts (some j)
        → Died j.max_attempts (views ts (some j))
    failing_views [] j n len sch h fits fails t = absurd (omega arith)
    failing_views ((now, r) ∷ []) j n len sch h fits fails t =
        let (error, at, e) = failing_step now r j sch t.0 fails in
        subst (Died j.max_attempts) (sym e) (last_attempt error at j h fits)
    failing_views ((now, r) ∷ t' ∷ ts) j n len sch h fits fails t =
        let (error, at, e) = failing_step now r j sch t.0 fails in
        let i = settle chrono Payload (some error) at (claimed chrono Payload j) in
        let (sch', h', same, kind) = more_attempts error at j (length ts) h fits in
        subst (Died j.max_attempts) (sym (ap (views (t' ∷ ts)) e)) (
          subst (λ m. Died m (views (t' ∷ ts) (some i))) same
            (failing_views (t' ∷ ts) i (length ts) refl sch' h' (omega (arith, same))
              (subst Fails (sym kind) fails) (subst (InTime (t' ∷ ts)) e t.1)))

    -- Over any store that keeps the contract and is in order, a scheduled job whose handler
    -- always fails, with `n + 1` attempts left of a `max_attempts` below 2 ^ 32, is dead after
    -- `n + 1` passes that come when it is due, having used exactly `max_attempts`: it is
    -- neither lost nor retried for ever.
    pub failing_job_dies :
        (w : World chrono Payload messages handlers store) (ts : List (Tick chrono Payload)) (k : ℕ)
        (j : Job chrono Payload) (n : ℕ)
        → IsStore w.jobs
        → view w.jobs k ≡ some j
        → j.state ≡ scheduled
        → j.attempt + suc n ≡ j.max_attempts
        → j.max_attempts < u32_mod
        → Fails j.kind
        → length ts ≡ suc n
        → InTime ts (some j)
        → Died j.max_attempts (view (run_ticks chrono Payload messages handlers store w ts).jobs k)
    failing_job_dies w ts k j n s e sch h fits fails len t =
        subst (Died j.max_attempts)
          (sym (
            run_ticks_view chrono Payload messages handlers store contract w ts k s
            ∙ ap (views ts) e))
          (failing_views ts j n len sch (omega arith) fits fails t)
