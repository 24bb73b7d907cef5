-- ===== src/Queue/Scheduler/Life/Attempts.antt =====
-- The attempts of a job over many passes of the scheduler, crates/queue/src/scheduler.rs.
use servr.Common.{
  ℕ, zero, suc, ◌≤◌, ◌<◌, ◌≡◌, refl, ap, ◌∙◌, inl, inr, true, false, Option, none, some, List, [],
  ◌∷◌, Bytes, length, Bool-cases, Option-cases, arith, min, get_elem?, get_elem?-none, get_elem?_lt,
  last_or,
}
use servr.Core.Chrono.{Chrono}
use servr.Queue.Job.{Job, scheduled, is_scheduled, can_retry, u32_mod, backoff_at}
use servr.Queue.Store.{JobStore, Contract, is_due, claimed}
use servr.Queue.Scheduler.{Messages, Handlers, Readings, World, outcome}
use servr.Queue.Scheduler.Settle.{settle}
use servr.Queue.Scheduler.Life.Views.{Tick, run_ticks, one_tick, ticks_view, run_ticks_view}

last_entry : (b : ℕ) (bs : List ℕ) → get_elem? (b ∷ bs) (length bs) ≡ some (last_or b bs)
last_entry b [] = refl
last_entry b (c ∷ bs) = last_entry c bs

-- Over a list of backoffs that is not empty, retry `i` waits for entry `i`, and the last entry
-- repeats.
backoff_at_entry :
    (b : ℕ) (bs : List ℕ) (i : ℕ)
    → get_elem? (b ∷ bs) (min i (length bs)) ≡ some (backoff_at (b ∷ bs) i)
unfolding backoff_at
backoff_at_entry b bs i = elim (Option-cases (get_elem? (b ∷ bs) i)) [
  | inl e ↦
      let past : min i (length bs) ≡ length bs = omega (arith, get_elem?-none (b ∷ bs) i e) in
      rw (past, e, backoff_at) (last_entry b bs)
  | inr (a, e) ↦
      let inside : min i (length bs) ≡ i = omega (arith, get_elem?_lt (b ∷ bs) i a e) in
      rw (inside, e, backoff_at) refl
]

pub due_scheduled :
    (chrono : Chrono) (Payload : Type 0) (now : chrono.DateTime) (j : Job chrono Payload)
    → is_due chrono Payload now j ≡ true
    → j.state ≡ scheduled
due_scheduled chrono Payload now j h = ground arith

module _ (chrono : Chrono) (Payload : Type 0) (messages : Messages)
    (handlers : Handlers chrono Payload) (store : JobStore chrono Payload)
    {IsStore : store.Store → Type 0} {view : store.Store → ℕ → Option (Job chrono Payload)}
    (contract : Contract chrono Payload store IsStore view) where
  open chrono use {DateTime, plus, le, le-plus}

  abbrev views :
      List (Tick chrono Payload) → Option (Job chrono Payload) → Option (Job chrono Payload)
  views = ticks_view chrono Payload messages handlers store contract

  abbrev step :
      DateTime
      → (Job chrono Payload → Readings chrono Payload)
      → Option (Job chrono Payload)
      → Option (Job chrono Payload)
  step = one_tick chrono Payload messages handlers store contract

  abbrev Scheduler : Type 0
  Scheduler = World chrono Payload messages handlers store

  abbrev passes : Scheduler → List (Tick chrono Payload) → Scheduler
  passes = run_ticks chrono Payload messages handlers store

  unscheduled_views :
      (ts : List (Tick chrono Payload)) (j : Job chrono Payload)
      → is_scheduled j.state ≡ false
      → views ts (some j) ≡ some j
  unscheduled_views [] j h = refl
  unscheduled_views ((now, r) ∷ ts) j h = ap (views ts) (rw h refl) ∙ unscheduled_views ts j h

  -- Over any store that keeps the contract and is in order, a job that is not scheduled is
  -- never run again, by any number of passes at any times: so a succeeded or dead job stays as
  -- it is, and so does one that was left running.
  unscheduled_stays :
      (w : Scheduler) (ts : List (Tick chrono Payload)) (k : ℕ) (j : Job chrono Payload)
      → IsStore w.jobs
      → view w.jobs k ≡ some j
      → is_scheduled j.state ≡ false
      → view (passes w ts).jobs k ≡ some j
  unscheduled_stays w ts k j s e h =
      run_ticks_view chrono Payload messages handlers store contract w ts k s
      ∙ ap (views ts) e
      ∙ unscheduled_views ts j h

  -- A scheduled job has an attempt left (a job has one at least), and no job has used more.
  abbrev attempt_limit : ℕ → ℕ
  attempt_limit zero = 1
  attempt_limit (suc n) = suc n

  pub record IsBounded (j : Job chrono Payload) : Type 0 where
    pub limit_fits : attempt_limit j.max_attempts < u32_mod
    pub used : j.attempt ≤ attempt_limit j.max_attempts
    pub left : is_scheduled j.state ≡ true → j.attempt < attempt_limit j.max_attempts

  settle-IsBounded :
      (o : Option Bytes) (at : DateTime) (j : Job chrono Payload)
      → IsBounded j
      → j.state ≡ scheduled
      → IsBounded (settle chrono Payload o at (claimed chrono Payload j))
  unfolding settle claimed can_retry
  settle-IsBounded none at j b e = ground arith
  settle-IsBounded (some error) at j b e = ground arith

  step-IsBounded :
      (now : DateTime) (r : Job chrono Payload → Readings chrono Payload) (j : Job chrono Payload)
      → IsBounded j
      → (i : Job chrono Payload) × (step now r (some j) ≡ some i) × IsBounded i
  step-IsBounded now r j b = elim (Bool-cases (is_due chrono Payload now j)) [
    | inl due ↦
        let c = claimed chrono Payload j in
        let o = outcome chrono Payload messages handlers store c in
        (
          settle chrono Payload o (r c).rescheduled c,
          rw due refl,
          settle-IsBounded o (r c).rescheduled j b (due_scheduled chrono Payload now j due),
        )
    | inr idle ↦ (j, rw idle refl, b)
  ]

  views-IsBounded :
      (ts : List (Tick chrono Payload)) (j : Job chrono Payload)
      → IsBounded j
      → (i : Job chrono Payload) × (views ts (some j) ≡ some i) × IsBounded i
  views-IsBounded [] j b = (j, refl, b)
  views-IsBounded ((now, r) ∷ ts) j b =
      let (i, e, bi) = step-IsBounded now r j b in
      let (i', e', bi') = views-IsBounded ts i bi in (i', ap (views ts) e ∙ e', bi')

  -- Over any store that keeps the contract and is in order, however often the scheduler passes,
  -- a job that starts within its limit of attempts stays in the store and within it: the limit
  -- is `max_attempts`, or one if that is zero, it is below 2 ^ 32, and a job that is still
  -- scheduled has an attempt left.
  pub attempts-IsBounded :
      (w : Scheduler) (ts : List (Tick chrono Payload)) (k : ℕ) (j : Job chrono Payload)
      → IsStore w.jobs
      → view w.jobs k ≡ some j
      → IsBounded j
      → (i : Job chrono Payload) × (view (passes w ts).jobs k ≡ some i) × IsBounded i
  attempts-IsBounded w ts k j s e b =
      let (i, e', bi) = views-IsBounded ts j b in
      (
        i,
        run_ticks_view chrono Payload messages handlers store contract w ts k s
            ∙ ap (views ts) e
            ∙ e',
        bi,
      )
