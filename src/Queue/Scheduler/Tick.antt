-- ===== src/Queue/Scheduler/Tick.antt =====
-- One pass of the scheduler, over any store that keeps its contract.
use servr.Common.{
  ℕ, ◌≡◌, refl, sym, ap, ◌∙◌, ◌≢◌, ◌++◌, append_assoc, append-nil, true, false, Option, none, some,
  List, [], ◌∷◌, All, ◌==◌, ==_iff, if◌then◌else◌, Option-cases, Bool-cases, inl, inr, arith, subst,
}
use servr.Core.Chrono.{Chrono}
use servr.Queue.Job.{Job, scheduled, running}
use servr.Queue.Store.{
  JobStore, Contract, ok, is_due, claimed, claim_view, ids, Distinct, has_job, due_in,
}
use servr.Queue.Scheduler.{
  Messages, Handlers, Transition, Readings, transition, World, execute, execute_all, tick,
}
use servr.Queue.Scheduler.Settle.{settle_id, settled, execute_lem}

module _ (chrono : Chrono) (Payload : Type 0) where
  open chrono use {DateTime}

  abbrev pub find_job : ℕ → List (Job chrono Payload) → Option (Job chrono Payload)
  find_job k [] = none
  find_job k (j ∷ js) = if j.id == k then some j else find_job k js

  find_job-none :
      (k : ℕ) (js : List (Job chrono Payload))
      → All (λ i. k ≢ i) (ids chrono Payload js)
      → find_job k js ≡ none
  find_job-none k [] n = refl
  find_job-none k (j ∷ js) n = ground (arith, find_job-none k js n.1)

  has_job-find_job :
      (k : ℕ) (js : List (Job chrono Payload))
      → find_job k js ≡ none
      → has_job chrono Payload k js ≡ false
  has_job-find_job k [] e = refl
  has_job-find_job k (j ∷ js) e = ground (arith, has_job-find_job k js)

  All-find_job :
      (P : Job chrono Payload → Type 0) (k : ℕ) (js : List (Job chrono Payload))
      (j : Job chrono Payload)
      → All P js
      → find_job k js ≡ some j
      → P j × (j.id ≡ k)
  All-find_job P k [] j a e = cc
  All-find_job P k (x ∷ js) j a e = elim (Bool-cases (x.id == k)) [
    | inl z ↦
        let same : x ≡ j = ground arith in
        (subst P same a.0, ap (λ y. y.id) (sym same) ∙ (==_iff x.id k).0 z)
    | inr z ↦ All-find_job P k js j a.1 (ground arith)
  ]

  module _ (messages : Messages) (handlers : Handlers chrono Payload)
      (store : JobStore chrono Payload) {IsStore : store.Store → Type 0}
      {view : store.Store → ℕ → Option (Job chrono Payload)}
      (contract : Contract chrono Payload store IsStore view) where
    abbrev Scheduler : Type 0
    Scheduler = World chrono Payload messages handlers store

    abbrev after : Job chrono Payload → Readings chrono Payload → Job chrono Payload
    after j r = settled chrono Payload messages handlers store j r

    -- The two transitions of an attempt.
    abbrev pub attempt_events :
        Job chrono Payload → Readings chrono Payload → List (Transition chrono Payload)
    attempt_events j r =
        transition chrono Payload j scheduled running r.started
        ∷ transition chrono Payload (after j r) running (after j r).state r.ended
        ∷ []

    abbrev pub all_events :
        List (Job chrono Payload)
        → (Job chrono Payload → Readings chrono Payload)
        → List (Transition chrono Payload)
    all_events [] readings = []
    all_events (j ∷ js) readings = attempt_events j (readings j) ++ all_events js readings

    abbrev run_all :
        Scheduler
        → List (Job chrono Payload)
        → (Job chrono Payload → Readings chrono Payload)
        → Scheduler
    run_all w js readings = execute_all chrono Payload messages handlers store w js readings

    execute_all_events :
        (w : Scheduler) (js : List (Job chrono Payload))
        (readings : Job chrono Payload → Readings chrono Payload)
        → (run_all w js readings).events ≡ w.events ++ all_events js readings
    unfolding execute_all
    execute_all_events w [] readings = sym (append-nil w.events)
    execute_all_events w (j ∷ js) readings =
        let w' = execute chrono Payload messages handlers store w j (readings j) in
        let first = (execute_lem chrono Payload messages handlers store w j (readings j)).1 in
        execute_all_events w' js readings
        ∙ ap (λ es. es ++ all_events js readings) first
        ∙ append_assoc w.events _ _

    execute-IsStore :
        (w : Scheduler) (j : Job chrono Payload) (r : Readings chrono Payload)
        → IsStore w.jobs
        → IsStore (execute chrono Payload messages handlers store w j r).jobs
    execute-IsStore w j r s =
        rw ((execute_lem chrono Payload messages handlers store w j r).0)
          (contract.put_ok w.jobs (after j r) s).1

    execute_view :
        (w : Scheduler) (j : Job chrono Payload) (r : Readings chrono Payload) (k : ℕ)
        → IsStore w.jobs
        → view (execute chrono Payload messages handlers store w j r).jobs k
          ≡ (if j.id == k then some (after j r) else view w.jobs k)
    execute_view w j r k s = rw ((execute_lem chrono Payload messages handlers store w j r).0) (
        contract.put_view w.jobs (after j r) k s
        ∙ ap (λ i. if i == k then some (after j r) else view w.jobs k)
            (settle_id chrono Payload _ r.rescheduled j))

    pick :
        Option (Job chrono Payload)
        → (Job chrono Payload → Readings chrono Payload)
        → Option (Job chrono Payload)
        → Option (Job chrono Payload)
    pick d readings none = d
    pick d readings (some j) = some (after j (readings j))

    execute_all_view :
        (w : Scheduler) (js : List (Job chrono Payload))
        (readings : Job chrono Payload → Readings chrono Payload) (k : ℕ)
        → IsStore w.jobs
        → Distinct chrono Payload (ids chrono Payload js)
        → view (run_all w js readings).jobs k ≡ pick (view w.jobs k) readings (find_job k js)
    unfolding execute_all pick
    execute_all_view w [] readings k s d = refl
    execute_all_view w (j ∷ js) readings k s d =
        let w' = execute chrono Payload messages handlers store w j (readings j) in
        let s' = execute-IsStore w j (readings j) s in
        let ih = execute_all_view w' js readings k s' d.1 in
        let here = execute_view w j (readings j) k s in
        elim (Bool-cases (j.id == k)) [
          | inl z ↦
              let absent : All (λ i. k ≢ i) (ids chrono Payload js) =
                subst (λ x. All (λ i. x ≢ i) (ids chrono Payload js)) ((==_iff j.id k).0 z) d.0 in
              rw z (
                ih
                ∙ ap (pick (view w'.jobs k) readings) (find_job-none k js absent)
                ∙ here
                ∙ rw z refl)
          | inr z ↦ rw z (ih ∙ ap (λ d. pick d readings (find_job k js)) (here ∙ rw z refl))
        ]

    execute_all-IsStore :
        (w : Scheduler) (js : List (Job chrono Payload))
        (readings : Job chrono Payload → Readings chrono Payload)
        → IsStore w.jobs
        → IsStore (run_all w js readings).jobs
    unfolding execute_all
    execute_all-IsStore w [] readings s = s
    execute_all-IsStore w (j ∷ js) readings s =
        execute_all-IsStore (execute chrono Payload messages handlers store w j (readings j)) js
          readings (execute-IsStore w j (readings j) s)

    -- What a pass at `now` makes of the job under an id.
    abbrev pub tick_view :
        DateTime
        → (Job chrono Payload → Readings chrono Payload)
        → Option (Job chrono Payload)
        → Option (Job chrono Payload)
    tick_view now readings none = none
    tick_view now readings (some i) =
        if is_due chrono Payload now i
        then (let j = claimed chrono Payload i in some (after j (readings j)))
        else some i

    idle :
        (now : DateTime) (readings : Job chrono Payload → Readings chrono Payload)
        (v : Option (Job chrono Payload))
        → due_in chrono Payload now v ≡ false
        → claim_view chrono Payload now v ≡ tick_view now readings v
    idle now readings none h = refl
    idle now readings (some i) h = rw h refl

    ran :
        (now : DateTime) (readings : Job chrono Payload → Readings chrono Payload)
        (v : Option (Job chrono Payload)) (i j : Job chrono Payload)
        → v ≡ some i
        → is_due chrono Payload now i ≡ true
        → j ≡ claimed chrono Payload i
        → some (after j (readings j)) ≡ tick_view now readings v
    ran now readings v i j held due same =
        rw held (rw due (ap (λ x. some (after x (readings x))) same))

    -- Over any store that keeps the contract and is in order, a pass claims and runs the due
    -- jobs, each once, and changes no other job: it emits the two transitions of each of them,
    -- in the order of the claim, and leaves the store in order.
    pub tick_lem :
        (w : Scheduler) (now : DateTime) (readings : Job chrono Payload → Readings chrono Payload)
        → IsStore w.jobs
        → let w' = tick chrono Payload messages handlers store w now readings in
          (js : List (Job chrono Payload)) × ((store.claim_due w.jobs now).1 ≡ ok js)
          × Distinct chrono Payload (ids chrono Payload js)
          × (w'.events ≡ w.events ++ all_events js readings)
          × IsStore w'.jobs
          × ((k : ℕ) → view w'.jobs k ≡ tick_view now readings (view w.jobs k))
    unfolding tick pick
    tick_lem w now readings s =
        let (js, e, d, marked, exact) = contract.claim_jobs w.jobs now s in
        let s' = contract.claim_IsStore w.jobs now s in
        let w' = record w { jobs = (store.claim_due w.jobs now).0 } in
        (
          js,
          e,
          d,
          rw (e, tick) (execute_all_events w' js readings),
          rw (e, tick) (execute_all-IsStore w' js readings s'),
          λ k.
              rw (e, tick)
                (execute_all_view w' js readings k s' d
                  ∙ ap (λ v. pick v readings (find_job k js))
                      (contract.claim_view_lem w.jobs now k s)
                  ∙ elim (Option-cases (find_job k js)) [
                    | inl none_here ↦ rw none_here (
                        idle now readings (view w.jobs k)
                          (sym (exact k) ∙ has_job-find_job k js none_here))
                    | inr (j, found) ↦
                        let ((i, held, due, same), same_id) = All-find_job _ k js j marked found in
                        rw found (
                          ran now readings (view w.jobs k) i j
                            (subst (λ x. view w.jobs x ≡ some i) same_id held) due same)
                  ]),
        )
