-- ===== src/Queue/Store.antt =====
-- `JobStore` and `StoreError` of crates/queue/src/store.rs: the operations that the scheduler calls,
-- and what an implementation promises, stated over the job that it holds under each id.
use servr.Common.{
  ℕ, ◌+◌, ◌%◌, ◌≡◌, ◌==◌, ◌&&◌, ◌≢◌, Bool, true, false, Option, none, some, List, [], ◌∷◌, map,
  Bytes, All, if◌then◌else◌, select, any_of, length,
}
use servr.Core.Chrono.{Chrono}
use servr.Queue.Job.{Job, running, is_scheduled, is_terminal, u32_mod}

pub data StoreError : Type 0 where
  not_found : ℕ → StoreError
  backend corrupt : Bytes → StoreError

pub data Result {ℓ} (A : Type ℓ) : Type ℓ where
  ok : A → Result A
  err : StoreError → Result A

module _ (chrono : Chrono) (Payload : Type 0) where
  open chrono use {DateTime, le}

  -- A method returns the store afterwards and its result.
  pub record JobStore : Type 1 where
    pub Store : Type 0
    pub put : Store → Job chrono Payload → Store × Result (Unit {0})
    pub claim_due : Store → DateTime → Store × Result (List (Job chrono Payload))
    pub get : Store → ℕ → Result (Job chrono Payload)
    pub list : Store → Result (List (Job chrono Payload))

  abbrev pub is_due : DateTime → Job chrono Payload → Bool
  is_due now j = is_scheduled j.state && le j.due_at now

  -- A claimed job: running, with one attempt more (`attempt` is a `u32`).
  unfoldable pub claimed : Job chrono Payload → Job chrono Payload
  claimed j = record j { state = running; attempt = (j.attempt + 1) % u32_mod }

  -- The due jobs become running; every other job stays as it is.
  abbrev pub claim_view : DateTime → Option (Job chrono Payload) → Option (Job chrono Payload)
  claim_view now none = none
  claim_view now (some j) = if is_due now j then some (claimed j) else some j

  abbrev pub ids : List (Job chrono Payload) → List ℕ
  ids = map λ j. j.id

  -- No id stands twice.
  abbrev pub Distinct : List ℕ → Type 0
  Distinct [] = Unit
  Distinct (i ∷ is) = All (λ k. i ≢ k) is × Distinct is

  abbrev pub due_in : DateTime → Option (Job chrono Payload) → Bool
  due_in now none = false
  due_in now (some j) = is_due now j

  abbrev pub has_job : ℕ → List (Job chrono Payload) → Bool
  has_job k js = any_of (λ j. j.id == k) js

  -- What a claim returns: jobs that were due in the view, marked, each once, and the ids among
  -- them are exactly those of the due jobs.
  abbrev pub ClaimsDue :
      (ℕ → Option (Job chrono Payload)) → DateTime → Result (List (Job chrono Payload)) → Type 0
  ClaimsDue view now result =
      (js : List (Job chrono Payload)) × (result ≡ ok js)
      × Distinct (ids js)
      × All
          (λ j.
            (i : Job chrono Payload) × (view j.id ≡ some i)
            × (is_due now i ≡ true)
            × (j ≡ claimed i))
          js
      × ((k : ℕ) → has_job k js ≡ due_in now (view k))

  -- The contract of a store whose backend answers. `IsStore` is its invariant, and `view s k` the
  -- job held under `k`.
  pub record Contract (store : JobStore) (IsStore : store.Store → Type 0)
      (view : store.Store → ℕ → Option (Job chrono Payload)) : Type 0 where
    pub view_id :
        (s : store.Store) (k : ℕ) (j : Job chrono Payload)
        → IsStore s
        → view s k ≡ some j
        → j.id ≡ k
    pub put_ok :
        (s : store.Store) (j : Job chrono Payload)
        → IsStore s
        → ((store.put s j).1 ≡ ok tt) × IsStore (store.put s j).0
    pub put_view :
        (s : store.Store) (j : Job chrono Payload) (k : ℕ)
        → IsStore s
        → view (store.put s j).0 k ≡ (if j.id == k then some j else view s k)
    pub claim_IsStore :
        (s : store.Store) (now : DateTime) → IsStore s → IsStore (store.claim_due s now).0
    pub claim_view_lem :
        (s : store.Store) (now : DateTime) (k : ℕ)
        → IsStore s
        → view (store.claim_due s now).0 k ≡ claim_view now (view s k)
    pub claim_jobs :
        (s : store.Store) (now : DateTime)
        → IsStore s
        → ClaimsDue (view s) now (store.claim_due s now).1
    pub get_view :
        (s : store.Store) (k : ℕ)
        → IsStore s
        → store.get s k ≡ elim (view s k) [ none ↦ err (not_found k) | some j ↦ ok j ]

  -- `depth`, the method with a body: jobs not in a terminal state.
  unfoldable pub depth : (store : JobStore) → store.Store → Result ℕ
  unfolding is_terminal
  depth store s = elim (store.list s) [
    | err e ↦ err e
    | ok js ↦ ok (length (select (λ j. if is_terminal j.state then false else true) js))
  ]
