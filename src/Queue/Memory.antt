-- ===== src/Queue/Memory.antt =====
-- `MemoryStore` of crates/queue/src/store.rs. One lock covers each operation, so it is one function
-- on the map from ids to jobs.
pub mod Claims
pub mod Laws
use servr.Common.{
  ℕ, Bool, true, false, Option, none, some, List, [], ◌∷◌, lookup, insert, if◌then◌else◌, nat_eq,
}
use servr.Core.Chrono.{Chrono}
use servr.Queue.Job.{Job}
use servr.Queue.Store.{JobStore, Result, ok, err, not_found, is_due, claimed}

module _ (chrono : Chrono) (Payload : Type 0) where
  open chrono use {DateTime}

  abbrev pub Jobs : Type 0
  Jobs = List (ℕ × Job chrono Payload)

  unfoldable pub put : Jobs → Job chrono Payload → Jobs
  put jobs j = insert j.id j jobs

  -- `jobs.values()` filtered to the due ones, mapped to their ids.
  pub due_ids : DateTime → Jobs → List ℕ
  due_ids now [] = []
  due_ids now ((k, j) ∷ jobs) =
      if is_due chrono Payload now j then j.id ∷ due_ids now jobs else due_ids now jobs

  -- The `filter_map` that marks each of them and collects the clones.
  pub claim_each : List ℕ → Jobs → Jobs × List (Job chrono Payload)
  claim_each [] jobs = (jobs, [])
  claim_each (k ∷ ks) jobs =
      let rest = claim_each ks jobs in
      elim (lookup k jobs) [
        | none ↦ rest
        | some j ↦
            let j' = claimed chrono Payload j in
            let (jobs', js) = claim_each ks (insert k j' jobs) in (jobs', j' ∷ js)
      ]

  unfoldable pub claim_due : Jobs → DateTime → Jobs × List (Job chrono Payload)
  unfolding due_ids claim_each claimed
  claim_due jobs now = claim_each (due_ids now jobs) jobs

  unfoldable pub get : Jobs → ℕ → Result (Job chrono Payload)
  get jobs k = elim (lookup k jobs) [ none ↦ err (not_found k) | some j ↦ ok j ]

  pub values : Jobs → List (Job chrono Payload)
  values [] = []
  values ((k, j) ∷ jobs) = j ∷ values jobs

  abbrev pub memory_store : JobStore chrono Payload
  memory_store = record {
    Store = Jobs;
    put = λ jobs j. (put jobs j, ok tt);
    claim_due = λ jobs now. ((claim_due jobs now).0, ok (claim_due jobs now).1);
    get = get;
    list = λ jobs. ok (values jobs);
  }
