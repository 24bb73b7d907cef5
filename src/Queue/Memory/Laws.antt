-- ===== src/Queue/Memory/Laws.antt =====
-- The memory store of crates/queue/src/store.rs against the contract of a store.
use servr.Common.{
  ℕ, ◌≡◌, refl, ap, ◌∙◌, Option, lookup, lookup-insert, insert-IsMap, IsMap, nat_eq, arith,
}
use servr.Core.Chrono.{Chrono}
use servr.Queue.Job.{Job}
use servr.Queue.Store.{Contract, ok, claim_view, due_in, ClaimsDue}
use servr.Queue.Memory.{put, due_ids, claim_due, get, memory_store}
use servr.Queue.Memory.Claims.{
  Store, IsKeyed, lookup-IsKeyed, insert-IsKeyed, has, collect, due_ids-Distinct, due_ids_iff,
  lookup-claim_each, claim_each-collect, due_ids-Present, collect-Distinct, collect-Marked,
  collect-has_job, claim_each-IsKeyed, claim_each-IsMap,
}

module _ (chrono : Chrono) (Payload : Type 0) where
  open chrono use {DateTime}

  pub record IsMemory (jobs : Store chrono Payload) : Type 0 where
    pub keyed : IsKeyed chrono Payload jobs
    pub unique : IsMap jobs

  claim_due-IsMemory :
      (jobs : Store chrono Payload) (now : DateTime)
      → IsMemory jobs
      → IsMemory (claim_due chrono Payload jobs now).0
  unfolding claim_due
  claim_due-IsMemory jobs now m = record {
    keyed = claim_each-IsKeyed chrono Payload _ jobs m.keyed;
    unique = claim_each-IsMap chrono Payload _ jobs m.unique;
  }

  -- On a map whose jobs stand once each, under their own ids, a claim leaves every due job
  -- running, with one attempt more, and every other job as it is.
  claim_due_lookup :
      (jobs : Store chrono Payload) (now : DateTime) (k : ℕ)
      → IsMemory jobs
      → lookup k (claim_due chrono Payload jobs now).0
        ≡ claim_view chrono Payload now (lookup k jobs)
  unfolding claim_due
  claim_due_lookup jobs now k m = ground (
    arith,
    lookup-claim_each chrono Payload (due_ids chrono Payload now jobs) jobs k
        (due_ids-Distinct chrono Payload now jobs m.keyed m.unique),
    due_ids_iff chrono Payload now jobs k m.keyed m.unique,
  )

  abbrev pub memory_view : Store chrono Payload → ℕ → Option (Job chrono Payload)
  memory_view jobs k = lookup k jobs

  -- On a map whose jobs stand once each, under their own ids, a claim returns the due jobs,
  -- each once and marked as running with one attempt more, and no other job.
  pub claim_due_jobs :
      (jobs : Store chrono Payload) (now : DateTime)
      → IsMemory jobs
      → ClaimsDue chrono Payload (memory_view jobs) now (ok (claim_due chrono Payload jobs now).1)
  unfolding claim_due
  claim_due_jobs jobs now m =
      let ks = due_ids chrono Payload now jobs in
      let d = due_ids-Distinct chrono Payload now jobs m.keyed m.unique in
      let present = due_ids-Present chrono Payload now jobs m.keyed m.unique in
      (
        collect chrono Payload ks jobs,
        ap ok (claim_each-collect chrono Payload ks jobs d),
        collect-Distinct chrono Payload ks jobs m.keyed d,
        collect-Marked chrono Payload now ks jobs m.keyed present,
        λ k. collect-has_job chrono Payload now ks jobs k m.keyed present ∙ exact k,
      )
    where
      exact :
          (k : ℕ)
          → has chrono Payload k (due_ids chrono Payload now jobs)
            ≡ due_in chrono Payload now (lookup k jobs)
      exact k = ground (arith, due_ids_iff chrono Payload now jobs k m.keyed m.unique)

  -- `MemoryStore` keeps the contract of a store: after `put` it holds the job under its id and
  -- every other job as before; `claim_due` marks exactly the due jobs and returns each of them
  -- once; `get` returns the job held, or the error for a missing one.
  pub memory_store-Contract :
      Contract chrono Payload (memory_store chrono Payload) IsMemory memory_view
  unfolding put get
  memory_store-Contract = record {
    view_id = λ jobs k j m e. lookup-IsKeyed chrono Payload k j jobs m.keyed e;
    put_ok = λ jobs j m. (
      refl,
      record {
        keyed = insert-IsKeyed chrono Payload j.id j jobs refl m.keyed;
        unique = insert-IsMap j.id j jobs m.unique;
      },
    );
    put_view = λ jobs j k m. lookup-insert j.id k j jobs;
    claim_IsStore = λ jobs now m. claim_due-IsMemory jobs now m;
    claim_view_lem = λ jobs now k m. claim_due_lookup jobs now k m;
    claim_jobs = λ jobs now m. claim_due_jobs jobs now m;
    get_view = λ jobs k m. refl;
  }
