-- ===== src/Queue/Memory/Claims.antt =====
-- The claim of the memory store of crates/queue/src/store.rs: the ids it takes, and what marking
-- each of them leaves on the map.
use servr.Common.{
  ℕ, ◌≡◌, refl, sym, ap, subst, ◌∙◌, ◌≢◌, inl, inr, ◌==◌, Bool, true, false, Option, none, some,
  List, [], ◌∷◌, lookup, insert, lookup-insert, insert-IsMap, IsMap, Misses, lookup-Misses, All,
  any_of, Option-cases, if◌then◌else◌, nat_eq, arith,
}
use servr.Core.Chrono.{Chrono}
use servr.Queue.Job.{Job}
use servr.Queue.Store.{is_due, claimed, ids, Distinct, has_job}
use servr.Queue.Memory.{Jobs, due_ids, claim_each}

module _ (chrono : Chrono) (Payload : Type 0) where
  open chrono use {DateTime}

  abbrev pub Store : Type 0
  Store = Jobs chrono Payload

  -- Every job stands under its own id.
  abbrev pub IsKeyed : Store → Type 0
  IsKeyed [] = Unit
  IsKeyed ((k, j) ∷ jobs) = (j.id ≡ k) × IsKeyed jobs

  abbrev pub has : ℕ → List ℕ → Bool
  has k ks = any_of (λ i. i == k) ks

  abbrev pub Present : DateTime → Store → ℕ → Type 0
  Present now jobs k =
      (j : Job chrono Payload) × (lookup k jobs ≡ some j) × (is_due chrono Payload now j ≡ true)

  pub lookup-IsKeyed :
      (k : ℕ) (j : Job chrono Payload) (jobs : Store)
      → IsKeyed jobs
      → lookup k jobs ≡ some j
      → j.id ≡ k
  lookup-IsKeyed k j [] d e = cc
  lookup-IsKeyed k j ((i, x) ∷ jobs) d e = ground (arith, lookup-IsKeyed k j jobs d.1)

  pub insert-IsKeyed :
      (k : ℕ) (j : Job chrono Payload) (jobs : Store)
      → j.id ≡ k
      → IsKeyed jobs
      → IsKeyed (insert k j jobs)
  insert-IsKeyed k j [] e d = (e, tt)
  insert-IsKeyed k j ((i, x) ∷ jobs) e d = ground (arith, insert-IsKeyed k j jobs e d.1)

  -- The claims of distinct ids, read off the jobs as they stood.
  pub collect : List ℕ → Store → List (Job chrono Payload)
  collect [] jobs = []
  collect (k ∷ ks) jobs = elim (lookup k jobs) [
    | none ↦ collect ks jobs
    | some j ↦ claimed chrono Payload j ∷ collect ks jobs
  ]

  collect-insert :
      (k : ℕ) (v : Job chrono Payload) (ks : List ℕ) (jobs : Store)
      → All (λ i. k ≢ i) ks
      → collect ks (insert k v jobs) ≡ collect ks jobs
  unfolding collect
  collect-insert k v [] jobs n = refl
  collect-insert k v (i ∷ ks) jobs n =
      ground (arith, lookup-insert k i v jobs, collect-insert k v ks jobs n.1)

  pub claim_each-collect :
      (ks : List ℕ) (jobs : Store)
      → Distinct chrono Payload ks
      → (claim_each chrono Payload ks jobs).1 ≡ collect ks jobs
  unfolding claim_each collect
  claim_each-collect [] jobs d = refl
  claim_each-collect (k ∷ ks) jobs d = elim (Option-cases (lookup k jobs)) [
    | inl e ↦ rw (e, claim_each, collect) (claim_each-collect ks jobs d.1)
    | inr (j, e) ↦
        let v = claimed chrono Payload j in
        rw (e, claim_each, collect)
          (ap (λ js. v ∷ js)
            (claim_each-collect ks (insert k v jobs) d.1 ∙ collect-insert k v ks jobs d.0))
  ]

  abbrev pub map_claimed : Option (Job chrono Payload) → Option (Job chrono Payload)
  map_claimed none = none
  map_claimed (some j) = some (claimed chrono Payload j)

  has-All : (k : ℕ) (ks : List ℕ) → All (λ i. k ≢ i) ks → has k ks ≡ false
  has-All k [] n = refl
  has-All k (i ∷ ks) n = ground (arith, has-All k ks n.1)

  pub lookup-claim_each :
      (ks : List ℕ) (jobs : Store) (k : ℕ)
      → Distinct chrono Payload ks
      → lookup k (claim_each chrono Payload ks jobs).0
        ≡ (if has k ks then map_claimed (lookup k jobs) else lookup k jobs)
  unfolding claim_each
  lookup-claim_each [] jobs k d = refl
  lookup-claim_each (i ∷ ks) jobs k d = elim (Option-cases (lookup i jobs)) [
    | inl e ↦ rw (e, claim_each) (ground (arith, lookup-claim_each ks jobs k d.1))
    | inr (j, e) ↦
        rw (e, claim_each)
          (lookup-claim_each ks (insert i (claimed chrono Payload j) jobs) k d.1
            ∙ ground (arith, lookup-insert i k (claimed chrono Payload j) jobs, has-All i ks d.0))
  ]

  All-Misses :
      (now : DateTime) (k : ℕ) (jobs : Store)
      → IsKeyed jobs
      → Misses k jobs
      → All (λ i. k ≢ i) (due_ids chrono Payload now jobs)
  unfolding due_ids
  All-Misses now k [] d n = tt
  All-Misses now k ((i, j) ∷ jobs) d n = ground (arith, All-Misses now k jobs d.1 n.1)

  pub due_ids-Distinct :
      (now : DateTime) (jobs : Store)
      → IsKeyed jobs
      → IsMap jobs
      → Distinct chrono Payload (due_ids chrono Payload now jobs)
  unfolding due_ids
  due_ids-Distinct now [] d m = tt
  due_ids-Distinct now ((i, j) ∷ jobs) d m =
      ground (arith, due_ids-Distinct now jobs d.1 m.1, All-Misses now i jobs d.1 m.0)

  pub due_ids_iff :
      (now : DateTime) (jobs : Store) (k : ℕ)
      → IsKeyed jobs
      → IsMap jobs
      → has k (due_ids chrono Payload now jobs)
        ≡ elim (lookup k jobs) [ none ↦ false | some j ↦ is_due chrono Payload now j ]
  unfolding due_ids
  due_ids_iff now [] k d m = refl
  due_ids_iff now ((i, j) ∷ jobs) k d m =
      ground (arith, due_ids_iff now jobs k d.1 m.1, lookup-Misses i jobs m.0)

  pub claim_each-IsMap :
      (ks : List ℕ) (jobs : Store) → IsMap jobs → IsMap (claim_each chrono Payload ks jobs).0
  unfolding claim_each
  claim_each-IsMap [] jobs m = m
  claim_each-IsMap (k ∷ ks) jobs m = elim (Option-cases (lookup k jobs)) [
    | inl e ↦ rw (e, claim_each) (claim_each-IsMap ks jobs m)
    | inr (j, e) ↦
        rw (e, claim_each)
          (claim_each-IsMap ks _ (insert-IsMap k (claimed chrono Payload j) jobs m))
  ]

  pub claim_each-IsKeyed :
      (ks : List ℕ) (jobs : Store) → IsKeyed jobs → IsKeyed (claim_each chrono Payload ks jobs).0
  unfolding claim_each claimed
  claim_each-IsKeyed [] jobs d = d
  claim_each-IsKeyed (k ∷ ks) jobs d = elim (Option-cases (lookup k jobs)) [
    | inl e ↦ rw (e, claim_each) (claim_each-IsKeyed ks jobs d)
    | inr (j, e) ↦
        rw (e, claim_each)
          (claim_each-IsKeyed ks _
            (insert-IsKeyed k (claimed chrono Payload j) jobs (lookup-IsKeyed k j jobs d e) d))
  ]

  All-of_has : (P : ℕ → Type 0) (ks : List ℕ) → ((k : ℕ) → has k ks ≡ true → P k) → All P ks
  All-of_has P [] f = tt
  All-of_has P (i ∷ ks) f = (f i (ground arith), All-of_has P ks (λ k h. f k (ground arith)))

  pub due_ids-Present :
      (now : DateTime) (jobs : Store)
      → IsKeyed jobs
      → IsMap jobs
      → All (Present now jobs) (due_ids chrono Payload now jobs)
  due_ids-Present now jobs d m =
      All-of_has _ _ λ k h. present k (sym (due_ids_iff now jobs k d m) ∙ h)
    where
      present :
          (k : ℕ)
          → elim (lookup k jobs) [ none ↦ false | some j ↦ is_due chrono Payload now j ] ≡ true
          → Present now jobs k
      present k h = elim (Option-cases (lookup k jobs)) [
        | inl e ↦ absurd (ground arith)
        | inr (j, e) ↦ (j, e, ground arith)
      ]

  collect-ne :
      (k : ℕ) (ks : List ℕ) (jobs : Store)
      → IsKeyed jobs
      → All (λ i. k ≢ i) ks
      → All (λ i. k ≢ i) (ids chrono Payload (collect ks jobs))
  unfolding collect claimed
  collect-ne k [] jobs d n = tt
  collect-ne k (i ∷ ks) jobs d n = elim (Option-cases (lookup i jobs)) [
    | inl e ↦ rw (e, collect) (collect-ne k ks jobs d n.1)
    | inr (j, e) ↦
        rw (e, collect) (λ h. n.0 (h ∙ lookup-IsKeyed i j jobs d e), collect-ne k ks jobs d n.1)
  ]

  pub collect-Distinct :
      (ks : List ℕ) (jobs : Store)
      → IsKeyed jobs
      → Distinct chrono Payload ks
      → Distinct chrono Payload (ids chrono Payload (collect ks jobs))
  unfolding collect claimed
  collect-Distinct [] jobs d n = tt
  collect-Distinct (i ∷ ks) jobs d n = elim (Option-cases (lookup i jobs)) [
    | inl e ↦ rw (e, collect) (collect-Distinct ks jobs d n.1)
    | inr (j, e) ↦
        rw (e, collect)
          (
            subst (λ k. All (λ x. k ≢ x) (ids chrono Payload (collect ks jobs)))
                (sym (lookup-IsKeyed i j jobs d e)) (collect-ne i ks jobs d n.0),
            collect-Distinct ks jobs d n.1,
          )
  ]

  -- A claimed job is a job of the store that was due, marked.
  abbrev Marked : DateTime → Store → Job chrono Payload → Type 0
  Marked now jobs j =
      (i : Job chrono Payload) × (lookup j.id jobs ≡ some i)
      × (is_due chrono Payload now i ≡ true)
      × (j ≡ claimed chrono Payload i)

  pub collect-Marked :
      (now : DateTime) (ks : List ℕ) (jobs : Store)
      → IsKeyed jobs
      → All (Present now jobs) ks
      → All (Marked now jobs) (collect ks jobs)
  unfolding collect claimed
  collect-Marked now [] jobs d p = tt
  collect-Marked now (k ∷ ks) jobs d ((j, e, due), p) =
      rw (e, collect)
        (
          (j, subst (λ i. lookup i jobs ≡ some j) (sym (lookup-IsKeyed k j jobs d e)) e, due, refl),
          collect-Marked now ks jobs d p,
        )

  pub collect-has_job :
      (now : DateTime) (ks : List ℕ) (jobs : Store) (k : ℕ)
      → IsKeyed jobs
      → All (Present now jobs) ks
      → has_job chrono Payload k (collect ks jobs) ≡ has k ks
  unfolding collect claimed
  collect-has_job now [] jobs k d p = refl
  collect-has_job now (x ∷ ks) jobs k d ((j, e, due), p) =
      rw (e, collect)
        (ground (arith, lookup-IsKeyed x j jobs d e, collect-has_job now ks jobs k d p))
