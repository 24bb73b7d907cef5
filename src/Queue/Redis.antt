-- ===== src/Queue/Redis.antt =====
-- `RedisStore` of crates/queue/src/redis_store.rs on a Redis that answers. Redis runs a transaction or
-- a script alone, so an operation is one function on the two keys of a run; what a script wrote before
-- an error stays. serde_json, cjson, Lua's limit on `unpack`, the order of members of equal score and
-- an instant's milliseconds are parameters.
pub mod Claims
use servr.Common.{
  ℕ, suc, ◌⊎◌, inl, inr, ◌+◌, ◌==◌, ◌&&◌, Bool, true, false, Option, none, some, List, [], ◌∷◌,
  ◌++◌, length, bytes, map, Text, ℤ, leb_ℤ, lookup, insert, remove, nat_eq, and_then, map_err,
  if◌then◌else◌,
}
use servr.Core.Chrono.{Chrono}
use servr.Queue.Job.{Job, is_scheduled}
use servr.Queue.Store.{StoreError, not_found, backend, corrupt, Result, ok, err, JobStore}

-- What the script uses of Lua and cjson, where a failure raises an error: `cjson.decode`, the two
-- assignments with the reading of the attempt, `cjson.encode`, and `unpack` of so many ids. Members
-- of equal score stand in the order of their texts.
pub record Lua : Type 1 where
  pub Value : Type 0
  pub decode : Text → Text ⊎ Value
  pub set_state : Value → Text → Text ⊎ Value
  pub attempt_of : Value → Text ⊎ ℕ
  pub set_attempt : Value → ℕ → Text ⊎ Value
  pub encode : Value → Text ⊎ Text
  pub unpack_fails : ℕ → Option Text
  pub stands_before : ℕ → ℕ → Bool

module _ (chrono : Chrono) (Payload : Type 0) where
  open chrono use {DateTime}

  -- `serde_json`'s text of a job and its reader, and `timestamp_millis`.
  pub record Codec : Type 0 where
    pub encode_job : Job chrono Payload → Text ⊎ Text
    pub decode_job : Text → Text ⊎ Job chrono Payload
    pub score : DateTime → ℤ

  -- The hash of jobs, and the sorted set of the ids that are due some time.
  pub record Keys : Type 0 where
    pub jobs : List (ℕ × Text)
    pub due : List (ℕ × ℤ)

  -- `ZADD` of an id that is not in the set.
  unfoldable pub add_sorted : Lua → ℕ → ℤ → List (ℕ × ℤ) → List (ℕ × ℤ)
  add_sorted lua k s [] = (k, s) ∷ []
  add_sorted lua k s ((i, t) ∷ due) =
      let rest = add_sorted lua k s due in
      if leb_ℤ s t && (if leb_ℤ t s then lua.stands_before k i else true)
      then (k, s) ∷ (i, t) ∷ due
      else (i, t) ∷ rest

  unfoldable pub zadd : Lua → ℕ → ℤ → List (ℕ × ℤ) → List (ℕ × ℤ)
  unfolding add_sorted
  zadd lua k s due = add_sorted lua k s (remove k due)

  -- `ZRANGEBYSCORE '-inf' now`
  unfoldable pub range_by_score : ℤ → List (ℕ × ℤ) → List ℕ
  range_by_score now [] = []
  range_by_score now ((i, t) ∷ due) =
      let rest = range_by_score now due in if leb_ℤ t now then i ∷ rest else rest

  -- `ZREM` of several.
  unfoldable pub zrem : List ℕ → List (ℕ × ℤ) → List (ℕ × ℤ)
  zrem [] due = due
  zrem (k ∷ ks) due = zrem ks (remove k due)

  module _ (lua : Lua) (codec : Codec) where
    open lua use {Value, decode, set_state, attempt_of, set_attempt, encode, unpack_fails}
    open codec use {encode_job, decode_job, score}

    abbrev pub put_encoded : Keys → Job chrono Payload → Text ⊎ Text → Keys × Result (Unit {0})
    put_encoded r j (inl e) = (r, err (corrupt e))
    put_encoded r j (inr text) = (
      record {
        jobs = insert j.id text r.jobs;
        due =
            if is_scheduled j.state
            then zadd lua j.id (score j.due_at) r.due
            else remove j.id r.due;
      },
      ok tt,
    )

    unfoldable pub put : Keys → Job chrono Payload → Keys × Result (Unit {0})
    put r j = put_encoded r j (encode_job j)

    -- The body of the script's loop on a text: the error that it raises, or the text with the job's
    -- state running and one attempt more.
    unfoldable pub mark_running : Text → Text ⊎ Text
    mark_running raw = and_then (decode raw) (λ job.
        and_then (set_state job (bytes "running")) (λ started.
          and_then (attempt_of started)
            (λ attempt. and_then (set_attempt started (attempt + 1)) encode)))

    -- The script's loop, with the texts claimed so far: an id with no job is passed over, and an
    -- error ends it.
    unfoldable pub mark_each :
        List ℕ → List (ℕ × Text) → List Text → List (ℕ × Text) × (Text ⊎ List Text)
    mark_each [] jobs claimed = (jobs, inr claimed)
    mark_each (k ∷ ks) jobs claimed = elim (lookup k jobs) [
      | none ↦ mark_each ks jobs claimed
      | some raw ↦ elim (mark_running raw) [
        | inl e ↦ (jobs, inl e)
        | inr encoded ↦ mark_each ks (insert k encoded jobs) (claimed ++ encoded ∷ [])
      ]
    ]

    abbrev pub claim_ids : Keys → List ℕ → Keys × (Text ⊎ List Text)
    claim_ids r [] = (r, inr [])
    claim_ids r (k ∷ ks) = elim (unpack_fails (suc (length ks))) [
      | some e ↦ (r, inl e)
      | none ↦
          let (jobs, result) = mark_each (k ∷ ks) r.jobs [] in
          (record { jobs = jobs; due = zrem (k ∷ ks) r.due }, result)
    ]

    -- The script `CLAIM_DUE`, with the error that it ends with or the texts that it claims.
    unfoldable pub claim_script : Keys → ℤ → Keys × (Text ⊎ List Text)
    unfolding mark_each
    claim_script r now = claim_ids r (range_by_score now r.due)

    -- `map(decode).collect()`: the first error is the result.
    unfoldable pub decode_all : List Text → Result (List (Job chrono Payload))
    decode_all [] = ok []
    decode_all (raw ∷ raws) = elim (decode_job raw) [
      | inl e ↦ err (corrupt e)
      | inr j ↦ elim (decode_all raws) [ ok js ↦ ok (j ∷ js) | err e ↦ err e ]
    ]

    abbrev pub answer : Text ⊎ List Text → Result (List (Job chrono Payload))
    answer (inl e) = err (backend e)
    answer (inr claimed) = decode_all claimed

    unfoldable pub claim_due : Keys → DateTime → Keys × Result (List (Job chrono Payload))
    unfolding claim_script
    claim_due r now = let (r', result) = claim_script r (score now) in (r', answer result)

    abbrev pub decoded : Text ⊎ Job chrono Payload → Result (Job chrono Payload)
    decoded (inl e) = err (corrupt e)
    decoded (inr j) = ok j

    unfoldable pub get : Keys → ℕ → Result (Job chrono Payload)
    get r k = elim (lookup k r.jobs) [
      | none ↦ err (not_found k)
      | some raw ↦ decoded (decode_job raw)
    ]

    abbrev pub texts : List (ℕ × Text) → List Text
    texts [] = []
    texts ((k, raw) ∷ jobs) = raw ∷ texts jobs

    unfoldable pub list : Keys → Result (List (Job chrono Payload))
    list r = decode_all (texts r.jobs)

    abbrev pub redis_store : JobStore chrono Payload
    redis_store = record { Store = Keys; put = put; claim_due = claim_due; get = get; list = list }
