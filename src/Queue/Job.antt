-- ===== src/Queue/Job.antt =====
-- crates/queue/src/job.rs, and the job states of crates/core/src/event.rs. Identifiers are
-- numbers, which are only compared; a payload is never looked into.
use servr.Common.{
  ℕ, ◌-◌, Bool, true, false, Option, none, some, List, [], ◌∷◌, Bytes, ltb, get_elem?, last_or,
}
use servr.Core.Chrono.{Chrono}

pub data JobState : Type 0 where
  scheduled running succeeded failed dead : JobState

unfoldable pub is_terminal : JobState → Bool
is_terminal succeeded = true
is_terminal dead = true
is_terminal _ = false

abbrev pub is_scheduled : JobState → Bool
is_scheduled scheduled = true
is_scheduled _ = false

abbrev pub u32_mod : ℕ
u32_mod = 4294967296

-- The delay of the `index`-th retry: the last entry repeats, and an empty list is 0.
unfoldable pub backoff_at : List ℕ → ℕ → ℕ
backoff_at [] index = 0
backoff_at (b ∷ bs) index = elim (get_elem? (b ∷ bs) index) [ some ms ↦ ms | none ↦ last_or b bs ]

module _ (chrono : Chrono) (Payload : Type 0) where
  open chrono use {DateTime}

  pub record Job : Type 0 where
    pub id : ℕ
    pub run : ℕ
    pub kind : Bytes
    pub payload : Payload
    pub state : JobState
    pub attempt : ℕ
    pub max_attempts : ℕ
    pub due_at : DateTime
    pub backoff_ms : List ℕ
    pub enqueued_trace : Option Bytes
    pub enqueued_span : Option Bytes
    pub last_error : Option Bytes

  -- `id` is the fresh `JobId::new()`, `null` the payload `Value::Null`.
  unfoldable pub new : ℕ → ℕ → Bytes → DateTime → Payload → Job
  new id run kind due_at null = record {
    id = id;
    run = run;
    kind = kind;
    payload = null;
    state = scheduled;
    attempt = 0;
    max_attempts = 3;
    due_at = due_at;
    backoff_ms = 1000 ∷ 5000 ∷ 30000 ∷ [];
    enqueued_trace = none;
    enqueued_span = none;
    last_error = none;
  }

  unfoldable pub with_payload : Job → Payload → Job
  with_payload j payload = record j { payload = payload }

  unfoldable pub with_max_attempts : Job → ℕ → Job
  with_max_attempts j max = record j { max_attempts = max }

  unfoldable pub with_backoff : Job → List ℕ → Job
  with_backoff j backoff_ms = record j { backoff_ms = backoff_ms }

  unfoldable pub with_trace : Job → Bytes → Bytes → Job
  with_trace j trace span = record j { enqueued_trace = some trace; enqueued_span = some span }

  unfoldable pub can_retry : Job → Bool
  can_retry j = ltb j.attempt j.max_attempts

  -- `attempt.saturating_sub(1)` is the subtraction that stops at 0.
  unfoldable pub next_backoff_ms : Job → ℕ
  unfolding backoff_at
  next_backoff_ms j = backoff_at j.backoff_ms (j.attempt - 1)
