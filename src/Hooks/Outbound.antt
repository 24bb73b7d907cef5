-- ===== src/Hooks/Outbound.antt =====
-- `Sender` of crates/hooks/src/outbound.rs: deliveries, their attempts, and their retries on
-- virtual time. Spans and logs are left out.
pub mod Passes
pub mod Ladder
pub mod Delivered
use servr.Common.{
  show_ℕ, ℕ, suc, ◌+◌, ◌-◌, ◌%◌, Bool, true, false, not, ◌&&◌, Option, none, some, List, [], ◌∷◌,
  ◌++◌, ◌⊎◌, inl, inr, map, Bytes, bytes, length, take, select, leb, ltb, ◌==◌, u64_mod, as_i64,
  if◌then◌else◌,
}
use servr.Core.Chrono.{Chrono}
use servr.Core.Fault.{SigningScheme, unsigned, stripe, WebhookEndpoint}
use servr.Core.State.{unwrap_or}
use servr.Hooks.Sign.{Crypto, header, default_secret}

abbrev pub u32_mod : ℕ
u32_mod = 4294967296

abbrev pub default_backoff_ms : List ℕ
default_backoff_ms = 1000 ∷ 5000 ∷ 30000 ∷ []

pub data SendError : Type 0 where
  failed_first : ℕ → ℕ → SendError
  http_error : Bytes → SendError
  body_error : Bytes → SendError

-- `to_string()`
unfoldable pub send_error_text : SendError → Bytes
send_error_text (failed_first attempt of) =
    bytes "failed by fail_first (attempt "
    ++ show_ℕ attempt
    ++ bytes " of "
    ++ show_ℕ of
    ++ bytes ")"
send_error_text (http_error e) = bytes "request failed: " ++ e
send_error_text (body_error e) = bytes "body is not serializable: " ++ e

unfoldable pub endpoint_from :
    Option Bytes
    → Bytes
    → Option SigningScheme
    → Option Bytes
    → Option (List ℕ)
    → Option ℕ
    → WebhookEndpoint
endpoint_from name url sign secret backoff_ms fail_first = record {
  name = unwrap_or name url;
  url = url;
  sign = unwrap_or sign stripe;
  secret = secret;
  backoff_ms = unwrap_or backoff_ms [];
  fail_first = unwrap_or fail_first 0;
}

abbrev pub sum : List ℕ → ℕ
sum [] = 0
sum (n ∷ ns) = n + sum ns

-- A request as the receiver sees it.
pub record Post : Type 0 where
  pub url : Bytes
  pub headers : List (Bytes × Bytes)
  pub body : Bytes

-- `serde_json`: a value, to its text or an error's.
pub record Json : Type 1 where
  pub Value : Type 0
  pub to_vec : Value → Bytes ⊎ Bytes

abbrev pub signature : Option (Bytes × Bytes) → List (Bytes × Bytes)
signature none = []
signature (some h) = h ∷ []

abbrev pub answered : Bytes ⊎ ℕ → SendError ⊎ ℕ
answered (inl e) = inl (http_error e)
answered (inr status) = inr status

abbrev pub is_success : SendError ⊎ ℕ → Bool
is_success (inl e) = false
is_success (inr status) = leb 200 status && ltb status 300

abbrev pub status_of : SendError ⊎ ℕ → Option ℕ
status_of (inl e) = none
status_of (inr status) = some status

abbrev pub error_of : SendError ⊎ ℕ → Option Bytes
error_of (inl e) = some (send_error_text e)
error_of (inr status) = none

module _ (chrono : Chrono) (crypto : Crypto chrono) (json : Json) where
  open chrono use {DateTime, plus, le}
  open json use {Value, to_vec}

  pub record Delivery : Type 0 where
    pub id : ℕ
    pub endpoint : WebhookEndpoint
    pub body : Value
    pub enqueued_at : DateTime
    pub attempt : ℕ
    pub due_at : DateTime
    pub trace : Option (ℕ × ℕ)
    pub done : Bool
    pub last_status : Option ℕ
    pub last_error : Option Bytes

  unfoldable pub backoff : Delivery → List ℕ
  backoff d = elim d.endpoint.backoff_ms [ [] ↦ default_backoff_ms | b ∷ bs ↦ b ∷ bs ]

  unfoldable pub max_attempts : Delivery → ℕ
  unfolding backoff
  max_attempts d = (length (backoff d) % u32_mod + 1) % u32_mod

  unfoldable pub due_for : Delivery → ℕ → DateTime
  unfolding backoff
  due_for d n = plus d.enqueued_at (as_i64 (sum (take (n - 1) (backoff d)) % u64_mod))

  pub record DeliveryView : Type 0 where
    pub id : ℕ
    pub endpoint : Bytes
    pub url : Bytes
    pub attempt : ℕ
    pub max_attempts : ℕ
    pub enqueued_at : DateTime
    pub due_at : DateTime
    pub done : Bool
    pub status : Option ℕ
    pub error : Option Bytes

  unfoldable pub delivery_view : Delivery → DeliveryView
  unfolding max_attempts
  delivery_view d = record {
    id = d.id;
    endpoint = d.endpoint.name;
    url = d.endpoint.url;
    attempt = d.attempt;
    max_attempts = max_attempts d;
    enqueued_at = d.enqueued_at;
    due_at = d.due_at;
    done = d.done;
    status = d.last_status;
    error = d.last_error;
  }

  -- `EventKind::WebhookOut`, with the virtual time of its event.
  pub record WebhookOut : Type 0 where
    pub endpoint : Bytes
    pub attempt : ℕ
    pub status : Option ℕ
    pub next_retry_at : Option DateTime
    pub at : DateTime

  -- The queue, the events that the bus was given, and the requests that went out.
  pub record Sender : Type 0 where
    pub queue : List Delivery
    pub events : List WebhookOut
    pub sent : List Post

  -- What an attempt reads: the clock when it signs and when it emits, the headers of the trace
  -- context, and the answer to a request, an error's text or a status.
  pub record Readings : Type 0 where
    pub signed_at : DateTime
    pub emitted_at : DateTime
    pub context : List (Bytes × Bytes)
    pub answer : Post → Bytes ⊎ ℕ

  unfoldable pub new : Sender
  new = record { queue = []; events = []; sent = [] }

  -- `id` is the new Uuid, `now` the virtual time.
  unfoldable pub enqueue :
      Sender → WebhookEndpoint → Value → ℕ → DateTime → Option (ℕ × ℕ) → Sender × ℕ
  enqueue s endpoint body id now trace =
      let delivery : Delivery = record {
        id = id;
        endpoint = endpoint;
        body = body;
        enqueued_at = now;
        attempt = 0;
        due_at = now;
        trace = trace;
        done = false;
        last_status = none;
        last_error = none;
      } in
      (record s { queue = s.queue ++ delivery ∷ [] }, id)

  unfoldable pub deliveries : Sender → List DeliveryView
  unfolding delivery_view
  deliveries s = map delivery_view s.queue

  unfoldable pub post : Delivery → Bytes → Readings → Post
  unfolding header
  post d body r = record {
    url = d.endpoint.url;
    headers =
        (bytes "content-type", bytes "application/json")
          ∷ signature (
              header chrono crypto d.endpoint.sign (unwrap_or d.endpoint.secret default_secret) body
                r.signed_at)
        ++ r.context;
    body = body;
  }

  -- The requests that go out, and the outcome.
  unfoldable pub deliver : Delivery → Readings → List Post × (SendError ⊎ ℕ)
  unfolding post
  deliver d r =
      if leb d.attempt d.endpoint.fail_first
      then ([], inl (failed_first d.attempt d.endpoint.fail_first))
      else elim (to_vec d.body) [
        | inl e ↦ ([], inl (body_error e))
        | inr bytes ↦ let request = post d bytes r in (request ∷ [], answered (r.answer request))
      ]

  -- The first delivery with the same id is replaced.
  unfoldable pub replace : List Delivery → Delivery → List Delivery
  replace [] d = []
  replace (x ∷ xs) d = if x.id == d.id then d ∷ xs else x ∷ replace xs d

  -- The delivery after an attempt with this outcome, and when the next one is due.
  unfoldable pub settle : Delivery → SendError ⊎ ℕ → Delivery × Option DateTime
  unfolding max_attempts due_for
  settle d outcome =
      let next = record d { last_status = status_of outcome; last_error = error_of outcome } in
      if is_success outcome
      then (record next { done = true }, none)
      else (if leb (max_attempts d) d.attempt
          then (record next { done = true }, none)
          else (let due = due_for d (suc d.attempt) in (record next { due_at = due }, some due)))

  unfoldable pub begin : Delivery → Delivery
  begin d = record d { attempt = (d.attempt + 1) % u32_mod }

  unfoldable pub attempt : Sender → Delivery → Readings → Sender
  unfolding begin deliver settle replace
  attempt s delivery r =
      let started = begin delivery in
      let (requests, outcome) = deliver started r in
      let (next, next_retry_at) = settle started outcome in
      record {
        queue = replace s.queue next;
        events =
            s.events
            ++ record {
              endpoint = next.endpoint.name;
              attempt = started.attempt;
              status = next.last_status;
              next_retry_at = next_retry_at;
              at = r.emitted_at;
            }
              ∷ [];
        sent = s.sent ++ requests;
      }

  unfoldable pub attempt_all : Sender → List Delivery → (Delivery → Readings) → Sender
  unfolding attempt
  attempt_all s [] readings = s
  attempt_all s (d ∷ ds) readings = attempt_all (attempt s d (readings d)) ds readings

  abbrev pub is_due : DateTime → Delivery → Bool
  is_due now d = not d.done && le d.due_at now

  -- One pass at virtual time `now`.
  unfoldable pub tick : Sender → DateTime → (Delivery → Readings) → Sender
  unfolding attempt_all
  tick s now readings = attempt_all s (select (is_due now) s.queue) readings
