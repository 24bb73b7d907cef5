-- ===== src/Http/Fault.antt =====
-- crates/http/src/fault.rs: what the matching rules add up to, and the layer that applies it to a
-- request. A closure that draws random numbers is the stream of its draws. Spans, metrics and the
-- trace context of the event are left out, and so are its stamps (virtual time, run); `W` is what
-- the wrapped handlers can change.
pub mod Rules
pub mod Layer
use servr.Common.{
  ℕ, suc, ◌+◌, min, Bool, true, false, ◌||◌, Option, none, some, List, [], ◌∷◌, ◌++◌, Bytes, bytes,
  length, take, if◌then◌else◌,
}
use servr.Core.Float.{Float}
use servr.Core.Fault.{FaultSpec, Effect, delay_ms, effects}
use servr.Core.Config.{Resolved, faults_for}

-- What the layer uses of the `http` and `axum` crates.
pub record Axum : Type 1 where
  pub StatusCode : Type 0
  pub from_u16 : ℕ → Option StatusCode
  pub ok : StatusCode
  pub internal_server_error : StatusCode
  pub Headers : Type 0
  pub no_headers : Headers
  pub json_headers : Headers

-- A body that can be read to its end, or one that errors when it is read.
pub data Body : Type 0 where
  full : Bytes → Body
  broken : Body

module _ (axum : Axum) (float : Float) where
  open axum use {StatusCode, from_u16, ok, internal_server_error, Headers, no_headers, json_headers}
  open float use {F64, ge}

  -- Durations in milliseconds.
  pub record Effects : Type 0 where
    pub delay : Option ℕ
    pub status : Option StatusCode
    pub truncate_at : Option ℕ
    pub drop_connection : Bool
    pub names : List Effect

  abbrev pub no_effects : Effects
  no_effects = record {
    delay = none;
    status = none;
    truncate_at = none;
    drop_connection = false;
    names = [];
  }

  abbrev pub and_then {ℓ κ} : {A : Type ℓ} {B : Type κ} → Option A → (A → Option B) → Option B
  and_then none f = none
  and_then (some a) f = f a

  -- `some` of the first that is.
  abbrev pub or_else {ℓ} : {A : Type ℓ} → Option A → Option A → Option A
  or_else none b = b
  or_else (some a) b = some a

  abbrev pub add_delay : Option ℕ → Option ℕ → Option ℕ
  add_delay a none = a
  add_delay none (some n) = some n
  add_delay (some m) (some n) = some (m + n)

  abbrev pub valid_status : FaultSpec float → Option StatusCode
  valid_status f = and_then f.status from_u16

  -- What a rule that fires adds; `roll` scales its jitter.
  unfoldable pub apply_rule : Effects → FaultSpec float → F64 → Effects
  apply_rule e f roll = record {
    delay = add_delay e.delay (delay_ms float f roll);
    status = or_else (valid_status f) e.status;
    truncate_at = or_else f.truncate_body_at e.truncate_at;
    drop_connection = e.drop_connection || f.drop_connection;
    names = e.names ++ effects float f;
  }

  -- `roll i` is draw number `i`; a rule that fires takes two.
  unfoldable pub resolve_loop : List (FaultSpec float) → (ℕ → F64) → ℕ → Effects → Effects
  unfolding apply_rule
  resolve_loop [] roll i e = e
  resolve_loop (f ∷ fs) roll i e =
      let skipped = resolve_loop fs roll (suc i) e in
      let fired = resolve_loop fs roll (suc (suc i)) (apply_rule e f (roll (suc i))) in
      if ge (roll i) f.rate then skipped else fired

  unfoldable pub resolve : List (FaultSpec float) → (ℕ → F64) → Effects
  unfolding resolve_loop
  resolve fs roll = resolve_loop fs roll 0 no_effects

  unfoldable pub fired : Effects → Bool
  fired e = elim e.names [ [] ↦ false | n ∷ ns ↦ true ]

  pub record Response : Type 0 where
    pub status : StatusCode
    pub headers : Headers
    pub body : Body

  unfoldable pub truncate : Response → ℕ → Response
  truncate r at = elim r.body [
    | full b ↦ record r { body = full (take (min at (length b)) b) }
    | broken ↦ record { status = internal_server_error; headers = no_headers; body = full [] }
  ]

  pub record Request : Type 0 where
    pub method : Bytes
    pub path : Bytes
    pub body : Bytes

  -- `EventKind::HttpRequest`.
  pub record HttpRequest : Type 0 where
    pub method : Bytes
    pub path : Bytes
    pub status : StatusCode
    pub latency_ms : ℕ
    pub faults : List Effect

  module _ (W : Type 0) where
    -- What one request leads to: the time slept, the handlers' state, the response, the event.
    pub record Served : Type 0 where
      pub slept : Option ℕ
      pub world : W
      pub response : Response
      pub event : HttpRequest

    unfoldable pub respond : Effects → (Request → W → W × Response) → Request → W → W × Response
    unfolding truncate
    respond e next request w =
        if e.drop_connection
        then (
          w,
          record {
            status = elim e.status [ none ↦ ok | some s ↦ s ];
            headers = no_headers;
            body = broken;
          },
        )
        else elim e.status [
          | some s ↦ (
            w,
            record {
              status = s;
              headers = json_headers;
              body = full (bytes "{\"fault\":\"status\"}");
            },
          )
          | none ↦
              let (w', response) = next request w in
              elim e.truncate_at [ some at ↦ (w', truncate response at) | none ↦ (w', response) ]
        ]

    -- `latency_ms` is what the monotonic clock measured.
    unfoldable pub layer :
        Resolved float → (Request → W → W × Response) → (ℕ → F64) → ℕ → Request → W → Served
    unfolding respond resolve faults_for
    layer resolved next roll latency_ms request w =
        let e = resolve (faults_for float resolved request.path) roll in
        let (w', response) = respond e next request w in
        record {
          slept = e.delay;
          world = w';
          response = response;
          event = record {
            method = request.method;
            path = request.path;
            status = response.status;
            latency_ms = latency_ms;
            faults = e.names;
          };
        }
