-- ===== src/Admin/Control.antt =====
-- The control plane's routes of crates/admin/src/lib.rs (`router`) over core's state: a request, the
-- readings of the clocks that its handler makes, and the answer. Logs are left out.
use servr.Common.{ℕ, Bool, true, false, ℤ, some, List, [], ◌∷◌, ◌++◌}
use servr.Core.Float.{Float}
use servr.Core.Chrono.{Chrono}
use servr.Core.Clock.{now, advance as advance_clock, freeze as freeze_clock, resume as resume_clock}
use servr.Core.Fault.{FaultSpec, TelemetryFault, default_telemetry}
use servr.Core.State.{State, mutate, reset as reset_state}

module _ (float : Float) (chrono : Chrono) where
  open chrono use {DateTime}

  pub data Request : Type 0 where
    get_health get_clock get_faults get_telemetry_faults : Request
    post_reset post_freeze post_resume : Request
    post_advance : (ms : ℕ) → Request
    post_fault : FaultSpec float → Request
    post_telemetry_faults : TelemetryFault float → Request
    delete_faults delete_telemetry_faults : Request

  -- The JSON of an answer.
  pub data Body : Type 0 where
    health_body : (run : ℕ) → Body
    ok_body : Body
    clock_body : (now wall : DateTime) (offset_ms : ℤ) (frozen : Bool) → Body
    advanced_body : (now : DateTime) (offset_ms : ℤ) → Body
    stopped_body : (now : DateTime) (frozen : Bool) → Body
    faults_body : List (FaultSpec float) → Body
    telemetry_body : TelemetryFault float → Body
    telemetry_set_body : TelemetryFault float → Body

  -- The monotonic clock as a change reads it, as the answer reads it, and the wall clock.
  pub record Readings : Type 0 where
    pub changed : ℕ
    pub answered : ℕ
    pub wall : DateTime

  abbrev pub S : Type 0
  S = State float chrono

  unfoldable pub health : S → S × Body
  health s = (s, health_body s.run)

  unfoldable pub reset : S → S × Body
  unfolding reset_state
  reset s = (reset_state float chrono s, ok_body)

  unfoldable pub clock : S → Readings → S × Body
  unfolding now
  clock s r =
      (s, clock_body (now chrono s.clock r.answered) r.wall s.clock.offset_ms s.clock.frozen)

  unfoldable pub advance : S → ℕ → Readings → S × Body
  unfolding now advance_clock
  advance s ms r =
      let c = advance_clock chrono s.clock ms in
      (record s { clock = c }, advanced_body (now chrono c r.answered) c.offset_ms)

  unfoldable pub freeze : S → Readings → S × Body
  unfolding now freeze_clock
  freeze s r =
      let c = freeze_clock chrono s.clock r.changed in
      (record s { clock = c }, stopped_body (now chrono c r.answered) true)

  unfoldable pub resume : S → Readings → S × Body
  unfolding now resume_clock
  resume s r =
      let c = resume_clock chrono s.clock r.changed in
      (record s { clock = c }, stopped_body (now chrono c r.answered) false)

  unfoldable pub telemetry_faults : S → S × Body
  telemetry_faults s = (s, telemetry_body s.resolved.telemetry)

  unfoldable pub set_telemetry_faults : S → TelemetryFault float → S × Body
  unfolding mutate
  set_telemetry_faults s fault = (
    mutate float chrono s (λ overlay. record overlay { telemetry = some fault }),
    telemetry_set_body fault,
  )

  unfoldable pub clear_telemetry_faults : S → S × Body
  unfolding mutate
  clear_telemetry_faults s = (
    mutate float chrono s
        (λ overlay. record overlay { telemetry = some (default_telemetry float) }),
    ok_body,
  )

  unfoldable pub list_faults : S → S × Body
  list_faults s = (s, faults_body s.resolved.faults)

  -- `add_fault` reads the effective rules without the write lock, and then writes under it.
  unfoldable pub pushed : S → FaultSpec float → List (FaultSpec float)
  pushed s spec = s.resolved.faults ++ spec ∷ []

  unfoldable pub put_faults : S → List (FaultSpec float) → S
  unfolding mutate
  put_faults s faults = mutate float chrono s (λ overlay. record overlay { faults = some faults })

  unfoldable pub add_fault : S → FaultSpec float → S × Body
  unfolding pushed put_faults
  add_fault s spec = (put_faults s (pushed s spec), ok_body)

  unfoldable pub clear_faults : S → S × Body
  unfolding put_faults
  clear_faults s = (put_faults s [], ok_body)

  -- The method and path chosen by the router.
  unfoldable pub handle : S → Request → Readings → S × Body
  handle s get_health r = health s
  handle s get_clock r = clock s r
  handle s get_faults r = list_faults s
  handle s get_telemetry_faults r = telemetry_faults s
  handle s post_reset r = reset s
  handle s post_freeze r = freeze s r
  handle s post_resume r = resume s r
  handle s (post_advance ms) r = advance s ms r
  handle s (post_fault spec) r = add_fault s spec
  handle s (post_telemetry_faults fault) r = set_telemetry_faults s fault
  handle s delete_faults r = clear_faults s
  handle s delete_telemetry_faults r = clear_telemetry_faults s

  unfoldable pub handle_all : S → List (Request × Readings) → S
  handle_all s [] = s
  handle_all s ((q, r) ∷ qs) = handle_all (handle s q r).0 qs
