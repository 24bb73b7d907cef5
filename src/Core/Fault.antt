-- ===== src/Core/Fault.antt =====
-- crates/core/src/fault.rs: fault rules, telemetry faults and webhook endpoints.
use servr.Common.{
  ℕ, ◌+◌, ◌%◌, ℤ, Bool, true, false, Option, none, some, List, [], ◌∷◌, ◌++◌, Bytes, bytes, u64_mod,
  if◌then◌else◌,
}
use servr.Core.Float.{Float}
use servr.Core.Glob.{glob_match}

pub data SigningScheme : Type 0 where
  stripe github unsigned : SigningScheme

pub record WebhookEndpoint : Type 0 where
  pub name : Bytes
  pub url : Bytes
  pub sign : SigningScheme
  pub secret : Option Bytes
  pub backoff_ms : List ℕ
  pub fail_first : ℕ

pub data Effect : Type 0 where
  latency status truncate drop : Effect

abbrev pub is_some {ℓ} : {A : Type ℓ} → Option A → Bool
is_some none = false
is_some (some a) = true

abbrev pub push_if : Bool → Effect → List Effect → List Effect
push_if b e names = if b then names ++ e ∷ [] else names

module _ (float : Float) where
  open float use {F64, zero_rate, scaled}

  pub record FaultSpec : Type 0 where
    pub route : Bytes
    pub rate : F64
    pub latency_ms : Option ℕ
    pub jitter_ms : Option ℕ
    pub status : Option ℕ
    pub truncate_body_at : Option ℕ
    pub drop_connection : Bool

  pub record TelemetryFault : Type 0 where
    pub rate : F64
    pub orphan_spans : Bool
    pub clock_skew_ms : Option ℤ
    pub cardinality_bomb : Option ℕ
    pub attribute_bloat_bytes : Option ℕ
    pub drop_export : Bool
    pub export_latency_ms : Option ℕ
    pub corrupt_inbound_traceparent : Bool
    pub counter_reset : Bool

  unfoldable pub matches : FaultSpec → Bytes → Bool
  matches f path = glob_match f.route path

  -- `u64` addition.
  unfoldable pub delay_ms : FaultSpec → F64 → Option ℕ
  delay_ms f roll = elim f.latency_ms [
    | none ↦ none
    | some base ↦ some ((base + elim f.jitter_ms [ none ↦ 0 | some j ↦ scaled roll j ]) % u64_mod)
  ]

  unfoldable pub effects : FaultSpec → List Effect
  effects f = push_if f.drop_connection drop (
      push_if (is_some f.truncate_body_at) truncate
        (push_if (is_some f.status) status (push_if (is_some f.latency_ms) latency [])))

  unfoldable pub default_fault : FaultSpec
  default_fault = record {
    route = bytes "/*";
    rate = zero_rate;
    latency_ms = none;
    jitter_ms = none;
    status = none;
    truncate_body_at = none;
    drop_connection = false;
  }

  unfoldable pub default_telemetry : TelemetryFault
  default_telemetry = record {
    rate = zero_rate;
    orphan_spans = false;
    clock_skew_ms = none;
    cardinality_bomb = none;
    attribute_bloat_bytes = none;
    drop_export = false;
    export_latency_ms = none;
    corrupt_inbound_traceparent = false;
    counter_reset = false;
  }
