-- ===== src/Core/Config.antt =====
-- crates/core/src/config.rs: the immutable scenario, the overlay, and the two resolved.
use servr.Common.{
  ◌⊎◌, Bool, true, false, ◌&&◌, Option, none, some, List, Bytes, select, and_then, map_err,
}
use servr.Core.Float.{Float}
use servr.Core.Fault.{FaultSpec, TelemetryFault, WebhookEndpoint, matches}

pub data ConfigError : Type 0 where
  toml : Bytes → ConfigError
  io : (path source : Bytes) → ConfigError

abbrev pub is_none : {A : Type 0} → Option A → Bool
is_none none = true
is_none (some a) = false

module _ (float : Float) where
  pub record Scenario : Type 0 where
    pub name : Bytes
    pub description : Option Bytes
    pub blast_radius : Option Bytes
    pub faults : List (FaultSpec float)
    pub telemetry : TelemetryFault float
    pub webhooks : List WebhookEndpoint

  -- `none` defers to the scenario.
  pub record Overlay : Type 0 where
    pub faults : Option (List (FaultSpec float))
    pub telemetry : Option (TelemetryFault float)
    pub webhooks : Option (List WebhookEndpoint)

  unfoldable pub default_overlay : Overlay
  default_overlay = record { faults = none; telemetry = none; webhooks = none }

  -- `==` with the default, all of whose fields are `none`.
  unfoldable pub is_empty : Overlay → Bool
  is_empty o = is_none o.faults && is_none o.telemetry && is_none o.webhooks

  -- The TOML parser is a parameter, with the texts of its errors.
  unfoldable pub from_toml_str : (Bytes → Bytes ⊎ Scenario) → Bytes → ConfigError ⊎ Scenario
  from_toml_str parse src = map_err toml (parse src)

  -- The files as a function from paths, each a text or an error.
  unfoldable pub from_path :
      (Bytes → Bytes ⊎ Scenario) → (Bytes → Bytes ⊎ Bytes) → Bytes → ConfigError ⊎ Scenario
  unfolding from_toml_str
  from_path parse files path = and_then (map_err (io path) (files path)) (from_toml_str parse)

  pub record Resolved : Type 0 where
    pub faults : List (FaultSpec float)
    pub telemetry : TelemetryFault float
    pub webhooks : List WebhookEndpoint

  unfoldable pub faults_for : Resolved → Bytes → List (FaultSpec float)
  faults_for r path = select (λ f. matches float f path) r.faults
