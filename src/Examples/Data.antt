-- ===== src/Examples/Data.antt =====
-- Concrete instances of what the program uses of third-party code: rates as natural numbers, time
-- in milliseconds, and a scenario.
use servr.Common.{ltb, ℕ, leb, none, some, [], ◌∷◌, bytes, ◌*◌, ◌/◌, pos, false}
use servr.Core.Float.{Float}
use servr.Core.Chrono.{milliseconds}
use servr.Core.Clock.{Clock}
use servr.Core.Fault.{FaultSpec, default_telemetry}
use servr.Core.Config.{Scenario}

-- Rates and rolls in percent.
abbrev pub percent : Float
percent = record {
  F64 = ℕ;
  zero_rate = 0;
  ge = λ a b. leb b a;
  lt = ltb;
  scaled = λ roll j. roll * j / 100;
}

abbrev pub slow_rule : FaultSpec percent
slow_rule = record {
  route = bytes "/api/*";
  rate = 50;
  latency_ms = some 200;
  jitter_ms = some 100;
  status = none;
  truncate_body_at = some 2;
  drop_connection = false;
}

abbrev pub gateway_rule : FaultSpec percent
gateway_rule = record {
  route = bytes "/api/ping";
  rate = 100;
  latency_ms = some 500;
  jitter_ms = none;
  status = some 503;
  truncate_body_at = none;
  drop_connection = false;
}

abbrev pub scenario : Scenario percent
scenario = record {
  name = bytes "storm";
  description = none;
  blast_radius = none;
  faults = slow_rule ∷ [];
  telemetry = default_telemetry percent;
  webhooks = [];
}

abbrev pub clock : Clock milliseconds
clock = record {
  epoch = 0;
  epoch_wall = pos 1000;
  offset_ms = pos 0;
  frozen = false;
  frozen_elapsed_ms = pos 0;
}
