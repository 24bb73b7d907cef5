-- ===== src/Examples/Http.antt =====
-- The theorems on crates/http at concrete inputs: two rules on one route.
use servr.Common.{ℕ, zero, suc, ◌≡◌, some, [], ◌∷◌, bytes}
use servr.Core.Fault.{default_telemetry}
use servr.Core.Config.{Resolved}
use servr.Http.Fault.{Axum, Request, Response, full, resolve}
use servr.Http.Fault.Rules.{firing, summary, resolve-firing}
use servr.Examples.Data.{percent, slow_rule, gateway_rule}

-- Status codes as numbers, headers as their count.
abbrev axum : Axum
axum = record {
  StatusCode = ℕ;
  from_u16 = some;
  ok = 200;
  internal_server_error = 500;
  Headers = ℕ;
  no_headers = 0;
  json_headers = 1;
}

abbrev roll : ℕ → ℕ
roll zero = 10
roll (suc i) = 30

resolve-firing_example :
    resolve axum percent (slow_rule ∷ gateway_rule ∷ []) roll
    ≡ summary axum percent (firing axum percent (slow_rule ∷ gateway_rule ∷ []) roll 0)
resolve-firing_example = resolve-firing axum percent (slow_rule ∷ gateway_rule ∷ []) roll

abbrev resolved : Resolved percent
resolved = record { faults = slow_rule ∷ []; telemetry = default_telemetry percent; webhooks = [] }

abbrev ping : Request axum percent
ping = record { method = bytes "GET"; path = bytes "/api/ping"; body = [] }

-- A handler that counts its calls.
abbrev handler : Request axum percent → ℕ → ℕ × Response axum percent
handler request n = (suc n, record { status = 200; headers = 2; body = full (bytes "pong") })
