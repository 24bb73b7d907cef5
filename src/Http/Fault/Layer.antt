-- ===== src/Http/Fault/Layer.antt =====
-- What the fault layer of crates/http/src/fault.rs does to a request, from the rules that fire.
use servr.Common.{ℕ, ◌≡◌, refl, ap, ◌∙◌, ◌||◌, if◌then◌else◌, arith}
use servr.Core.Float.{Float}
use servr.Core.Fault.{is_some}
use servr.Core.Config.{Resolved, faults_for}
use servr.Http.Fault.{Axum, Effects, Response, Request, respond, layer, resolve}
use servr.Http.Fault.Rules.{firing, summary, resolve-firing}

module _ (axum : Axum) (float : Float) (W : Type 0) where
  open float use {F64}

  abbrev Handler : Type 0
  Handler = Request axum float → W → W × Response axum float

  -- What the rules that match and fire amount to.
  abbrev pub applied : Resolved float → (ℕ → F64) → Request axum float → Effects axum float
  applied resolved roll request =
      summary axum float (firing axum float (faults_for float resolved request.path) roll 0)

  respond_world :
      (e : Effects axum float) (next : Handler) (request : Request axum float) (w : W)
      → (respond axum float W e next request w).0
        ≡ (if e.drop_connection || is_some e.status then w else (next request w).0)
  unfolding respond
  respond_world e next request w = ground arith

  -- The wrapped handlers see a request, and change their state, unless a rule that fires drops
  -- the connection or overrides the status with a valid one. The layer sleeps for the sum of
  -- the firing rules' delays either way; the event names the effects of exactly these rules,
  -- and has the status of the response.
  pub layer_effects :
      (resolved : Resolved float) (next : Handler) (roll : ℕ → F64) (latency_ms : ℕ)
      (request : Request axum float) (w : W)
      → let e = applied resolved roll request in
        let served = layer axum float W resolved next roll latency_ms request w in
        (served.world ≡ (if e.drop_connection || is_some e.status then w else (next request w).0))
        × (served.slept ≡ e.delay)
        × (served.event.faults ≡ e.names)
        × (served.event.status ≡ served.response.status)
  unfolding layer
  layer_effects resolved next roll latency_ms request w =
      let rules = faults_for float resolved request.path in
      let same = resolve-firing axum float rules roll in
      let e = resolve axum float rules roll in
      (
        respond_world e next request w
            ∙ ap (λ x. if x.drop_connection || is_some x.status then w else (next request w).0)
                same,
        ap (λ x. x.delay) same,
        ap (λ x. x.names) same,
        refl,
      )
