-- ===== src/Core/State.antt =====
-- crates/core/src/state.rs: the control plane's layered state. The write lock makes `mutate` and
-- `reset` atomic; `State.Threads` models what happens inside it.
pub mod Reset
pub mod Threads
use servr.Common.{ℕ, Option, none, some, List, [], ◌∷◌}
use servr.Core.Float.{Float}
use servr.Core.Chrono.{Chrono}
use servr.Core.Clock.{Clock, reset as clock_reset}
use servr.Core.Config.{Scenario, Overlay, Resolved, default_overlay}

abbrev pub unwrap_or {ℓ} : {A : Type ℓ} → Option A → A → A
unwrap_or none d = d
unwrap_or (some a) d = a

module _ (float : Float) (chrono : Chrono) where
  unfoldable pub resolve : Scenario float → Overlay float → Resolved float
  resolve base overlay = record {
    faults = unwrap_or overlay.faults base.faults;
    telemetry = unwrap_or overlay.telemetry base.telemetry;
    webhooks = unwrap_or overlay.webhooks base.webhooks;
  }

  pub record State : Type 0 where
    pub base : Scenario float
    pub overlay : Overlay float
    pub resolved : Resolved float
    pub clock : Clock chrono
    pub run : ℕ

  unfoldable pub new : Scenario float → Clock chrono → ℕ → State
  unfolding resolve
  new base clock run = record {
    base = base;
    overlay = default_overlay float;
    resolved = resolve base (default_overlay float);
    clock = clock;
    run = run;
  }

  unfoldable pub mutate : State → (Overlay float → Overlay float) → State
  unfolding resolve
  mutate s f = let next = f s.overlay in record s { resolved = resolve s.base next; overlay = next }

  unfoldable pub reset : State → State
  unfolding resolve
  reset s =
      let overlay = default_overlay float in
      record s {
        resolved = resolve s.base overlay;
        overlay = overlay;
        clock = clock_reset chrono s.clock;
      }
