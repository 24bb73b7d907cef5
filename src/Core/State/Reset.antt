-- ===== src/Core/State/Reset.antt =====
-- Histories of the control plane's calls, crates/core/src/state.rs.
use servr.Common.{ℕ, ◌≡◌, refl, ap, List, [], ◌∷◌}
use servr.Core.Float.{Float}
use servr.Core.Chrono.{Chrono}
use servr.Core.Clock.{Clock, reset as clock_reset}
use servr.Core.Config.{Scenario, Overlay, default_overlay}
use servr.Core.State.{State, resolve, new, mutate, reset}

module _ (float : Float) (chrono : Chrono) where
  pub data Call : Type 0 where
    mutates : (Overlay float → Overlay float) → Call
    -- The clock is shared: its own calls replace it.
    ticks : (Clock chrono → Clock chrono) → Call
    resets : Call

  unfoldable pub call : State float chrono → Call → State float chrono
  call s (mutates f) = mutate float chrono s f
  call s (ticks f) = record s { clock = f s.clock }
  call s resets = reset float chrono s

  unfoldable pub run_calls : State float chrono → List Call → State float chrono
  unfolding call
  run_calls s [] = s
  run_calls s (k ∷ ks) = run_calls (call s k) ks

  -- The published configuration is the one that the scenario and the overlay resolve to.
  pub record Consistent (base : Scenario float) (s : State float chrono) : Type 0 where
    pub same_base : s.base ≡ base
    pub published : s.resolved ≡ resolve float chrono base s.overlay

  new-Consistent :
      (base : Scenario float) (clock : Clock chrono) (run : ℕ)
      → Consistent base (new float chrono base clock run)
  unfolding new
  new-Consistent base clock run = record { same_base = refl; published = refl }

  call-Consistent :
      (base : Scenario float) (s : State float chrono) (k : Call)
      → Consistent base s
      → Consistent base (call s k)
  unfolding call mutate reset
  call-Consistent base s (mutates f) c = record {
    same_base = c.same_base;
    published = ap (λ b. resolve float chrono b (f s.overlay)) c.same_base;
  }
  call-Consistent base s (ticks f) c = record { same_base = c.same_base; published = c.published }
  call-Consistent base s resets c = record {
    same_base = c.same_base;
    published = ap (λ b. resolve float chrono b (default_overlay float)) c.same_base;
  }

  run_calls-Consistent :
      (base : Scenario float) (s : State float chrono) (ks : List Call)
      → Consistent base s
      → Consistent base (run_calls s ks)
  unfolding run_calls
  run_calls-Consistent base s [] c = c
  run_calls-Consistent base s (k ∷ ks) c =
      run_calls-Consistent base (call s k) ks (call-Consistent base s k c)

  -- From boot on, after any calls of mutate, reset and the clock, the scenario is the boot
  -- scenario and the published configuration is what it and the current overlay resolve to.
  pub run_calls-new-Consistent :
      (base : Scenario float) (clock : Clock chrono) (run : ℕ) (ks : List Call)
      → Consistent base (run_calls (new float chrono base clock run) ks)
  run_calls-new-Consistent base clock run ks =
      run_calls-Consistent base _ ks (new-Consistent base clock run)

  -- A reset after any history restores the overlay and the published configuration of boot, keeps
  -- the scenario, and resets the clock.
  pub reset_restores_boot :
      (base : Scenario float) (clock : Clock chrono) (run : ℕ) (ks : List Call)
      → let boot = new float chrono base clock run in
        let before = run_calls boot ks in
        let after = reset float chrono before in
        (after.resolved ≡ boot.resolved)
        × (after.overlay ≡ boot.overlay)
        × (after.base ≡ base)
        × (after.clock ≡ clock_reset chrono before.clock)
  unfolding reset new
  reset_restores_boot base clock run ks =
      let c = run_calls-new-Consistent base clock run ks in
      (
        ap (λ b. resolve float chrono b (default_overlay float)) c.same_base,
        refl,
        c.same_base,
        refl,
      )
