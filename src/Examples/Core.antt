-- ===== src/Examples/Core.antt =====
-- The theorems on crates/core at concrete inputs.
use servr.Common.{
  ℕ, ◌≡◌, ◌↔◌, refl, true, false, some, List, [], ◌∷◌, bytes, pos, ◌+ℤ◌, ◌-ℤ◌, wrap_i64, as_i64,
  FitsI64, arith,
}
use servr.Core.Chrono.{milliseconds}
use servr.Core.Glob.{glob_match, glob_run}
use servr.Core.Glob.Matches.{Matches}
use servr.Core.Glob.Round.{Decides}
use servr.Core.Glob.Sound.{glob_match_iff, glob_run-Decides}
use servr.Core.Clock.{Clock, now, freeze, advance, resume, running_elapsed_ms, elapsed_since}
use servr.Core.Clock.Flow
use servr.Core.Clock.Flow.{
  Call, advances, freezes, resumes, run, flow_at, flow_run, flow_of, flow_step, AllProper, now-run,
}
use servr.Core.Clock.Freeze.{freeze_again_jumps}
use servr.Core.Config.{Overlay}
use servr.Core.State.{resolve}
use servr.Core.State.Reset.{Call as Change, mutates, ticks, resets}
use servr.Core.State.Threads.{
  Shared, Reach, boot, entered, loaded, published, finished, lock, load, store_resolved,
  store_overlay, unlock, here, next, Sees, no_lost_write, reader-Sees, replay, free,
}
use servr.Examples.Data.{percent, gateway_rule, scenario, clock}

glob_match_iff_example :
    (glob_match (bytes "/api/*") (bytes "/api/ping") ≡ true)
    ↔ Matches (bytes "/api/*") (bytes "/api/ping")
glob_match_iff_example = glob_match_iff (bytes "/api/*") (bytes "/api/ping")

glob_run-Decides_example :
    Decides
      (Matches (bytes "*/v1/*") (bytes "/api/v1/x"))
      (glob_run (bytes "*/v1/*") (bytes "/api/v1/x"))
glob_run-Decides_example = glob_run-Decides (bytes "*/v1/*") (bytes "/api/v1/x")

-- An advance of a minute, then a freeze two seconds in, and a resume at five.
abbrev clock_calls : List (ℕ × Call)
clock_calls = (1000000000, advances 60000) ∷ (2000000000, freezes) ∷ (5000000000, resumes) ∷ []

clock_calls-AllProper : AllProper milliseconds clock clock_calls
unfolding Flow.call advance freeze resume running_elapsed_ms elapsed_since wrap_i64 as_i64 ◌+ℤ◌ ◌-ℤ◌
clock_calls-AllProper = ground arith

clock_calls_fit :
    FitsI64
      (flow_at (flow_run 0 (flow_of milliseconds clock) clock_calls) (elapsed_since 0 9000000000))
unfolding flow_run flow_step flow_at elapsed_since ◌+ℤ◌ ◌-ℤ◌
clock_calls_fit = ground arith

now-run_example :
    now milliseconds (run milliseconds clock clock_calls) 9000000000
    ≡ milliseconds.plus
        (pos 1000)
        (flow_at (flow_run 0 (flow_of milliseconds clock) clock_calls) (elapsed_since 0 9000000000))
now-run_example =
    now-run milliseconds clock clock_calls 9000000000 clock_calls-AllProper clock_calls_fit

abbrev frozen_clock : Clock milliseconds
frozen_clock = record clock { frozen = true; frozen_elapsed_ms = pos 5 }

freeze_again_jumps_example :
    milliseconds.le
      (now milliseconds (freeze milliseconds frozen_clock 9000000) 9000001)
      (now milliseconds frozen_clock 8000000)
    ≡ false
freeze_again_jumps_example =
    freeze_again_jumps milliseconds frozen_clock 9000000 8000000 9000001 refl
      (unfold elapsed_since ◌+ℤ◌ in omega arith) (unfold ◌+ℤ◌ in omega arith)
      (unfold elapsed_since ◌+ℤ◌ in omega arith)

-- An operator installs a rule.
abbrev install : Overlay percent → Overlay percent
install o = record o { faults = some (gateway_rule ∷ []) }

abbrev history : List (Change percent milliseconds)
history = mutates install ∷ ticks (λ c. record c { frozen = true }) ∷ resets ∷ mutates install ∷ []

abbrev start : Shared percent milliseconds
start = boot percent milliseconds scenario

-- The states of its writer, one step after another.
abbrev locked : Shared percent milliseconds
locked = record start { phase = entered install; done = install ∷ [] }

abbrev loaded_it : Shared percent milliseconds
loaded_it = record locked { phase = loaded (install start.overlay) }

abbrev stored : Shared percent milliseconds
stored = record loaded_it {
  phase = published (install start.overlay);
  resolved = resolve percent milliseconds scenario (install start.overlay);
}

abbrev published_it : Shared percent milliseconds
published_it = record stored { phase = finished; overlay = install start.overlay }

abbrev unlocked : Shared percent milliseconds
unlocked = record published_it { phase = free }

stored-Reach : Reach percent milliseconds scenario start stored
unfolding boot
stored-Reach =
    next (next (next (here start) (lock start install refl)) (load locked install refl))
      (store_resolved loaded_it (install start.overlay) refl)

unlocked-Reach : Reach percent milliseconds scenario start unlocked
unlocked-Reach =
    next (next stored-Reach (store_overlay stored (install start.overlay) refl))
      (unlock published_it refl)

no_lost_write_example :
    (unlocked.overlay ≡ replay percent milliseconds unlocked.done)
    × (unlocked.resolved
        ≡ resolve percent milliseconds scenario (replay percent milliseconds unlocked.done))
no_lost_write_example = no_lost_write percent milliseconds scenario unlocked unlocked-Reach refl

reader-Sees_example : Sees percent milliseconds scenario stored.resolved stored.done
reader-Sees_example = reader-Sees percent milliseconds scenario stored stored-Reach
