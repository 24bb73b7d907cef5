-- ===== src/Core/Clock.antt =====
-- The virtual clock of crates/core/src/clock.rs. `Instant` is a count of nanoseconds, and each
-- operation takes the reading of the monotonic clock that it makes.
pub mod Flow
pub mod Freeze
use servr.Common.{
  ℕ, ◌-◌, ◌/◌, min, Bool, true, false, ℤ, pos, ◌+ℤ◌, ◌-ℤ◌, wrap_i64, i64_max, if◌then◌else◌,
}
use servr.Core.Chrono.{Chrono}

-- `i64::try_from(epoch.elapsed().as_millis()).unwrap_or(i64::MAX)`
unfoldable pub elapsed_since : ℕ → ℕ → ℤ
elapsed_since epoch instant = pos (min ((instant - epoch) / 1000000) i64_max)

module _ (chrono : Chrono) where
  open chrono use {DateTime, plus}

  pub record Clock : Type 0 where
    pub epoch : ℕ
    pub epoch_wall : DateTime
    pub offset_ms : ℤ
    pub frozen : Bool
    pub frozen_elapsed_ms : ℤ

  unfoldable pub running_elapsed_ms : Clock → ℕ → ℤ
  running_elapsed_ms c instant = elapsed_since c.epoch instant

  unfoldable pub elapsed_ms : Clock → ℕ → ℤ
  unfolding running_elapsed_ms
  elapsed_ms c instant = if c.frozen then c.frozen_elapsed_ms else running_elapsed_ms c instant

  unfoldable pub now : Clock → ℕ → DateTime
  unfolding elapsed_ms
  now c instant = plus c.epoch_wall (wrap_i64 (elapsed_ms c instant +ℤ c.offset_ms))

  -- `ms` is `d.as_millis()`; `fetch_add` wraps.
  unfoldable pub advance : Clock → ℕ → Clock
  advance c ms = record c { offset_ms = wrap_i64 (c.offset_ms +ℤ pos (min ms i64_max)) }

  unfoldable pub freeze : Clock → ℕ → Clock
  unfolding running_elapsed_ms
  freeze c instant = record c { frozen_elapsed_ms = running_elapsed_ms c instant; frozen = true }

  unfoldable pub resume : Clock → ℕ → Clock
  unfolding running_elapsed_ms
  resume c instant =
      if c.frozen
      then record c {
        frozen = false;
        offset_ms =
            wrap_i64
              (c.offset_ms -ℤ wrap_i64 (running_elapsed_ms c instant -ℤ c.frozen_elapsed_ms));
      }
      else c

  unfoldable pub reset : Clock → Clock
  reset c = record c { offset_ms = pos 0; frozen = false; frozen_elapsed_ms = pos 0 }

  unfoldable pub new : ℕ → DateTime → Clock
  new instant wall = record {
    epoch = instant;
    epoch_wall = wall;
    offset_ms = pos 0;
    frozen = false;
    frozen_elapsed_ms = pos 0;
  }

  -- Two readings of the monotonic clock: for the epoch, and in `freeze`.
  unfoldable pub frozen_at : DateTime → ℕ → ℕ → Clock
  unfolding freeze
  frozen_at at instant later = freeze clock later
    where
      clock : Clock
      clock = record {
        epoch = instant;
        epoch_wall = at;
        offset_ms = pos 0;
        frozen = true;
        frozen_elapsed_ms = pos 0;
      }

  unfoldable pub restore : ℤ → Bool → ℕ → ℕ → DateTime → Clock
  unfolding new freeze
  restore offset frozen instant later wall = if frozen then freeze clock later else clock
    where
      clock : Clock
      clock = record (new instant wall) { offset_ms = offset }
