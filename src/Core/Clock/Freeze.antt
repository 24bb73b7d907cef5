-- ===== src/Core/Clock/Freeze.antt =====
-- The corners of the clock: a freeze of a frozen clock, `reset`, and `restore`.
use servr.Common.{
  ℕ, ◌≡◌, true, false, ℤ, pos, ◌+ℤ◌, ◌≤ℤ◌, wrap_i64-FitsI64, FitsI64, leb_ℤ, arith, +ℤ_parts,
  int_laws, ap, ◌∙◌,
}
use servr.Core.Chrono.{Chrono, milliseconds_plus_zero}
use servr.Core.Clock.{Clock, now, freeze, reset, elapsed_since}

leb_ℤ-false : (a b o : ℤ) → a +ℤ pos 1 ≤ℤ b → leb_ℤ (b +ℤ o) (a +ℤ o) ≡ false
leb_ℤ-false a b o h = ground (arith, +ℤ_parts a o, +ℤ_parts b o, +ℤ_parts a (pos 1))

module _ (chrono : Chrono) where
  open chrono use {DateTime, plus, le, le-plus}

  now-frozen :
      (c : Clock chrono) (instant : ℕ)
      → c.frozen ≡ true
      → FitsI64 (c.frozen_elapsed_ms +ℤ c.offset_ms)
      → now chrono c instant ≡ plus c.epoch_wall (c.frozen_elapsed_ms +ℤ c.offset_ms)
  unfolding now
  now-frozen c instant z f =
      rw (z, now) (ap (plus c.epoch_wall) (wrap_i64-FitsI64 (c.frozen_elapsed_ms +ℤ c.offset_ms) f))

  now-freeze :
      (c : Clock chrono) (instant later : ℕ)
      → FitsI64 (elapsed_since c.epoch instant +ℤ c.offset_ms)
      → now chrono (freeze chrono c instant) later
        ≡ plus c.epoch_wall (elapsed_since c.epoch instant +ℤ c.offset_ms)
  unfolding now freeze
  now-freeze c instant later f =
      ap (plus c.epoch_wall) (wrap_i64-FitsI64 (elapsed_since c.epoch instant +ℤ c.offset_ms) f)

  -- A second freeze moves a frozen clock: if real time has run for a millisecond or more since
  -- the elapsed time that it holds, and no `i64` wraps, every later reading is after every
  -- reading of the clock as it stood.
  pub freeze_again_jumps :
      (c : Clock chrono) (instant before after : ℕ)
      → c.frozen ≡ true
      → c.frozen_elapsed_ms +ℤ pos 1 ≤ℤ elapsed_since c.epoch instant
      → FitsI64 (c.frozen_elapsed_ms +ℤ c.offset_ms)
      → FitsI64 (elapsed_since c.epoch instant +ℤ c.offset_ms)
      → le (now chrono (freeze chrono c instant) after) (now chrono c before) ≡ false
  freeze_again_jumps c instant before after z h f g =
      rw (now-freeze c instant after g, now-frozen c before z f)
        (le-plus c.epoch_wall _ _ ∙ leb_ℤ-false _ _ c.offset_ms h)

  elapsed_fits : (epoch instant : ℕ) → FitsI64 (elapsed_since epoch instant +ℤ pos 0)
  unfolding elapsed_since
  elapsed_fits epoch instant =
      rw (milliseconds_plus_zero (elapsed_since epoch instant)) (omega arith)

  -- After `reset` the clock runs with real time from its epoch, whatever it was before.
  now-reset :
      (c : Clock chrono) (instant : ℕ)
      → now chrono (reset chrono c) instant ≡ plus c.epoch_wall (elapsed_since c.epoch instant)
  unfolding now reset
  now-reset c instant =
      ap (plus c.epoch_wall) (wrap_i64-FitsI64 _ (elapsed_fits c.epoch instant) ∙ omega int_laws)
