-- ===== src/Core/Clock/Flow.antt =====
-- What a clock shows, against a plain account of virtual time: it runs with the monotonic clock
-- unless it is stopped, and an advance adds to it.
use servr.Common.{
  ℕ, ◌≤◌, ◌≡◌, refl, Bool, true, false, List, [], ◌∷◌, ℤ, pos, ◌+ℤ◌, ◌-ℤ◌, inl, inr, wrap_i64,
  wrap_i64-FitsI64, FitsI64, i64_max, min, if◌then◌else◌, int_laws, arith, Bool-cases, ap, sym, ◌∙◌,
  subst,
}
use servr.Core.Chrono.{Chrono}
use servr.Core.Clock.{Clock, now, advance, freeze, resume, elapsed_since, running_elapsed_ms}

-- The calls of the control plane that move a running process's clock.
pub data Call : Type 0 where
  advances : ℕ → Call
  freezes resumes : Call

-- Virtual time in milliseconds: what it was (`at`) at an elapsed real time (`seen`).
pub record Flow : Type 0 where
  pub at : ℤ
  pub seen : ℤ
  pub stopped : Bool

unfoldable pub flow_from : Bool → ℤ → ℤ → ℤ → ℤ
flow_from true at seen elapsed = at
flow_from false at seen elapsed = at +ℤ (elapsed -ℤ seen)

unfoldable pub flow_at : Flow → ℤ → ℤ
unfolding flow_from
flow_at f elapsed = flow_from f.stopped f.at f.seen elapsed

unfoldable pub flow_step : Flow → ℤ → Call → Flow
flow_step f elapsed (advances ms) = record f { at = flow_at f elapsed +ℤ pos ms; seen = elapsed }
flow_step f elapsed freezes = record { at = flow_at f elapsed; seen = elapsed; stopped = true }
flow_step f elapsed resumes = record { at = flow_at f elapsed; seen = elapsed; stopped = false }

-- The flow over the calls made at instants, from a clock's epoch.
unfoldable pub flow_run : ℕ → Flow → List (ℕ × Call) → Flow
flow_run epoch f [] = f
flow_run epoch f ((instant, k) ∷ calls) =
    flow_run epoch (flow_step f (elapsed_since epoch instant) k) calls

flow_from-advance :
    (stopped : Bool) (at seen e e' n : ℤ)
    → flow_from stopped (flow_from stopped at seen e +ℤ n) e e' ≡ flow_from stopped at seen e' +ℤ n
unfolding flow_from
flow_from-advance true at seen e e' n = refl
flow_from-advance false at seen e e' n = omega int_laws

resume_offset :
    (o x e el : ℤ)
    → FitsI64 (el -ℤ x)
    → FitsI64 (o -ℤ (el -ℤ x))
    → e +ℤ wrap_i64 (o -ℤ wrap_i64 (el -ℤ x)) ≡ x +ℤ o +ℤ (e -ℤ el)
resume_offset o x e el h k =
    rw (wrap_i64-FitsI64 (el -ℤ x) h) (rw (wrap_i64-FitsI64 (o -ℤ (el -ℤ x)) k) (omega int_laws))

module _ (chrono : Chrono) where
  open chrono use {plus}

  abbrev pub elapsed : Clock chrono → ℕ → ℤ
  elapsed c instant = running_elapsed_ms chrono c instant

  unfoldable pub call : Clock chrono → ℕ → Call → Clock chrono
  call c instant (advances ms) = advance chrono c ms
  call c instant freezes = freeze chrono c instant
  call c instant resumes = resume chrono c instant

  -- A call meets its conditions: no `i64` wraps, and a freeze finds the clock running.
  abbrev pub Proper : Clock chrono → ℕ → Call → Type 0
  Proper c instant (advances ms) = (ms ≤ i64_max) × FitsI64 (c.offset_ms +ℤ pos ms)
  Proper c instant freezes = c.frozen ≡ false
  Proper c instant resumes =
      FitsI64 (elapsed c instant -ℤ c.frozen_elapsed_ms)
      × FitsI64 (c.offset_ms -ℤ (elapsed c instant -ℤ c.frozen_elapsed_ms))

  -- What the clock shows when the monotonic clock has run for `e` milliseconds.
  abbrev pub shown : Clock chrono → ℤ → ℤ
  shown c e = (if c.frozen then c.frozen_elapsed_ms else e) +ℤ c.offset_ms

  pub record Tracks (c : Clock chrono) (f : Flow) : Type 0 where
    pub frozen_iff : c.frozen ≡ f.stopped
    pub same : (e : ℤ) → shown c e ≡ flow_at f e

  shown-advance :
      (c : Clock chrono) (instant ms : ℕ) (e : ℤ)
      → Proper c instant (advances ms)
      → shown (advance chrono c ms) e ≡ shown c e +ℤ pos ms
  unfolding advance
  shown-advance c instant ms e (hm, h) =
      let least : min ms i64_max ≡ ms = omega arith in
      rw least (rw (wrap_i64-FitsI64 _ h) (omega int_laws))

  -- Resuming rolls the time spent frozen into the offset.
  shown-resume :
      (c : Clock chrono) (instant : ℕ) (e : ℤ)
      → Proper c instant resumes
      → shown (resume chrono c instant) e
        ≡ (if c.frozen then shown c e +ℤ (e -ℤ elapsed c instant) else shown c e)
  unfolding resume
  shown-resume c instant e (h, k) = elim (Bool-cases c.frozen) [
    | inl z ↦ rw z (resume_offset c.offset_ms c.frozen_elapsed_ms e (elapsed c instant) h k)
    | inr z ↦ rw z refl
  ]

  call-Tracks :
      (c : Clock chrono) (f : Flow) (instant : ℕ) (k : Call)
      → Proper c instant k
      → Tracks c f
      → Tracks (call c instant k) (flow_step f (elapsed c instant) k)
  unfolding call flow_step flow_at
  call-Tracks c f instant (advances ms) p t = record {
    frozen_iff = unfold advance in t.frozen_iff;
    same = λ e.
        shown-advance c instant ms e p
        ∙ ap (λ n. n +ℤ pos ms) (t.same e)
        ∙ sym (flow_from-advance f.stopped f.at f.seen (elapsed c instant) e (pos ms));
  }
  call-Tracks c f instant freezes p t = record {
    frozen_iff = unfold freeze in refl;
    same = λ e. rw (← t.same (elapsed c instant)) (unfold freeze in rw p refl);
  }
  call-Tracks c f instant resumes p t = record {
    frozen_iff = unfold resume in ground arith;
    same = λ e. shown-resume c instant e p ∙ onward e;
  }
    where
      onward :
          (e : ℤ)
          → (if c.frozen then shown c e +ℤ (e -ℤ elapsed c instant) else shown c e)
            ≡ flow_at f (elapsed c instant) +ℤ (e -ℤ elapsed c instant)
      onward e =
          rw (← t.same (elapsed c instant))
            (elim (Bool-cases c.frozen) [ inl z ↦ rw z refl | inr z ↦ rw z (omega int_laws) ])

  call_epoch : (c : Clock chrono) (instant : ℕ) (k : Call) → (call c instant k).epoch ≡ c.epoch
  unfolding call advance freeze resume
  call_epoch c instant (advances ms) = refl
  call_epoch c instant freezes = refl
  call_epoch c instant resumes = ground arith

  call_epoch_wall :
      (c : Clock chrono) (instant : ℕ) (k : Call) → (call c instant k).epoch_wall ≡ c.epoch_wall
  unfolding call advance freeze resume
  call_epoch_wall c instant (advances ms) = refl
  call_epoch_wall c instant freezes = refl
  call_epoch_wall c instant resumes = ground arith

  unfoldable pub run : Clock chrono → List (ℕ × Call) → Clock chrono
  unfolding call
  run c [] = c
  run c ((instant, k) ∷ calls) = run (call c instant k) calls

  abbrev pub AllProper : Clock chrono → List (ℕ × Call) → Type 0
  AllProper c [] = Unit
  AllProper c ((instant, k) ∷ calls) = Proper c instant k × AllProper (call c instant k) calls

  run-Tracks :
      (epoch : ℕ) (c : Clock chrono) (f : Flow) (calls : List (ℕ × Call))
      → c.epoch ≡ epoch
      → AllProper c calls
      → Tracks c f
      → Tracks (run c calls) (flow_run epoch f calls)
  unfolding run flow_run
  run-Tracks epoch c f [] e p t = t
  run-Tracks epoch c f ((instant, k) ∷ calls) e p t =
      run-Tracks epoch (call c instant k) _ calls (call_epoch c instant k ∙ e) p.1 (
        subst (λ n. Tracks (call c instant k) (flow_step f (elapsed_since n instant) k)) e
          (unfold running_elapsed_ms in call-Tracks c f instant k p.0 t))

  run_epoch :
      (c : Clock chrono) (calls : List (ℕ × Call))
      → ((run c calls).epoch ≡ c.epoch) × ((run c calls).epoch_wall ≡ c.epoch_wall)
  unfolding run
  run_epoch c [] = (refl, refl)
  run_epoch c ((instant, k) ∷ calls) =
      let (a, b) = run_epoch (call c instant k) calls in
      (a ∙ call_epoch c instant k, b ∙ call_epoch_wall c instant k)

  -- The flow of a clock that shows `shown c (pos 0)` at its epoch.
  abbrev pub flow_of : Clock chrono → Flow
  flow_of c = record { at = shown c (pos 0); seen = pos 0; stopped = c.frozen }

  flow_of-Tracks : (c : Clock chrono) → Tracks c (flow_of c)
  unfolding flow_at
  flow_of-Tracks c = record { frozen_iff = refl; same = λ e. start e }
    where
      start : (e : ℤ) → shown c e ≡ flow_from c.frozen (shown c (pos 0)) (pos 0) e
      start e = elim (Bool-cases c.frozen) [ inl z ↦ rw z refl | inr z ↦ rw z (omega int_laws) ]

  -- After any calls of advance, freeze and resume that wrap no `i64` and freeze only a running
  -- clock, the clock shows its epoch moved by the flow of virtual time: real time while it is not
  -- stopped, and every advance.
  pub now-run :
      (c : Clock chrono) (calls : List (ℕ × Call)) (instant : ℕ)
      → AllProper c calls
      → FitsI64 (flow_at (flow_run c.epoch (flow_of c) calls) (elapsed_since c.epoch instant))
      → now chrono (run c calls) instant
        ≡ plus c.epoch_wall
            (flow_at (flow_run c.epoch (flow_of c) calls) (elapsed_since c.epoch instant))
  unfolding now running_elapsed_ms
  now-run c calls instant p fits =
      let t = run-Tracks c.epoch c (flow_of c) calls refl p (flow_of-Tracks c) in
      let (a, b) = run_epoch c calls in
      rw (a, b)
        (ap (plus c.epoch_wall)
          (ap wrap_i64 (t.same (elapsed_since c.epoch instant)) ∙ wrap_i64-FitsI64 _ fits))
