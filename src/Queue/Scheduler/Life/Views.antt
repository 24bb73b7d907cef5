-- ===== src/Queue/Scheduler/Life/Views.antt =====
-- Many passes, and what they make of one job.
use servr.Common.{ℕ, ◌≡◌, refl, ap, ◌∙◌, Option, List, [], ◌∷◌}
use servr.Core.Chrono.{Chrono}
use servr.Queue.Job.{Job}
use servr.Queue.Store.{JobStore, Contract}
use servr.Queue.Scheduler.{Messages, Handlers, Readings, World, tick}
use servr.Queue.Scheduler.Tick.{tick_view, tick_lem}

module _ (chrono : Chrono) (Payload : Type 0) where
  open chrono use {DateTime}

  -- A pass: when it happens, and what the clock shows while each job runs.
  abbrev pub Tick : Type 0
  Tick = DateTime × (Job chrono Payload → Readings chrono Payload)

  module _ (messages : Messages) (handlers : Handlers chrono Payload)
      (store : JobStore chrono Payload) where
    unfoldable pub run_ticks :
        World chrono Payload messages handlers store
        → List Tick
        → World chrono Payload messages handlers store
    run_ticks w [] = w
    run_ticks w ((now, readings) ∷ ts) =
        run_ticks (tick chrono Payload messages handlers store w now readings) ts

    module _ {IsStore : store.Store → Type 0} {view : store.Store → ℕ → Option (Job chrono Payload)}
        (contract : Contract chrono Payload store IsStore view) where
      abbrev pub one_tick :
          DateTime
          → (Job chrono Payload → Readings chrono Payload)
          → Option (Job chrono Payload)
          → Option (Job chrono Payload)
      one_tick = tick_view chrono Payload messages handlers store contract

      abbrev pub ticks_view : List Tick → Option (Job chrono Payload) → Option (Job chrono Payload)
      ticks_view [] v = v
      ticks_view ((now, readings) ∷ ts) v = ticks_view ts (one_tick now readings v)

      pub run_ticks_view :
          (w : World chrono Payload messages handlers store) (ts : List Tick) (k : ℕ)
          → IsStore w.jobs
          → view (run_ticks w ts).jobs k ≡ ticks_view ts (view w.jobs k)
      unfolding run_ticks
      run_ticks_view w [] k s = refl
      run_ticks_view w ((now, readings) ∷ ts) k s =
          let (js, e, d, es, s', same) =
            tick_lem chrono Payload messages handlers store contract w now readings s in
          run_ticks_view (tick chrono Payload messages handlers store w now readings) ts k s'
          ∙ ap (ticks_view ts) (same k)
