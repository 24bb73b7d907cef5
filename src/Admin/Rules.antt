-- ===== src/Admin/Rules.antt =====
-- What a sequence of operator's requests of crates/admin/src/lib.rs leaves in force, and what two
-- concurrent ones do.
use servr.Common.{ℕ, ◌≡◌, refl, ap, ◌∙◌, sym, some, List, [], ◌∷◌, ◌++◌, append_assoc}
use servr.Core.Float.{Float}
use servr.Core.Chrono.{Chrono}
use servr.Core.Clock.{Clock}
use servr.Core.Fault.{FaultSpec, TelemetryFault, default_telemetry}
use servr.Core.Config.{Scenario, Overlay, Resolved, default_overlay}
use servr.Core.State.{State, resolve, new, mutate, reset as reset_state}
use servr.Core.State.Reset.{Consistent, run_calls-new-Consistent, run_calls}
use servr.Admin.Control.{
  Request, get_health, get_clock, get_faults, get_telemetry_faults, post_reset, post_freeze,
  post_resume, post_advance, post_fault, post_telemetry_faults, delete_faults,
  delete_telemetry_faults, Readings, handle, handle_all, health, clock, list_faults,
  telemetry_faults, reset, freeze, resume, advance, add_fault, set_telemetry_faults, clear_faults,
  clear_telemetry_faults, pushed, put_faults,
}

module _ (float : Float) (chrono : Chrono) where
  -- What the operator means to be in force after a request, given the boot scenario.
  abbrev pub intended : Scenario float → Resolved float → Request float chrono → Resolved float
  intended base c get_health = c
  intended base c get_clock = c
  intended base c get_faults = c
  intended base c get_telemetry_faults = c
  intended base c post_reset = record {
    faults = base.faults;
    telemetry = base.telemetry;
    webhooks = base.webhooks;
  }
  intended base c post_freeze = c
  intended base c post_resume = c
  intended base c (post_advance ms) = c
  intended base c (post_fault spec) = record c { faults = c.faults ++ spec ∷ [] }
  intended base c (post_telemetry_faults fault) = record c { telemetry = fault }
  intended base c delete_faults = record c { faults = [] }
  intended base c delete_telemetry_faults = record c { telemetry = default_telemetry float }

  abbrev pub intended_all :
      Scenario float
      → Resolved float
      → List (Request float chrono × Readings float chrono)
      → Resolved float
  intended_all base c [] = c
  intended_all base c ((q, r) ∷ qs) = intended_all base (intended base c q) qs

  -- A change of the overlay publishes what it and the boot scenario resolve to.
  changed-Consistent :
      (base : Scenario float) (s : State float chrono) (f : Overlay float → Overlay float)
      → Consistent float chrono base s
      → Consistent float chrono base (mutate float chrono s f)
  unfolding mutate
  changed-Consistent base s f h = record {
    same_base = h.same_base;
    published = ap (λ b. resolve float chrono b (f s.overlay)) h.same_base;
  }

  resolve-faults :
      (base : Scenario float) (s : State float chrono) (faults : List (FaultSpec float))
      → Consistent float chrono base s
      → resolve float chrono s.base (record s.overlay { faults = some faults })
        ≡ record s.resolved { faults = faults }
  unfolding resolve
  resolve-faults base s faults h =
      ap (λ b. resolve float chrono b (record s.overlay { faults = some faults })) h.same_base
      ∙ ap (λ (c : Resolved float). record c { faults = faults }) (sym h.published)

  resolve-telemetry :
      (base : Scenario float) (s : State float chrono) (fault : TelemetryFault float)
      → Consistent float chrono base s
      → resolve float chrono s.base (record s.overlay { telemetry = some fault })
        ≡ record s.resolved { telemetry = fault }
  unfolding resolve
  resolve-telemetry base s fault h =
      ap (λ b. resolve float chrono b (record s.overlay { telemetry = some fault })) h.same_base
      ∙ ap (λ (c : Resolved float). record c { telemetry = fault }) (sym h.published)

  handle_lem :
      (base : Scenario float) (s : State float chrono) (q : Request float chrono)
      (r : Readings float chrono)
      → Consistent float chrono base s
      → Consistent float chrono base (handle float chrono s q r).0
        × ((handle float chrono s q r).0.resolved ≡ intended base s.resolved q)
  unfolding handle health clock list_faults telemetry_faults reset freeze resume advance add_fault
      set_telemetry_faults clear_faults clear_telemetry_faults pushed put_faults mutate reset_state
      resolve default_overlay
  handle_lem base s get_health r h = (h, refl)
  handle_lem base s get_clock r h = (h, refl)
  handle_lem base s get_faults r h = (h, refl)
  handle_lem base s get_telemetry_faults r h = (h, refl)
  handle_lem base s post_freeze r h =
      (record { same_base = h.same_base; published = h.published }, refl)
  handle_lem base s post_resume r h =
      (record { same_base = h.same_base; published = h.published }, refl)
  handle_lem base s (post_advance ms) r h =
      (record { same_base = h.same_base; published = h.published }, refl)
  handle_lem base s post_reset r h =
      let published = ap (λ b. resolve float chrono b (default_overlay float)) h.same_base in
      (record { same_base = h.same_base; published = published }, published)
  handle_lem base s (post_fault spec) r h =
      let faults = s.resolved.faults ++ spec ∷ [] in
      (
        changed-Consistent base s (λ o. record o { faults = some faults }) h,
        resolve-faults base s faults h,
      )
  handle_lem base s (post_telemetry_faults fault) r h = (
    changed-Consistent base s (λ o. record o { telemetry = some fault }) h,
    resolve-telemetry base s fault h,
  )
  handle_lem base s delete_faults r h =
      (changed-Consistent base s (λ o. record o { faults = some [] }) h, resolve-faults base s [] h)
  handle_lem base s delete_telemetry_faults r h =
      let fault = default_telemetry float in
      (
        changed-Consistent base s (λ o. record o { telemetry = some fault }) h,
        resolve-telemetry base s fault h,
      )

  handle_all_lem :
      (base : Scenario float) (s : State float chrono)
      (qs : List (Request float chrono × Readings float chrono))
      → Consistent float chrono base s
      → (handle_all float chrono s qs).resolved ≡ intended_all base s.resolved qs
  unfolding handle_all
  handle_all_lem base s [] h = refl
  handle_all_lem base s ((q, r) ∷ qs) h =
      let next = handle_lem base s q r h in
      handle_all_lem base (handle float chrono s q r).0 qs next.0
      ∙ ap (λ (c : Resolved float). intended_all base c qs) next.1

  -- From boot on, after any requests one after another, what is in force is the scenario's rules,
  -- telemetry faults and webhooks with the changes that the requests ask for: a posted rule comes
  -- after those there are, deleting leaves no rule, telemetry faults are replaced or cleared, and a
  -- reset brings back what the scenario has.
  pub handle_all-intended :
      (base : Scenario float) (c : Clock chrono) (run : ℕ)
      (qs : List (Request float chrono × Readings float chrono))
      → (handle_all float chrono (new float chrono base c run) qs).resolved
        ≡ intended_all base
            (record { faults = base.faults; telemetry = base.telemetry; webhooks = base.webhooks })
            qs
  unfolding new resolve default_overlay run_calls
  handle_all-intended base c run qs =
      handle_all_lem base (new float chrono base c run) qs
        (run_calls-new-Consistent float chrono base c run [])

  -- Two rules posted one after the other are both in force, after those there were. Posted at once,
  -- where both handlers read the rules in force before either writes its own, the first writer's
  -- rule is lost.
  pub add_fault_lost :
      (s : State float chrono) (first second : FaultSpec float)
      → let read_first = pushed float chrono s first in
        let read_second = pushed float chrono s second in
        let one_by_one = (add_fault float chrono (add_fault float chrono s first).0 second).0 in
        let at_once = put_faults float chrono (put_faults float chrono s read_first) read_second in
        (one_by_one.resolved.faults ≡ s.resolved.faults ++ (first ∷ second ∷ []))
        × (at_once.resolved.faults ≡ s.resolved.faults ++ (second ∷ []))
  unfolding add_fault pushed put_faults mutate resolve
  add_fault_lost s first second = (append_assoc s.resolved.faults (first ∷ []) (second ∷ []), refl)
