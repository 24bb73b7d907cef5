-- ===== src/Core/State/Threads.antt =====
-- Concurrent calls of `mutate` and `reset`, in the steps of the source: take the write lock, load
-- the overlay and apply the change to a copy, publish the resolution, publish the overlay, release.
-- Readers take no lock and see the shared cells between any two steps.
use servr.Common.{◌≡◌, refl, ap, subst, List, [], ◌∷◌}
use servr.Core.Float.{Float}
use servr.Core.Chrono.{Chrono}
use servr.Core.Config.{Scenario, Overlay, Resolved, default_overlay}
use servr.Core.State.{resolve}

module _ (float : Float) (chrono : Chrono) where
  abbrev pub Change : Type 0
  Change = Overlay float → Overlay float

  -- What the holder of the lock has done so far.
  pub data Phase : Type 0 where
    free : Phase
    entered : Change → Phase
    loaded : Overlay float → Phase
    published : Overlay float → Phase
    finished : Phase

  -- `done` lists the changes of the writers in the order in which they took the lock, newest first.
  pub record Shared : Type 0 where
    pub overlay : Overlay float
    pub resolved : Resolved float
    pub phase : Phase
    pub done : List Change

  -- The changes one after another, on the empty overlay.
  unfoldable pub replay : List Change → Overlay float
  replay [] = default_overlay float
  replay (f ∷ fs) = f (replay fs)

  module _ (base : Scenario float) where
    pub data Step : Shared → Shared → Type 0 where
      lock :
          (s : Shared) (f : Change)
          → s.phase ≡ free
          → Step s (record s { phase = entered f; done = f ∷ s.done })
      load :
          (s : Shared) (f : Change)
          → s.phase ≡ entered f
          → Step s (record s { phase = loaded (f s.overlay) })
      store_resolved :
          (s : Shared) (next : Overlay float)
          → s.phase ≡ loaded next
          → Step s (record s { phase = published next; resolved = resolve float chrono base next })
      store_overlay :
          (s : Shared) (next : Overlay float)
          → s.phase ≡ published next
          → Step s (record s { phase = finished; overlay = next })
      unlock : (s : Shared) → s.phase ≡ finished → Step s (record s { phase = free })

    pub data Reach : Shared → Shared → Type 0 where
      here : (s : Shared) → Reach s s
      next : {s t u : Shared} → Reach s t → Step t u → Reach s u

    unfoldable pub boot : Shared
    boot = record {
      overlay = default_overlay float;
      resolved = resolve float chrono base (default_overlay float);
      phase = free;
      done = [];
    }

    abbrev pub Cells : Overlay float → Resolved float → List Change → List Change → Type 0
    Cells o r fs gs = (o ≡ replay fs) × (r ≡ resolve float chrono base (replay gs))

    -- The cells, by what the lock's holder has done: they hold the changes in lock order, the last
    -- one missing from a cell that its writer has not stored yet.
    abbrev pub InPhase : Overlay float → Resolved float → Phase → List Change → Type 0
    InPhase o r free fs = Cells o r fs fs
    InPhase o r finished fs = Cells o r fs fs
    InPhase o r (entered f) [] = ⊥
    InPhase o r (entered f) (g ∷ fs) = (f ≡ g) × Cells o r fs fs
    InPhase o r (loaded n) [] = ⊥
    InPhase o r (loaded n) (g ∷ fs) = (n ≡ g (replay fs)) × Cells o r fs fs
    InPhase o r (published n) [] = ⊥
    InPhase o r (published n) (g ∷ fs) = (n ≡ g (replay fs)) × Cells o r fs (g ∷ fs)

    load-InPhase :
        (o : Overlay float) (r : Resolved float) (f : Change) (fs : List Change)
        → InPhase o r (entered f) fs
        → InPhase o r (loaded (f o)) fs
    load-InPhase o r f [] i = i
    load-InPhase o r f (g ∷ fs) (e, (a, b)) = (λ i. e i (a i), (a, b))

    store_resolved-InPhase :
        (o : Overlay float) (r : Resolved float) (n : Overlay float) (fs : List Change)
        → InPhase o r (loaded n) fs
        → InPhase o (resolve float chrono base n) (published n) fs
    unfolding replay
    store_resolved-InPhase o r n [] i = i
    store_resolved-InPhase o r n (g ∷ fs) (e, (a, b)) = (e, (a, ap (resolve float chrono base) e))

    store_overlay-InPhase :
        (o : Overlay float) (r : Resolved float) (n : Overlay float) (fs : List Change)
        → InPhase o r (published n) fs
        → InPhase n r finished fs
    unfolding replay
    store_overlay-InPhase o r n [] i = absurd i
    store_overlay-InPhase o r n (g ∷ fs) (e, (a, b)) = (e, b)

    abbrev pub Inv : Shared → Type 0
    Inv s = InPhase s.overlay s.resolved s.phase s.done

    at_phase :
        (s : Shared) {p : Phase} → s.phase ≡ p → Inv s → InPhase s.overlay s.resolved p s.done
    at_phase s e i = subst (λ q. InPhase s.overlay s.resolved q s.done) e i

    Step-Inv : {s t : Shared} → Step s t → Inv s → Inv t
    Step-Inv (lock s f e) i = (refl, at_phase s e i)
    Step-Inv (load s f e) i = load-InPhase s.overlay s.resolved f s.done (at_phase s e i)
    Step-Inv (store_resolved s n e) i =
        store_resolved-InPhase s.overlay s.resolved n s.done (at_phase s e i)
    Step-Inv (store_overlay s n e) i =
        store_overlay-InPhase s.overlay s.resolved n s.done (at_phase s e i)
    Step-Inv (unlock s e) i = at_phase s e i

    Reach-Inv : {s t : Shared} → Reach s t → Inv s → Inv t
    Reach-Inv (here s) i = i
    Reach-Inv (next r st) i = Step-Inv st (Reach-Inv r i)

    boot-Inv : Inv boot
    unfolding boot replay
    boot-Inv = (refl, refl)

    -- In every interleaving, whenever the lock is free the overlay holds the changes of all writers
    -- so far, one after another in lock order, and the published configuration resolves it: no
    -- write is lost.
    pub no_lost_write :
        (s : Shared)
        → Reach boot s
        → s.phase ≡ free
        → (s.overlay ≡ replay s.done) × (s.resolved ≡ resolve float chrono base (replay s.done))
    no_lost_write s r e = at_phase s e (Reach-Inv r boot-Inv)

    -- The configuration after the changes `fs`, or after all of them but the newest.
    pub data Sees (r : Resolved float) (fs : List Change) : Type 0 where
      latest : r ≡ resolve float chrono base (replay fs) → Sees r fs
      previous :
          (g : Change) (gs : List Change)
          → fs ≡ g ∷ gs
          → r ≡ resolve float chrono base (replay gs)
          → Sees r fs

    InPhase-Sees :
        (o : Overlay float) (r : Resolved float) (p : Phase) (fs : List Change)
        → InPhase o r p fs
        → Sees r fs
    InPhase-Sees o r free fs i = latest i.1
    InPhase-Sees o r finished fs i = latest i.1
    InPhase-Sees o r (entered f) [] i = absurd i
    InPhase-Sees o r (entered f) (g ∷ fs) i = previous g fs refl (i.1).1
    InPhase-Sees o r (loaded n) [] i = absurd i
    InPhase-Sees o r (loaded n) (g ∷ fs) i = previous g fs refl (i.1).1
    InPhase-Sees o r (published n) [] i = absurd i
    InPhase-Sees o r (published n) (g ∷ fs) i = latest (i.1).1

    -- A reader that takes no lock sees, between any two steps of any interleaving, the
    -- configuration after all changes so far in lock order or after all but the newest: never a
    -- mixture, and never an older one.
    pub reader-Sees : (s : Shared) → Reach boot s → Sees s.resolved s.done
    reader-Sees s r = InPhase-Sees s.overlay s.resolved s.phase s.done (Reach-Inv r boot-Inv)
