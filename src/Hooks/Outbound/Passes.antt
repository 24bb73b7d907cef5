-- ===== src/Hooks/Outbound/Passes.antt =====
-- What passes of the webhook sender (crates/hooks/src/outbound.rs) make of each delivery.
use servr.Common.{
  ℕ, ◌≡◌, refl, ap, ◌∙◌, Option, none, some, List, [], ◌∷◌, select, ◌==◌, if◌then◌else◌, arith,
}
use servr.Core.Chrono.{Chrono}
use servr.Hooks.Sign.{Crypto}
use servr.Hooks.Outbound.{
  Json, Delivery, Sender, Readings, begin, deliver, settle, replace, attempt, attempt_all, is_due,
  tick,
}

module _ (chrono : Chrono) (crypto : Crypto chrono) (json : Json) where
  open chrono use {DateTime}

  abbrev D : Type 0
  D = Delivery chrono crypto json

  abbrev pub find_delivery : ℕ → List D → Option D
  find_delivery k [] = none
  find_delivery k (d ∷ ds) = if d.id == k then some d else find_delivery k ds

  -- No two deliveries have one id.
  abbrev pub AreDistinct : List D → Type 0
  AreDistinct [] = Unit
  AreDistinct (d ∷ ds) = (find_delivery d.id ds ≡ none) × AreDistinct ds

  -- The delivery that an attempt leaves in the queue.
  unfoldable pub attempted : D → Readings chrono crypto json → D
  attempted d r =
      let started = begin chrono crypto json d in
      (settle chrono crypto json started (deliver chrono crypto json started r).1).0

  attempted_id : (d : D) (r : Readings chrono crypto json) → (attempted d r).id ≡ d.id
  unfolding attempted settle begin
  attempted_id d r = ground arith

  find-replace :
      (k : ℕ) (d : D) (ds : List D)
      → find_delivery k (replace chrono crypto json ds d)
        ≡ elim (find_delivery k ds) [ none ↦ none | some x ↦ if d.id == k then some d else some x ]
  unfolding replace
  find-replace k d [] = refl
  find-replace k d (x ∷ xs) = ground (arith, find-replace k d xs)

  find_id : (k : ℕ) (d : D) (ds : List D) → find_delivery k ds ≡ some d → d.id ≡ k
  find_id k d [] e = cc
  find_id k d (x ∷ xs) e = ground (arith, find_id k d xs)

  -- What a batch of attempts makes of what the queue holds under an id.
  abbrev after : (D → Readings chrono crypto json) → Option D → Option D → Option D
  after readings none old = old
  after readings (some d) none = none
  after readings (some d) (some x) = some (attempted d (readings d))

  attempt_queue :
      (s : Sender chrono crypto json) (d : D) (r : Readings chrono crypto json)
      → (attempt chrono crypto json s d r).queue
        ≡ replace chrono crypto json s.queue (attempted d r)
  unfolding attempt attempted
  attempt_queue s d r = refl

  attempt_all_find :
      (ds : List D) (s : Sender chrono crypto json) (readings : D → Readings chrono crypto json)
      (k : ℕ)
      → AreDistinct ds
      → find_delivery k (attempt_all chrono crypto json s ds readings).queue
        ≡ after readings (find_delivery k ds) (find_delivery k s.queue)
  unfolding attempt_all
  attempt_all_find [] s readings k h = refl
  attempt_all_find (d ∷ ds) s readings k h =
      attempt_all_find ds (attempt chrono crypto json s d (readings d)) readings k h.1
      ∙ ground (
        arith,
        attempt_queue s d (readings d),
        attempted_id d (readings d),
        find-replace k (attempted d (readings d)) s.queue,
      )

  abbrev keep : DateTime → Option D → Option D
  keep now none = none
  keep now (some d) = if is_due chrono crypto json now d then some d else none

  find-none-select :
      (now : DateTime) (k : ℕ) (ds : List D)
      → find_delivery k ds ≡ none
      → find_delivery k (select (is_due chrono crypto json now) ds) ≡ none
  find-none-select now k [] h = refl
  find-none-select now k (d ∷ ds) h = ground (arith, find-none-select now k ds)

  find-select :
      (now : DateTime) (k : ℕ) (ds : List D)
      → AreDistinct ds
      → find_delivery k (select (is_due chrono crypto json now) ds) ≡ keep now (find_delivery k ds)
  find-select now k [] h = refl
  find-select now k (d ∷ ds) h = ground (arith, find-select now k ds h.1, find-none-select now k ds)

  select-AreDistinct :
      (now : DateTime) (ds : List D)
      → AreDistinct ds
      → AreDistinct (select (is_due chrono crypto json now) ds)
  select-AreDistinct now [] h = tt
  select-AreDistinct now (d ∷ ds) h =
      ground (arith, select-AreDistinct now ds h.1, find-none-select now d.id ds h.0)

  -- What a pass makes of a delivery.
  unfoldable pub passed : DateTime → (D → Readings chrono crypto json) → D → D
  passed now readings d = if is_due chrono crypto json now d then attempted d (readings d) else d

  abbrev pub map_option {ℓ κ} : {A : Type ℓ} {B : Type κ} → (A → B) → Option A → Option B
  map_option f none = none
  map_option f (some a) = some (f a)

  after-keep :
      (now : DateTime) (readings : D → Readings chrono crypto json) (o : Option D)
      → after readings (keep now o) o ≡ map_option (passed now readings) o
  unfolding passed
  after-keep now readings none = refl
  after-keep now readings (some d) = ground arith

  -- In a queue of distinct ids, a pass attempts each delivery that is due once, leaves the
  -- others as they are, and loses none.
  pub tick_find :
      (s : Sender chrono crypto json) (now : DateTime) (readings : D → Readings chrono crypto json)
      (k : ℕ)
      → AreDistinct s.queue
      → find_delivery k (tick chrono crypto json s now readings).queue
        ≡ map_option (passed now readings) (find_delivery k s.queue)
  unfolding tick
  tick_find s now readings k h =
      let due = select (is_due chrono crypto json now) s.queue in
      attempt_all_find due s readings k (select-AreDistinct now s.queue h)
      ∙ ap (λ o. after readings o (find_delivery k s.queue)) (find-select now k s.queue h)
      ∙ after-keep now readings (find_delivery k s.queue)

  replace-AreDistinct :
      (d : D) (ds : List D) → AreDistinct ds → AreDistinct (replace chrono crypto json ds d)
  unfolding replace
  replace-AreDistinct d [] h = tt
  replace-AreDistinct d (x ∷ xs) h =
      ground (arith, replace-AreDistinct d xs h.1, find-replace x.id d xs)

  attempt_all-AreDistinct :
      (ds : List D) (s : Sender chrono crypto json) (readings : D → Readings chrono crypto json)
      → AreDistinct s.queue
      → AreDistinct (attempt_all chrono crypto json s ds readings).queue
  unfolding attempt_all
  attempt_all-AreDistinct [] s readings h = h
  attempt_all-AreDistinct (d ∷ ds) s readings h =
      attempt_all-AreDistinct ds (attempt chrono crypto json s d (readings d)) readings (
        rw (attempt_queue s d (readings d))
          (replace-AreDistinct (attempted d (readings d)) s.queue h))

  pub tick-AreDistinct :
      (s : Sender chrono crypto json) (now : DateTime) (readings : D → Readings chrono crypto json)
      → AreDistinct s.queue
      → AreDistinct (tick chrono crypto json s now readings).queue
  unfolding tick
  tick-AreDistinct s now readings h =
      attempt_all-AreDistinct (select (is_due chrono crypto json now) s.queue) s readings h
