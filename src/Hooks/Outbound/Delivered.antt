-- ===== src/Hooks/Outbound/Delivered.antt =====
-- Deliveries of crates/hooks/src/outbound.rs to endpoints with a `fail_first`.
use servr.Common.{
  ℕ, suc, ◌+◌, ◌≤◌, ◌<◌, ◌≡◌, refl, sym, ap, ◌∙◌, true, false, none, some, List, [], ◌∷◌, ◌⊎◌, inl,
  inr, length, i64_max, All, arith, Bytes, leb, le→leb, subst,
}
use servr.Core.Chrono.{Chrono}
use servr.Hooks.Sign.{Crypto}
use servr.Hooks.Outbound.{
  Json, Delivery, Sender, Readings, Post, SendError, failed_first, deliver, settle, backoff,
  max_attempts, due_for, sum, is_success, answered, post, send_error_text,
}
use servr.Hooks.Outbound.Passes.{find_delivery, AreDistinct, attempted, passed}
use servr.Hooks.Outbound.Ladder.{
  Pass, IsOnLadder, run_passes, passed_all, run_passes_find, begin_lem, passed-IsOnLadder,
  due_for_mono,
}

module _ (chrono : Chrono) (crypto : Crypto chrono) (json : Json) where
  open chrono use {DateTime, le, le_trans}
  open json use {to_vec}

  abbrev D : Type 0
  D = Delivery chrono crypto json

  abbrev limit : D → ℕ
  limit = max_attempts chrono crypto json

  -- The delivery after an attempt that `fail_first` fails.
  abbrev refused : D → D
  refused d = record d {
    attempt = suc d.attempt;
    last_status = none;
    last_error = some (send_error_text (failed_first (suc d.attempt) d.endpoint.fail_first));
    due_at = due_for chrono crypto json d (suc (suc d.attempt));
  }

  settle-left :
      (d : D) (e : SendError)
      → d.attempt < limit d
      → (settle chrono crypto json d (inl e)).0 ≡ record d {
        last_status = none;
        last_error = some (send_error_text e);
        due_at = due_for chrono crypto json d (suc d.attempt);
      }
  unfolding settle
  settle-left d e h =
      let left : leb (limit d) d.attempt ≡ false = ground arith in rw (settle, left) refl

  deliver-early :
      (d : D) (r : Readings chrono crypto json)
      → d.attempt ≤ d.endpoint.fail_first
      → deliver chrono crypto json d r ≡ ([], inl (failed_first d.attempt d.endpoint.fail_first))
  unfolding deliver
  deliver-early d r h = rw (deliver, le→leb d.attempt d.endpoint.fail_first h) refl

  limit_started : (d : D) (n : ℕ) → limit (record d { attempt = n }) ≡ limit d
  unfolding max_attempts backoff
  limit_started d n = refl

  due_started :
      (d : D) (n k : ℕ)
      → due_for chrono crypto json (record d { attempt = n }) k ≡ due_for chrono crypto json d k
  unfolding due_for backoff
  due_started d n k = refl

  attempted-refused :
      (d : D) (r : Readings chrono crypto json)
      → suc d.attempt ≤ d.endpoint.fail_first
      → d.endpoint.fail_first < limit d
      → attempted chrono crypto json d r ≡ refused d
  unfolding attempted
  attempted-refused d r h m =
      let started = record d { attempt = suc d.attempt } in
      let e = failed_first (suc d.attempt) d.endpoint.fail_first in
      rw (attempted, begin_lem chrono crypto json d (omega arith), deliver-early started r h)
        (settle-left started e (omega (arith, limit_started d (suc d.attempt)))
          ∙ ap
              (λ t. record d {
                attempt = suc d.attempt;
                last_status = none;
                last_error = some (send_error_text e);
                due_at = t;
              })
              (due_started d (suc d.attempt) (suc (suc d.attempt))))

  Arrived : D → ℕ → Type 0
  Arrived d n = (d.done ≡ true) × (d.attempt ≡ n) × (d.last_error ≡ none)

  settle-Arrived :
      (d : D) (a : Bytes ⊎ ℕ)
      → is_success (answered a) ≡ true
      → Arrived (settle chrono crypto json d (answered a)).0 d.attempt
  unfolding settle Arrived
  settle-Arrived d (inl e) h = cc
  settle-Arrived d (inr status) h = rw (settle, h) (refl, refl, refl)

  deliver-late :
      (d : D) (r : Readings chrono crypto json) (b : Bytes)
      → d.endpoint.fail_first < d.attempt
      → to_vec d.body ≡ inr b
      → (deliver chrono crypto json d r).1 ≡ answered (r.answer (post chrono crypto json d b r))
  unfolding deliver
  deliver-late d r b h v =
      let late : leb d.attempt d.endpoint.fail_first ≡ false = ground arith in
      rw (deliver, late, v) refl

  attempted-Arrived :
      (d : D) (r : Readings chrono crypto json) (b : Bytes)
      → d.endpoint.fail_first ≤ d.attempt
      → d.attempt < limit d
      → to_vec d.body ≡ inr b
      → ((p : Post) → is_success (answered (r.answer p)) ≡ true)
      → Arrived (attempted chrono crypto json d r) (suc d.attempt)
  unfolding attempted
  attempted-Arrived d r b h m v ok =
      let started = record d { attempt = suc d.attempt } in
      rw (attempted, begin_lem chrono crypto json d m, deliver-late started r b (omega arith) v)
        (settle-Arrived started (r.answer (post chrono crypto json started b r))
          (ok (post chrono crypto json started b r)))

  -- A pass that comes after the last rung, with a receiver that answers every request with a 2xx.
  abbrev pub Favourable : D → Pass chrono crypto json → Type 0
  Favourable d (now, readings) =
      (le (due_for chrono crypto json d (limit d)) now ≡ true)
      × ((x : D) (p : Post) → is_success (answered ((readings x).answer p)) ≡ true)

  -- A delivery that has not arrived yet and can arrive at the attempt after `fail_first`.
  pub record CanArrive (d : D) : Type 0 where
    pub on_ladder : IsOnLadder chrono crypto json d
    pub waits : d.done ≡ false
    pub early : d.attempt ≤ d.endpoint.fail_first
    pub enough : d.endpoint.fail_first < limit d
    pub fits : sum (backoff chrono crypto json d) ≤ i64_max

  passed_due :
      (now : DateTime) (readings : D → Readings chrono crypto json) (d : D)
      → CanArrive d
      → le (due_for chrono crypto json d (limit d)) now ≡ true
      → passed chrono crypto json now readings d ≡ attempted chrono crypto json d (readings d)
  unfolding passed
  passed_due now readings d c t =
      let left = c.on_ladder.left c.waits in
      let on_time = due_for_mono chrono crypto json d (suc d.attempt) (limit d) c.fits left in
      let due : le d.due_at now ≡ true =
        subst (λ x. le x now ≡ true) (sym (c.on_ladder.due c.waits))
          (le_trans (due_for chrono crypto json d (suc d.attempt))
            (due_for chrono crypto json d (limit d)) now on_time t) in
      rw (passed, c.waits, due) refl

  limit-refused : (d : D) → limit (refused d) ≡ limit d
  unfolding max_attempts backoff
  limit-refused d = refl

  refused-Favourable :
      (d : D) (ps : List (Pass chrono crypto json))
      → All (Favourable d) ps
      → All (Favourable (refused d)) ps
  unfolding due_for max_attempts backoff
  refused-Favourable d [] f = tt
  refused-Favourable d (p ∷ ps) f = (f.0, refused-Favourable d ps f.1)

  refused-CanArrive :
      (d : D)
      → IsOnLadder chrono crypto json (refused d)
      → CanArrive d
      → suc d.attempt ≤ d.endpoint.fail_first
      → CanArrive (refused d)
  unfolding max_attempts backoff
  refused-CanArrive d l c h = record {
    on_ladder = l;
    waits = c.waits;
    early = h;
    enough = c.enough;
    fits = c.fits;
  }

  passed_all-Arrived :
      (ps : List (Pass chrono crypto json)) (d : D) (b : Bytes)
      → CanArrive d
      → to_vec d.body ≡ inr b
      → d.attempt + length ps ≡ suc d.endpoint.fail_first
      → All (Favourable d) ps
      → Arrived (passed_all chrono crypto json ps d) (suc d.endpoint.fail_first)
  unfolding passed_all Arrived
  passed_all-Arrived [] d b c v h f = let early = c.early in absurd (omega arith)
  passed_all-Arrived ((now, readings) ∷ []) d b c v h f =
      let last : d.attempt ≡ d.endpoint.fail_first = omega arith in
      let done =
        attempted-Arrived d (readings d) b (omega arith) (c.on_ladder.left c.waits) v (f.0.1 d) in
      rw (passed_all, passed_due now readings d c f.0.0)
        (subst (λ n. Arrived (attempted chrono crypto json d (readings d)) (suc n)) last done)
  passed_all-Arrived ((now, readings) ∷ q ∷ ps) d b c v h f =
      let next : suc d.attempt ≤ d.endpoint.fail_first = omega arith in
      let same : passed chrono crypto json now readings d ≡ refused d =
        passed_due now readings d c f.0.0 ∙ attempted-refused d (readings d) next c.enough in
      let ladder =
        subst (IsOnLadder chrono crypto json) same
          (passed-IsOnLadder chrono crypto json now readings d c.on_ladder) in
      rw (passed_all, same)
        (passed_all-Arrived (q ∷ ps) (refused d) b (refused-CanArrive d ladder c next) v
          (omega arith) (refused-Favourable d (q ∷ ps) f.1))

  -- In a queue of distinct ids, a delivery that waits on its ladder, whose endpoint fails the
  -- first `fail_first` attempts, fewer than it has, arrives: passes after the ladder's last
  -- rung are enough, one for each attempt left up to `fail_first + 1`, when the body has a
  -- text, the receiver answers with a 2xx and the backoffs add up to an `i64`. It is then done,
  -- with `fail_first + 1` attempts and no error.
  pub delivered_after_fail_first :
      (ps : List (Pass chrono crypto json)) (s : Sender chrono crypto json) (k : ℕ) (d : D)
      (b : Bytes)
      → AreDistinct chrono crypto json s.queue
      → find_delivery chrono crypto json k s.queue ≡ some d
      → CanArrive d
      → to_vec d.body ≡ inr b
      → d.attempt + length ps ≡ suc d.endpoint.fail_first
      → All (Favourable d) ps
      → (d' : D) × (find_delivery chrono crypto json k (run_passes chrono crypto json ps s).queue
          ≡ some d')
        × (d'.done ≡ true)
        × (d'.attempt ≡ suc d.endpoint.fail_first)
        × (d'.last_error ≡ none)
  unfolding Arrived
  delivered_after_fail_first ps s k d b h e c v n f =
      let (done, attempts, error) = passed_all-Arrived ps d b c v n f in
      (
        passed_all chrono crypto json ps d,
        run_passes_find chrono crypto json ps s k d h e,
        done,
        attempts,
        error,
      )
