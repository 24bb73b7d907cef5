-- ===== src/Hooks/Outbound/Ladder.antt =====
-- When the webhook sender (crates/hooks/src/outbound.rs) retries, and when it stops.
use servr.Common.{
  ℕ, zero, suc, ◌+◌, ◌-◌, ◌%◌, ◌≤◌, ◌<◌, ◌≡◌, ap, ◌∙◌, true, false, some, List, [], ◌∷◌, ◌⊎◌, inl,
  inr, take, pos, as_i64, as_i64-small, i64_max, u64_mod, Bool-cases, arith,
}
use servr.Core.Chrono.{Chrono}
use servr.Hooks.Sign.{Crypto}
use servr.Hooks.Outbound.{
  Json, Delivery, Sender, Readings, SendError, begin, deliver, settle, backoff, max_attempts,
  due_for, sum, is_due, tick, u32_mod,
}
use servr.Hooks.Outbound.Passes.{
  find_delivery, AreDistinct, attempted, passed, map_option, tick_find, tick-AreDistinct,
}

module _ (chrono : Chrono) (crypto : Crypto chrono) (json : Json) where
  open chrono use {DateTime, plus, le, le-plus, le_trans}
  open json use {to_vec}

  abbrev D : Type 0
  D = Delivery chrono crypto json

  abbrev R : Type 0
  R = Readings chrono crypto json

  -- One pass: its virtual time, and what its attempts read.
  abbrev pub Pass : Type 0
  Pass = DateTime × (D → R)

  unfoldable pub run_passes : List Pass → Sender chrono crypto json → Sender chrono crypto json
  run_passes [] s = s
  run_passes ((now, readings) ∷ ps) s = run_passes ps (tick chrono crypto json s now readings)

  unfoldable pub passed_all : List Pass → D → D
  passed_all [] d = d
  passed_all ((now, readings) ∷ ps) d = passed_all ps (passed chrono crypto json now readings d)

  pub run_passes_find :
      (ps : List Pass) (s : Sender chrono crypto json) (k : ℕ) (d : D)
      → AreDistinct chrono crypto json s.queue
      → find_delivery chrono crypto json k s.queue ≡ some d
      → find_delivery chrono crypto json k (run_passes ps s).queue ≡ some (passed_all ps d)
  unfolding run_passes passed_all
  run_passes_find [] s k d h e = e
  run_passes_find ((now, readings) ∷ ps) s k d h e =
      run_passes_find ps (tick chrono crypto json s now readings) k
        (passed chrono crypto json now readings d)
        (tick-AreDistinct chrono crypto json s now readings h)
        (tick_find chrono crypto json s now readings k h
          ∙ ap (map_option chrono crypto json (passed chrono crypto json now readings)) e)

  -- The attempts made stay within the limit, and while the delivery is not done the next one has
  -- its place on the ladder: the enqueue, plus the backoffs of the attempts made.
  pub record IsOnLadder (d : D) : Type 0 where
    pub within : d.attempt ≤ max_attempts chrono crypto json d
    pub left : d.done ≡ false → d.attempt < max_attempts chrono crypto json d
    pub due : d.done ≡ false → d.due_at ≡ due_for chrono crypto json d (suc d.attempt)

  pub begin_lem :
      (d : D)
      → d.attempt < max_attempts chrono crypto json d
      → begin chrono crypto json d ≡ record d { attempt = suc d.attempt }
  unfolding begin max_attempts
  begin_lem d h =
      let small : (d.attempt + 1) % u32_mod ≡ suc d.attempt = omega arith in
      ap (λ n. record d { attempt = n }) small

  settle-IsOnLadder :
      (d : D) (o : SendError ⊎ ℕ)
      → d.attempt < max_attempts chrono crypto json d
      → IsOnLadder (settle chrono crypto json (record d { attempt = suc d.attempt }) o).0
  unfolding settle max_attempts due_for
  settle-IsOnLadder d o h = ground arith

  attempted-IsOnLadder :
      (d : D) (r : R)
      → d.attempt < max_attempts chrono crypto json d
      → IsOnLadder (attempted chrono crypto json d r)
  unfolding attempted
  attempted-IsOnLadder d r h =
      let started = record d { attempt = suc d.attempt } in
      rw (attempted, begin_lem d h) (settle-IsOnLadder d (deliver chrono crypto json started r).1 h)

  is_due_done : (now : DateTime) (d : D) → is_due chrono crypto json now d ≡ true → d.done ≡ false
  is_due_done now d h = ground arith

  pub passed-IsOnLadder :
      (now : DateTime) (readings : D → R) (d : D)
      → IsOnLadder d
      → IsOnLadder (passed chrono crypto json now readings d)
  unfolding passed
  passed-IsOnLadder now readings d h = elim (Bool-cases (is_due chrono crypto json now d)) [
    | inl e ↦ rw e (attempted-IsOnLadder d (readings d) (h.left (is_due_done now d e)))
    | inr e ↦ rw e h
  ]

  passed_all-IsOnLadder : (ps : List Pass) (d : D) → IsOnLadder d → IsOnLadder (passed_all ps d)
  unfolding passed_all
  passed_all-IsOnLadder [] d h = h
  passed_all-IsOnLadder ((now, readings) ∷ ps) d h =
      passed_all-IsOnLadder ps (passed chrono crypto json now readings d)
        (passed-IsOnLadder now readings d h)

  -- Whatever the receivers answer and whenever the passes run, a delivery that is on its
  -- ladder, in a queue of distinct ids, stays in the queue and on its ladder: it is attempted
  -- at most `max_attempts` times, and until it is done it has an attempt left, which is due at
  -- the enqueue plus the backoffs of the attempts made.
  pub retries-IsOnLadder :
      (ps : List Pass) (s : Sender chrono crypto json) (k : ℕ) (d : D)
      → AreDistinct chrono crypto json s.queue
      → find_delivery chrono crypto json k s.queue ≡ some d
      → IsOnLadder d
      → (d' : D) × (find_delivery chrono crypto json k (run_passes ps s).queue ≡ some d')
        × IsOnLadder d'
  retries-IsOnLadder ps s k d h e l =
      (passed_all ps d, run_passes_find ps s k d h e, passed_all-IsOnLadder ps d l)

  -- Rungs come in order, as long as the backoffs add up to an `i64`.
  sum-take :
      (bs : List ℕ) (n m : ℕ)
      → n ≤ m
      → (sum (take n bs) ≤ sum (take m bs)) × (sum (take m bs) ≤ sum bs)
  sum-take [] zero zero h = (omega arith, omega arith)
  sum-take [] zero (suc m) h = (omega arith, omega arith)
  sum-take [] (suc n) zero h = (omega arith, omega arith)
  sum-take [] (suc n) (suc m) h = (omega arith, omega arith)
  sum-take (b ∷ bs) zero zero h = (omega arith, omega arith)
  sum-take (b ∷ bs) zero (suc m) h = (omega arith, omega (arith, (sum-take bs 0 m (omega arith)).1))
  sum-take (b ∷ bs) (suc n) zero h = absurd (omega arith)
  sum-take (b ∷ bs) (suc n) (suc m) h =
      let (a, c) = sum-take bs n m (omega arith) in (omega (arith, a), omega (arith, c))

  offset_lem : (n : ℕ) → n ≤ i64_max → as_i64 (n % u64_mod) ≡ pos n
  offset_lem n h = let small : n % u64_mod ≡ n = omega arith in ap as_i64 small ∙ as_i64-small n h

  pub due_for_mono :
      (d : D) (n m : ℕ)
      → sum (backoff chrono crypto json d) ≤ i64_max
      → n ≤ m
      → le (due_for chrono crypto json d n) (due_for chrono crypto json d m) ≡ true
  unfolding due_for
  due_for_mono d n m fits h =
      let bs = backoff chrono crypto json d in
      let (a, b) = sum-take bs (n - 1) (m - 1) (omega arith) in
      let (_, c) = sum-take bs (n - 1) (n - 1) (omega arith) in
      rw
        (
          due_for,
          offset_lem (sum (take (n - 1) bs)) (omega (arith, c)),
          offset_lem (sum (take (m - 1) bs)) (omega (arith, b)),
        )
        (le-plus d.enqueued_at (pos (sum (take (n - 1) bs))) (pos (sum (take (m - 1) bs)))
          ∙ ground (arith, a))
