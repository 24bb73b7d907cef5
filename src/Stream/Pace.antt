-- ===== src/Stream/Pace.antt =====
-- Which chunks a client of crates/stream gets, and when.
use servr.Common.{
  ◌==◌, ◌⊎◌, ℕ, zero, suc, ◌+◌, ◌≤◌, ◌<◌, ◌≡◌, inl, inr, refl, ap, ◌∙◌, arith, true, false, Option,
  none, some, List, [], ◌∷◌, ◌++◌, min, leb, ltb, if◌then◌else◌, Bool-cases, append-nil,
  append_assoc,
}
use servr.Core.Chrono.{Chrono}
use servr.Stream.Chunks.{
  Item, chunk, injected, ended, waiting, yielded, Polled, due_at, wait_until, fails, next, drain,
  emit_chunk, Drained, Stop, at_end, still_waiting, prepend, read_on,
}

-- `n` numbers from `seq` on.
abbrev pub numbers : ℕ → ℕ → List ℕ
numbers zero seq = []
numbers (suc n) seq = seq ∷ numbers n (suc seq)

-- How many chunks there are before the end or the injected error.
abbrev pub limit : ℕ → Option ℕ → ℕ
limit total none = total
limit total (some at) = min at total

fails_before :
    (total : ℕ) (fail_at : Option ℕ) (seq : ℕ)
    → seq < limit total fail_at
    → fails fail_at seq ≡ false
fails_before total none seq h = refl
fails_before total (some at) seq h = ground arith

fails_at_limit :
    (total : ℕ) (fail_at : Option ℕ)
    → limit total fail_at < total
    → fails fail_at (limit total fail_at) ≡ true
fails_at_limit total none h = absurd (omega arith)
fails_at_limit total (some at) h = ground arith

limit_bound : (total : ℕ) (fail_at : Option ℕ) → limit total fail_at ≤ total
limit_bound total none = omega arith
limit_bound total (some at) = omega arith

module _ (chrono : Chrono) {D : Type 0} (total : ℕ) (fail_at : Option ℕ) (start : chrono.DateTime)
    (delay_ms : ℕ) (carried : ℕ → D) where
  -- `n` chunks from `seq` on.
  abbrev pub chunks : ℕ → ℕ → List (Item D)
  chunks zero seq = []
  chunks (suc n) seq = chunk seq (carried seq) ∷ chunks n (suc seq)

  abbrev pub ending : List (Item D)
  ending = if ltb (limit total fail_at) total then injected (limit total fail_at) ∷ [] else []

  -- The clock is read late enough while the chunk is waited for.
  abbrev pub IsReleased : (ℕ → List chrono.DateTime) → ℕ → Type 0
  IsReleased readings seq =
      wait_until chrono (readings seq) (due_at chrono start seq delay_ms) ≡ true

  abbrev pub drained : ℕ → ℕ → (ℕ → List chrono.DateTime) → List ℕ → Drained D
  drained fuel seq readings events =
      drain chrono total fail_at start delay_ms carried fuel seq readings events

  abbrev polled : ℕ → List chrono.DateTime → List ℕ → List ℕ × Polled D
  polled seq readings events = next chrono total fail_at start delay_ms carried seq readings events

  next-chunk :
      (seq : ℕ) (readings : List chrono.DateTime) (events : List ℕ)
      → seq < limit total fail_at
      → wait_until chrono readings (due_at chrono start seq delay_ms) ≡ true
      → polled seq readings events
        ≡ (events ++ seq ∷ [], yielded (chunk seq (carried seq)) (seq + 1))
  unfolding next emit_chunk
  next-chunk seq readings events h released =
      let bound = limit_bound total fail_at in
      let more : leb total seq ≡ false = ground arith in
      rw (more, fails_before total fail_at seq h, released) refl

  next_waiting :
      (seq : ℕ) (readings : List chrono.DateTime) (events : List ℕ)
      → seq < limit total fail_at
      → wait_until chrono readings (due_at chrono start seq delay_ms) ≡ false
      → polled seq readings events ≡ (events, waiting)
  unfolding next
  next_waiting seq readings events h early =
      let bound = limit_bound total fail_at in
      let more : leb total seq ≡ false = ground arith in
      rw (more, fails_before total fail_at seq h, early) refl

  next_ended :
      (readings : List chrono.DateTime) (events : List ℕ)
      → polled total readings events ≡ (events, ended)
  unfolding next
  next_ended readings events = let done : leb total total ≡ true = ground arith in rw done refl

  next_injected :
      (readings : List chrono.DateTime) (events : List ℕ)
      → limit total fail_at < total
      → polled (limit total fail_at) readings events
        ≡ (events, yielded (injected (limit total fail_at)) total)
  unfolding next
  next_injected readings events h =
      let more : leb total (limit total fail_at) ≡ false = ground arith in
      rw (more, fails_at_limit total fail_at h) refl

  -- Items that were got before.
  abbrev pub with_items : List (Item D) → Drained D → Drained D
  with_items items d = record d { items = items ++ d.items }

  drain-chunks :
      (readings : ℕ → List chrono.DateTime) (n fuel fuel' seq last : ℕ) (events : List ℕ)
      → fuel' ≡ n + fuel
      → seq + n ≡ last
      → last ≤ limit total fail_at
      → ((k : ℕ) → k < last → IsReleased readings k)
      → drained fuel' seq readings events
        ≡ with_items (chunks n seq) (drained fuel last readings (events ++ numbers n seq))
  unfolding drain
  drain-chunks readings zero fuel fuel' seq last events e sum within released =
      let same_fuel : fuel' ≡ fuel = omega arith in
      let same : seq ≡ last = omega arith in rw (same_fuel, same, append-nil events) refl
  drain-chunks readings (suc n) fuel zero seq last events e sum within released =
      absurd (omega arith)
  drain-chunks readings (suc n) fuel (suc fuel') seq last events e sum within released =
      let add_one : seq + 1 ≡ suc seq = omega arith in
      let now = next-chunk seq (readings seq) events (omega arith) (released seq (omega arith)) in
      let rest =
        drain-chunks readings n fuel fuel' (suc seq) last (events ++ seq ∷ []) (omega arith)
          (omega arith) within released in
      ap (read_on (λ k es. drained fuel' k readings es)) now
      ∙ ap (λ k. prepend (chunk seq (carried seq)) (drained fuel' k readings (events ++ seq ∷ [])))
          add_one
      ∙ ap (prepend (chunk seq (carried seq))) rest
      ∙ ap (λ es. with_items (chunks (suc n) seq) (drained fuel last readings es))
          (append_assoc events (seq ∷ []) (numbers n (suc seq)))

  drain_ending :
      (readings : ℕ → List chrono.DateTime) (fuel : ℕ) (events : List ℕ)
      → drained (suc (suc fuel)) (limit total fail_at) readings events
        ≡ record { items = ending; stop = at_end; events = events }
  unfolding drain
  drain_ending readings fuel events =
      let bound = limit_bound total fail_at in
      elim (Bool-cases (ltb (limit total fail_at) total)) [
        | inl e ↦ rw e (
            ap (read_on (λ k es. drained (suc fuel) k readings es))
              (next_injected (readings (limit total fail_at)) events (ground arith))
            ∙ ap
                (λ p.
                  prepend (injected (limit total fail_at))
                    (read_on (λ k es. drained fuel k readings es) p))
                (next_ended (readings total) events))
        | inr e ↦
            let all : limit total fail_at ≡ total = ground arith in
            rw (e, all)
              (ap (read_on (λ k es. drained (suc fuel) k readings es))
                (next_ended (readings total) events))
      ]

  drain_early :
      (readings : ℕ → List chrono.DateTime) (fuel n : ℕ) (events : List ℕ)
      → n < limit total fail_at
      → wait_until chrono (readings n) (due_at chrono start n delay_ms) ≡ false
      → drained (suc fuel) n readings events
        ≡ record { items = []; stop = still_waiting; events = events }
  unfolding drain
  drain_early readings fuel n events h early =
      ap (read_on (λ k es. drained fuel k readings es)) (next_waiting n (readings n) events h early)

  -- Either every chunk that the stream has is released, or `n` is not.
  abbrev pub Stops : (ℕ → List chrono.DateTime) → ℕ → Type 0
  Stops readings n =
      (n ≡ limit total fail_at)
      ⊎ ((n < limit total fail_at)
          × (wait_until chrono (readings n) (due_at chrono start n delay_ms) ≡ false))

  abbrev pub received : ℕ → List (Item D)
  received n = chunks n 0 ++ (if n == limit total fail_at then ending else [])

  abbrev pub stopped : ℕ → Stop
  stopped n = if n == limit total fail_at then at_end else still_waiting

  -- A client that keeps reading, where the clock is read late enough for the first `n` chunks and
  -- either these are all that the stream has or the next one is still waited for. It gets the
  -- chunks 0, 1, … in order, each with what it carries, as many as are released. Where these are
  -- all, the injected error follows when `fail_at` is smaller than the number of chunks, and then
  -- the stream ends; where they are not, the client still waits. The events that the stream puts on
  -- the bus meanwhile are one for each chunk that the client gets, in that order, and none else.
  pub drain-received :
      (readings : ℕ → List chrono.DateTime) (n fuel : ℕ)
      → n ≤ limit total fail_at
      → ((k : ℕ) → k < n → IsReleased readings k)
      → Stops readings n
      → ((drained (n + suc (suc fuel)) 0 readings []).items ≡ received n)
        × ((drained (n + suc (suc fuel)) 0 readings []).stop ≡ stopped n)
        × ((drained (n + suc (suc fuel)) 0 readings []).events ≡ numbers n 0)
  drain-received readings n fuel within released stops =
      let run =
        drain-chunks readings n (suc (suc fuel)) (n + suc (suc fuel)) 0 n [] refl (omega arith)
          within released in
      elim stops [
        | inl last ↦
            let is_last : (n == limit total fail_at) ≡ true = ground arith in
            let rest =
              ap (λ k. drained (suc (suc fuel)) k readings (numbers n 0)) last
              ∙ drain_ending readings fuel (numbers n 0) in
            let whole = run ∙ ap (with_items (chunks n 0)) rest in
            rw is_last (
              ap (λ (d : Drained D). d.items) whole,
              ap (λ (d : Drained D). d.stop) whole,
              ap (λ (d : Drained D). d.events) whole,
            )
        | inr (more, early) ↦
            let is_last : (n == limit total fail_at) ≡ false = ground arith in
            let rest = drain_early readings (suc fuel) n (numbers n 0) more early in
            let whole = run ∙ ap (with_items (chunks n 0)) rest in
            rw is_last (
              ap (λ (d : Drained D). d.items) whole,
              ap (λ (d : Drained D). d.stop) whole,
              ap (λ (d : Drained D). d.events) whole,
            )
      ]
