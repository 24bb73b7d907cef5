-- ===== src/Stream/Chunks.antt =====
-- crates/stream/src/chunks.rs, and the closure that `stream::unfold` calls for each item, the same in
-- scripted.rs and chat.rs but for the number of chunks and what each carries.
use servr.Common.{
  ℕ, zero, suc, ◌+◌, ◌*◌, ◌%◌, Bool, true, false, Option, none, some, List, [], ◌∷◌, ◌++◌, Text,
  is_whitespace, leb, as_i64, u64_mod, if◌then◌else◌, select,
}
use servr.Core.Chrono.{Chrono}

-- `split(char::is_whitespace)`: the pieces between white space.
abbrev pub add_front : ℕ → List Text → List Text
add_front c [] = (c ∷ []) ∷ []
add_front c (piece ∷ pieces) = (c ∷ piece) ∷ pieces

unfoldable pub split_space : Text → List Text
split_space [] = [] ∷ []
split_space (c ∷ cs) = if is_whitespace c then [] ∷ split_space cs else add_front c (split_space cs)

abbrev pub is_word : Text → Bool
is_word [] = false
is_word (c ∷ cs) = true

-- `split_whitespace`
unfoldable pub words : Text → List Text
words text = select is_word (split_space text)

abbrev pub token : ℕ → Text → Text
token zero word = word
token (suc i) word = 32 ∷ word

-- The loop over `split_whitespace().enumerate()`, from the count `i` on.
unfoldable pub tokens_from : ℕ → List Text → List Text
tokens_from i [] = []
tokens_from i (word ∷ rest) = token i word ∷ tokens_from (suc i) rest

unfoldable pub tokenize : Text → List Text
tokenize text = tokens_from 0 (words text)

-- An item of the stream: a chunk with what it carries, or the injected error.
pub data Item (D : Type 0) : Type 0 where
  chunk : (seq : ℕ) → D → Item D
  injected : (seq : ℕ) → Item D

-- What a poll of the stream comes to: the end, no item yet, or an item and the state after it.
pub data Polled (D : Type 0) : Type 0 where
  ended : Polled D
  waiting : Polled D
  yielded : Item D → ℕ → Polled D

-- How a client's reading stopped: at the end of the stream, while it still waits, or by its own will.
pub data Stop : Type 0 where
  at_end still_waiting unread : Stop

-- What a client has got, how it stopped, and the chunks that are on the event bus.
pub record Drained (D : Type 0) : Type 0 where
  pub items : List (Item D)
  pub stop : Stop
  pub events : List ℕ

abbrev pub prepend : {D : Type 0} → Item D → Drained D → Drained D
prepend item d = record d { items = item ∷ d.items }

-- A client after one poll, with what it goes on to get after an item.
abbrev pub read_on : {D : Type 0} → (ℕ → List ℕ → Drained D) → List ℕ × Polled D → Drained D
read_on later (after, ended) = record { items = []; stop = at_end; events = after }
read_on later (after, waiting) = record { items = []; stop = still_waiting; events = after }
read_on later (after, yielded item seq) = prepend item (later seq after)

-- `Streams::emit_chunk`, on the sequence numbers of the events so far.
unfoldable pub emit_chunk : List ℕ → ℕ → List ℕ
emit_chunk events seq = events ++ seq ∷ []

-- `fail_at.is_some_and(|at| seq >= at)`
abbrev pub fails : Option ℕ → ℕ → Bool
fails none seq = false
fails (some at) seq = leb at seq

module _ (chrono : Chrono) where
  open chrono use {DateTime, plus, le}

  -- The product is taken in 64 bits.
  unfoldable pub due_at : DateTime → ℕ → ℕ → DateTime
  due_at start seq delay_ms = plus start (as_i64 (delay_ms * seq % u64_mod))

  -- The readings of the clock, at once and then at every tick, and whether one of them is late
  -- enough; without one it still waits.
  unfoldable pub wait_until : List DateTime → DateTime → Bool
  wait_until [] due = false
  wait_until (now ∷ readings) due =
      let later = wait_until readings due in if le due now then true else later

  module _ {D : Type 0} (total : ℕ) (fail_at : Option ℕ) (start : DateTime) (delay_ms : ℕ)
      (carried : ℕ → D) where
    -- The closure, at the state `seq`, with the events before and after it.
    unfoldable pub next : ℕ → List DateTime → List ℕ → List ℕ × Polled D
    unfolding emit_chunk
    next seq readings events =
        if leb total seq
        then (events, ended)
        else (if fails fail_at seq
            then (events, yielded (injected seq) total)
            else (if wait_until readings (due_at start seq delay_ms)
                then (emit_chunk events seq, yielded (chunk seq (carried seq)) (seq + 1))
                else (events, waiting)))

    -- A client that reads up to `fuel` items, with the readings made while it waits for each.
    unfoldable pub drain : ℕ → ℕ → (ℕ → List DateTime) → List ℕ → Drained D
    drain zero seq readings events = record { items = []; stop = unread; events = events }
    drain (suc fuel) seq readings events =
        read_on (λ seq' after. drain fuel seq' readings after) (next seq (readings seq) events)
