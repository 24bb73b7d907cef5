-- ===== src/Examples/Stream.antt =====
-- The theorems on crates/stream at concrete inputs: a scripted stream that fails after two chunks, and
-- a chat reply with loose white space.
use servr.Common.{
  ℕ, zero, suc, ◌<◌, ◌*◌, ◌%◌, u64_mod, ◌+◌, true, ◌≡◌, refl, arith, inl, none, some, List, [], ◌∷◌,
  length, bytes, pos, ℤ, as_i64, ◌+ℤ◌,
}
use servr.Core.Chrono.{milliseconds}
use servr.Stream.Chunks.{at_end, words, tokenize, wait_until, due_at}
use servr.Stream.Words.{concat, tokenize-concat}
use servr.Stream.Pace.{drained, received, drain-received}
use servr.Stream.Scripted.{Chunk}
use servr.Stream.Chat.{ChatRequest, reply_text, model, pieces, streamed_reply}
use servr.Stream.Chat.Reply.{assembled, assembled-streamed_reply}

-- The clock is read at once, and after an advance.
abbrev reads : ℕ → List ℤ
reads k = pos 0 ∷ pos 10000 ∷ []

abbrev carried : ℕ → Chunk
carried seq = record { stream = 4; seq = seq; body = bytes "tick" }

two_released :
    (k : ℕ) → k < 2 → wait_until milliseconds (reads k) (due_at milliseconds (pos 0) k 1000) ≡ true
unfolding wait_until due_at as_i64 ◌+ℤ◌
two_released zero h = refl
two_released (suc zero) h = refl
two_released (suc (suc k)) h = absurd (omega arith)

all_at_once : (k : ℕ) → wait_until milliseconds (reads k) (due_at milliseconds (pos 0) k 0) ≡ true
unfolding wait_until due_at as_i64 ◌+ℤ◌
all_at_once k = let none_left : 0 * k % u64_mod ≡ 0 = omega arith in rw none_left refl

drain-received_example :
    let got = drained milliseconds 5 (some 2) (pos 0) 1000 carried 4 0 reads [] in
    (got.items ≡ received milliseconds 5 (some 2) (pos 0) 1000 carried 2)
    × (got.stop ≡ at_end)
    × (got.events ≡ 0 ∷ 1 ∷ [])
drain-received_example =
    drain-received milliseconds 5 (some 2) (pos 0) 1000 carried reads 2 0 (omega arith) two_released
      (inl refl)

abbrev conversation : ChatRequest
conversation = record {
  model = none;
  messages =
      record { role = bytes "user"; content = bytes "  hello   there " }
      ∷ record { role = bytes "assistant"; content = bytes "hi" }
      ∷ [];
  streamed = true;
  delay_ms = 0;
  fail_at = none;
}

tokenize-concat_example :
    (words (concat (tokenize (bytes "hello   there"))) ≡ words (bytes "hello   there"))
    × (tokenize (concat (tokenize (bytes "hello   there"))) ≡ tokenize (bytes "hello   there"))
    × (tokenize (bytes " hello   there") ≡ tokenize (bytes "hello   there"))
tokenize-concat_example = tokenize-concat 32 (bytes "hello   there") refl

assembled-streamed_reply_example :
    let got =
      streamed_reply milliseconds conversation
        (pos 3)
        (pos 0)
        (length (pieces (model conversation) (pos 3) (reply_text conversation)) + 2)
        reads in
    (assembled got.items ≡ concat (tokenize (reply_text conversation)))
    × (words (assembled got.items) ≡ words (reply_text conversation))
    × (got.stop ≡ at_end)
assembled-streamed_reply_example =
    assembled-streamed_reply milliseconds conversation (pos 3) (pos 0) reads 0 refl
      (λ k h. all_at_once k)
