-- ===== src/Examples/Bus.antt =====
-- The theorem on the bus at a concrete channel, which keeps one message.
use servr.Common.{
  ℕ, suc, ◌≡◌, ◌+◌, ◌-◌, refl, none, some, List, [], ◌∷◌, ◌++◌, length, get_elem?, ltb,
  if◌then◌else◌, pos, arith,
}
use servr.Core.Chrono.{milliseconds}
use servr.Core.Event.{Event, stream_chunk}
use servr.Core.Bus.{Broadcast, Recv, received, lagged, pending, Keeps}
use servr.Core.Bus.Accounts.{
  Call, stamps, sends, polls, Accounts, count, run_calls, boot, join, stream-Accounts,
}

abbrev E : Type 0
E = Event milliseconds

abbrev sized : List E → ℕ
sized = length

-- A receiver is its place; the channel drops all but the newest message.
abbrev next_message : List E → ℕ → ℕ × Recv E
next_message c rx =
    if ltb (suc rx) (sized c)
    then (rx + (sized c - 1 - rx), lagged (sized c - 1 - rx))
    else elim (get_elem? c rx) [ some e ↦ (suc rx, received e) | none ↦ (rx, pending) ]

abbrev channel : Broadcast E
channel = record {
  Channel = List E;
  Receiver = ℕ;
  send = λ c e. c ++ e ∷ [];
  subscribe = sized;
  recv = next_message;
}

abbrev place : ℕ → ℕ
place rx = rx

abbrev sent : List E → List E
sent c = c

channel-Keeps : Keeps milliseconds channel sent place
channel-Keeps = record {
  send_adds = λ c e. refl;
  starts = λ c. refl;
  receives = λ c rx e h. ground arith;
  lags = λ c rx n h. ground arith;
  waits = λ c rx h. ground arith;
  ends = λ c rx h. ground arith;
}

abbrev chunk : ℕ → E
chunk n = record {
  id = 0;
  run = 1;
  at = pos 0;
  trace_id = none;
  span_id = none;
  kind = stream_chunk 9 n;
}

abbrev C : Type 0
C = Call milliseconds channel sent place channel-Keeps

abbrev before : List C
before = stamps (chunk 0) ∷ sends 0 ∷ stamps (chunk 1) ∷ []

-- The event of the number 2 overtakes that of the number 1, so that the first poll finds a gap in its
-- place, and the second one the event of the number 1. That of the number 3 is not sent yet.
abbrev after : List C
after =
    stamps (chunk 2)
    ∷ sends 1
    ∷ sends 0
    ∷ stamps (chunk 3)
    ∷ polls (pos 5)
    ∷ polls (pos 6)
    ∷ polls (pos 7)
    ∷ []

stream-Accounts_example :
    let s =
      run_calls milliseconds channel sent place channel-Keeps
        (boot milliseconds channel sent place channel-Keeps [] 1)
        before in
    let s' =
      run_calls milliseconds channel sent place channel-Keeps
        (join milliseconds channel sent place channel-Keeps s)
        after in
    Accounts milliseconds channel sent place channel-Keeps s'.bus.tx
      (length (join milliseconds channel sent place channel-Keeps s).bus.tx)
      s'.seen
      s'.rx
    × (count milliseconds channel sent place channel-Keeps 1 s'.bus.tx
          + count milliseconds channel sent place channel-Keeps 1 s'.flying
        ≡ (if ltb 1 s'.bus.seq then 1 else 0))
stream-Accounts_example =
    stream-Accounts milliseconds channel sent place channel-Keeps [] 1 before after 1 refl
      (tt, (tt, (tt, tt))) (tt, (tt, (tt, (tt, (tt, (tt, (tt, tt))))))) (omega arith)
