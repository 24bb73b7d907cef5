-- ===== src/Examples/Ws.antt =====
-- The theorems on crates/ws at concrete inputs: two connections in a room, one of them gone.
use servr.Common.{
  true, ℕ, suc, ◌≡◌, refl, sym, ap, Bool, false, Option, none, some, List, [], ◌∷◌, ◌++◌,
  append-nil, map, bytes, length, select, ◌==◌, ◌&&◌, not, any_of, Bool-cases, inl, inr,
  if◌then◌else◌, arith,
}
use servr.Ws.Hub.{Outbound, text, Mpsc, Hub, publish, is_other, members_of, join, presence}
use servr.Ws.Hub.Topics.{
  present, Call, joins, leaves, publishes, kills, run_calls, call, after_calls,
}
use servr.Ws.Hub.Presence.{IsAscending, listed, presence-run_calls}
use servr.Ws.Hub.Fanout.{IsChannel, listens, frame_to, publish_reaches}
use servr.Ws.Conn.{Round, ended, message, text_message, close_message, finish_close, attend}
use servr.Ws.Conn.Ending.{Closes, serve-Closes}

-- A channel is its number, and number 1 has lost its receiver. All messages wait in one list.
record Channels : Type 0 where
  next : ℕ
  waiting : List (ℕ × Outbound)

abbrev listening : Channels → ℕ → Bool
listening c tx = not (tx == 1)

abbrev messages_of : ℕ → List (ℕ × Outbound) → List Outbound
messages_of u [] = []
messages_of u ((tx, o) ∷ waiting) =
    if tx == u then o ∷ messages_of u waiting else messages_of u waiting

abbrev inbox : Channels → ℕ → List Outbound
inbox c u = messages_of u c.waiting

abbrev without_first : ℕ → List (ℕ × Outbound) → List (ℕ × Outbound)
without_first u [] = []
without_first u ((tx, o) ∷ waiting) = if tx == u then waiting else (tx, o) ∷ without_first u waiting

abbrev received : List Outbound → Option (Option Outbound)
received [] = none
received (o ∷ os) = some (some o)

abbrev mpsc : Mpsc
mpsc = record {
  C = Channels;
  Tx = ℕ;
  open_channel = λ c. (record { next = suc c.next; waiting = c.waiting }, c.next);
  send = λ c tx o. (
    record {
      next = c.next;
      waiting = if listening c tx then c.waiting ++ (tx, o) ∷ [] else c.waiting;
    },
    listening c tx,
  );
  recv =
      λ c u. (record { next = c.next; waiting = without_first u c.waiting }, received (inbox c u));
}

messages_of-append :
    (u tx : ℕ) (o : Outbound) (waiting : List (ℕ × Outbound))
    → messages_of u (waiting ++ (tx, o) ∷ [])
      ≡ messages_of u waiting ++ (if tx == u then o ∷ [] else [])
messages_of-append u tx o [] = refl
messages_of-append u tx o ((t, p) ∷ waiting) = elim (Bool-cases (t == u)) [
  | inl e ↦ rw e (ap (λ os. p ∷ os) (messages_of-append u tx o waiting))
  | inr e ↦ rw e (messages_of-append u tx o waiting)
]

messages_of-without_first :
    (u : ℕ) (o : Outbound) (rest : List Outbound) (waiting : List (ℕ × Outbound))
    → messages_of u waiting ≡ o ∷ rest
    → messages_of u (without_first u waiting) ≡ rest
messages_of-without_first u o rest [] e = absurd (cc)
messages_of-without_first u o rest ((t, p) ∷ waiting) e = elim (Bool-cases (t == u)) [
  | inl g ↦ rw g (tail_of (rw g at e))
  | inr g ↦ rw (g, g) (messages_of-without_first u o rest waiting (rw g at e))
]
  where
    tail_of : {a b : Outbound} {xs ys : List Outbound} → a ∷ xs ≡ b ∷ ys → xs ≡ ys
    tail_of e = cc

channel : IsChannel mpsc listening inbox (λ t u. t == u)
channel = record {
  taken = λ c tx o. refl;
  stays = λ c tx u o. refl;
  puts = λ c tx u o. puts c tx u o;
  itself = λ tx. ground arith;
  opens = λ c u. refl;
  receives = λ c u o rest e. (ap received e, messages_of-without_first u o rest c.waiting e);
}
  where
    puts :
        (c : Channels) (tx u : ℕ) (o : Outbound)
        → messages_of u (if listening c tx then c.waiting ++ (tx, o) ∷ [] else c.waiting)
          ≡ messages_of u c.waiting ++ (if listening c tx && tx == u then o ∷ [] else [])
    puts c tx u o = elim (Bool-cases (listening c tx)) [
      | inl e ↦ rw e (messages_of-append u tx o c.waiting)
      | inr e ↦ rw e (sym (append-nil (messages_of u c.waiting)))
    ]

abbrev silent : ℕ → Channels
silent n = record { next = n; waiting = [] }

abbrev calls : List (Call mpsc)
calls =
    joins (bytes "room") 10 none
    ∷ joins (bytes "room") 11 none
    ∷ publishes (bytes "room") (bytes "hi") (some 10)
    ∷ leaves (bytes "room") 10
    ∷ kills (bytes "lobby") (bytes "bye")
    ∷ []

abbrev empty_hub : Hub mpsc
empty_hub = record { topics = []; channels = silent 0; frames = [] }

presence-run_calls_example :
    IsAscending (listed mpsc (run_calls mpsc empty_hub calls) (bytes "room"))
    × ((conn : ℕ)
        → any_of (λ i. i == conn) (listed mpsc (run_calls mpsc empty_hub calls) (bytes "room"))
          ≡ after_calls mpsc false (bytes "room") conn calls)
presence-run_calls_example = presence-run_calls mpsc calls empty_hub (bytes "room")

-- The ids come out sorted, whatever order they joined in.
presence_sorts :
    presence mpsc (
      run_calls mpsc empty_hub (
        joins (bytes "room") 7 none
        ∷ joins (bytes "room") 9 none
        ∷ joins (bytes "room") 8 none
        ∷ []))
    ≡ (bytes "room", 7 ∷ 8 ∷ 9 ∷ []) ∷ []
unfolding presence run_calls call join
presence_sorts = refl

abbrev hub : Hub mpsc
hub = record {
  topics =
      (
        bytes "room",
        (10, record { tx = 0; conn_trace = none })
            ∷ (11, record { tx = 1; conn_trace = none })
            ∷ (12, record { tx = 2; conn_trace = none })
            ∷ [],
      )
      ∷ [];
  channels = silent 3;
  frames = [];
}

publish_reaches_example :
    let reached =
      select
        (listens mpsc listening inbox (λ t u. t == u) channel (silent 3))
        (select (is_other mpsc (some 10)) (members_of mpsc hub.topics (bytes "room"))) in
    let (h', delivered) = publish mpsc hub (bytes "room") (bytes "hi") (some 10) in
    (delivered ≡ length reached)
    × (h'.frames
        ≡ []
          ++ map
              (frame_to mpsc listening inbox (λ t u. t == u) channel (bytes "room") (bytes "hi"))
              reached)
    × (inbox h'.channels 2 ≡ text (bytes "hi") ∷ [])
publish_reaches_example =
    publish_reaches mpsc listening inbox (λ t u. t == u) channel hub (bytes "room") (bytes "hi")
      (some 10) 2

-- A client for whom a text waits, and who says goodbye when its topic is killed.
abbrev killed : Round mpsc
killed = record {
  others = kills (bytes "room") (bytes "bye") ∷ joins (bytes "room") 13 none ∷ [];
  inbound = some (message close_message);
  sends = true;
  echo = [];
}

abbrev last_round : Round mpsc
last_round = record {
  others = publishes (bytes "room") (bytes "late") none ∷ [];
  inbound = none;
  sends = true;
  echo = (5, message (text_message [])) ∷ (40, message close_message) ∷ [];
}

abbrev busy_hub : Hub mpsc
busy_hub = record hub { channels = record { next = 3; waiting = (2, text (bytes "hi")) ∷ [] } }

serve-Closes_example :
    let p = attend mpsc busy_hub 2 (bytes "room") 12 (killed ∷ last_round ∷ []) in
    Closes mpsc listening inbox (λ t u. t == u) channel (bytes "hi" ∷ []) (bytes "bye") p
    × (present mpsc p.hub (bytes "room") 12 ≡ false)
serve-Closes_example =
    serve-Closes mpsc listening inbox (λ t u. t == u) channel busy_hub (bytes "room") 12
      (record { tx = 2; conn_trace = none }) (bytes "hi" ∷ []) (bytes "bye")
      (joins (bytes "room") 13 none ∷ []) killed (last_round ∷ []) refl refl refl refl
      (refl, (refl, tt)) (omega arith)

-- Frames that the peer still had in flight are read past to the close it echoes.
three_frames :
    finish_close ((5, message (text_message [])) ∷ (40, message close_message) ∷ (50, ended) ∷ [])
    ≡ (40, true)
unfolding finish_close
three_frames = refl

silent_peer :
    finish_close ((1999, message (text_message [])) ∷ (2000, message close_message) ∷ [])
    ≡ (2000, false)
unfolding finish_close
silent_peer = refl
