-- ===== src/Core/Bus.antt =====
-- `BroadcastBus` of crates/core/src/bus.rs over a broadcast channel, with one subscriber's stream.
pub mod Accounts
use servr.Common.{
  ℕ, suc, ◌+◌, ◌%◌, ◌≤◌, ◌≡◌, Bool, true, false, Option, none, some, List, [], ◌∷◌, ◌++◌, length,
  get_elem?, u64_mod,
}
use servr.Core.Chrono.{Chrono}
use servr.Core.Event.{Event, EventKind, gap}

-- What `recv` reports; `pending` is a call that would wait.
pub data Recv (A : Type 0) : Type 0 where
  received : A → Recv A
  lagged : ℕ → Recv A
  pending closed : Recv A

-- `tokio::sync::broadcast`: a channel keeps some of the newest messages, and a receiver has a place
-- in the sequence of all that were sent.
pub record Broadcast (A : Type 0) : Type 1 where
  pub Channel : Type 0
  pub Receiver : Type 0
  pub send : Channel → A → Channel
  pub subscribe : Channel → Receiver
  pub recv : Channel → Receiver → Receiver × Recv A

module _ (chrono : Chrono) (broadcast : Broadcast (Event chrono)) where
  open chrono use {DateTime}
  open broadcast use {Channel, Receiver, send, recv}

  pub record Bus : Type 0 where
    pub tx : Channel
    pub run : ℕ
    pub seq : ℕ
    pub dropped : ℕ

  unfoldable pub new : Channel → ℕ → Bus
  new tx run = record { tx = tx; run = run; seq = 0; dropped = 0 }

  -- `emit` in its two steps, between which other tasks may emit: a number is taken, where
  -- `fetch_add` wraps, and the event with it is sent.
  unfoldable pub stamp : Bus → Event chrono → Bus × Event chrono
  stamp b event = (record b { seq = (b.seq + 1) % u64_mod }, record event { id = b.seq })

  unfoldable pub send_stamped : Bus → Event chrono → Bus
  send_stamped b event = record b { tx = send b.tx event }

  unfoldable pub emit : Bus → Event chrono → Bus
  unfolding stamp send_stamped
  emit b event = let (taken, stamped) = stamp b event in send_stamped taken stamped

  -- The event returned is the one built here, not the one that was stamped.
  unfoldable pub publish : Bus → EventKind chrono → DateTime → Bus × Event chrono
  unfolding emit
  publish b kind now =
      let event : Event chrono = record {
        id = 0;
        run = b.run;
        at = now;
        trace_id = none;
        span_id = none;
        kind = kind;
      } in
      (emit b event, event)

  unfoldable pub gap_event : ℕ → DateTime → ℕ → ℕ → Event chrono
  gap_event run now id dropped = record {
    id = id;
    run = run;
    at = now;
    trace_id = none;
    span_id = none;
    kind = gap dropped;
  }

  unfoldable pub subscribe : Bus → Receiver
  subscribe b = broadcast.subscribe b.tx

  -- What polling a subscriber's stream yields.
  pub data Polled : Type 0 where
    item : Event chrono → Polled
    waiting finished : Polled

  -- One poll of the stream, at virtual time `now`.
  unfoldable pub poll : Bus → Receiver → DateTime → Bus × Receiver × Polled
  unfolding gap_event
  poll b rx now =
      let (rx', got) = recv b.tx rx in
      elim got [
        | received event ↦ (b, rx', item event)
        | lagged n ↦ (
          record b { dropped = (b.dropped + n) % u64_mod },
          rx',
          item (gap_event b.run now b.seq n),
        )
        | pending ↦ (b, rx', waiting)
        | closed ↦ (b, rx', finished)
      ]

  -- What the channel promises, by the sequence of all messages sent and a receiver's place in it:
  -- a receiver starts at the end, receives the message at its place, and is told how many it was
  -- moved over when it lags.
  pub record Keeps (sent : Channel → List (Event chrono)) (place : Receiver → ℕ) : Type 0 where
    pub send_adds : (c : Channel) (e : Event chrono) → sent (send c e) ≡ sent c ++ e ∷ []
    pub starts : (c : Channel) → place (broadcast.subscribe c) ≡ length (sent c)
    pub receives :
        (c : Channel) (rx : Receiver) (e : Event chrono)
        → (recv c rx).1 ≡ received e
        → (get_elem? (sent c) (place rx) ≡ some e) × (place (recv c rx).0 ≡ suc (place rx))
    pub lags :
        (c : Channel) (rx : Receiver) (n : ℕ)
        → (recv c rx).1 ≡ lagged n
        → place (recv c rx).0 ≡ place rx + n
    pub waits :
        (c : Channel) (rx : Receiver) → (recv c rx).1 ≡ pending → place (recv c rx).0 ≡ place rx
    pub ends :
        (c : Channel) (rx : Receiver) → (recv c rx).1 ≡ closed → place (recv c rx).0 ≡ place rx
