-- ===== src/Ws/Conn.antt =====
-- One connection of crates/ws/src/conn.rs: the frame loop between a socket and the hub. The loop reads
-- the channel that the hub gave it. What the socket is ready with, whether the sink takes a frame,
-- what the peer sends after a close frame, and what other tasks do to the hub meanwhile come in
-- rounds, one for each `select!`. The upgrade, spans and logs are left out.
pub mod Ending
use servr.Common.{
  ℕ, Bool, true, false, Option, none, some, List, [], ◌∷◌, ◌++◌, Bytes, bytes, length, leb,
  if◌then◌else◌,
}
use servr.Ws.Hub.{Mpsc, Hub, Outbound, text, close, join, leave, publish, frame_span, inward}
use servr.Ws.Hub.Topics.{Call, run_calls}

abbrev pub close_code : ℕ
close_code = 1001

abbrev pub default_topic : Bytes
default_topic = bytes "default"

-- What a client sends.
pub data Message : Type 0 where
  text_message binary_message : Bytes → Message
  ping pong : Bytes → Message
  close_message : Message

-- What the stream gives next.
pub data Inbound : Type 0 where
  message : Message → Inbound
  failed : Inbound
  ended : Inbound

abbrev pub close_handshake_timeout : ℕ
close_handshake_timeout = 2000

-- The wait for the peer's echo reads on after any message but a close.
abbrev pub is_over : Inbound → Bool
is_over (message close_message) = true
is_over (message m) = false
is_over failed = true
is_over ended = true

-- What the stream gives after the close frame comes with the milliseconds since then, in their order;
-- after the last of it the stream is silent. When the wait ends, and whether before the timeout.
unfoldable pub finish_close : List (ℕ × Inbound) → ℕ × Bool
finish_close [] = (close_handshake_timeout, false)
finish_close ((at, inbound) ∷ later) =
    let rest = finish_close later in
    if leb close_handshake_timeout at
    then (close_handshake_timeout, false)
    else if is_over inbound
    then (at, true)
    else rest

-- What is sent to the client.
pub data Frame : Type 0 where
  text_frame : Bytes → Frame
  close_frame : (code : ℕ) (reason : Bytes) → Frame

module _ (mpsc : Mpsc) where
  pub record Round : Type 0 where
    pub others : List (Call mpsc)
    pub inbound : Option Inbound
    pub sends : Bool
    pub echo : List (ℕ × Inbound)

  -- The hub, what the sink took, whether the server closed, once the loop has ended, and how long it
  -- then waited for the peer's echo.
  pub record Pumped : Type 0 where
    pub hub : Hub mpsc
    pub sent : List Frame
    pub closed_by_server : Option Bool
    pub waited_ms : ℕ

  abbrev pub taken : Bool → Frame → List Frame
  taken true frame = frame ∷ []
  taken false frame = []

  abbrev pub going : Hub mpsc → Pumped
  going h = record { hub = h; sent = []; closed_by_server = none; waited_ms = 0 }

  abbrev pub gone : Hub mpsc → Pumped
  gone h = record { hub = h; sent = []; closed_by_server = some false; waited_ms = 0 }

  -- Server to client. The sink's error on a close frame is ignored, and the peer is waited for.
  unfoldable pub on_outbound : Hub mpsc → Bool → List (ℕ × Inbound) → Option Outbound → Pumped
  unfolding finish_close
  on_outbound h sends echo (some (text body)) = record {
    hub = h;
    sent = taken sends (text_frame body);
    closed_by_server = if sends then none else some false;
    waited_ms = 0;
  }
  on_outbound h sends echo (some (close reason)) = record {
    hub = h;
    sent = taken sends (close_frame close_code reason);
    closed_by_server = some true;
    waited_ms = (finish_close echo).0;
  }
  on_outbound h sends echo none = gone h

  -- Client to server.
  unfoldable pub on_inbound : Hub mpsc → Bytes → ℕ → Inbound → Pumped
  on_inbound h topic conn (message (text_message body)) =
      let spanned = frame_span mpsc h topic conn inward (length body) in
      going (publish mpsc spanned topic body (some conn)).0
  on_inbound h topic conn (message (binary_message data_bytes)) =
      going (frame_span mpsc h topic conn inward (length data_bytes))
  on_inbound h topic conn (message (ping payload)) = going h
  on_inbound h topic conn (message (pong payload)) = going h
  on_inbound h topic conn (message close_message) = gone h
  on_inbound h topic conn failed = gone h
  on_inbound h topic conn ended = gone h

  -- `select!` is biased: what the hub has comes before what the client sends.
  unfoldable pub on_ready :
      Hub mpsc
      → Bytes
      → ℕ
      → Bool
      → List (ℕ × Inbound)
      → Option (Option Outbound)
      → Option Inbound
      → Pumped
  unfolding on_outbound on_inbound
  on_ready h topic conn sends echo (some outbound) inbound = on_outbound h sends echo outbound
  on_ready h topic conn sends echo none (some inbound) = on_inbound h topic conn inbound
  on_ready h topic conn sends echo none none = going h

  -- The other tasks, and then the channel `rx` and the socket.
  unfoldable pub round : Hub mpsc → mpsc.Tx → Bytes → ℕ → Round → Pumped
  unfolding on_ready
  round h rx topic conn r =
      let now = run_calls mpsc h r.others in
      let (channels, outbound) = mpsc.recv now.channels rx in
      on_ready (record now { channels = channels }) topic conn r.sends r.echo outbound r.inbound

  -- A round that ended the loop is the last; else what the rest sends comes after.
  abbrev pub then_sent : List Frame → Pumped → Pumped
  then_sent sent p = record p { sent = sent ++ p.sent }

  abbrev pub after_round : Pumped → Pumped → Option Bool → Pumped
  after_round p rest none = then_sent p.sent rest
  after_round p rest (some by_server) = p

  unfoldable pub pump : Hub mpsc → mpsc.Tx → Bytes → ℕ → List Round → Pumped
  pump h rx topic conn [] = going h
  pump h rx topic conn (r ∷ rounds) =
      let p = round h rx topic conn r in
      after_round p (pump p.hub rx topic conn rounds) p.closed_by_server

  -- The member leaves once the loop has ended.
  abbrev pub left : Bytes → ℕ → Pumped → Option Bool → Pumped
  left topic conn p none = p
  left topic conn p (some by_server) = record p { hub = leave mpsc p.hub topic conn }

  -- From the joining on.
  unfoldable pub attend : Hub mpsc → mpsc.Tx → Bytes → ℕ → List Round → Pumped
  attend h rx topic conn rounds =
      let p = pump h rx topic conn rounds in left topic conn p p.closed_by_server

  unfoldable pub serve : Hub mpsc → Bytes → ℕ → Option (ℕ × ℕ) → List Round → Pumped
  unfolding attend
  serve h topic conn trace rounds =
      let (joined, rx) = join mpsc h topic conn trace in attend joined rx topic conn rounds
