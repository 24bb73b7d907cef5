-- ===== src/Admin/Sockets.antt =====
-- The WebSocket routes of crates/admin/src/lib.rs (`ws_router`): a text published to a topic, a
-- topic killed, and who is where. The JSON of an answer is left as its values.
pub mod Counts
use servr.Common.{ℕ, Option, none, List, Bytes, bytes}
use servr.Core.State.{unwrap_or}
use servr.Ws.Hub.{Mpsc, Hub, publish, kill, presence, connections}

pub record Publish : Type 0 where
  pub topic : Bytes
  pub body : Bytes

pub record Kill : Type 0 where
  pub topic : Bytes
  pub reason : Option Bytes

abbrev pub default_kill_reason : Bytes
default_kill_reason = bytes "closed by testbed"

pub record Presence : Type 0 where
  pub connections : ℕ
  pub topics : List (Bytes × List ℕ)

module _ (mpsc : Mpsc) where
  -- How many took the text: nobody is the sender.
  unfoldable pub ws_publish : Hub mpsc → Publish → Hub mpsc × ℕ
  ws_publish hub body = publish mpsc hub body.topic body.body none

  unfoldable pub ws_kill : Hub mpsc → Kill → Hub mpsc × ℕ
  ws_kill hub body = kill mpsc hub body.topic (unwrap_or body.reason default_kill_reason)

  unfoldable pub ws_presence : Hub mpsc → Presence
  ws_presence hub = record { connections = connections mpsc hub; topics = presence mpsc hub }
