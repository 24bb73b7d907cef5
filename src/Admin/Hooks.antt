-- ===== src/Admin/Hooks.antt =====
-- The webhook routes of crates/admin/src/lib.rs (`hooks_router`): the capture inbox read and
-- cleared, and a delivery queued. The JSON of an answer is left as its values.
pub mod Echo
use servr.Common.{ℕ, Option, none, some, List, Bytes}
use servr.Core.Chrono.{Chrono}
use servr.Core.Fault.{SigningScheme, WebhookEndpoint}
use servr.Core.State.{unwrap_or}
use servr.Hooks.Sign.{Crypto, default_secret}
use servr.Hooks.Inbound.{Reader, Capture, Inbox, captures, summary, clear}
use servr.Hooks.Outbound.{Json, Sender, DeliveryView, endpoint_from, enqueue, deliveries}

module _ (chrono : Chrono) (crypto : Crypto chrono) (json : Json) (reader : Reader) where
  open chrono use {DateTime}
  open json use {Value}

  pub record Hooks : Type 0 where
    pub inbox : Inbox chrono reader
    pub sender : Sender chrono crypto json

  pub record NewDelivery : Type 0 where
    pub url : Bytes
    pub name : Option Bytes
    pub sign : Option SigningScheme
    pub secret : Option Bytes
    pub backoff_ms : Option (List ℕ)
    pub fail_first : Option ℕ
    pub body : Option Value

  pub record Queued : Type 0 where
    pub id : ℕ
    pub sign : SigningScheme
    pub secret : Bytes

  unfoldable pub hooks_captures : Hooks → Bytes → List (Capture chrono reader)
  hooks_captures hooks id = captures chrono reader hooks.inbox id

  unfoldable pub hooks_summary : Hooks → List (Bytes × ℕ)
  hooks_summary hooks = summary chrono reader hooks.inbox

  -- The endpoint is named in the answer.
  unfoldable pub hooks_clear : Hooks → Bytes → Hooks × Bytes
  hooks_clear hooks id = (record hooks { inbox = clear chrono reader hooks.inbox (some id) }, id)

  -- With the JSON of `{"ok": true}`, the new id, the virtual time and the trace of the request.
  unfoldable pub hooks_send :
      Hooks → NewDelivery → Value → ℕ → DateTime → Option (ℕ × ℕ) → Hooks × Queued
  unfolding enqueue endpoint_from
  hooks_send hooks body ok_true id now trace =
      let endpoint =
        endpoint_from body.name body.url body.sign body.secret body.backoff_ms body.fail_first in
      let (sender, queued) =
        enqueue chrono crypto json hooks.sender endpoint (unwrap_or body.body ok_true) id now
          trace in
      (
        record hooks { sender = sender },
        record {
          id = queued;
          sign = endpoint.sign;
          secret = unwrap_or endpoint.secret default_secret;
        },
      )

  unfoldable pub hooks_deliveries : Hooks → List (DeliveryView chrono crypto json)
  hooks_deliveries hooks = deliveries chrono crypto json hooks.sender
