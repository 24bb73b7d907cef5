-- ===== src/Core/Event.antt =====
-- crates/core/src/event.rs: the event type, with its virtual time; `wall_at` is left out.
use servr.Common.{ℕ, Bool, false, not, Option, none, some, List, Bytes, bytes, ◌==◌}
use servr.Core.Chrono.{Chrono}
use servr.Queue.Job.{JobState}
use servr.Ws.Hub.{Dir}

module _ (chrono : Chrono) where
  open chrono use {DateTime}

  pub data EventKind : Type 0 where
    -- method, path, status, latency_ms, faults
    http_request : Bytes → Bytes → ℕ → ℕ → List Bytes → EventKind
    -- job, from, to, attempt
    job_transition : ℕ → JobState → JobState → ℕ → EventKind
    -- to, subject, message_id
    mail_sent : Bytes → Bytes → Bytes → EventKind
    -- endpoint, headers, body_sha256
    webhook_in : Bytes → List (Bytes × Bytes) → Bytes → EventKind
    -- endpoint, attempt, status, next_retry_at
    webhook_out : Bytes → ℕ → Option ℕ → Option DateTime → EventKind
    -- topic, conn, dir, bytes
    ws_frame : Bytes → ℕ → Dir → ℕ → EventKind
    -- stream, seq
    stream_chunk : ℕ → ℕ → EventKind
    -- dropped
    gap : ℕ → EventKind

  pub record Event : Type 0 where
    pub id : ℕ
    pub run : ℕ
    pub at : DateTime
    pub trace_id : Option ℕ
    pub span_id : Option ℕ
    pub kind : EventKind

  unfoldable pub with_trace : Event → ℕ → ℕ → Event
  with_trace e trace_id span_id = record e { trace_id = some trace_id; span_id = some span_id }

  -- A trace id is valid unless it is 0.
  unfoldable pub is_joinable : Event → Bool
  is_joinable e = elim e.trace_id [ none ↦ false | some t ↦ not (t == 0) ]

  unfoldable pub name : EventKind → Bytes
  name (http_request _ _ _ _ _) = bytes "HttpRequest"
  name (job_transition _ _ _ _) = bytes "JobTransition"
  name (mail_sent _ _ _) = bytes "MailSent"
  name (webhook_in _ _ _) = bytes "WebhookIn"
  name (webhook_out _ _ _ _) = bytes "WebhookOut"
  name (ws_frame _ _ _ _) = bytes "WsFrame"
  name (stream_chunk _ _) = bytes "StreamChunk"
  name (gap _) = bytes "Gap"
