-- ===== src/Stream/Scripted.antt =====
-- `GET /_stream/{id}` of crates/stream/src/scripted.rs: a stream written as query parameters. The JSON
-- text of a chunk is left as the values it is made of.
use servr.Common.{ℕ, Option, List, [], Text, bytes}
use servr.Core.Chrono.{Chrono}
use servr.Core.State.{unwrap_or}
use servr.Stream.Chunks.{Drained, drain}

pub record Params : Type 0 where
  pub chunks : ℕ
  pub delay_ms : ℕ
  pub fail_at : Option ℕ
  pub body : Text

abbrev pub default_chunks : ℕ
default_chunks = 3

abbrev pub default_body : Text
default_body = bytes "chunk"

-- The parameters that a query gives.
unfoldable pub params_from : Option ℕ → Option ℕ → Option ℕ → Option Text → Params
params_from chunks delay_ms fail_at body = record {
  chunks = unwrap_or chunks default_chunks;
  delay_ms = unwrap_or delay_ms 0;
  fail_at = fail_at;
  body = unwrap_or body default_body;
}

pub record Chunk : Type 0 where
  pub stream : ℕ
  pub seq : ℕ
  pub body : Text

-- The answer, as a client that makes `fuel` reads gets it.
unfoldable pub scripted_reply :
    (chrono : Chrono)
    → ℕ
    → Params
    → chrono.DateTime
    → ℕ
    → (ℕ → List chrono.DateTime)
    → Drained Chunk
scripted_reply chrono id params start fuel readings =
    drain chrono params.chunks params.fail_at start params.delay_ms
      (λ seq. record { stream = id; seq = seq; body = params.body }) fuel 0 readings []
