-- ===== src/Stream/Chat.antt =====
-- `POST /v1/chat/completions` of crates/stream/src/chat.rs: what is replied, in how many chunks, and
-- what a client makes of them. The JSON text of a chunk is left as the values it is made of.
pub mod Reply
use servr.Common.{
  ℕ, zero, suc, ◌*◌, Bool, true, false, ℤ, Option, none, some, List, [], ◌∷◌, ◌++◌, map, Text,
  bytes, bytes_beq, length, if◌then◌else◌,
}
use servr.Core.Chrono.{Chrono}
use servr.Core.State.{unwrap_or}
use servr.Stream.Chunks.{tokenize, Drained, drain}

pub record ChatMessage : Type 0 where
  pub role : Text
  pub content : Text

pub record ChatRequest : Type 0 where
  pub model : Option Text
  pub messages : List ChatMessage
  pub streamed : Bool
  pub delay_ms : ℕ
  pub fail_at : Option ℕ

-- `rev().find(p)`: the last that passes.
unfoldable pub last_of : (ChatMessage → Bool) → List ChatMessage → Option ChatMessage
last_of p [] = none
last_of p (m ∷ ms) = elim (last_of p ms) [
  | some later ↦ some later
  | none ↦ if p m then some m else none
]

abbrev pub is_user : ChatMessage → Bool
is_user m = bytes_beq m.role (bytes "user")

-- Of an empty conversation the reply is empty.
unfoldable pub reply_text : ChatRequest → Text
reply_text r = elim (last_of is_user r.messages) [
  | some m ↦ m.content
  | none ↦ elim (last_of (λ m. true) r.messages) [ some m ↦ m.content | none ↦ [] ]
]

unfoldable pub model : ChatRequest → Text
model r = unwrap_or r.model (bytes "testbed-echo")

pub data Delta : Type 0 where
  role : Delta
  content : Text → Delta
  nothing : Delta

-- The payload of one server-sent event.
pub data Piece : Type 0 where
  chunk_piece : (model : Text) (created : ℤ) → Delta → (finish_reason : Option Text) → Piece
  done : Piece

unfoldable pub pieces : Text → ℤ → Text → List Piece
pieces model created text =
    chunk_piece model created role none
    ∷ (map (λ token. chunk_piece model created (content token) none) (tokenize text)
        ++ (chunk_piece model created nothing (some (bytes "stop")) ∷ done ∷ []))

-- A completion that is not streamed; sizes are counted in the text's units.
pub record Completion : Type 0 where
  pub model : Text
  pub created : ℤ
  pub content : Text
  pub prompt_tokens : ℕ
  pub completion_tokens : ℕ
  pub total_tokens : ℕ

unfoldable pub completion : Text → ℤ → Text → Completion
completion model created text = record {
  model = model;
  created = created;
  content = text;
  prompt_tokens = length text;
  completion_tokens = length text;
  total_tokens = length text * 2;
}

-- `pieces[index]`, which the stream takes only within bounds.
abbrev pub piece_at : List Piece → ℕ → Piece
piece_at [] index = done
piece_at (p ∷ ps) zero = p
piece_at (p ∷ ps) (suc index) = piece_at ps index

-- The streamed answer, as a client that makes `fuel` reads gets it.
unfoldable pub streamed_reply :
    (chrono : Chrono)
    → ChatRequest
    → ℤ
    → chrono.DateTime
    → ℕ
    → (ℕ → List chrono.DateTime)
    → Drained Piece
streamed_reply chrono r created start fuel readings =
    let ps = pieces (model r) created (reply_text r) in
    drain chrono (length ps) r.fail_at start r.delay_ms (piece_at ps) fuel 0 readings []
