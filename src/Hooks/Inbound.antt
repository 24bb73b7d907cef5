-- ===== src/Hooks/Inbound.antt =====
-- `Inbox` of crates/hooks/src/inbound.rs: what was posted to each endpoint, and the handler that
-- captures a request. The JSON parser and the digest are parameters; spans and the stamps of the
-- event are left out.
pub mod Newest
use servr.Common.{
  to_ascii_lowercase, ℕ, ◌+◌, ◌-◌, Bool, true, false, ◌&&◌, Option, none, some, List, [], ◌∷◌, ◌++◌,
  map, Bytes, bytes, length, drop, lookup, insert, remove, bytes_eq, leb, ltb, if◌then◌else◌,
}
use servr.Core.Chrono.{Chrono}
use servr.Core.State.{unwrap_or}

abbrev pub capacity : ℕ
capacity = 500

-- `serde_json::from_slice`, a JSON string of the text that the bytes are read as, and SHA-256 in
-- hexadecimal.
pub record Reader : Type 1 where
  pub Value : Type 0
  pub from_slice : Bytes → Option Value
  pub text_value : Bytes → Value
  pub sha256 : Bytes → Bytes

-- A header's value is `none` when it is no text.
unfoldable pub header_map : List (Bytes × Option Bytes) → List (Bytes × Bytes)
header_map headers = collect headers []
  where
    collect : List (Bytes × Option Bytes) → List (Bytes × Bytes) → List (Bytes × Bytes)
    collect [] m = m
    collect ((name, value) ∷ hs) m =
        collect hs (insert (to_ascii_lowercase name) (unwrap_or value (bytes "<non-utf8>")) m)

module _ (chrono : Chrono) (reader : Reader) where
  open chrono use {DateTime}
  open reader use {Value, from_slice, text_value, sha256}

  pub record Capture : Type 0 where
    pub at : DateTime
    pub headers : List (Bytes × Bytes)
    pub body : Value
    pub body_sha256 : Bytes

  -- `EventKind::WebhookIn`.
  pub record WebhookIn : Type 0 where
    pub endpoint : Bytes
    pub headers : List (Bytes × Bytes)
    pub body_sha256 : Bytes

  -- The captures of every endpoint, and the events that the bus was given.
  pub record Inbox : Type 0 where
    pub endpoints : List (Bytes × List Capture)
    pub events : List WebhookIn

  unfoldable pub new : Inbox
  new = record { endpoints = []; events = [] }

  unfoldable pub parse_body : Bytes → Value
  parse_body raw = elim (from_slice raw) [ some value ↦ value | none ↦ text_value raw ]

  unfoldable pub captures : Inbox → Bytes → List Capture
  captures inbox endpoint = unwrap_or (lookup endpoint inbox.endpoints) []

  -- The oldest go first when there are more than `capacity`.
  unfoldable pub trim : List Capture → List Capture
  trim kept = if ltb capacity (length kept) then drop (length kept - capacity) kept else kept

  -- `now` is the virtual time.
  unfoldable pub record_request :
      Inbox → Bytes → List (Bytes × Option Bytes) → Bytes → DateTime → Inbox × Capture
  unfolding header_map parse_body trim
  record_request inbox endpoint headers raw now =
      let capture : Capture = record {
        at = now;
        headers = header_map headers;
        body = parse_body raw;
        body_sha256 = sha256 raw;
      } in
      let kept = unwrap_or (lookup endpoint inbox.endpoints) [] ++ capture ∷ [] in
      (record inbox { endpoints = insert endpoint (trim kept) inbox.endpoints }, capture)

  unfoldable pub summary : Inbox → List (Bytes × ℕ)
  summary inbox = map (λ (name, kept). (name, length kept)) inbox.endpoints

  unfoldable pub clear : Inbox → Option Bytes → Inbox
  clear inbox none = record inbox { endpoints = [] }
  clear inbox (some name) = record inbox { endpoints = remove name inbox.endpoints }

  -- The handler of a post, with the digest of its answer.
  unfoldable pub capture :
      Inbox → Bytes → List (Bytes × Option Bytes) → Bytes → DateTime → Inbox × Bytes
  unfolding record_request
  capture inbox id headers body now =
      let (recorded, c) = record_request inbox id headers body now in
      (
        record recorded {
          events =
              recorded.events
              ++ record { endpoint = id; headers = c.headers; body_sha256 = c.body_sha256 } ∷ [];
        },
        c.body_sha256,
      )
