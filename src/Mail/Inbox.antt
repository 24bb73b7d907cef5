-- ===== src/Mail/Inbox.antt =====
-- `Inbox` of crates/mail/src/inbox.rs, the read half over Mailpit's REST API, and `MailError` of
-- crates/mail/src/lib.rs. What Mailpit answers to a path is a parameter.
pub mod Isolation
use servr.Common.{
  ℕ, ◌⊎◌, inl, inr, Bool, true, false, ◌||◌, ◌&&◌, Option, none, some, List, [], ◌∷◌, ◌++◌, map,
  Text, bytes, bytes_beq, leb, ◌==◌, ◌/◌, ◌%◌, ◌+◌, ltb, trim, to_ascii_lowercase, show_ℕ, and_then,
  if◌then◌else◌,
}
use servr.Core.State.{unwrap_or}

pub data MailError : Type 0 where
  config_error build_error smtp_error api_error : Text → MailError
  status_error : (status : ℕ) (path : Text) → MailError
  recipient_not_allowed : (to : Text) → MailError
  no_inbox : MailError

abbrev pub run_header_name : Text
run_header_name = bytes "X-Testbed-Run"

abbrev pub default_limit : ℕ
default_limit = 200

pub record Summary : Type 0 where
  pub id : Text
  pub message_id : Text
  pub from_address : Option Text
  pub to_addresses : Option (List Text)
  pub subject : Text
  pub snippet : Text
  pub created : Text

pub record Message : Type 0 where
  pub id : Text
  pub message_id : Text
  pub from_address : Text
  pub to_addresses : List Text
  pub subject : Text
  pub snippet : Text
  pub created : Text
  pub run : Option Text

-- `From<Summary>`
unfoldable pub from_summary : Summary → Message
from_summary s = record {
  id = s.id;
  message_id = s.message_id;
  from_address = unwrap_or s.from_address [];
  to_addresses = unwrap_or s.to_addresses [];
  subject = s.subject;
  snippet = s.snippet;
  created = s.created;
  run = none;
}

-- No answer, or a status and the body as it is decoded.
pub data Reply (A : Type 0) : Type 0 where
  unreachable : Text → Reply A
  answered : (status : ℕ) → Text ⊎ A → Reply A

abbrev pub is_success : ℕ → Bool
is_success status = leb 200 status && leb status 299

abbrev pub decoded : {A : Type 0} → Text → Text ⊎ A → MailError ⊎ A
decoded path (inl e) = inl (api_error (path ++ (bytes ": " ++ e)))
decoded path (inr a) = inr a

unfoldable pub get : {A : Type 0} → Text → Reply A → MailError ⊎ A
get path (unreachable e) = inl (api_error e)
get path (answered status body) =
    if is_success status then decoded path body else inl (status_error status path)

-- A header's name and its values.
abbrev pub Headers : Type 0
Headers = List (Text × List Text)

pub record Mailpit : Type 1 where
  pub Box : Type 0
  pub listing : Box → Text → Reply (List Summary)
  pub headers : Box → Text → Reply Headers
  pub delete_messages : Box → Box × (Text ⊎ ℕ)

-- A digit of `{:02X}`.
abbrev pub upper_digit : ℕ → ℕ
upper_digit n = if ltb n 10 then 48 + n else 55 + n

abbrev pub is_unreserved : ℕ → Bool
is_unreserved b =
    leb 65 b && leb b 90
    || leb 97 b && leb b 122
    || leb 48 b && leb b 57
    || b == 45
    || b == 95
    || b == 46
    || b == 126

-- Over the query's UTF-8 bytes.
unfoldable pub urlencode : Text → Text
urlencode [] = []
urlencode (b ∷ bs) =
    let rest = urlencode bs in
    if is_unreserved b
    then b ∷ rest
    else (if b == 32 then 43 ∷ rest else 37 ∷ upper_digit (b / 16) ∷ upper_digit (b % 16) ∷ rest)

unfoldable pub messages_path : ℕ → Text
messages_path limit = bytes "/api/v1/messages?limit=" ++ show_ℕ limit

unfoldable pub listing_path : Option Text → ℕ → Text
listing_path none limit = messages_path limit
listing_path (some []) limit = messages_path limit
listing_path (some (c ∷ q)) limit =
    bytes "/api/v1/search?limit=" ++ (show_ℕ limit ++ (bytes "&query=" ++ urlencode (c ∷ q)))

unfoldable pub headers_path : Text → Text
headers_path id = bytes "/api/v1/message/" ++ (id ++ bytes "/headers")

abbrev pub eq_ignore_ascii_case : Text → Text → Bool
eq_ignore_ascii_case a b = bytes_beq (to_ascii_lowercase a) (to_ascii_lowercase b)

unfoldable pub find_header : Headers → Option (List Text)
find_header [] = none
find_header ((name, values) ∷ hs) =
    if eq_ignore_ascii_case name run_header_name then some values else find_header hs

-- The first value of the header, trimmed.
unfoldable pub run_of_headers : Headers → Option Text
run_of_headers hs = elim (find_header hs) [
  | none ↦ none
  | some values ↦ elim values [ [] ↦ none | v ∷ vs ↦ some (trim v) ]
]

abbrev pub is_tag : Option Text → Text → Bool
is_tag none wanted = false
is_tag (some tag) wanted = bytes_beq tag wanted

module _ (mailpit : Mailpit) where
  open mailpit use {Box, listing, headers, delete_messages}

  unfoldable pub all : Box → Option Text → ℕ → MailError ⊎ List Message
  all box query limit =
      let path = listing_path query limit in
      and_then (get path (listing box path)) (λ summaries. inr (map from_summary summaries))

  unfoldable pub run_header : Box → Text → MailError ⊎ Option Text
  run_header box id =
      let path = headers_path id in
      and_then (get path (headers box path)) (λ hs. inr (run_of_headers hs))

  -- The loop over the candidates; the first error ends it.
  unfoldable pub filter_run : Box → Text → List Message → MailError ⊎ List Message
  filter_run box wanted [] = inr []
  filter_run box wanted (message ∷ messages) =
      let rest = filter_run box wanted messages in
      and_then (run_header box message.id) (λ tag.
        and_then rest
          (λ kept. inr (if is_tag tag wanted then record message { run = tag } ∷ kept else kept)))

  -- `wanted` is the run's header value.
  unfoldable pub for_run : Box → Text → Option Text → ℕ → MailError ⊎ List Message
  for_run box wanted query limit =
      and_then (all box query limit) (λ messages. filter_run box wanted messages)

  abbrev pub purged : Text ⊎ ℕ → MailError ⊎ Unit {0}
  purged (inl e) = inl (api_error e)
  purged (inr status) =
      if is_success status then inr tt else inl (status_error status (bytes "/api/v1/messages"))

  unfoldable pub purge : Box → Box × (MailError ⊎ Unit {0})
  purge box = let (box', reply) = delete_messages box in (box', purged reply)
