-- ===== src/Hooks/Sign.antt =====
-- crates/hooks/src/sign.rs: the header that signs a delivery, and the check of one. HMAC-SHA256 with
-- its verifier, the hexadecimal codec and the calendar's Unix seconds are parameters. A header's
-- value is the list of its code points.
pub mod Round
use servr.Common.{
  Bool, false, ℤ, Option, none, some, List, [], ◌∷◌, ◌++◌, Bytes, bytes, bytes_beq, show_ℤ,
  parse_i64, trim, split, split_once, strip_prefix, if◌then◌else◌,
}
use servr.Core.Chrono.{Chrono}
use servr.Core.Fault.{SigningScheme, stripe, github, unsigned}

abbrev pub stripe_header : Bytes
stripe_header = bytes "stripe-signature"

abbrev pub github_header : Bytes
github_header = bytes "x-hub-signature-256"

abbrev pub default_secret : Bytes
default_secret = bytes "testbed-webhook-secret"

-- HMAC-SHA256 of a message under a secret, and its own verifier; `hex::encode` and `hex::decode`;
-- SHA-256; an instant, to seconds.
pub record Crypto (chrono : Chrono) : Type 0 where
  pub hmac : Bytes → Bytes → Bytes
  pub verify_slice : Bytes → Bytes → Bytes → Bool
  pub hex_encode : Bytes → Bytes
  pub hex_decode : Bytes → Option Bytes
  pub sha256 : Bytes → Bytes
  pub timestamp : chrono.DateTime → ℤ

-- `parse_stripe`'s loop over the parts of the value, with `t` and `v1` so far.
unfoldable pub read_part : Bytes → Option ℤ × Option Bytes → Option ℤ × Option Bytes
read_part part (t, v1) = elim (split_once 61 (trim part)) [
  | none ↦ (t, v1)
  | some (key, raw) ↦
      if bytes_beq key (bytes "t")
      then (parse_i64 raw, v1)
      else (if bytes_beq key (bytes "v1") then (t, some raw) else (t, v1))
]

unfoldable pub read_parts : List Bytes → Option ℤ × Option Bytes → Option ℤ × Option Bytes
read_parts [] found = found
read_parts (part ∷ parts) found = read_parts parts (read_part part found)

unfoldable pub parse_stripe : Bytes → Option (ℤ × Bytes)
parse_stripe value = both (read_parts (split 44 value) (none, none))
  where
    both : Option ℤ × Option Bytes → Option (ℤ × Bytes)
    both (some t, some v1) = some (t, v1)
    both (some t, none) = none
    both (none, v1) = none

module _ (chrono : Chrono) (crypto : Crypto chrono) where
  open chrono use {DateTime}
  open crypto use {hmac, verify_slice, hex_encode, hex_decode, sha256, timestamp}

  unfoldable pub hex_hmac : Bytes → Bytes → Bytes
  hex_hmac secret message = hex_encode (hmac secret message)

  unfoldable pub stripe_payload : ℤ → Bytes → Bytes
  unfolding show_ℤ
  stripe_payload t body = (show_ℤ t ++ bytes ".") ++ body

  unfoldable pub header : SigningScheme → Bytes → Bytes → DateTime → Option (Bytes × Bytes)
  unfolding stripe_payload hex_hmac
  header unsigned secret body at = none
  header stripe secret body at =
      let t = timestamp at in
      let mac = hex_hmac secret (stripe_payload t body) in
      some (stripe_header, bytes "t=" ++ (show_ℤ t ++ (bytes ",v1=" ++ mac)))
  header github secret body at = some (github_header, bytes "sha256=" ++ hex_hmac secret body)

  unfoldable pub constant_time_eq : Bytes → Bytes → Bytes → Bool
  constant_time_eq secret message expected_hex = elim (hex_decode expected_hex) [
    | none ↦ false
    | some expected ↦ verify_slice secret message expected
  ]

  unfoldable pub verify : SigningScheme → Bytes → Bytes → Bytes → Bool
  verify unsigned secret body value = false
  verify stripe secret body value = elim (parse_stripe value) [
    | none ↦ false
    | some (t, mac) ↦ constant_time_eq secret (stripe_payload t body) mac
  ]
  verify github secret body value = elim (strip_prefix (bytes "sha256=") value) [
    | none ↦ false
    | some mac ↦ constant_time_eq secret body mac
  ]

  -- In hexadecimal.
  unfoldable pub body_sha256 : Bytes → Bytes
  body_sha256 body = hex_encode (sha256 body)
