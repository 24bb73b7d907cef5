-- ===== src/Admin/Hooks/Echo.antt =====
-- The answer to a queued delivery of crates/admin/src/lib.rs against the request that goes out.
use servr.Common.{
  ℕ, ◌≡◌, ◌≢◌, refl, ◌∙◌, true, false, Option, none, some, [], ◌∷◌, ◌++◌, inr, Bytes, FitsI64,
  bytes_beq, bytes_beq_iff, get_elem?,
}
use servr.Core.Chrono.{Chrono}
use servr.Core.Fault.{SigningScheme, stripe, github, unsigned}
use servr.Core.State.{unwrap_or}
use servr.Hooks.Sign.{Crypto, default_secret, header, verify}
use servr.Hooks.Sign.Round.{CryptoLaws, signed, verify-header}
use servr.Hooks.Inbound.{Reader}
use servr.Hooks.Outbound.{Json, Delivery, Post, Readings, endpoint_from, begin, deliver, post}
use servr.Admin.Hooks.{Hooks, NewDelivery, hooks_send}

bytes_beq_refl : (b : Bytes) → bytes_beq b b ≡ true
bytes_beq_refl b = (bytes_beq_iff b b).1 refl

module _ (chrono : Chrono) (crypto : Crypto chrono) (laws : CryptoLaws crypto) (json : Json)
    (reader : Reader) where
  open chrono use {DateTime}
  open json use {Value, to_vec}

  signs :
      (scheme : SigningScheme) (secret body : Bytes) (at : DateTime)
      → scheme ≢ unsigned
      → (name : Bytes) × (value : Bytes) × (header chrono crypto scheme secret body at
          ≡ some (name, value))
  unfolding header
  signs stripe secret body at n = (_, _, refl)
  signs github secret body at n = (_, _, refl)
  signs unsigned secret body at n = absurd (n refl)

  own_verifies :
      (scheme : SigningScheme) (secret body : Bytes) (at : DateTime) (name value : Bytes)
      → FitsI64 (crypto.timestamp at)
      → header chrono crypto scheme secret body at ≡ some (name, value)
      → verify chrono crypto scheme secret body value ≡ true
  own_verifies scheme secret body at name value fits h =
      verify-header chrono crypto laws scheme secret secret body body at name value fits h
      ∙ bytes_beq_refl
          (crypto.hmac secret (signed chrono crypto laws scheme (crypto.timestamp at) body))

  -- A posted delivery is queued last, due at once and under the id of the answer. If it fails no
  -- attempt by itself, has a scheme that signs and a body with a text, its first attempt sends one
  -- request to the url asked for, and what the answer says suffices to check it: the request has a
  -- signature header that `verify` accepts under the scheme and the secret of the answer, the
  -- default one included.
  pub hooks_send_echo :
      (hooks : Hooks chrono crypto json reader) (body : NewDelivery chrono crypto json reader)
      (ok_true : Value) (id : ℕ) (now : DateTime) (trace : Option (ℕ × ℕ))
      (r : Readings chrono crypto json) (text : Bytes)
      → unwrap_or body.sign stripe ≢ unsigned
      → unwrap_or body.fail_first 0 ≡ 0
      → to_vec (unwrap_or body.body ok_true) ≡ inr text
      → FitsI64 (crypto.timestamp r.signed_at)
      → let (hooks', answer) =
          hooks_send chrono crypto json reader hooks body ok_true id now trace in
        (d : Delivery chrono crypto json) × (hooks'.sender.queue ≡ hooks.sender.queue ++ d ∷ [])
        × (d.id ≡ answer.id)
        × (d.due_at ≡ now)
        × (p : Post) × ((deliver chrono crypto json (begin chrono crypto json d) r).0 ≡ p ∷ [])
        × (p.url ≡ body.url)
        × (name : Bytes) × (value : Bytes) × (get_elem? p.headers 1 ≡ some (name, value))
        × (verify chrono crypto answer.sign answer.secret p.body value ≡ true)
  unfolding hooks_send begin deliver post
  hooks_send_echo hooks body ok_true id now trace r text signs_it no_fail made fits =
      let secret = unwrap_or body.secret default_secret in
      let scheme = unwrap_or body.sign stripe in
      let (name, value, h) = signs scheme secret text r.signed_at signs_it in
      let d : Delivery chrono crypto json = record {
        id = id;
        endpoint =
            endpoint_from body.name body.url body.sign body.secret body.backoff_ms body.fail_first;
        body = unwrap_or body.body ok_true;
        enqueued_at = now;
        attempt = 0;
        due_at = now;
        trace = trace;
        done = false;
        last_status = none;
        last_error = none;
      } in
      (
        d,
        refl,
        refl,
        refl,
        post chrono crypto json (begin chrono crypto json d) text r,
        rw (deliver, no_fail, made) refl,
        refl,
        name,
        value,
        rw h refl,
        own_verifies scheme secret text r.signed_at name value fits h,
      )
