-- ===== src/Examples/Hooks.antt =====
-- The theorems on crates/hooks at concrete inputs: an endpoint that fails its first two attempts.
use servr.Common.{
  get_elem?, map, ◌++◌, ◌%◌, bytes_beq, encode_hex, decode_hex, AreBytes, decode_hex-encode_hex,
  encode_hex-All, Bytes, ℕ, ◌≡◌, refl, true, false, none, some, List, [], ◌∷◌, inr, bytes, pos,
  negsuc, show_ℤ, show_ℕ, digits_loop, as_i64, ◌+ℤ◌, All, arith,
}
use servr.Core.Chrono.{milliseconds}
use servr.Core.Fault.{WebhookEndpoint, stripe, github, unsigned}
use servr.Hooks.Sign.{Crypto, header, verify, stripe_payload, hex_hmac, stripe_header}
use servr.Hooks.Sign.Round.{CryptoLaws, signed, verify-header}
use servr.Hooks.Outbound.{
  Post, deliver, begin, Json, Delivery, Sender, Readings, max_attempts, due_for, backoff,
}
use servr.Admin.Hooks.{Hooks, NewDelivery, hooks_send}
use servr.Admin.Hooks.Echo.{hooks_send_echo}
use servr.Hooks.Outbound.Passes.{AreDistinct, find_delivery}
use servr.Hooks.Outbound.Ladder.{Pass, IsOnLadder, run_passes, retries-IsOnLadder}
use servr.Hooks.Outbound.Delivered.{CanArrive, Favourable, delivered_after_fail_first}
use servr.Hooks.Inbound.{Reader, new, captures, capacity}
use servr.Hooks.Inbound.Newest.{Call, posts, clears, run_calls, history, newest, captures-newest}

-- Stands for a digest: the bytes' low halves.
abbrev truncate : Bytes → Bytes
truncate = map (λ b. b % 256)

truncate-AreBytes : (bs : Bytes) → AreBytes (truncate bs)
truncate-AreBytes [] = tt
truncate-AreBytes (b ∷ bs) = (omega arith, truncate-AreBytes bs)

abbrev crypto : Crypto milliseconds
crypto = record {
  hmac = λ secret message. truncate (secret ++ message);
  verify_slice = λ secret message tag. bytes_beq (truncate (secret ++ message)) tag;
  hex_encode = encode_hex;
  hex_decode = decode_hex;
  sha256 = λ body. body;
  timestamp = λ t. t;
}

crypto-CryptoLaws : CryptoLaws crypto
crypto-CryptoLaws = record {
  hmac-AreBytes = λ secret message. truncate-AreBytes (secret ++ message);
  verify_slice_lem = λ secret message tag. refl;
  decode-encode = decode_hex-encode_hex;
  encode-All = encode_hex-All;
}

abbrev signature : Bytes
signature = bytes "t=-7,v1=" ++ encode_hex (truncate (bytes "key" ++ bytes "-7.body"))

verify-header_example :
    verify milliseconds crypto stripe (bytes "key") (bytes "body") signature
    ≡ bytes_beq (truncate (bytes "key-7.body")) (truncate (bytes "key-7.body"))
unfolding header stripe_payload hex_hmac show_ℤ show_ℕ digits_loop signed
verify-header_example =
    verify-header milliseconds crypto crypto-CryptoLaws stripe (bytes "key") (bytes "key")
      (bytes "body") (bytes "body") (negsuc 6) stripe_header signature (omega arith, omega arith)
      refl

abbrev json : Json
json = record { Value = ℕ; to_vec = λ n. inr (n ∷ []) }

abbrev D : Type 0
D = Delivery milliseconds crypto json

abbrev endpoint : WebhookEndpoint
endpoint = record {
  name = bytes "billing";
  url = bytes "http://localhost/hook";
  sign = stripe;
  secret = none;
  backoff_ms = [];
  fail_first = 2;
}

abbrev delivery : D
delivery = record {
  id = 3;
  endpoint = endpoint;
  body = 49;
  enqueued_at = pos 500;
  attempt = 0;
  due_at = pos 500;
  trace = none;
  done = false;
  last_status = none;
  last_error = none;
}

abbrev sender : Sender milliseconds crypto json
sender = record { queue = delivery ∷ []; events = []; sent = [] }

abbrev readings : D → Readings milliseconds crypto json
readings d = record {
  signed_at = pos 60500;
  emitted_at = pos 60500;
  context = [];
  answer = λ p. inr 204;
}

-- One advance by sixty seconds, then three passes.
abbrev passes : List (Pass milliseconds crypto json)
passes = (pos 60500, readings) ∷ (pos 60500, readings) ∷ (pos 60500, readings) ∷ []

sender-AreDistinct : AreDistinct milliseconds crypto json sender.queue
sender-AreDistinct = (refl, tt)

delivery-IsOnLadder : IsOnLadder milliseconds crypto json delivery
unfolding max_attempts backoff due_for as_i64 ◌+ℤ◌
delivery-IsOnLadder = record { within = omega arith; left = λ e. omega arith; due = λ e. refl }

retries-IsOnLadder_example :
    (d' : D) × (find_delivery milliseconds crypto json 3
        (run_passes milliseconds crypto json passes sender).queue
      ≡ some d')
    × IsOnLadder milliseconds crypto json d'
retries-IsOnLadder_example =
    retries-IsOnLadder milliseconds crypto json passes sender 3 delivery sender-AreDistinct refl
      delivery-IsOnLadder

delivery-CanArrive : CanArrive milliseconds crypto json delivery
unfolding max_attempts backoff
delivery-CanArrive = record {
  on_ladder = delivery-IsOnLadder;
  waits = refl;
  early = omega arith;
  enough = omega arith;
  fits = omega arith;
}

passes-Favourable : All (Favourable milliseconds crypto json delivery) passes
unfolding due_for max_attempts backoff as_i64 ◌+ℤ◌
passes-Favourable = ((refl, λ x p. refl), ((refl, λ x p. refl), ((refl, λ x p. refl), tt)))

delivered_after_fail_first_example :
    (d' : D) × (find_delivery milliseconds crypto json 3
        (run_passes milliseconds crypto json passes sender).queue
      ≡ some d')
    × (d'.done ≡ true)
    × (d'.attempt ≡ 3)
    × (d'.last_error ≡ none)
delivered_after_fail_first_example =
    delivered_after_fail_first milliseconds crypto json passes sender 3 delivery (49 ∷ [])
      sender-AreDistinct refl delivery-CanArrive refl refl passes-Favourable

abbrev reader : Reader
reader = record {
  Value = Bytes;
  from_slice = λ raw. none;
  text_value = λ raw. raw;
  sha256 = λ raw. raw;
}

-- Two posts to one endpoint, one to another, and a clear of that one.
abbrev posted : List (Call milliseconds reader)
posted =
    posts (bytes "abc") ((bytes "X-Custom", some (bytes "yes")) ∷ []) (bytes "one") (pos 10)
    ∷ posts (bytes "xyz") [] (bytes "two") (pos 20)
    ∷ clears (some (bytes "xyz"))
    ∷ posts (bytes "abc") [] (bytes "three") (pos 30)
    ∷ []

captures-newest_example :
    captures milliseconds reader
      (run_calls milliseconds reader (new milliseconds reader) posted)
      (bytes "abc")
    ≡ newest capacity (history milliseconds reader (bytes "abc") [] posted)
captures-newest_example = captures-newest milliseconds reader posted (bytes "abc")

abbrev hooks : Hooks milliseconds crypto json reader
hooks = record { inbox = new milliseconds reader; sender = sender }

-- Signed for GitHub under the default secret.
abbrev github_delivery : NewDelivery milliseconds crypto json reader
github_delivery = record {
  url = bytes "http://localhost/in";
  name = none;
  sign = some github;
  secret = none;
  backoff_ms = none;
  fail_first = none;
  body = some 50;
}

github-ne-unsigned : ¬ (github ≡ unsigned)
github-ne-unsigned e = cc

hooks_send_echo_example :
    let (hooks', answer) =
      hooks_send milliseconds crypto json reader hooks github_delivery 49 8 (pos 900) none in
    (d : D) × (hooks'.sender.queue ≡ hooks.sender.queue ++ d ∷ [])
    × (d.id ≡ answer.id)
    × (d.due_at ≡ pos 900)
    × (p : Post) × ((deliver milliseconds crypto json
          (begin milliseconds crypto json d)
          (readings delivery)).0
        ≡ p ∷ [])
    × (p.url ≡ github_delivery.url)
    × (name : Bytes) × (value : Bytes) × (get_elem? p.headers 1 ≡ some (name, value))
    × (verify milliseconds crypto answer.sign answer.secret p.body value ≡ true)
hooks_send_echo_example =
    hooks_send_echo milliseconds crypto crypto-CryptoLaws json reader hooks github_delivery 49 8
      (pos 900) none (readings delivery) (50 ∷ []) github-ne-unsigned refl refl
      (omega arith, omega arith)
