-- ===== src/Hooks/Sign/Round.antt =====
-- That `verify` of crates/hooks/src/sign.rs accepts what `header` made, and refuses what another
-- secret made.
use servr.Common.{
  is_hex, AreBytes, ◌≡◌, refl, ap, sym, arith, ℕ, Bool, true, false, ◌&&◌, ◌||◌, leb, ℤ, FitsI64,
  Option, none, some, [], ◌∷◌, ◌++◌, Bytes, bytes_beq, All, is_numeral, is_whitespace, Lacks, ◌==◌,
  show_ℤ, show_ℤ-All, parse_i64, parse_i64-show_ℤ, split, split_none, split-append, trim_lem,
}
use servr.Core.Chrono.{Chrono}
use servr.Core.Fault.{SigningScheme, stripe, github, unsigned}
use servr.Hooks.Sign.{
  Crypto, read_part, read_parts, parse_stripe, header, hex_hmac, constant_time_eq, verify,
  stripe_payload,
}

-- What is neither a comma nor white space.
abbrev is_plain : ℕ → Bool
is_plain c = leb 33 c && leb c 126 && (leb c 43 || leb 45 c)

abbrev Plain : Bytes → Type 0
Plain = All (λ c. is_plain c ≡ true)

numerals-Plain : (cs : Bytes) → All (λ c. is_numeral c ≡ true) cs → Plain cs
numerals-Plain [] h = h
numerals-Plain (c ∷ cs) h =
    let plain : is_plain c ≡ true = let e = h.0 in ground arith in (plain, numerals-Plain cs h.1)

hex-Plain : (cs : Bytes) → All (λ c. is_hex c ≡ true) cs → Plain cs
hex-Plain [] h = h
hex-Plain (c ∷ cs) h =
    let plain : is_plain c ≡ true = let e = h.0 in ground arith in (plain, hex-Plain cs h.1)

Plain-no_comma : (cs : Bytes) → Plain cs → Lacks (λ c. c == 44) cs
Plain-no_comma [] h = h
Plain-no_comma (c ∷ cs) h =
    let other : (c == 44) ≡ false = let e = h.0 in ground arith in (other, Plain-no_comma cs h.1)

Plain-no_space : (cs : Bytes) → Plain cs → Lacks is_whitespace cs
Plain-no_space [] h = h
Plain-no_space (c ∷ cs) h =
    let other : is_whitespace c ≡ false = let e = h.0 in ground arith in
    (other, Plain-no_space cs h.1)

read_part-t :
    (raw : Bytes) (found : Option ℤ × Option Bytes)
    → Plain raw
    → read_part (116 ∷ 61 ∷ raw) found ≡ (parse_i64 raw, found.1)
unfolding read_part
read_part-t raw found h =
    rw (trim_lem (116 ∷ 61 ∷ raw) (Plain-no_space (116 ∷ 61 ∷ raw) (refl, (refl, h)))) refl

read_part-v1 :
    (raw : Bytes) (found : Option ℤ × Option Bytes)
    → Plain raw
    → read_part (118 ∷ 49 ∷ 61 ∷ raw) found ≡ (found.0, some raw)
unfolding read_part
read_part-v1 raw found h =
    rw
      (trim_lem (118 ∷ 49 ∷ 61 ∷ raw)
        (Plain-no_space (118 ∷ 49 ∷ 61 ∷ raw) (refl, (refl, (refl, h)))))
      refl

parse_stripe_lem :
    (t : ℤ) (mac : Bytes)
    → FitsI64 t
    → Plain mac
    → parse_stripe (116 ∷ 61 ∷ (show_ℤ t ++ (44 ∷ 118 ∷ 49 ∷ 61 ∷ mac))) ≡ some (t, mac)
unfolding parse_stripe read_parts
parse_stripe_lem t mac fits h =
    let number = numerals-Plain (show_ℤ t) (show_ℤ-All t) in
    let key = 116 ∷ 61 ∷ show_ℤ t in
    let value = 118 ∷ 49 ∷ 61 ∷ mac in
    let pieces : split 44 (key ++ 44 ∷ value) ≡ key ∷ value ∷ [] =
      rw
        (
          split-append 44 key value (Plain-no_comma key (refl, (refl, number))),
          split_none 44 value (Plain-no_comma value (refl, (refl, (refl, h)))),
        )
        refl in
    rw
      (
        pieces,
        read_part-t (show_ℤ t) (none, none) number,
        parse_i64-show_ℤ t fits,
        read_part-v1 mac (some t, none) h,
      )
      refl

-- What the `hmac` and `hex` crates promise: a tag is made of bytes, the verifier accepts the tag
-- itself and nothing else, decoding undoes encoding, and an encoded text is lower-case hexadecimal.
pub record CryptoLaws {chrono : Chrono} (crypto : Crypto chrono) : Type 0 where
  pub verify_slice_lem :
      (secret message tag : Bytes)
      → crypto.verify_slice secret message tag ≡ bytes_beq (crypto.hmac secret message) tag
  pub hmac-AreBytes : (secret message : Bytes) → AreBytes (crypto.hmac secret message)
  pub decode-encode :
      (raw : Bytes) → AreBytes raw → crypto.hex_decode (crypto.hex_encode raw) ≡ some raw
  pub encode-All : (raw : Bytes) → AreBytes raw → All (λ c. is_hex c ≡ true) (crypto.hex_encode raw)

value_of : Option (Bytes × Bytes) → Bytes
value_of none = []
value_of (some c) = c.1

some_value : (a b : Bytes × Bytes) → some a ≡ some b → a.1 ≡ b.1
unfolding value_of
some_value a b h = ap value_of h

module _ (chrono : Chrono) (crypto : Crypto chrono) (laws : CryptoLaws crypto) where
  open chrono use {DateTime}
  open crypto use {hmac, timestamp, hex_encode}

  constant_time_eq_lem :
      (secret message tag : Bytes)
      → AreBytes tag
      → constant_time_eq chrono crypto secret message (hex_encode tag)
        ≡ bytes_beq (hmac secret message) tag
  unfolding constant_time_eq
  constant_time_eq_lem secret message tag h =
      rw (constant_time_eq, laws.decode-encode tag h) (laws.verify_slice_lem secret message tag)

  -- What a scheme signs.
  unfoldable pub signed : SigningScheme → ℤ → Bytes → Bytes
  signed unsigned t body = []
  signed stripe t body = stripe_payload chrono crypto t body
  signed github t body = body

  -- Where a delivery carries a signature header, made of one secret and body at an instant whose
  -- seconds fit an `i64`, `verify` under another secret and of another body says of its value
  -- exactly whether the HMACs of what the scheme signs agree. So the signer's own secret and body
  -- verify.
  pub verify-header :
      (scheme : SigningScheme) (secret secret' body body' : Bytes) (at : DateTime)
      (name value : Bytes)
      → FitsI64 (timestamp at)
      → header chrono crypto scheme secret body at ≡ some (name, value)
      → verify chrono crypto scheme secret' body' value
        ≡ bytes_beq
            (hmac secret' (signed scheme (timestamp at) body'))
            (hmac secret (signed scheme (timestamp at) body))
  unfolding header verify signed hex_hmac
  verify-header unsigned secret secret' body body' at name value fits h = cc
  verify-header stripe secret secret' body body' at name value fits h =
      let t = timestamp at in
      let tag = hmac secret (stripe_payload chrono crypto t body) in
      let are_bytes = laws.hmac-AreBytes secret (stripe_payload chrono crypto t body) in
      let same = some_value _ _ h in
      rw
        (
          sym same,
          verify,
          parse_stripe_lem t (hex_encode tag) fits
              (hex-Plain (hex_encode tag) (laws.encode-All tag are_bytes)),
        )
        (constant_time_eq_lem secret' (stripe_payload chrono crypto t body') tag are_bytes)
  verify-header github secret secret' body body' at name value fits h =
      let same = some_value _ _ h in
      rw (sym same)
        (constant_time_eq_lem secret' body' (hmac secret body) (laws.hmac-AreBytes secret body))
