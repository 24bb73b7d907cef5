-- ===== src/Common/Hex.antt =====
-- Bytes in hexadecimal: `{:02x}` of each, `hex::decode`'s reading of pairs of digits, and that the
-- second undoes the first.
use Prim.Native.Nat.{ℕ, ◌+◌, ◌-◌, ◌*◌, ◌/◌, ◌%◌, ◌<◌}
use mathlib.Core.Path.{◌≡◌, refl, ap}
use mathlib.Core.Bool.{Bool, true, ◌&&◌, ◌||◌}
use mathlib.Core.List.{[], ◌∷◌}
use mathlib.Core.Option.{Option, none, some}
use native.Mathlib.Omega.{arith}
use servr.Common.Tests.{leb, ltb, if◌then◌else◌}
use servr.Common.Lists.{All, length}
use servr.Common.Keys.{Bytes}

-- The numbers of a list are bytes.
abbrev pub AreBytes : Bytes → Type 0
AreBytes = All (λ b. b < 256)

-- A lower-case hexadecimal digit.
abbrev pub is_hex : ℕ → Bool
is_hex c = leb 48 c && leb c 57 || leb 97 c && leb c 102

abbrev pub hex_digit : ℕ → ℕ
hex_digit n = if ltb n 10 then 48 + n else 87 + n

-- `char::to_digit(16)`: digits of both cases.
abbrev pub hex_value : ℕ → Option ℕ
hex_value c =
    if leb 48 c && leb c 57
    then some (c - 48)
    else (if leb 97 c && leb c 102
        then some (c - 87)
        else (if leb 65 c && leb c 70 then some (c - 55) else none))

unfoldable pub encode_hex : Bytes → Bytes
encode_hex [] = []
encode_hex (b ∷ bs) = hex_digit (b / 16) ∷ hex_digit (b % 16) ∷ encode_hex bs

abbrev pub pair_value : Option ℕ → Option ℕ → Option ℕ
pair_value (some high) (some low) = some (16 * high + low)
pair_value (some high) none = none
pair_value none low = none

abbrev pub cons_byte : Option ℕ → Option Bytes → Option Bytes
cons_byte (some b) (some bs) = some (b ∷ bs)
cons_byte (some b) none = none
cons_byte none bs = none

unfoldable pub decode_hex : Bytes → Option Bytes
decode_hex [] = some []
decode_hex (c ∷ []) = none
decode_hex (c ∷ d ∷ cs) = cons_byte (pair_value (hex_value c) (hex_value d)) (decode_hex cs)

pub hex_value-hex_digit : (n : ℕ) → n < 16 → hex_value (hex_digit n) ≡ some n
hex_value-hex_digit n h = ground arith

pub hex_digit-is_hex : (n : ℕ) → n < 16 → is_hex (hex_digit n) ≡ true
hex_digit-is_hex n h = ground arith

pub pair_value-hex_digit :
    (b : ℕ)
    → b < 256
    → pair_value (hex_value (hex_digit (b / 16))) (hex_value (hex_digit (b % 16))) ≡ some b
pair_value-hex_digit b h =
    let parts : 16 * (b / 16) + b % 16 ≡ b = omega arith in
    rw (hex_value-hex_digit (b / 16) (omega arith), hex_value-hex_digit (b % 16) (omega arith))
      (ap some parts)

pub encode_hex-All : (bs : Bytes) → AreBytes bs → All (λ c. is_hex c ≡ true) (encode_hex bs)
unfolding encode_hex
encode_hex-All [] h = h
encode_hex-All (b ∷ bs) h =
    let below = h.0 in
    (
      hex_digit-is_hex (b / 16) (omega arith),
      (hex_digit-is_hex (b % 16) (omega arith), encode_hex-All bs h.1),
    )

pub length-encode_hex : (bs : Bytes) → length (encode_hex bs) ≡ 2 * length bs
unfolding encode_hex
length-encode_hex [] = refl
length-encode_hex (b ∷ bs) = omega (arith, length-encode_hex bs)

pub decode_hex-encode_hex : (bs : Bytes) → AreBytes bs → decode_hex (encode_hex bs) ≡ some bs
unfolding decode_hex encode_hex
decode_hex-encode_hex [] h = refl
decode_hex-encode_hex (b ∷ bs) h =
    rw (pair_value-hex_digit b h.0, decode_hex-encode_hex bs h.1) refl
