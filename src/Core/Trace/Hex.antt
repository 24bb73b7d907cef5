-- ===== src/Core/Trace/Hex.antt =====
-- Printing and parsing an id of crates/core/src/trace.rs: the round trip, which texts are accepted,
-- and the texts on which the parser stops the program.
use servr.Common.{
  ◌-◌, ◌/◌, ◌%◌, ◌||◌, lower, to_ascii_lowercase, append-nil, ℕ, zero, suc, ◌+◌, ◌*◌, ◌<◌, ◌≡◌, inl,
  inr, refl, ap, sym, ◌∙◌, arith, Bool, true, false, ◌&&◌, some, [], ◌∷◌, ◌++◌, Bytes, length,
  length-append, leb, ◌==◌, All, AreBytes, is_hex, hex_digit, hex_value, encode_hex,
  length-encode_hex, pair_value-hex_digit, hex_digit-is_hex, Bool-cases,
}
use servr.Core.Trace.{
  IsId, to_string, Parsed, ok, panics, is_continuation, at_boundary, push_byte, read_bytes,
  from_str,
}

hex_not_continuation : (c : ℕ) → is_hex c ≡ true → is_continuation c ≡ false
hex_not_continuation c h = ground arith

-- A byte of an id is read back, where a boundary follows.
read_bytes-hex_digit :
    (n b : ℕ) (rest : Bytes)
    → b < 256
    → at_boundary rest ≡ true
    → read_bytes (suc n) (hex_digit (b / 16) ∷ hex_digit (b % 16) ∷ rest)
      ≡ push_byte b (read_bytes n rest)
unfolding read_bytes
read_bytes-hex_digit n b rest h e =
    let high = hex_digit-is_hex (b / 16) (omega arith) in
    let digit : (hex_digit (b / 16) == 43) ≡ false = ground arith in
    rw (hex_not_continuation (hex_digit (b / 16)) high, e, digit, pair_value-hex_digit b h) refl

encode_hex-at_boundary :
    (bs rest : Bytes)
    → AreBytes bs
    → at_boundary rest ≡ true
    → at_boundary (encode_hex bs ++ rest) ≡ true
unfolding encode_hex
encode_hex-at_boundary [] rest h e = e
encode_hex-at_boundary (b ∷ bs) rest h e =
    let below = h.0 in
    rw (hex_not_continuation (hex_digit (b / 16)) (hex_digit-is_hex (b / 16) (omega arith))) refl

-- `n` more than the bytes there are.
abbrev beyond : ℕ → Bytes → ℕ
beyond n [] = n
beyond n (b ∷ bs) = suc (beyond n bs)

beyond_lem : (n : ℕ) (bs : Bytes) → beyond n bs ≡ length bs + n
beyond_lem n [] = omega arith
beyond_lem n (b ∷ bs) = omega (arith, beyond_lem n bs)

abbrev push_all : Bytes → Parsed → Parsed
push_all [] r = r
push_all (b ∷ bs) r = push_byte b (push_all bs r)

read_bytes-encode_hex :
    (n : ℕ) (bs rest : Bytes)
    → AreBytes bs
    → at_boundary rest ≡ true
    → read_bytes (beyond n bs) (encode_hex bs ++ rest) ≡ push_all bs (read_bytes n rest)
unfolding encode_hex
read_bytes-encode_hex n [] rest h e = refl
read_bytes-encode_hex n (b ∷ bs) rest h e =
    read_bytes-hex_digit (beyond n bs) b (encode_hex bs ++ rest) h.0
      (encode_hex-at_boundary bs rest h.1 e)
    ∙ ap (push_byte b) (read_bytes-encode_hex n bs rest h.1 e)

push_all_ok : (bs : Bytes) → push_all bs (ok []) ≡ ok bs
push_all_ok [] = refl
push_all_ok (b ∷ bs) = ap (push_byte b) (push_all_ok bs)

push_all_panics : (bs : Bytes) → push_all bs panics ≡ panics
push_all_panics [] = refl
push_all_panics (b ∷ bs) = ap (push_byte b) (push_all_panics bs)

read_bytes-cut :
    (n c d e : ℕ) (rest : Bytes)
    → is_continuation e ≡ true
    → read_bytes (suc n) (c ∷ d ∷ e ∷ rest) ≡ panics
unfolding read_bytes
read_bytes-cut n c d e rest h = elim (Bool-cases (is_continuation c)) [
  | inl g ↦ rw g refl
  | inr g ↦ rw (g, h) refl
]

-- An id of any length is read back from what it is printed as.
pub from_str-to_string : (len : ℕ) (id : Bytes) → IsId len id → from_str len (to_string id) ≡ ok id
unfolding from_str to_string read_bytes
from_str-to_string len id h =
    let long : (length (encode_hex id) == len * 2) ≡ true =
      ground (arith, length-encode_hex id, h.size) in
    let all : beyond 0 id ≡ len = ground (arith, beyond_lem 0 id, h.size) in
    let read = read_bytes-encode_hex 0 id [] h.are_bytes refl ∙ push_all_ok id in
    rw (long, sym all, sym (append-nil (encode_hex id))) read

-- The last byte of a character never continues hexadecimal text: a text of the right length whose
-- bytes are those of an id's beginning, one byte `c`, one byte `d` and then one that continues a
-- character panics, whatever `c`, `d` and the rest are.
pub from_str-panics :
    (len n : ℕ) (id : Bytes) (c d e : ℕ) (rest : Bytes)
    → AreBytes id
    → is_continuation c ≡ false
    → is_continuation e ≡ true
    → length id + suc n ≡ len
    → length rest + 1 ≡ n * 2
    → from_str len (to_string id ++ (c ∷ d ∷ e ∷ rest)) ≡ panics
unfolding from_str to_string read_bytes
from_str-panics len n id c d e rest h starts cut size rest_size =
    let text = c ∷ d ∷ e ∷ rest in
    let long : (length (encode_hex id ++ text) == len * 2) ≡ true =
      ground (arith, length-append (encode_hex id) text, length-encode_hex id) in
    let boundary : at_boundary text ≡ true = rw starts refl in
    let all : beyond (suc n) id ≡ len = beyond_lem (suc n) id ∙ size in
    let read = read_bytes-encode_hex (suc n) id text h boundary in
    rw (long, sym all, read, read_bytes-cut n c d e rest cut) (push_all_panics id)

-- A hexadecimal digit of either case.
abbrev pub is_digit_16 : ℕ → Bool
is_digit_16 c = is_hex c || leb 65 c && leb c 70

-- What is read of a digit is printed as the digit in lower case.
digit_read :
    (c : ℕ)
    → is_digit_16 c ≡ true
    → (n : ℕ) × (hex_value c ≡ some n) × (n < 16) × (hex_digit n ≡ lower c)
digit_read c h = elim (Bool-cases (leb 97 c)) [
  | inl e ↦ (c - 87, ground arith, ground arith, ground arith)
  | inr e ↦ elim (Bool-cases (leb 65 c)) [
    | inl k ↦ (c - 55, ground arith, ground arith, ground arith)
    | inr k ↦ (c - 48, ground arith, ground arith, ground arith)
  ]
]

digits_at_boundary : (s : Bytes) → All (λ c. is_digit_16 c ≡ true) s → at_boundary s ≡ true
digits_at_boundary [] h = refl
digits_at_boundary (c ∷ s) h =
    let other : is_continuation c ≡ false = let e = h.0 in ground arith in rw other refl

read_bytes_digits :
    (len : ℕ) (s : Bytes)
    → length s ≡ len * 2
    → All (λ c. is_digit_16 c ≡ true) s
    → (id : Bytes) × (read_bytes len s ≡ ok id)
      × (length id ≡ len)
      × (AreBytes id)
      × (encode_hex id ≡ to_ascii_lowercase s)
unfolding read_bytes encode_hex
read_bytes_digits zero [] size h = ([], refl, refl, tt, refl)
read_bytes_digits zero (c ∷ s) size h = absurd (omega arith)
read_bytes_digits (suc len) [] size h = absurd (omega arith)
read_bytes_digits (suc len) (c ∷ []) size h = absurd (omega arith)
read_bytes_digits (suc len) (c ∷ d ∷ s) size h =
    let (id, read, long, are, shown) = read_bytes_digits len s (omega arith) h.1.1 in
    let (m, value_m, below_m, digit_m) = digit_read c h.0 in
    let (n, value_n, below_n, digit_n) = digit_read d h.1.0 in
    let digit = h.0 in
    let not_plus : (c == 43) ≡ false = ground arith in
    let first : is_continuation c ≡ false = ground arith in
    let high : (16 * m + n) / 16 ≡ m = omega arith in
    let low : (16 * m + n) % 16 ≡ n = omega arith in
    (
      (16 * m + n) ∷ id,
      rw (first, digits_at_boundary s h.1.1, not_plus, value_m, value_n, read) refl,
      omega arith,
      (omega arith, are),
      rw (high, low, digit_m, digit_n, shown) refl,
    )

-- A text of hexadecimal digits, in either case, of twice the length of an id is read as an id, and
-- that id is printed as the text in lower case.
pub to_string-from_str :
    (len : ℕ) (s : Bytes)
    → length s ≡ len * 2
    → All (λ c. is_digit_16 c ≡ true) s
    → (id : Bytes) × (from_str len s ≡ ok id) × IsId len id × (to_string id ≡ to_ascii_lowercase s)
unfolding from_str to_string read_bytes
to_string-from_str len s size h =
    let (id, read, long, are, shown) = read_bytes_digits len s size h in
    let fits : (length s == len * 2) ≡ true = ground arith in
    (id, rw (fits, read) refl, record { size = long; are_bytes = are }, shown)
