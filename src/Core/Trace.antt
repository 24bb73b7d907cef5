-- ===== src/Core/Trace.antt =====
-- `TraceId` and `SpanId` of crates/core/src/trace.rs, which one macro declares for 16 and for 8
-- bytes. A text is the list of its UTF-8 bytes, since the parser counts and slices by bytes.
pub mod Hex
use servr.Common.{
  zero, suc, ℕ, ◌+◌, ◌-◌, ◌*◌, ◌<◌, ◌≡◌, Bool, false, true, ◌&&◌, ◌||◌, not, Option, none, some,
  List, [], ◌∷◌, Bytes, length, leb, ltb, ◌==◌, bytes_beq, if◌then◌else◌, hex_value, pair_value,
  encode_hex, AreBytes,
}

abbrev pub trace_len : ℕ
trace_len = 16

abbrev pub span_len : ℕ
span_len = 8

-- The array of an id of `len` bytes.
pub record IsId (len : ℕ) (id : Bytes) : Type 0 where
  pub size : length id ≡ len
  pub are_bytes : AreBytes id

unfoldable pub zeros : ℕ → Bytes
zeros zero = []
zeros (suc n) = 0 ∷ zeros n

-- `is_valid`, against `INVALID`.
unfoldable pub is_valid : ℕ → Bytes → Bool
is_valid len id = not (bytes_beq id (zeros len))

-- `Display`.
unfoldable pub to_string : Bytes → Bytes
to_string id = encode_hex id

pub data TraceIdError : Type 0 where
  length_error : (expected got : ℕ) → TraceIdError
  not_hex : TraceIdError

-- What parsing comes to; a slice that cuts a character panics.
pub data Parsed : Type 0 where
  ok : Bytes → Parsed
  err : TraceIdError → Parsed
  panics : Parsed

-- A byte that continues a character of UTF-8.
abbrev pub is_continuation : ℕ → Bool
is_continuation b = leb 128 b && ltb b 192

-- `is_char_boundary` at the start of what is left.
abbrev pub at_boundary : Bytes → Bool
at_boundary [] = true
at_boundary (b ∷ bs) = not (is_continuation b)

-- `u8::from_str_radix(_, 16)` of two bytes, which lets a plus sign stand before the number.
abbrev pub from_str_radix : ℕ → ℕ → Option ℕ
from_str_radix c d = if c == 43 then hex_value d else pair_value (hex_value c) (hex_value d)

abbrev pub push_byte : ℕ → Parsed → Parsed
push_byte b (ok bs) = ok (b ∷ bs)
push_byte b (err e) = err e
push_byte b panics = panics

-- The loop over `len` slots.
unfoldable pub read_bytes : ℕ → Bytes → Parsed
read_bytes zero s = ok []
read_bytes (suc n) [] = panics
read_bytes (suc n) (c ∷ []) = panics
read_bytes (suc n) (c ∷ d ∷ rest) =
    let later = read_bytes n rest in
    if at_boundary (c ∷ d ∷ rest) && at_boundary rest
    then elim (from_str_radix c d) [ none ↦ err not_hex | some b ↦ push_byte b later ]
    else panics

-- `from_str`
unfoldable pub from_str : ℕ → Bytes → Parsed
from_str len s =
    if length s == len * 2 then read_bytes len s else err (length_error (len * 2) (length s))
