-- ===== src/Telemetry/Metrics.antt =====
-- The metrics half of crates/telemetry/src/chaos.rs: the exposition text rewritten at scrape time.
-- A text is its bytes. Rolls and the nonce of a scrape are arguments.
pub mod Resets
pub mod Series
pub mod Scrapes
use servr.Common.{
  ℕ, zero, suc, ◌+◌, ◌/◌, ◌%◌, Bool, true, false, ◌&&◌, ◌||◌, not, Option, none, some, List, [],
  ◌∷◌, ◌++◌, Bytes, bytes, ◌==◌, put_front, rsplit_once, hex_digit, show_ℕ, if◌then◌else◌,
}
use servr.Core.Float.{Float}
use servr.Core.Fault.{TelemetryFault}
use servr.Telemetry.Chaos.{fires}

abbrev pub newline : ℕ
newline = 10

abbrev pub starts_line : Bytes → Bool
starts_line [] = false
starts_line (c ∷ cs) = c == newline

-- `str::lines`: a line ends with a newline, which may have a carriage return before it.
unfoldable pub lines : Bytes → List Bytes
lines [] = []
lines (c ∷ cs) =
    let rest = lines cs in
    if c == newline
    then [] ∷ rest
    else (if c == 13 && starts_line cs then rest else put_front c rest)

abbrev pub is_comment : Bytes → Bool
is_comment [] = false
is_comment (c ∷ cs) = c == b'#'

abbrev pub is_empty : Bytes → Bool
is_empty [] = true
is_empty (c ∷ cs) = false

-- One round of the loop of `reset_counters`, without the newline that it pushes.
unfoldable pub reset_line : Bytes → Bytes
reset_line line =
    if is_comment line || is_empty line
    then line
    else elim (rsplit_once b' ' line) [ some (series, value) ↦ series ++ bytes " 1" | none ↦ line ]

unfoldable pub push_lines : List Bytes → Bytes
push_lines [] = []
push_lines (line ∷ rest) = reset_line line ++ newline ∷ push_lines rest

unfoldable pub reset_counters : Bytes → Bytes
unfolding lines reset_line push_lines
reset_counters rendered = push_lines (lines rendered)

-- `{nonce:016x}`
unfoldable pub hex_digits : ℕ → ℕ → Bytes → Bytes
hex_digits zero n acc = acc
hex_digits (suc k) n acc = hex_digits k (n / 16) (hex_digit (n % 16) ∷ acc)

abbrev pub bomb_header : Bytes
bomb_header =
    bytes
      "# HELP testbed_cardinality_bomb Deliberate cardinality explosion (TelemetryFault)\n# TYPE testbed_cardinality_bomb counter\n"

-- `testbed_cardinality_bomb{scrape="…",series="…"} 1`
unfoldable pub bomb_line : ℕ → ℕ → Bytes
unfolding hex_digits
bomb_line nonce i =
    bytes "testbed_cardinality_bomb{scrape=\""
    ++ (hex_digits 16 nonce [] ++ (bytes "\",series=\"" ++ (show_ℕ i ++ bytes "\"} 1")))

-- The lines of `i..series` for the `k` rounds that are left.
unfoldable pub bomb_lines : ℕ → ℕ → ℕ → Bytes
bomb_lines zero nonce i = []
bomb_lines (suc k) nonce i = bomb_line nonce i ++ newline ∷ bomb_lines k nonce (suc i)

unfoldable pub bomb : ℕ → ℕ → Bytes
unfolding bomb_lines bomb_line
bomb series nonce = bomb_header ++ bomb_lines series nonce 0

module _ (float : Float) where
  open float use {F64}

  abbrev pub bombed : Option ℕ → ℕ → Bytes → Bytes
  bombed none nonce out = out
  bombed (some series) nonce out = out ++ bomb series nonce

  unfoldable pub corrupt_metrics : Bytes → TelemetryFault float → F64 → ℕ → Bytes
  corrupt_metrics rendered fault roll nonce =
      if not (fires float fault roll)
      then rendered
      else bombed fault.cardinality_bomb nonce
          (if fault.counter_reset then reset_counters rendered else rendered)
