-- ===== src/Core/Glob.antt =====
-- `glob_match` of crates/core/src/fault.rs: the loop over two byte indices with one saved star.
pub mod Matches
pub mod Round
pub mod Sound
use servr.Common.{
  ℕ, zero, suc, ◌+◌, ◌*◌, Bool, true, false, Option, none, some, Bytes, length, get_elem?, ltb,
  ◌==◌, if◌then◌else◌,
}

abbrev pub star_byte : ℕ
star_byte = b'*'

-- `i < xs.len() && xs[i] == c`
abbrev pub byte_is : Bytes → ℕ → ℕ → Bool
byte_is xs i c = elim (get_elem? xs i) [ none ↦ false | some d ↦ d == c ]

-- `p < pattern.len() && pattern[p] == text[t]`, where `t` is in range
abbrev pub bytes_meet : Bytes → ℕ → Bytes → ℕ → Bool
bytes_meet pattern p text t = elim (get_elem? text t) [
  | none ↦ false
  | some d ↦ byte_is pattern p d
]

-- The second `while` loop: steps over the stars at `p`.
unfoldable pub skip_stars : Bytes → ℕ → ℕ → ℕ
skip_stars pattern zero p = p
skip_stars pattern (suc fuel) p = elim (byte_is pattern p star_byte) [
  | true ↦ skip_stars pattern fuel (suc p)
  | false ↦ p
]

-- The first `while` loop. `none` means that the fuel ran out.
unfoldable pub glob_loop : Bytes → Bytes → ℕ → ℕ → ℕ → Option ℕ → ℕ → Option Bool
unfolding skip_stars
glob_loop pattern text zero p t star resume = none
glob_loop pattern text (suc fuel) p t star resume = elim (ltb t (length text)) [
  | false ↦ some (skip_stars pattern (length pattern) p == length pattern)
  | true ↦ elim (byte_is pattern p star_byte) [
    | true ↦ glob_loop pattern text fuel (suc p) t (some p) t
    | false ↦ elim (bytes_meet pattern p text t) [
      | true ↦ glob_loop pattern text fuel (suc p) (suc t) star resume
      | false ↦ elim star [
        | none ↦ some false
        | some s ↦ glob_loop pattern text fuel (suc s) (suc resume) (some s) (suc resume)
      ]
    ]
  ]
]

-- A round lowers `(text.len() - resume) * (pattern.len() + 1) + (pattern.len() - p)`.
abbrev pub glob_fuel : Bytes → Bytes → ℕ
glob_fuel pattern text = length text * (length pattern + 1) + length pattern + 1

unfoldable pub glob_run : Bytes → Bytes → Option Bool
unfolding glob_loop
glob_run pattern text = glob_loop pattern text (glob_fuel pattern text) 0 0 none 0

-- The fuel never runs out (`Sound.glob_run-Decides`), so the first case does not arise.
unfoldable pub glob_match : Bytes → Bytes → Bool
unfolding glob_run
glob_match pattern text = elim (glob_run pattern text) [ none ↦ false | some found ↦ found ]
