-- ===== src/Telemetry/Metrics/Scrapes.antt =====
-- What a scrape shows under the metrics faults of crates/telemetry/src/chaos.rs, the bomb's series
-- included.
use servr.Common.{
  u64_mod, append-nil, ℕ, zero, suc, ◌<◌, ◌≡◌, ◌≢◌, refl, sym, ap, subst, ◌∙◌, Bool, true, false,
  not, Option, none, some, List, [], ◌∷◌, ◌++◌, Bytes, bytes, length, select, Aligned,
  if◌then◌else◌, arith,
}
use servr.Core.Float.{Float}
use servr.Core.Fault.{TelemetryFault}
use servr.Telemetry.Chaos.{fires}
use servr.Telemetry.Metrics.{
  newline, lines, is_comment, reset_counters, bomb_line, bomb_lines, bomb, bombed, corrupt_metrics,
}
use servr.Telemetry.Metrics.Resets.{
  IsClean, LacksReturn, lines_line, IsReset, reset_counters-Aligned,
}
use servr.Telemetry.Metrics.Series.{
  any_of-IsClean, series_from, lines-bomb_lines, AllDistinct, Disjoint, series-Disjoint,
  series_distinct, series_length,
}

-- The lines of a text that carry samples.
abbrev pub samples : Bytes → List Bytes
samples text = select (λ line. not (is_comment line)) (lines text)

help_line : Bytes
help_line =
    bytes "# HELP testbed_cardinality_bomb Deliberate cardinality explosion (TelemetryFault)"

type_line : Bytes
type_line = bytes "# TYPE testbed_cardinality_bomb counter"

bomb_parts : (k n : ℕ) → bomb k n ≡ help_line ++ newline ∷ (type_line ++ newline ∷ bomb_lines k n 0)
unfolding bomb help_line type_line
bomb_parts k n = refl

help_line-IsClean : IsClean help_line
unfolding help_line
help_line-IsClean =
    any_of-IsClean
      (bytes "# HELP testbed_cardinality_bomb Deliberate cardinality explosion (TelemetryFault)")
      refl

type_line-IsClean : IsClean type_line
unfolding type_line
type_line-IsClean = any_of-IsClean (bytes "# TYPE testbed_cardinality_bomb counter") refl

select_series :
    (k n i : ℕ) → select (λ line. not (is_comment line)) (series_from k n i) ≡ series_from k n i
unfolding bomb_line
select_series zero n i = refl
select_series (suc k) n i = ap (λ ls. bomb_line n i ∷ ls) (select_series k n (suc i))

comments :
    (ls : List Bytes)
    → select (λ line. not (is_comment line)) (help_line ∷ type_line ∷ ls)
      ≡ select (λ line. not (is_comment line)) ls
unfolding help_line type_line
comments ls = refl

samples-bomb : (k n : ℕ) → samples (bomb k n) ≡ series_from k n 0
samples-bomb k n =
    ap samples (bomb_parts k n)
    ∙ ap (select (λ line. not (is_comment line))) (
        lines_line help_line (type_line ++ newline ∷ bomb_lines k n 0) help_line-IsClean
        ∙ ap (λ ls. help_line ∷ ls)
            (lines_line type_line (bomb_lines k n 0) type_line-IsClean
              ∙ ap (λ ls. type_line ∷ ls) (lines-bomb_lines k n 0)))
    ∙ comments (series_from k n 0)
    ∙ select_series k n 0

-- A `u32`, and a `u64`.
abbrev pub IsU32 : ℕ → Type 0
IsU32 n = n < 4294967296

abbrev pub IsU64 : ℕ → Type 0
IsU64 n = n < u64_mod

-- Two scrapes with different nonces have no series of the bomb in common, so that each adds all of
-- its series anew.
pub bomb_fresh :
    (k l n m : ℕ)
    → IsU32 k
    → IsU32 l
    → IsU64 n
    → IsU64 m
    → n ≢ m
    → Disjoint (samples (bomb k n)) (samples (bomb l m))
bomb_fresh k l n m hk hl hn hm d =
    subst (λ ls. Disjoint ls (samples (bomb l m))) (sym (samples-bomb k n))
      (subst (Disjoint (series_from k n 0)) (sym (samples-bomb l m))
        (series-Disjoint k l n m 0 0 hn hm (omega arith) (omega arith) d))

module _ (float : Float) where
  -- What is left of the rendered text, by whether counters are reset.
  abbrev pub Kept : Bool → Bytes → Bytes → Type 0
  Kept true rendered base = Aligned IsReset (lines rendered) (lines base)
  Kept false rendered base = base ≡ rendered

  -- What is added, by how many series are asked for.
  abbrev pub Added : Option ℕ → Bytes → Type 0
  Added none tail = tail ≡ []
  Added (some series) tail = (length (samples tail) ≡ series) × AllDistinct (samples tail)

  abbrev pub FitsSeries : Option ℕ → Type 0
  FitsSeries none = Unit
  FitsSeries (some series) = IsU32 series

  kept_lem :
      (resets : Bool) (rendered : Bytes)
      → LacksReturn rendered
      → Kept resets rendered (if resets then reset_counters rendered else rendered)
  kept_lem true rendered h = reset_counters-Aligned rendered h
  kept_lem false rendered h = refl

  added_lem :
      (series : Option ℕ) (nonce : ℕ) (base : Bytes)
      → FitsSeries series
      → IsU64 nonce
      → (tail : Bytes) × (bombed float series nonce base ≡ base ++ tail) × Added series tail
  added_lem none nonce base h hn = ([], sym (append-nil base), refl)
  added_lem (some k) nonce base h hn = (
    bomb k nonce,
    refl,
    (
      ap length (samples-bomb k nonce) ∙ series_length k nonce 0,
      subst AllDistinct (sym (samples-bomb k nonce)) (series_distinct k nonce 0 hn (omega arith)),
    ),
  )

  -- A scrape where the fault does not fire shows the rendered text. Where it fires, and the text
  -- has no carriage return, it shows that text, or line by line the same with every sample's value
  -- set to 1 and comments and blank lines as they are where counters are reset; and after it as
  -- many distinct samples as the bomb has series, or nothing more.
  pub corrupt_metrics_outcome :
      (rendered : Bytes) (fault : TelemetryFault float) (roll : float.F64) (nonce : ℕ)
      → LacksReturn rendered
      → FitsSeries fault.cardinality_bomb
      → IsU64 nonce
      → (fires float fault roll ≡ false
          → corrupt_metrics float rendered fault roll nonce ≡ rendered)
        × (fires float fault roll ≡ true
            → (base : Bytes) × (tail : Bytes) × (corrupt_metrics float rendered fault roll nonce
                ≡ base ++ tail)
              × Kept fault.counter_reset rendered base
              × Added fault.cardinality_bomb tail)
  unfolding corrupt_metrics
  corrupt_metrics_outcome rendered fault roll nonce clean fits hn =
      let base = if fault.counter_reset then reset_counters rendered else rendered in
      let (tail, shown, added) = added_lem fault.cardinality_bomb nonce base fits hn in
      (
        λ off. rw off refl,
        λ on. (base, tail, rw on shown, kept_lem fault.counter_reset rendered clean, added),
      )
