-- ===== src/Telemetry/Metrics/Resets.antt =====
-- `reset_counters` of crates/telemetry/src/chaos.rs, line by line.
use servr.Common.{
  ℕ, ◌≡◌, refl, sym, ap, subst, ◌∙◌, Bool, true, false, ◌||◌, List, [], ◌∷◌, ◌++◌, map, Bytes,
  bytes, ◌==◌, put_front, Lacks, All, All-append, Aligned, any_of, rsplit_once, rsplit_once-some,
  rsplit_once_last, rsplit_once_absent, Bool-cases, Option-cases, inl, inr, arith,
}
use servr.Telemetry.Metrics.{
  newline, lines, is_comment, is_empty, reset_line, push_lines, reset_counters,
}

abbrev pub breaks : ℕ → Bool
breaks c = c == newline || c == 13

-- A line with no newline and no carriage return in it.
abbrev pub IsClean : Bytes → Type 0
IsClean line = Lacks breaks line

abbrev pub LacksReturn : Bytes → Type 0
LacksReturn text = Lacks (λ c. c == 13) text

pub lines_line :
    (line rest : Bytes) → IsClean line → lines (line ++ newline ∷ rest) ≡ line ∷ lines rest
unfolding lines
lines_line [] rest h = refl
lines_line (c ∷ cs) rest h = ground (arith, lines_line cs rest h.1)

put_front-IsClean :
    (c : ℕ) (ls : List Bytes) → breaks c ≡ false → All IsClean ls → All IsClean (put_front c ls)
put_front-IsClean c [] h a = ((h, tt), tt)
put_front-IsClean c (l ∷ ls) h a = ((h, a.0), a.1)

lines-IsClean : (text : Bytes) → LacksReturn text → All IsClean (lines text)
unfolding lines
lines-IsClean [] h = tt
lines-IsClean (c ∷ cs) h = elim (Bool-cases (c == newline)) [
  | inl e ↦ rw e (tt, lines-IsClean cs h.1)
  | inr e ↦ rw (e, h.0) (put_front-IsClean c (lines cs) (ground arith) (lines-IsClean cs h.1))
]

All-prefix : (p : ℕ → Bool) (a b : Bytes) → Lacks p (a ++ b) → Lacks p a
All-prefix p [] b h = tt
All-prefix p (c ∷ a) b h = (h.0, All-prefix p a b h.1)

-- What the fault makes of a line: a comment, a blank line and one without a space stay; a sample
-- has the value 1 for what stands after its last space.
pub record IsReset (line line' : Bytes) : Type 0 where
  pub comment : is_comment line ≡ true → line' ≡ line
  pub blank : line ≡ [] → line' ≡ line
  pub no_sample : any_of (λ c. c == b' ') line ≡ false → line' ≡ line
  pub sample :
      (series value : Bytes)
      → is_comment line ≡ false
      → line ≡ series ++ b' ' ∷ value
      → any_of (λ c. c == b' ') value ≡ false
      → line' ≡ series ++ bytes " 1"

is_empty-cons : (series value : Bytes) → is_empty (series ++ b' ' ∷ value) ≡ false
is_empty-cons [] value = refl
is_empty-cons (c ∷ cs) value = refl

reset_line-IsReset : (line : Bytes) → IsReset line (reset_line line)
unfolding reset_line
reset_line-IsReset line = record {
  comment = λ e. rw e refl;
  blank = λ e. rw e refl;
  no_sample = λ e. rw (rsplit_once_absent b' ' line e) (ground arith);
  sample = λ series value e same last.
      rw (e, same, is_empty-cons series value, rsplit_once_last b' ' series value last) refl;
}

reset_line-IsClean : (line : Bytes) → IsClean line → IsClean (reset_line line)
unfolding reset_line
reset_line-IsClean line h = elim (Bool-cases (is_comment line || is_empty line)) [
  | inl e ↦ rw e h
  | inr e ↦ elim (Option-cases (rsplit_once b' ' line)) [
    | inl n ↦ rw (e, n) h
    | inr ((series, value), s) ↦
        let (same, last) = rsplit_once-some b' ' line series value s in
        let left = All-prefix breaks series (b' ' ∷ value) (subst IsClean same h) in
        rw (e, s) (All-append (λ c. breaks c ≡ false) series (bytes " 1") left (refl, (refl, tt)))
  ]
]

lines-push_lines : (ls : List Bytes) → All IsClean ls → lines (push_lines ls) ≡ map reset_line ls
unfolding push_lines
lines-push_lines [] h = unfold lines in refl
lines-push_lines (l ∷ ls) h =
    lines_line (reset_line l) (push_lines ls) (reset_line-IsClean l h.0)
    ∙ ap (λ rest. reset_line l ∷ rest) (lines-push_lines ls h.1)

map-Aligned : (ls : List Bytes) → Aligned IsReset ls (map reset_line ls)
map-Aligned [] = tt
map-Aligned (l ∷ ls) = (reset_line-IsReset l, map-Aligned ls)

pub lines-reset_counters :
    (text : Bytes) → LacksReturn text → lines (reset_counters text) ≡ map reset_line (lines text)
unfolding reset_counters
lines-reset_counters text h = lines-push_lines (lines text) (lines-IsClean text h)

pub reset_counters-Aligned :
    (text : Bytes) → LacksReturn text → Aligned IsReset (lines text) (lines (reset_counters text))
reset_counters-Aligned text h =
    subst (Aligned IsReset (lines text)) (sym (lines-reset_counters text h))
      (map-Aligned (lines text))
