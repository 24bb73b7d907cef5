-- ===== src/Common/Str.antt =====
-- Texts as lists of code points, and what the program uses of the methods of `str`.
use Prim.Native.Nat.{ℕ, ◌+◌}
use mathlib.Core.Path.{◌≡◌, refl}
use mathlib.Core.Logic.{inl, inr}
use mathlib.Core.Bool.{Bool, false, ◌&&◌, ◌||◌}
use mathlib.Core.List.{List, [], ◌∷◌, ◌++◌, map}
use mathlib.Core.Option.{Option, none, some}
use native.Mathlib.Omega.{arith}
use servr.Common.Tests.{Option-cases, leb, ◌==◌, if◌then◌else◌}
use servr.Common.Lists.{All, any_of}
use servr.Common.Keys.{Bytes}

abbrev pub Text : Type 0
Text = Bytes

abbrev pub in_range : ℕ → ℕ → ℕ → Bool
in_range low high c = leb low c && leb c high

-- `char::is_whitespace`: the property White_Space.
abbrev pub is_whitespace : ℕ → Bool
is_whitespace c =
    in_range 9 13 c
    || c == 32
    || c == 133
    || c == 160
    || c == 5760
    || in_range 8192 8202 c
    || in_range 8232 8233 c
    || c == 8239
    || c == 8287
    || c == 12288

abbrev pub trim_start : Text → Text
trim_start [] = []
trim_start (c ∷ cs) = if is_whitespace c then trim_start cs else c ∷ cs

abbrev pub trim_end : Text → Text
trim_end [] = []
trim_end (c ∷ cs) = elim (trim_end cs) [
  | [] ↦ if is_whitespace c then [] else c ∷ []
  | d ∷ ds ↦ c ∷ d ∷ ds
]

abbrev pub trim : Text → Text
trim text = trim_end (trim_start text)

-- `to_ascii_lowercase`, by the code point.
abbrev pub lower : ℕ → ℕ
lower c = if in_range 65 90 c then c + 32 else c

abbrev pub to_ascii_lowercase : Text → Text
to_ascii_lowercase text = map lower text

abbrev pub put_front : ℕ → List Text → List Text
put_front c [] = (c ∷ []) ∷ []
put_front c (piece ∷ pieces) = (c ∷ piece) ∷ pieces

-- `split(sep)`: the pieces between separators, one at least.
abbrev pub split : ℕ → Text → List Text
split sep [] = [] ∷ []
split sep (c ∷ cs) = if c == sep then [] ∷ split sep cs else put_front c (split sep cs)

-- `split_once(sep)`: what stands before and after the first separator.
abbrev pub split_once : ℕ → Text → Option (Text × Text)
split_once sep [] = none
split_once sep (c ∷ cs) =
    let rest = split_once sep cs in
    if c == sep
    then some ([], cs)
    else elim rest [ none ↦ none | some (before, after) ↦ some (c ∷ before, after) ]

-- `rsplit_once(sep)`: what stands before and after the last separator.
unfoldable pub rsplit_once : ℕ → Text → Option (Text × Text)
rsplit_once sep [] = none
rsplit_once sep (c ∷ cs) = elim (rsplit_once sep cs) [
  | some (before, after) ↦ some (c ∷ before, after)
  | none ↦ if c == sep then some ([], cs) else none
]

-- `strip_prefix`
abbrev pub strip_prefix : Text → Text → Option Text
strip_prefix [] text = some text
strip_prefix (p ∷ ps) [] = none
strip_prefix (p ∷ ps) (c ∷ cs) = let rest = strip_prefix ps cs in if c == p then rest else none

-- No code point of the text has the property.
abbrev pub Lacks : (ℕ → Bool) → Text → Type 0
Lacks p text = All (λ c. p c ≡ false) text

pub split_none : (sep : ℕ) (a : Text) → Lacks (λ c. c == sep) a → split sep a ≡ a ∷ []
split_none sep [] h = refl
split_none sep (c ∷ cs) h = ground (arith, split_none sep cs h.1)

pub split-append :
    (sep : ℕ) (a b : Text) → Lacks (λ c. c == sep) a → split sep (a ++ sep ∷ b) ≡ a ∷ split sep b
split-append sep [] b h = ground arith
split-append sep (c ∷ cs) b h = ground (arith, split-append sep cs b h.1)

pub trim_end_lem : (a : Text) → Lacks is_whitespace a → trim_end a ≡ a
trim_end_lem [] h = refl
trim_end_lem (c ∷ []) h = rw h.0 refl
trim_end_lem (c ∷ d ∷ cs) h = rw (trim_end_lem (d ∷ cs) h.1) refl

pub trim_lem : (a : Text) → Lacks is_whitespace a → trim a ≡ a
trim_lem [] h = refl
trim_lem (c ∷ cs) h = rw h.0 (trim_end_lem (c ∷ cs) h)

pub strip_prefix-append : (p a : Text) → strip_prefix p (p ++ a) ≡ some a
strip_prefix-append [] a = refl
strip_prefix-append (c ∷ p) a = ground (arith, strip_prefix-append p a)

abbrev has : ℕ → Text → Bool
has c text = any_of (λ d. d == c) text

pub rsplit_once-none : (c : ℕ) (text : Text) → rsplit_once c text ≡ none → has c text ≡ false
unfolding rsplit_once
rsplit_once-none c [] e = refl
rsplit_once-none c (x ∷ xs) e = elim (Option-cases (rsplit_once c xs)) [
  | inl n ↦ ground (arith, n, e, rsplit_once-none c xs n)
  | inr (p, s) ↦ ground (arith, s, e)
]

pub rsplit_once-some :
    (c : ℕ) (text before after : Text)
    → rsplit_once c text ≡ some (before, after)
    → (text ≡ before ++ c ∷ after) × (has c after ≡ false)
unfolding rsplit_once
rsplit_once-some c [] before after e = cc
rsplit_once-some c (x ∷ xs) before after e = elim (Option-cases (rsplit_once c xs)) [
  | inl n ↦ ground (arith, n, e, rsplit_once-none c xs n)
  | inr ((b, a), s) ↦ ground (arith, s, e, rsplit_once-some c xs b a s)
]

pub rsplit_once_absent : (c : ℕ) (text : Text) → has c text ≡ false → rsplit_once c text ≡ none
unfolding rsplit_once
rsplit_once_absent c [] h = refl
rsplit_once_absent c (x ∷ xs) h = ground (arith, rsplit_once_absent c xs)

pub rsplit_once_last :
    (c : ℕ) (before after : Text)
    → has c after ≡ false
    → rsplit_once c (before ++ c ∷ after) ≡ some (before, after)
unfolding rsplit_once
rsplit_once_last c [] after h = ground (arith, rsplit_once_absent c after h)
rsplit_once_last c (x ∷ before) after h = rw (rsplit_once_last c before after h) refl
