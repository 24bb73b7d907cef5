-- ===== src/Common/Decimal.antt =====
-- Decimal numbers: `{}` of an integer, `parse::<i64>()`, and that they are inverse.
use Prim.Native.Nat.{ℕ, zero, suc, ◌+◌, ◌-◌, ◌*◌, ◌/◌, ◌%◌, ◌^◌, ◌≤◌, ◌<◌}
use mathlib.Core.Path.{◌≡◌, refl, ap, subst, ◌∙◌}
use mathlib.Core.Logic.{inl, inr}
use mathlib.Core.Bool.{Bool, true, false, ◌&&◌, ◌||◌}
use mathlib.Core.List.{[], ◌∷◌, ◌++◌}
use mathlib.Core.Option.{Option, none, some}
use native.Mathlib.Omega.{arith}
use servr.Common.Tests.{leb, ltb, ◌==◌, if◌then◌else◌, Bool-cases}
use servr.Common.Lists.{All}
use servr.Common.Keys.{Bytes, bytes}
use servr.Common.Int.{ℤ, pos, negsuc, i64_max, FitsI64}

-- The decimal digits of `n`, least significant last, before `acc`; every step takes one digit.
unfoldable pub digits_loop : ℕ → ℕ → Bytes → Bytes
digits_loop zero n acc = acc
digits_loop (suc fuel) n acc =
    let next = (48 + n % 10) ∷ acc in
    let rest = digits_loop fuel (n / 10) next in if ltb n 10 then next else rest

-- `{}` of an unsigned number of at most 64 bits, which has at most 20 digits.
unfoldable pub show_ℕ : ℕ → Bytes
unfolding digits_loop
show_ℕ n = digits_loop 20 n []

-- `{}` of an `i64`.
unfoldable pub show_ℤ : ℤ → Bytes
unfolding show_ℕ
show_ℤ (pos n) = show_ℕ n
show_ℤ (negsuc n) = bytes "-" ++ show_ℕ (suc n)

abbrev pub is_digit : ℕ → Bool
is_digit c = leb 48 c && leb c 57

unfoldable pub parse_digits : ℕ → Bytes → Option ℕ
parse_digits acc [] = some acc
parse_digits acc (c ∷ cs) =
    let rest = parse_digits (acc * 10 + (c - 48)) cs in if is_digit c then rest else none

-- One digit at least.
unfoldable pub parse_unsigned : Bytes → Option ℕ
unfolding parse_digits
parse_unsigned [] = none
parse_unsigned (c ∷ cs) = parse_digits 0 (c ∷ cs)

abbrev pub as_positive : Option ℕ → Option ℤ
as_positive none = none
as_positive (some n) = if leb n i64_max then some (pos n) else none

abbrev pub as_negative : Option ℕ → Option ℤ
as_negative none = none
as_negative (some zero) = some (pos 0)
as_negative (some (suc n)) = if leb n i64_max then some (negsuc n) else none

-- `parse::<i64>().ok()`
unfoldable pub parse_i64 : Bytes → Option ℤ
unfolding parse_unsigned
parse_i64 [] = none
parse_i64 (c ∷ cs) =
    if c == 45
    then as_negative (parse_unsigned cs)
    else (if c == 43
        then as_positive (parse_unsigned cs)
        else as_positive (parse_unsigned (c ∷ cs)))

parse_digits_digit :
    (m d : ℕ) (cs : Bytes) → d < 10 → parse_digits m ((48 + d) ∷ cs) ≡ parse_digits (m * 10 + d) cs
unfolding parse_digits
parse_digits_digit m d cs h =
    let digit : is_digit (48 + d) ≡ true = ground arith in
    let value : m * 10 + (48 + d - 48) ≡ m * 10 + d = omega arith in rw (digit, value) refl

pub parse_digits-digits_loop :
    (fuel n : ℕ) (acc : Bytes)
    → n < 10 ^ suc fuel
    → parse_digits 0 (digits_loop (suc fuel) n acc) ≡ parse_digits n acc
unfolding digits_loop
parse_digits-digits_loop zero n acc h =
    let small : ltb n 10 ≡ true = ground arith in
    let same : 0 * 10 + n % 10 ≡ n = omega arith in
    rw small (parse_digits_digit 0 (n % 10) acc (omega arith) ∙ ap (λ m. parse_digits m acc) same)
parse_digits-digits_loop (suc fuel) n acc h = elim (Bool-cases (ltb n 10)) [
  | inl e ↦
      let same : 0 * 10 + n % 10 ≡ n = ground arith in
      rw (digits_loop, e)
        (parse_digits_digit 0 (n % 10) acc (omega arith) ∙ ap (λ m. parse_digits m acc) same)
  | inr e ↦
      let parts : n / 10 * 10 + n % 10 ≡ n = omega arith in
      rw (digits_loop, e)
        (parse_digits-digits_loop fuel (n / 10) ((48 + n % 10) ∷ acc) (omega arith)
          ∙ parse_digits_digit (n / 10) (n % 10) acc (omega arith)
          ∙ ap (λ m. parse_digits m acc) parts)
]

-- The digits come before what there was, and there is one.
digits_loop-cons :
    (fuel n : ℕ) (acc : Bytes)
    → (d : ℕ) × (ds : Bytes) × (digits_loop (suc fuel) n acc ≡ d ∷ ds) × (is_digit d ≡ true)
unfolding digits_loop
digits_loop-cons zero n acc = (48 + n % 10, acc, ground arith, ground arith)
digits_loop-cons (suc fuel) n acc = elim (Bool-cases (ltb n 10)) [
  | inl e ↦ (48 + n % 10, acc, rw (digits_loop, e) refl, ground arith)
  | inr e ↦ rw (digits_loop, e) (digits_loop-cons fuel (n / 10) ((48 + n % 10) ∷ acc))
]

pub digits_loop-All :
    (fuel n : ℕ) (acc : Bytes)
    → All (λ c. is_digit c ≡ true) acc
    → All (λ c. is_digit c ≡ true) (digits_loop fuel n acc)
unfolding digits_loop
digits_loop-All zero n acc h = h
digits_loop-All (suc fuel) n acc h =
    let digit : is_digit (48 + n % 10) ≡ true = ground arith in
    elim (Bool-cases (ltb n 10)) [
      | inl e ↦ rw (digits_loop, e) (digit, h)
      | inr e ↦ rw (digits_loop, e) (digits_loop-All fuel (n / 10) ((48 + n % 10) ∷ acc) (digit, h))
    ]

pub parse_unsigned-show_ℕ : (n : ℕ) → n < 10 ^ 20 → parse_unsigned (show_ℕ n) ≡ some n
unfolding parse_unsigned show_ℕ parse_digits
parse_unsigned-show_ℕ n h =
    let (d, ds, e, digit) = digits_loop-cons 19 n [] in
    rw e (subst (λ t. parse_digits 0 t ≡ some n) e (parse_digits-digits_loop 19 n [] h))

parse_i64_digit :
    (d : ℕ) (ds : Bytes) (n : ℕ)
    → is_digit d ≡ true
    → parse_unsigned (d ∷ ds) ≡ some n
    → leb n i64_max ≡ true
    → parse_i64 (d ∷ ds) ≡ some (pos n)
unfolding parse_i64
parse_i64_digit d ds n digit e fits =
    let minus : (d == 45) ≡ false = ground arith in
    let plus : (d == 43) ≡ false = ground arith in rw (minus, plus, e, fits) refl

parse_i64-show_ℕ : (n : ℕ) → n ≤ i64_max → parse_i64 (show_ℕ n) ≡ some (pos n)
parse_i64-show_ℕ n h =
    let fits : leb n i64_max ≡ true = ground arith in
    let (d, ds, e, digit) = digits_loop-cons 19 n [] in
    let shown : show_ℕ n ≡ d ∷ ds = unfold show_ℕ in e in
    let read =
      subst (λ t. parse_unsigned t ≡ some n) shown (parse_unsigned-show_ℕ n (omega arith)) in
    rw shown (parse_i64_digit d ds n digit read fits)

parse_i64_minus : (cs : Bytes) → parse_i64 (45 ∷ cs) ≡ as_negative (parse_unsigned cs)
unfolding parse_i64
parse_i64_minus cs = refl

show_ℤ_minus : (n : ℕ) → show_ℤ (negsuc n) ≡ 45 ∷ show_ℕ (suc n)
unfolding show_ℤ
show_ℤ_minus n = refl

show_ℤ_pos : (n : ℕ) → show_ℤ (pos n) ≡ show_ℕ n
unfolding show_ℤ
show_ℤ_pos n = refl

-- What is printed of an `i64` is read back as it was.
pub parse_i64-show_ℤ : (a : ℤ) → FitsI64 a → parse_i64 (show_ℤ a) ≡ some a
parse_i64-show_ℤ (pos n) h = rw (show_ℤ_pos n) (parse_i64-show_ℕ n h.0)
parse_i64-show_ℤ (negsuc n) h =
    let small : leb n i64_max ≡ true = ground arith in
    rw
      (
        show_ℤ_minus n,
        parse_i64_minus,
        parse_unsigned-show_ℕ (suc n) (omega arith),
        as_negative,
        small,
      )
      refl

-- Digits and the minus sign: what a printed integer is made of.
abbrev pub is_numeral : ℕ → Bool
is_numeral c = is_digit c || c == 45

digits_are_numerals :
    (cs : Bytes) → All (λ c. is_digit c ≡ true) cs → All (λ c. is_numeral c ≡ true) cs
digits_are_numerals [] h = h
digits_are_numerals (c ∷ cs) h = (rw h.0 refl, digits_are_numerals cs h.1)

pub show_ℕ-All : (n : ℕ) → All (λ c. is_digit c ≡ true) (show_ℕ n)
unfolding show_ℕ
show_ℕ-All n = digits_loop-All 20 n [] tt

pub show_ℤ-All : (a : ℤ) → All (λ c. is_numeral c ≡ true) (show_ℤ a)
unfolding show_ℤ
show_ℤ-All (pos n) = digits_are_numerals (show_ℕ n) (show_ℕ-All n)
show_ℤ-All (negsuc n) = (refl, digits_are_numerals (show_ℕ (suc n)) (show_ℕ-All (suc n)))
