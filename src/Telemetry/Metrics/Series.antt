-- ===== src/Telemetry/Metrics/Series.antt =====
-- The series of `bomb` in crates/telemetry/src/chaos.rs: each is told by its scrape and its number.
use servr.Common.{
  any_of, ℕ, zero, suc, ◌+◌, ◌/◌, ◌%◌, ◌^◌, ◌≤◌, ◌<◌, ◌≡◌, ◌≢◌, ◌⊎◌, refl, sym, ap, ◌∙◌, true,
  false, List, [], ◌∷◌, ◌++◌, Bytes, bytes, length, ◌==◌, All, All-append, split, split-append,
  Lacks, hex_digit, is_hex, hex_digit-is_hex, is_digit, show_ℕ, show_ℕ-All, parse_unsigned-show_ℕ,
  inl, inr, arith,
}
use servr.Telemetry.Metrics.{lines, hex_digits, bomb_line, bomb_lines}
use servr.Telemetry.Metrics.Resets.{breaks, IsClean, lines_line}

hex_digit_inj : (a b : ℕ) → a < 16 → b < 16 → hex_digit a ≡ hex_digit b → a ≡ b
hex_digit_inj a b ha hb e = ground arith

hex_digits_append :
    (k n : ℕ) (acc rest : Bytes) → hex_digits k n acc ++ rest ≡ hex_digits k n (acc ++ rest)
unfolding hex_digits
hex_digits_append zero n acc rest = refl
hex_digits_append (suc k) n acc rest = hex_digits_append k (n / 16) (hex_digit (n % 16) ∷ acc) rest

-- As many digits as the number fits in tell it, and what stands after them.
hex_digits_inj :
    (k n m : ℕ) (a b : Bytes)
    → n < 16 ^ k
    → m < 16 ^ k
    → hex_digits k n a ≡ hex_digits k m b
    → (n ≡ m) × (a ≡ b)
unfolding hex_digits
hex_digits_inj zero n m a b hn hm e = (omega arith, e)
hex_digits_inj (suc k) n m a b hn hm e =
    let (high, rest) =
      hex_digits_inj k (n / 16) (m / 16) (hex_digit (n % 16) ∷ a) (hex_digit (m % 16) ∷ b)
        (omega arith) (omega arith) e in
    let low = hex_digit_inj (n % 16) (m % 16) (omega arith) (omega arith) (cc) in (omega arith, cc)

hex_digits-All :
    (k n : ℕ) (acc : Bytes)
    → All (λ c. is_hex c ≡ true) acc
    → All (λ c. is_hex c ≡ true) (hex_digits k n acc)
unfolding hex_digits
hex_digits-All zero n acc h = h
hex_digits-All (suc k) n acc h =
    hex_digits-All k (n / 16) (hex_digit (n % 16) ∷ acc)
      (hex_digit-is_hex (n % 16) (omega arith), h)

prefix_cancel : (p a b : Bytes) → p ++ a ≡ p ++ b → a ≡ b
prefix_cancel [] a b e = e
prefix_cancel (c ∷ p) a b e = prefix_cancel p a b (cc)

digits_no_quote : (cs : Bytes) → All (λ c. is_digit c ≡ true) cs → Lacks (λ c. c == 34) cs
digits_no_quote [] h = tt
digits_no_quote (c ∷ cs) h = let digit = h.0 in (ground arith, digits_no_quote cs h.1)

-- The number before a quote.
show_ℕ_inj :
    (i j : ℕ) (a b : Bytes)
    → i < 10 ^ 20
    → j < 10 ^ 20
    → show_ℕ i ++ 34 ∷ a ≡ show_ℕ j ++ 34 ∷ b
    → i ≡ j
show_ℕ_inj i j a b hi hj e =
    let left = split-append 34 (show_ℕ i) a (digits_no_quote (show_ℕ i) (show_ℕ-All i)) in
    let right = split-append 34 (show_ℕ j) b (digits_no_quote (show_ℕ j) (show_ℕ-All j)) in
    let whole : split 34 (show_ℕ i ++ 34 ∷ a) ≡ split 34 (show_ℕ j ++ 34 ∷ b) = ap (split 34) e in
    let same : show_ℕ i ≡ show_ℕ j = cc (left, right, whole) in
    cc (same, parse_unsigned-show_ℕ i hi, parse_unsigned-show_ℕ j hj)

-- A series is told by its scrape and its number.
bomb_line_inj :
    (n m i j : ℕ)
    → n < 16 ^ 16
    → m < 16 ^ 16
    → i < 10 ^ 20
    → j < 10 ^ 20
    → bomb_line n i ≡ bomb_line m j
    → (n ≡ m) × (i ≡ j)
unfolding bomb_line
bomb_line_inj n m i j hn hm hi hj e =
    let label : ℕ → Bytes = λ k. bytes "\",series=\"" ++ (show_ℕ k ++ bytes "\"} 1") in
    let tail : hex_digits 16 n [] ++ label i ≡ hex_digits 16 m [] ++ label j =
      prefix_cancel (bytes "testbed_cardinality_bomb{scrape=\"") _ _ e in
    let (same, rest) =
      hex_digits_inj 16 n m (label i) (label j) hn hm
        (sym (hex_digits_append 16 n [] (label i)) ∙ tail ∙ hex_digits_append 16 m [] (label j)) in
    (
      same,
      show_ℕ_inj i j (bytes "} 1") (bytes "} 1") hi hj
          (prefix_cancel (bytes "\",series=\"") _ _ rest),
    )

hex-IsClean : (cs : Bytes) → All (λ c. is_hex c ≡ true) cs → IsClean cs
hex-IsClean [] h = tt
hex-IsClean (c ∷ cs) h = let digit = h.0 in (ground arith, hex-IsClean cs h.1)

digits-IsClean : (cs : Bytes) → All (λ c. is_digit c ≡ true) cs → IsClean cs
digits-IsClean [] h = tt
digits-IsClean (c ∷ cs) h = let digit = h.0 in (ground arith, digits-IsClean cs h.1)

append-IsClean : (a b : Bytes) → IsClean a → IsClean b → IsClean (a ++ b)
append-IsClean a b = All-append (λ c. breaks c ≡ false) a b

pub any_of-IsClean : (cs : Bytes) → any_of breaks cs ≡ false → IsClean cs
any_of-IsClean [] h = tt
any_of-IsClean (c ∷ cs) h = ground (arith, any_of-IsClean cs)

bomb_line-IsClean : (n i : ℕ) → IsClean (bomb_line n i)
unfolding bomb_line
bomb_line-IsClean n i =
    let number = show_ℕ i ++ bytes "\"} 1" in
    let label = bytes "\",series=\"" ++ number in
    append-IsClean (bytes "testbed_cardinality_bomb{scrape=\"") (hex_digits 16 n [] ++ label)
      (any_of-IsClean (bytes "testbed_cardinality_bomb{scrape=\"") refl)
      (append-IsClean (hex_digits 16 n []) label
        (hex-IsClean (hex_digits 16 n []) (hex_digits-All 16 n [] tt))
        (append-IsClean (bytes "\",series=\"") number (any_of-IsClean (bytes "\",series=\"") refl) (
          append-IsClean (show_ℕ i) (bytes "\"} 1") (digits-IsClean (show_ℕ i) (show_ℕ-All i))
            (any_of-IsClean (bytes "\"} 1") refl))))

abbrev pub series_from : ℕ → ℕ → ℕ → List Bytes
series_from zero n i = []
series_from (suc k) n i = bomb_line n i ∷ series_from k n (suc i)

pub lines-bomb_lines : (k n i : ℕ) → lines (bomb_lines k n i) ≡ series_from k n i
unfolding bomb_lines
lines-bomb_lines zero n i = unfold lines in refl
lines-bomb_lines (suc k) n i =
    lines_line (bomb_line n i) (bomb_lines k n (suc i)) (bomb_line-IsClean n i)
    ∙ ap (λ ls. bomb_line n i ∷ ls) (lines-bomb_lines k n (suc i))

-- No line stands twice.
abbrev pub AllDistinct : List Bytes → Type 0
AllDistinct [] = Unit
AllDistinct (l ∷ ls) = All (λ m. l ≢ m) ls × AllDistinct ls

abbrev pub Disjoint : List Bytes → List Bytes → Type 0
Disjoint ls ms = All (λ l. All (λ m. l ≢ m) ms) ls

series_other :
    (k n m i j : ℕ)
    → n < 16 ^ 16
    → m < 16 ^ 16
    → i < 10 ^ 20
    → j + k ≤ 10 ^ 20
    → (n ≢ m) ⊎ (i < j)
    → All (λ l. bomb_line n i ≢ l) (series_from k m j)
series_other zero n m i j hn hm hi hj d = tt
series_other (suc k) n m i j hn hm hi hj d = (
  λ e. let (a, b) = bomb_line_inj n m i j hn hm hi (omega arith) e in differs d a b,
  series_other k n m i (suc j) hn hm hi (omega arith) (later d),
)
  where
    differs : (n ≢ m) ⊎ (i < j) → n ≡ m → i ≡ j → ⊥
    differs (inl f) a b = f a
    differs (inr f) a b = omega arith

    later : (n ≢ m) ⊎ (i < j) → (n ≢ m) ⊎ (i < suc j)
    later (inl f) = inl f
    later (inr f) = inr (omega arith)

pub series_distinct : (k n i : ℕ) → n < 16 ^ 16 → i + k ≤ 10 ^ 20 → AllDistinct (series_from k n i)
series_distinct zero n i hn h = tt
series_distinct (suc k) n i hn h = (
  series_other k n n i (suc i) hn hn (omega arith) (omega arith) (inr (omega arith)),
  series_distinct k n (suc i) hn (omega arith),
)

pub series-Disjoint :
    (k l n m i j : ℕ)
    → n < 16 ^ 16
    → m < 16 ^ 16
    → i + k ≤ 10 ^ 20
    → j + l ≤ 10 ^ 20
    → n ≢ m
    → Disjoint (series_from k n i) (series_from l m j)
series-Disjoint zero l n m i j hn hm hi hj d = tt
series-Disjoint (suc k) l n m i j hn hm hi hj d = (
  series_other l n m i j hn hm (omega arith) hj (inl d),
  series-Disjoint k l n m (suc i) j hn hm (omega arith) hj d,
)

pub series_length : (k n i : ℕ) → length (series_from k n i) ≡ k
series_length zero n i = refl
series_length (suc k) n i = ap suc (series_length k n (suc i))
