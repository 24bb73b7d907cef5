-- ===== src/Core/Chrono.antt =====
-- What the program uses of the `chrono` crate: instants of a calendar time line, moved by a signed
-- number of milliseconds (`at + TimeDelta::milliseconds(ms)`) and compared (`a <= b`). Its
-- documented arithmetic is stated as laws; its panic at the end of the calendar is left out.
use servr.Common.{◌≡◌, ℤ, pos, ◌+ℤ◌, leb_ℤ, int_laws, Bool, true, arith, +ℤ_parts}

pub record Chrono : Type 1 where
  pub DateTime : Type 0
  pub plus : DateTime → ℤ → DateTime
  pub le : DateTime → DateTime → Bool
  pub plus_zero : (t : DateTime) → plus t (pos 0) ≡ t
  pub plus_plus : (t : DateTime) (a b : ℤ) → plus (plus t a) b ≡ plus t (a +ℤ b)
  pub le-plus : (t : DateTime) (a b : ℤ) → le (plus t a) (plus t b) ≡ leb_ℤ a b
  pub le_refl : (t : DateTime) → le t t ≡ true
  pub le_trans : (s t u : DateTime) → le s t ≡ true → le t u ≡ true → le s u ≡ true

-- Milliseconds from an epoch satisfy the laws.
pub milliseconds_plus_zero : (t : ℤ) → t +ℤ pos 0 ≡ t
milliseconds_plus_zero t = omega int_laws

pub milliseconds_plus_plus : (t a b : ℤ) → t +ℤ a +ℤ b ≡ t +ℤ (a +ℤ b)
milliseconds_plus_plus t a b = omega int_laws

pub leb_ℤ-plus : (t a b : ℤ) → leb_ℤ (t +ℤ a) (t +ℤ b) ≡ leb_ℤ a b
leb_ℤ-plus t a b = ground (arith, +ℤ_parts t a, +ℤ_parts t b)

pub leb_ℤ_refl : (t : ℤ) → leb_ℤ t t ≡ true
leb_ℤ_refl t = ground arith

pub leb_ℤ_trans : (s t u : ℤ) → leb_ℤ s t ≡ true → leb_ℤ t u ≡ true → leb_ℤ s u ≡ true
leb_ℤ_trans s t u h k = ground arith

abbrev pub milliseconds : Chrono
milliseconds = record {
  DateTime = ℤ;
  plus = ◌+ℤ◌;
  le = leb_ℤ;
  plus_zero = milliseconds_plus_zero;
  plus_plus = milliseconds_plus_plus;
  le-plus = leb_ℤ-plus;
  le_refl = leb_ℤ_refl;
  le_trans = leb_ℤ_trans;
}
