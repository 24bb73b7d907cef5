-- ===== src/Telemetry/Chaos/Skews.antt =====
-- The parts of a corrupted span of crates/telemetry/src/chaos.rs: the skew as clamped, and the ids drawn.
use servr.Common.{
  ℕ, zero, suc, ◌+◌, ◌*◌, ◌≤◌, ◌≡◌, refl, ap, ℤ, pos, negsuc, ◌+ℤ◌, ◌-ℤ◌, ◌≤ℤ◌, int_laws, true,
  some, List, [], ◌∷◌, Bytes, length, select, Bool-cases, inl, inr, arith,
}
use servr.Core.Trace.{is_valid, span_len}
use servr.Telemetry.Chaos.{Sdk, max_skew_ms, lowest_skew, clamp, repeat_x, orphan_parent}

-- The skew that is applied: the nearest to the one asked for within the widest either way.
pub record IsClamped (ms d : ℤ) : Type 0 where
  pub lower : lowest_skew ≤ℤ d
  pub upper : d ≤ℤ pos max_skew_ms
  pub exact : lowest_skew ≤ℤ ms → ms ≤ℤ pos max_skew_ms → d ≡ ms
  pub at_top : pos max_skew_ms ≤ℤ ms → d ≡ pos max_skew_ms
  pub at_bottom : ms ≤ℤ lowest_skew → d ≡ lowest_skew

pub clamp-IsClamped : (ms : ℤ) → IsClamped ms (clamp ms)
clamp-IsClamped ms = record {
  lower = ground arith;
  upper = ground arith;
  exact = λ a b. ground arith;
  at_top = λ a. ground arith;
  at_bottom = λ a. ground arith;
}

abbrev pub in_nanos : ℤ → ℤ
in_nanos (pos n) = pos (n * 1000000)
in_nanos (negsuc n) = negsuc (n * 1000000 + 999999)

abbrev pub valid_ids : List Bytes → List Bytes
valid_ids ids = select (is_valid span_len) ids

pub minus : (a : ℤ) (n : ℕ) → a -ℤ pos (suc n * 1000000) ≡ a +ℤ negsuc (n * 1000000 + 999999)
minus a n = omega int_laws

pub length-repeat_x : (n : ℕ) → length (repeat_x n) ≡ n
unfolding repeat_x
length-repeat_x zero = refl
length-repeat_x (suc n) = ap suc (length-repeat_x n)

-- Enough draws give an id that is no zero, and use up one of them.
pub orphan_parent-some :
    (n : ℕ) (ids : List Bytes)
    → suc n ≤ length (valid_ids ids)
    → (id : Bytes) × (left : List Bytes) × (orphan_parent ids ≡ some (id, left))
      × (is_valid span_len id ≡ true)
      × (n ≤ length (valid_ids left))
unfolding orphan_parent
orphan_parent-some n [] h = absurd (omega arith)
orphan_parent-some n (id ∷ ids) h = elim (Bool-cases (is_valid span_len id)) [
  | inl e ↦ (id, ids, rw e refl, e, ground arith)
  | inr e ↦
      let (next, left, found, valid, more) = orphan_parent-some n ids (ground arith) in
      (next, left, rw e found, valid, more)
]

-- What the durations of `SystemTime` do, `nanos` being the time since the epoch.
pub record TimeLaws (sdk : Sdk) (nanos : sdk.SystemTime → ℤ) : Type 0 where
  pub added :
      (t u : sdk.SystemTime) (d : ℕ)
      → sdk.checked_add t d ≡ some u
      → nanos u ≡ nanos t +ℤ pos (d * 1000000)
  pub subtracted :
      (t u : sdk.SystemTime) (d : ℕ)
      → sdk.checked_sub t d ≡ some u
      → nanos u ≡ nanos t -ℤ pos (d * 1000000)
