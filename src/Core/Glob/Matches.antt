-- ===== src/Core/Glob/Matches.antt =====
-- What a route glob means, with no search order in it: `*` stands for any run of bytes, every
-- other byte for itself; and the same read at two positions.
use native.Mathlib.Nat.{suc-add}
use servr.Common.{
  ℕ, zero, suc, ◌+◌, ◌≤◌, ◌≡◌, refl, sym, ◌∙◌, ◌≢◌, ◌↔◌, List, [], ◌∷◌, none, some, Bytes, length,
  get_elem?, drop, drop-get_elem?, drop_all, get_elem?-none, arith,
}

abbrev star_byte : ℕ
star_byte = b'*'

pub data Matches : Bytes → Bytes → Type 0 where
  both_end : Matches [] []
  same_byte : {c : ℕ} {p s : Bytes} → c ≢ star_byte → Matches p s → Matches (c ∷ p) (c ∷ s)
  any_run : {c : ℕ} {p s : Bytes} (k : ℕ) → c ≡ star_byte → Matches p (drop k s) → Matches (c ∷ p) s

drop-nil {ℓ} : {A : Type ℓ} (i : ℕ) → drop {A = A} i [] ≡ []
drop-nil zero = refl
drop-nil (suc i) = refl

drop-drop {ℓ} : {A : Type ℓ} (i j : ℕ) (xs : List A) → drop j (drop i xs) ≡ drop (i + j) xs
drop-drop zero j xs = ground arith
drop-drop {A} (suc i) j [] = drop-nil j ∙ sym (drop-nil (suc i + j))
drop-drop (suc i) j (x ∷ xs) = rw suc-add (drop-drop i j xs)

star_inv :
    {c : ℕ} {p s : Bytes} → Matches (c ∷ p) s → c ≡ star_byte → (k : ℕ) × Matches p (drop k s)
star_inv (same_byte n d) e = absurd (n e)
star_inv (any_run k e d) _ = (k, d)

byte_inv : {c d : ℕ} {p s : Bytes} → Matches (c ∷ p) (d ∷ s) → c ≢ star_byte → (c ≡ d) × Matches p s
byte_inv (same_byte n d) _ = (refl, d)
byte_inv (any_run k e d) n = absurd (n e)

end_inv : {s : Bytes} → Matches [] s → s ≡ []
end_inv both_end = refl

text_end_inv : {c : ℕ} {p : Bytes} → Matches (c ∷ p) [] → c ≡ star_byte
text_end_inv (any_run k e d) = e

module _ (pattern text : Bytes) where
  -- The pattern from `p` on matches the text from `t` on.
  abbrev pub MatchesAt : ℕ → ℕ → Type 0
  MatchesAt p t = Matches (drop p pattern) (drop t text)

  pub at_star :
      (p t : ℕ)
      → get_elem? pattern p ≡ some star_byte
      → MatchesAt p t ↔ ((k : ℕ) × MatchesAt (suc p) (t + k))
  at_star p t h = (forth, back)
    where
      forth : MatchesAt p t → (k : ℕ) × MatchesAt (suc p) (t + k)
      forth m =
          let (k, d) = star_inv (rw (drop-get_elem? pattern p star_byte h) at m) refl in
          (k, rw (drop-drop t k text) at d)

      back : (k : ℕ) × MatchesAt (suc p) (t + k) → MatchesAt p t
      back (k, d) =
          rw (drop-get_elem? pattern p star_byte h)
            (any_run k refl (rw (← drop-drop t k text) at d))

  pub at_byte :
      (p t c d : ℕ)
      → get_elem? pattern p ≡ some c
      → c ≢ star_byte
      → get_elem? text t ≡ some d
      → MatchesAt p t ↔ ((c ≡ d) × MatchesAt (suc p) (suc t))
  at_byte p t c d hp n ht = (forth, back)
    where
      forth : MatchesAt p t → (c ≡ d) × MatchesAt (suc p) (suc t)
      forth m =
          byte_inv (rw (drop-get_elem? text t d ht) at (rw (drop-get_elem? pattern p c hp) at m)) n

      back : (c ≡ d) × MatchesAt (suc p) (suc t) → MatchesAt p t
      back (e, m) =
          rw (drop-get_elem? pattern p c hp, drop-get_elem? text t d ht, ← e) (same_byte n m)

  pub at_pattern_end :
      (p t d : ℕ) → get_elem? pattern p ≡ none → get_elem? text t ≡ some d → ¬ MatchesAt p t
  at_pattern_end p t d hp ht m = nil≢cons (
      sym (
        end_inv (
          rw (drop-get_elem? text t d ht) at
            (rw (drop_all pattern p (get_elem?-none pattern p hp)) at m))))
    where
      nil≢cons : [] ≡ d ∷ drop (suc t) text → ⊥
      nil≢cons e = cc

  -- Past the end of the text only the stars are left.
  pub at_text_end :
      (p t c : ℕ)
      → length text ≤ t
      → get_elem? pattern p ≡ some c
      → MatchesAt p t ↔ ((c ≡ star_byte) × MatchesAt (suc p) t)
  at_text_end p t c ht hp = (forth, back)
    where
      stop : (k : ℕ) → drop k (drop t text) ≡ drop t text
      stop k = rw (drop_all text t ht) (drop-nil k)

      forth : MatchesAt p t → (c ≡ star_byte) × MatchesAt (suc p) t
      forth m =
          let starred = rw (drop-get_elem? pattern p c hp) at m in
          let e = text_end_inv (rw (drop_all text t ht) at starred) in
          let (k, d) = star_inv starred e in (e, rw (stop k) at d)

      back : (c ≡ star_byte) × MatchesAt (suc p) t → MatchesAt p t
      back (e, m) = rw (drop-get_elem? pattern p c hp) (any_run 0 e m)

  pub at_both_ends : (p t : ℕ) → length text ≤ t → length pattern ≤ p → MatchesAt p t
  at_both_ends p t ht hp = rw (drop_all text t ht, drop_all pattern p hp) both_end

  -- Where the text has ended its length does not matter.
  pub at_text_end_shift : (p t k : ℕ) → length text ≤ t → MatchesAt p (t + k) → MatchesAt p t
  at_text_end_shift p t k ht m =
      rw (drop_all text t ht) (rw (drop_all text (t + k) (omega arith)) at m)
