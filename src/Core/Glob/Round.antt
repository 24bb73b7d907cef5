-- ===== src/Core/Glob/Round.antt =====
-- One round of the loop of `glob_match` in crates/core/src/fault.rs: what it reads, and the fuel.
use mathlib.Core.Bool.{false≢true}
use servr.Common.{
  ℕ, suc, ◌+◌, ◌-◌, ◌*◌, ◌≤◌, ◌<◌, ◌≡◌, refl, ◌↔◌, ◌≢◌, inl, inr, Bool, true, false, Option, none,
  some, Bytes, get_elem?, Option-cases, arith,
}
use servr.Core.Glob.{byte_is, bytes_meet}

-- The run ended with an answer, and the answer is right about `G`.
abbrev pub Decides : Type 0 → Option Bool → Type 0
Decides G (some true) = G
Decides G (some false) = ¬ G
Decides G none = ⊥

pub ok-Decides : {G : Type 0} (b : Bool) → (b ≡ true) ↔ G → Decides G (some b)
ok-Decides true e = e.0 refl
ok-Decides false e = λ g. false≢true (e.1 g)

pub fuel_star :
    (n r t l p f : ℕ)
    → r ≤ t
    → p < l
    → (n - r) * (l + 1) + (l - p) < suc f
    → (n - t) * (l + 1) + (l - suc p) < f
fuel_star n r t l p f hr hp h = grind arith

pub fuel_retry :
    (n r l p s f : ℕ)
    → r < n
    → s < l
    → (n - r) * (l + 1) + (l - p) < suc f
    → (n - suc r) * (l + 1) + (l - suc s) < f
fuel_retry n r l p s f hr hs h =
    let e : n - r ≡ suc (n - suc r) = omega arith in
    let h' : suc (n - suc r) * (l + 1) + (l - p) < suc f = rw (← e) h in omega arith

pub byte_is→get : (xs : Bytes) (i c : ℕ) → byte_is xs i c ≡ true → get_elem? xs i ≡ some c
byte_is→get xs i c h = ground arith

pub get→byte_is : (xs : Bytes) (i c : ℕ) → get_elem? xs i ≡ some c → byte_is xs i c ≡ true
get→byte_is xs i c h = ground arith

pub other_byte : (xs : Bytes) (i c d : ℕ) → byte_is xs i d ≡ false → get_elem? xs i ≡ some c → c ≢ d
other_byte xs i c d h e = ground arith

pub differs→ne :
    (pattern : Bytes) (p : ℕ) (text : Bytes) (t c d : ℕ)
    → bytes_meet pattern p text t ≡ false
    → get_elem? pattern p ≡ some c
    → get_elem? text t ≡ some d
    → c ≢ d
differs→ne pattern p text t c d h hp ht = ground arith

pub meets→get :
    (pattern : Bytes) (p : ℕ) (text : Bytes) (t : ℕ)
    → bytes_meet pattern p text t ≡ true
    → (d : ℕ) × (get_elem? pattern p ≡ some d) × (get_elem? text t ≡ some d)
meets→get pattern p text t h = elim (Option-cases (get_elem? text t)) [
  | inl e ↦ absurd (ground arith)
  | inr (d, e) ↦ (d, ground arith, e)
]
