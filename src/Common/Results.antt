-- ===== src/Common/Results.antt =====
-- Results as sums, an error on the left: `?`, `map_err`, and what a success says of its steps.
use mathlib.Core.Path.{◌≡◌, refl}
use mathlib.Core.Logic.{◌⊎◌, inl, inr}

-- `?`, then the rest.
abbrev pub and_then {ℓ κ μ} : {E : Type ℓ} {A : Type κ} {B : Type μ} → E ⊎ A → (A → E ⊎ B) → E ⊎ B
and_then (inl e) f = inl e
and_then (inr a) f = f a

abbrev pub map_err {ℓ κ μ} : {E : Type ℓ} {F : Type κ} {A : Type μ} → (E → F) → E ⊎ A → F ⊎ A
map_err f (inl e) = inl (f e)
map_err f (inr a) = inr a

pub and_then-inr :
    {E A B : Type 0} (r : E ⊎ A) (f : A → E ⊎ B) (b : B)
    → and_then r f ≡ inr b
    → (a : A) × (r ≡ inr a) × (f a ≡ inr b)
and_then-inr (inl e) f b h = absurd (cc)
and_then-inr (inr a) f b h = (a, refl, h)

pub map_err-inr : {E F A : Type 0} (f : E → F) (r : E ⊎ A) (a : A) → map_err f r ≡ inr a → r ≡ inr a
map_err-inr f (inl e) a h = absurd (cc)
map_err-inr f (inr b) a h = cc
