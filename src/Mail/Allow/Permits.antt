-- ===== src/Mail/Allow/Permits.antt =====
-- Which addresses an allowlist of crates/mail/src/allow.rs permits.
use servr.Common.{
  rsplit_once, rsplit_once-some, rsplit_once_last, Text, trim, to_ascii_lowercase, ℕ, ◌≡◌, ◌≢◌,
  refl, sym, ap, subst, ◌∙◌, ◌↔◌, ◌⊎◌, inl, inr, Bool, true, false, none, some, List, [], ◌∷◌, ◌++◌,
  bytes_beq_iff, any_of, ◌==◌, Bool-cases, Option-cases,
}
use servr.Mail.Allow.{Entry, domain, address, any, Allowlist, at_sign, entry_permits, permits}

abbrev has : ℕ → Text → Bool
has c text = any_of (λ d. d == c) text

-- An address that ends in a domain: the `@` before it is the last one.
abbrev pub HasDomain : Text → Text → Type 0
HasDomain text after =
    (before : Text) × (text ≡ before ++ at_sign ∷ after) × (has at_sign after ≡ false)

rsplit_once-HasDomain :
    (text after : Text)
    → HasDomain text after
    → (before : Text) × (rsplit_once at_sign text ≡ some (before, after))
rsplit_once-HasDomain text after (before, same, no_at) =
    (before, ap (rsplit_once at_sign) same ∙ rsplit_once_last at_sign before after no_at)

-- What an entry lets through: an address with a domain, an address of exactly this domain, or
-- exactly this address.
abbrev pub Allows : Text → Entry → Type 0
Allows text any = (after : Text) × HasDomain text after
Allows text (domain d) = HasDomain text d
Allows text (address a) = (text ≡ a) × (after : Text) × HasDomain text after

abbrev pub Some : (Entry → Type 0) → List Entry → Type 0
Some P [] = ⊥
Some P (x ∷ xs) = P x ⊎ Some P xs

any_of-Some :
    (p : Entry → Bool) (P : Entry → Type 0) (es : List Entry)
    → ((e : Entry) → (p e ≡ true) ↔ P e)
    → (any_of p es ≡ true) ↔ Some P es
any_of-Some p P [] h = (λ e. cc, λ s. elim s [ ])
any_of-Some p P (e ∷ es) h =
    let rest = any_of-Some p P es h in
    let one = h e in
    (
      λ t. elim (Bool-cases (p e)) [ inl y ↦ inl (one.0 y) | inr n ↦ inr (rest.0 (rw n at t)) ],
      λ s. elim s [
        | inl y ↦ rw (one.1 y) refl
        | inr ys ↦ elim (Bool-cases (p e)) [ inl y ↦ rw y refl | inr n ↦ rw n (rest.1 ys) ]
      ],
    )

some_inj : (p q : Text × Text) → some p ≡ some q → p.1 ≡ q.1
some_inj p q h = cc

entry_permits-Allows :
    (text before after : Text) (e : Entry)
    → rsplit_once at_sign text ≡ some (before, after)
    → (entry_permits text after e ≡ true) ↔ Allows text e
entry_permits-Allows text before after e r =
    let (same, no_at) = rsplit_once-some at_sign text before after r in
    let here : HasDomain text after = (before, same, no_at) in go e here
  where
    go : (e : Entry) → HasDomain text after → (entry_permits text after e ≡ true) ↔ Allows text e
    go any here = (λ _. (after, here), λ _. refl)
    go (domain d) here = (
      λ t. subst (HasDomain text) ((bytes_beq_iff after d).0 t) here,
      λ there.
          let (b, s) = rsplit_once-HasDomain text d there in
          (bytes_beq_iff after d).1 (some_inj (before, after) (b, d) (sym r ∙ s)),
    )
    go (address a) here =
        (λ t. ((bytes_beq_iff text a).0 t, after, here), λ (t, _, _). (bytes_beq_iff text a).1 t)

none-some : (p : Text × Text) → none ≢ some p
none-some p h = cc

refused : (text after : Text) → rsplit_once at_sign text ≡ none → ¬ HasDomain text after
refused text after n h =
    let (b, s) = rsplit_once-HasDomain text after h in none-some (b, after) (sym n ∙ s)

no_domain :
    (text : Text) (es : List Entry) → rsplit_once at_sign text ≡ none → ¬ Some (Allows text) es
no_domain text [] n s = s
no_domain text (e ∷ es) n (inr s) = no_domain text es n s
no_domain text (any ∷ es) n (inl (after, h)) = refused text after n h
no_domain text (domain d ∷ es) n (inl h) = refused text d n h
no_domain text (address a ∷ es) n (inl (t, after, h)) = refused text after n h

-- An address is permitted exactly when an entry of the list lets it through, read without outer
-- white space and in lower case: its domain is what follows the last `@` and is compared as a
-- whole, and an address without an `@`, or an empty list, is refused.
pub permits-Allows :
    (list : Allowlist) (raw : Text)
    → (permits list raw ≡ true) ↔ Some (Allows (to_ascii_lowercase (trim raw))) list.entries
unfolding permits
permits-Allows list raw =
    let whole = to_ascii_lowercase (trim raw) in
    elim (Option-cases (rsplit_once at_sign whole)) [
      | inl n ↦ rw (n, permits) (λ h. cc, λ s. absurd (no_domain whole list.entries n s))
      | inr ((before, after), r) ↦
          rw (r, permits)
            (any_of-Some (entry_permits whole after) (Allows whole) list.entries
              (λ e. entry_permits-Allows whole before after e r))
    ]
