-- ===== src/Core/Glob/Sound.antt =====
-- The loop of `glob_match` in crates/core/src/fault.rs against the meaning of a pattern.
use native.Mathlib.Nat.{add-zero, add-suc, suc-add, add_assoc, sub-zero}
use servr.Common.{
  ℕ, zero, suc, ◌+◌, ◌-◌, ◌*◌, ◌≤◌, ◌<◌, ◌≡◌, refl, sym, ◌∙◌, ◌↔◌, ◌≢◌, inl, inr, Bool, true, false,
  Option, none, some, Bytes, length, get_elem?, get_elem?-some, get_elem?-none, get_elem?_lt, ltb,
  ltb→lt, ==_iff, ◌==◌, Bool-cases, Option-cases, arith,
}
use servr.Core.Glob.Matches.{
  Matches, MatchesAt, at_star, at_byte, at_pattern_end, at_text_end, at_both_ends,
  at_text_end_shift,
}
use servr.Core.Glob.{
  star_byte, byte_is, bytes_meet, skip_stars, glob_loop, glob_fuel, glob_run, glob_match,
}
use servr.Core.Glob.Round.{
  Decides, ok-Decides, fuel_star, fuel_retry, byte_is→get, other_byte, differs→ne, meets→get,
}

module _ (pattern text : Bytes) where
  abbrev At : ℕ → ℕ → Type 0
  At = MatchesAt pattern text

  -- The tail of the loop decides a match of nothing.
  skip_stars_iff :
      (fuel p t : ℕ)
      → length text ≤ t
      → p ≤ length pattern
      → length pattern ≤ p + fuel
      → ((skip_stars pattern fuel p == length pattern) ≡ true) ↔ At p t
  unfolding skip_stars
  skip_stars_iff zero p t ht hp hf =
      (λ _. at_both_ends pattern text p t ht (omega arith), λ _. ground arith)
  skip_stars_iff (suc fuel) p t ht hp hf = elim (Option-cases (get_elem? pattern p)) [
    | inl e ↦
        rw (e, skip_stars)
          (
            λ _. at_both_ends pattern text p t ht (get_elem?-none pattern p e),
            λ _. ground (arith, get_elem?-none pattern p e),
          )
    | inr (c, e) ↦ elim (Bool-cases (c == star_byte)) [
      | inl starred ↦
          let ih = skip_stars_iff fuel (suc p) t ht (get_elem?_lt pattern p c e) (omega arith) in
          let here = at_text_end pattern text p t c ht e in
          rw (e, skip_stars, starred)
            (λ h. here.1 ((==_iff c star_byte).0 starred, ih.0 h), λ m. ih.1 (here.0 m).1)
      | inr other ↦
          rw (e, skip_stars, other)
            (
              λ h. absurd (ground (arith, get_elem?_lt pattern p c e)),
              λ m. cc (
                  sym other ∙ (==_iff c star_byte).1 ((at_text_end pattern text p t c ht e).0 m).0),
            )
    ]
  ]

  -- What the saved star means.
  abbrev Saved : Type 0 → ℕ → ℕ → Option ℕ → ℕ → Type 0
  Saved G p t none resume = G → At p t
  Saved G p t (some s) resume =
      (get_elem? pattern s ≡ some star_byte) × (G ↔ At s resume) × (At (suc s) resume → At p t)

  record Inv (G : Type 0) (fuel p t : ℕ) (star : Option ℕ) (resume : ℕ) : Type 0 where
    now : At p t → G
    later : G → (k : ℕ) × At p (t + k)
    saved : Saved G p t star resume
    within : p ≤ length pattern
    order : resume ≤ t
    inside : t ≤ length text
    fuel_left : (length text - resume) * (length pattern + 1) + (length pattern - p) < fuel

  ends :
      {G : Type 0} {fuel p t : ℕ} {star : Option ℕ} {resume : ℕ}
      → Inv G fuel p t star resume
      → length text ≤ t
      → Decides G (some (skip_stars pattern (length pattern) p == length pattern))
  ends {G} {p} {t} i h =
      ok-Decides (skip_stars pattern (length pattern) p == length pattern)
        (λ e. i.now (tail.0 e), λ g. tail.1 (now_or_later (i.later g)))
    where
      tail : ((skip_stars pattern (length pattern) p == length pattern) ≡ true) ↔ At p t
      tail = skip_stars_iff (length pattern) p t h i.within (omega arith)

      now_or_later : (k : ℕ) × At p (t + k) → At p t
      now_or_later (k, m) = at_text_end_shift pattern text p t k h m

  -- A fresh start behind the star at `s`: the question is whether the pattern from `s` matches.
  Inv-restart :
      {G : Type 0} {fuel s t : ℕ}
      → get_elem? pattern s ≡ some star_byte
      → G ↔ At s t
      → t ≤ length text
      → (length text - t) * (length pattern + 1) + (length pattern - suc s) < fuel
      → Inv G fuel (suc s) t (some s) t
  Inv-restart {s} {t} e down ht hf =
      let here = at_star pattern text s t e in
      record {
        now = λ m. down.1 (here.1 (0, rw add-zero m));
        later = λ g. here.0 (down.0 g);
        saved = (e, down, λ m. m);
        within = get_elem?_lt pattern s star_byte e;
        order = omega arith;
        inside = ht;
        fuel_left = hf;
      }

  Inv-star :
      {G : Type 0} {fuel p t : ℕ} {star : Option ℕ} {resume : ℕ}
      → Inv G (suc fuel) p t star resume
      → get_elem? pattern p ≡ some star_byte
      → Inv G fuel (suc p) t (some p) t
  Inv-star {G} {p} {t} {resume} i e =
      Inv-restart e (λ g. sooner (i.later g), i.now) i.inside
        (fuel_star (length text) resume t (length pattern) p _ i.order
          (get_elem?_lt pattern p star_byte e) i.fuel_left)
    where
      sooner : (k : ℕ) × At p (t + k) → At p t
      sooner (k, m) =
          let (j, d) = (at_star pattern text p (t + k) e).0 m in
          (at_star pattern text p t e).1 (k + j, rw (← add_assoc) d)

  -- A byte that is no star matches here or nowhere.
  Inv-byte :
      {G : Type 0} {fuel p t : ℕ} {star : Option ℕ} {resume : ℕ} (d : ℕ)
      → Inv G (suc fuel) p t star resume
      → get_elem? pattern p ≡ some d
      → d ≢ star_byte
      → get_elem? text t ≡ some d
      → Inv G fuel (suc p) (suc t) star resume
  Inv-byte {G} {p} {t} {star} {resume} d i hp n ht =
      let here = at_byte pattern text p t d d hp n ht in
      record {
        now = λ m. i.now (here.1 (refl, m));
        later = λ g. onward (i.later g);
        saved = kept star (λ m. (here.0 m).1) i.saved;
        within = get_elem?_lt pattern p d hp;
        order = omega arith;
        inside = get_elem?_lt text t d ht;
        fuel_left = omega (arith, get_elem?_lt pattern p d hp);
      }
    where
      onward : (k : ℕ) × At p (t + k) → (k : ℕ) × At (suc p) (suc t + k)
      onward (k, m) = elim (Option-cases (get_elem? text (t + k))) [
        | inl e ↦
            absurd
              (n ((at_text_end pattern text p (t + k) d (get_elem?-none text (t + k) e) hp).0 m).0)
        | inr (x, e) ↦ (k, rw suc-add ((at_byte pattern text p (t + k) d x hp n e).0 m).1)
      ]

      kept :
          (star : Option ℕ)
          → (At p t → At (suc p) (suc t))
          → Saved G p t star resume
          → Saved G (suc p) (suc t) star resume
      kept none step h = λ g. step (h g)
      kept (some s) step (e, down, local) = (e, down, λ m. step (local m))

  -- The saved star has to take one byte more.
  retry-Decides :
      {G : Type 0} {fuel p t : ℕ} (star : Option ℕ) {resume : ℕ}
      → Inv G (suc fuel) p t star resume
      → t < length text
      → ¬ At p t
      → ((s : ℕ)
          → Inv G fuel (suc s) (suc resume) (some s) (suc resume)
          → Decides G (glob_loop pattern text fuel (suc s) (suc resume) (some s) (suc resume)))
      → Decides G (elim star [
        | none ↦ some false
        | some s ↦ glob_loop pattern text fuel (suc s) (suc resume) (some s) (suc resume)
      ])
  retry-Decides none i h no_match next = λ g. no_match (i.saved g)
  retry-Decides {G} {p} (some s) {resume} i h no_match next =
      let (e, down, local) = i.saved in
      next s (
        Inv-restart e
          (λ g. longer e (λ m. no_match (local m)) (down.0 g), λ m. down.1 (shorter e m))
          (omega arith)
          (fuel_retry (length text) resume (length pattern) p s _ (omega arith)
            (get_elem?_lt pattern s star_byte e) i.fuel_left))
    where
      shorter : get_elem? pattern s ≡ some star_byte → At s (suc resume) → At s resume
      shorter e m =
          let (k, d) = (at_star pattern text s (suc resume) e).0 m in
          (at_star pattern text s resume e).1 (suc k, rw (add-suc, ← suc-add) d)

      pick :
          ¬ At (suc s) resume
          → (k : ℕ) × At (suc s) (resume + k)
          → (k : ℕ) × At (suc s) (suc resume + k)
      pick n (zero, d) = absurd (n (rw add-zero at d))
      pick n (suc k, d) = (k, rw (suc-add, ← add-suc) d)

      longer :
          get_elem? pattern s ≡ some star_byte
          → ¬ At (suc s) resume
          → At s resume
          → At s (suc resume)
      longer e n m =
          (at_star pattern text s (suc resume) e).1 (pick n ((at_star pattern text s resume e).0 m))

  mismatch :
      (p t : ℕ)
      → t < length text
      → byte_is pattern p star_byte ≡ false
      → bytes_meet pattern p text t ≡ false
      → ¬ At p t
  mismatch p t ht plain differs m =
      let (d, e) = get_elem?-some text t ht in
      elim (Option-cases (get_elem? pattern p)) [
        | inl hp ↦ at_pattern_end pattern text p t d hp e m
        | inr (c, hp) ↦
            let unstarred = other_byte pattern p c star_byte plain hp in
            differs→ne pattern p text t c d differs hp e
              ((at_byte pattern text p t c d hp unstarred e).0 m).0
      ]

  glob_loop-Decides :
      (G : Type 0) (fuel p t : ℕ) (star : Option ℕ) (resume : ℕ)
      → Inv G fuel p t star resume
      → Decides G (glob_loop pattern text fuel p t star resume)
  unfolding glob_loop
  glob_loop-Decides G zero p t star resume i = omega arith
  glob_loop-Decides G (suc fuel) p t star resume i = elim (Bool-cases (ltb t (length text))) [
    | inr over ↦ rw (over, glob_loop) (ends i (ground arith))
    | inl more ↦ elim (Bool-cases (byte_is pattern p star_byte)) [
      | inl starred ↦
          rw (more, starred, glob_loop)
            (glob_loop-Decides G fuel (suc p) t (some p) t
              (Inv-star i (byte_is→get pattern p star_byte starred)))
      | inr plain ↦ elim (Bool-cases (bytes_meet pattern p text t)) [
        | inl meets ↦
            let (d, hp, ht) = meets→get pattern p text t meets in
            rw (more, plain, meets, glob_loop)
              (glob_loop-Decides G fuel (suc p) (suc t) star resume
                (Inv-byte d i hp (other_byte pattern p d star_byte plain hp) ht))
        | inr differs ↦
            rw (more, plain, differs, glob_loop)
              (retry-Decides star i (ltb→lt t (length text) more)
                (mismatch p t (ltb→lt t (length text) more) plain differs)
                (λ s. glob_loop-Decides G fuel (suc s) (suc resume) (some s) (suc resume)))
      ]
    ]
  ]

  -- `glob_run` ends within its fuel, for every pattern and every text, and its answer is true
  -- exactly when the pattern matches with `*` for any run of bytes.
  pub glob_run-Decides : Decides (Matches pattern text) (glob_run pattern text)
  unfolding glob_run
  glob_run-Decides =
      glob_loop-Decides (Matches pattern text) (glob_fuel pattern text) 0 0 none 0 (record {
        now = λ m. m;
        later = λ m. (0, m);
        saved = λ m. m;
        within = omega arith;
        order = omega arith;
        inside = omega arith;
        fuel_left = simp sub-zero (omega arith);
      })

  -- `glob_match` answers true exactly when the pattern matches, `*` standing for any run of bytes
  -- and every other byte for itself.
  pub glob_match_iff : (glob_match pattern text ≡ true) ↔ Matches pattern text
  unfolding glob_match
  glob_match_iff = elim (Option-cases (glob_run pattern text)) [
    | inl e ↦ absurd (rw e at glob_run-Decides)
    | inr (b, e) ↦ rw (e, glob_match) (answer b (rw e at glob_run-Decides))
  ]
    where
      answer :
          (b : Bool) → Decides (Matches pattern text) (some b) → (b ≡ true) ↔ Matches pattern text
      answer true d = (λ _. d, λ _. refl)
      answer false d = (λ h. cc, λ m. absurd (d m))
