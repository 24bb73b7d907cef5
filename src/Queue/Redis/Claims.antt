-- ===== src/Queue/Redis/Claims.antt =====
-- What a claim on crates/queue/src/redis_store.rs takes, that two claims take nothing twice, and what
-- is lost when a claimed job cannot be read.
use servr.Common.{
  ℕ, suc, ◌+◌, ◌++◌, bytes, length, append_assoc, append-nil, and_then-inr, ◌≡◌, ◌≢◌, ◌⊎◌, refl,
  sym, ap, subst, ◌∙◌, inl, inr, ◌==◌, Bool, true, false, Option, none, some, List, [], ◌∷◌, Text,
  ℤ, leb_ℤ, lookup, insert, remove, lookup-insert, lookup-remove, remove-IsMap, IsMap, Misses,
  lookup-Misses, All, any_of, Option-cases, Bool-cases, nat_eq, arith, if◌then◌else◌,
}
use servr.Core.Chrono.{Chrono}
use servr.Queue.Store.{StoreError, backend, corrupt, err, Distinct}
use servr.Queue.Redis.{
  Lua, Codec, Keys, range_by_score, zrem, mark_running, mark_each, claim_ids, claim_script,
  decode_all, answer, claim_due,
}

abbrev pub has : ℕ → List ℕ → Bool
has k ks = any_of (λ i. i == k) ks

-- The score is there and not after `now`.
abbrev pub is_late : ℤ → Option ℤ → Bool
is_late now none = false
is_late now (some t) = leb_ℤ t now

is_late_if :
    (now : ℤ) (b : Bool) (o : Option ℤ)
    → is_late now (if b then none else o) ≡ (if b then false else is_late now o)
is_late_if now true o = refl
is_late_if now false o = refl

either : (b : Bool) → (if b then true else true) ≡ true
either true = refl
either false = refl

abbrev is_left : {A B : Type 0} → A ⊎ B → Bool
is_left (inl a) = true
is_left (inr b) = false

Sum-cases : {A B : Type 0} (s : A ⊎ B) → ((a : A) × (s ≡ inl a)) ⊎ ((b : B) × (s ≡ inr b))
Sum-cases (inl a) = inl (a, refl)
Sum-cases (inr b) = inr (b, refl)

has-All : (k : ℕ) (ks : List ℕ) → All (λ i. k ≢ i) ks → has k ks ≡ false
has-All k [] n = refl
has-All k (i ∷ ks) n = ground (arith, has-All k ks n.1)

-- What cjson does with the two fields, `state_of` being a value's state.
pub record LuaLaws (lua : Lua) (state_of : lua.Value → Option Text) : Type 0 where
  pub sets_state : (v w : lua.Value) (t : Text) → lua.set_state v t ≡ inr w → state_of w ≡ some t
  pub keeps_state :
      (v w : lua.Value) (n : ℕ) → lua.set_attempt v n ≡ inr w → state_of w ≡ state_of v
  pub sets_attempt :
      (v w : lua.Value) (n : ℕ) → lua.set_attempt v n ≡ inr w → lua.attempt_of w ≡ inr n
  pub keeps_attempt :
      (v w : lua.Value) (t : Text) → lua.set_state v t ≡ inr w → lua.attempt_of w ≡ lua.attempt_of v
  pub reads_back :
      (v : lua.Value) (x : Text)
      → lua.encode v ≡ inr x
      → (w : lua.Value) × (lua.decode x ≡ inr w)
        × (state_of w ≡ state_of v)
        × (lua.attempt_of w ≡ lua.attempt_of v)

-- A text is one of those of the list.
abbrev pub In : Text → List Text → Type 0
In x [] = ⊥
In x (y ∷ ys) = (x ≡ y) ⊎ In x ys

none-ne-some : {A : Type 0} {a : A} → ¬ (◌≡◌ {A = Option A} none (some a))
none-ne-some e = cc

module _ (chrono : Chrono) (Payload : Type 0) where
  lookup-zrem :
      (ks : List ℕ) (due : List (ℕ × ℤ)) (k : ℕ)
      → lookup k (zrem chrono Payload ks due) ≡ (if has k ks then none else lookup k due)
  unfolding zrem
  lookup-zrem [] due k = refl
  lookup-zrem (i ∷ ks) due k =
      lookup-zrem ks (remove i due) k ∙ ground (arith, lookup-remove i k due)

  zrem-IsMap : (ks : List ℕ) (due : List (ℕ × ℤ)) → IsMap due → IsMap (zrem chrono Payload ks due)
  unfolding zrem
  zrem-IsMap [] due m = m
  zrem-IsMap (i ∷ ks) due m = zrem-IsMap ks (remove i due) (remove-IsMap i due m)

  has-range_by_score :
      (now : ℤ) (due : List (ℕ × ℤ)) (k : ℕ)
      → IsMap due
      → has k (range_by_score chrono Payload now due) ≡ is_late now (lookup k due)
  unfolding range_by_score
  has-range_by_score now [] k m = refl
  has-range_by_score now ((i, t) ∷ due) k m = elim (Bool-cases (leb_ℤ t now)) [
    | inl e ↦ elim (Bool-cases (i == k)) [
      | inl g ↦ rw (range_by_score, e, g) (sym e)
      | inr g ↦ rw (range_by_score, e, g) (has-range_by_score now due k m.1)
    ]
    | inr e ↦ elim (Bool-cases (i == k)) [
      | inl g ↦
          let same : i ≡ k = ground arith in
          let missing = subst (λ x. lookup x due ≡ none) same (lookup-Misses i due m.0) in
          rw (range_by_score, e, g)
            (has-range_by_score now due k m.1 ∙ ap (is_late now) missing ∙ sym e)
      | inr g ↦ rw (range_by_score, e, g) (has-range_by_score now due k m.1)
    ]
  ]

  All-range_by_score :
      (now : ℤ) (k : ℕ) (due : List (ℕ × ℤ))
      → Misses k due
      → All (λ i. k ≢ i) (range_by_score chrono Payload now due)
  unfolding range_by_score
  All-range_by_score now k [] n = tt
  All-range_by_score now k ((i, t) ∷ due) n = ground (arith, All-range_by_score now k due n.1)

  range_by_score-Distinct :
      (now : ℤ) (due : List (ℕ × ℤ))
      → IsMap due
      → Distinct chrono Payload (range_by_score chrono Payload now due)
  unfolding range_by_score
  range_by_score-Distinct now [] m = tt
  range_by_score-Distinct now ((i, t) ∷ due) m =
      ground (arith, range_by_score-Distinct now due m.1, All-range_by_score now i due m.0)

  module _ (lua : Lua) (state_of : lua.Value → Option Text) (laws : LuaLaws lua state_of)
      (codec : Codec chrono Payload) where
    open lua use {Value, decode, set_state, attempt_of, set_attempt, encode, unpack_fails}
    open codec use {decode_job, score}

    abbrev marking : Text → Text ⊎ Text
    marking raw = mark_running chrono Payload lua codec raw

    -- The marked text says that the job is running, with one attempt more than the text before.
    pub record IsMarked (raw marked : Text) : Type 0 where
      pub before : Value
      pub after : Value
      pub attempt : ℕ
      pub read : decode raw ≡ inr before
      pub attempted : attempt_of before ≡ inr attempt
      pub read_back : decode marked ≡ inr after
      pub runs : state_of after ≡ some (bytes "running")
      pub one_more : attempt_of after ≡ inr (attempt + 1)

    mark_running-IsMarked : (raw x : Text) → marking raw ≡ inr x → IsMarked raw x
    unfolding mark_running
    mark_running-IsMarked raw x h =
        let (v, read, h1) = and_then-inr (decode raw) _ x h in
        let (w, set, h2) = and_then-inr (set_state v (bytes "running")) _ x h1 in
        let (n, had, h3) = and_then-inr (attempt_of w) _ x h2 in
        let (u, more, h4) = and_then-inr (set_attempt w (n + 1)) _ x h3 in
        let (back, reads, state, attempt) = laws.reads_back u x h4 in
        record {
          before = v;
          after = back;
          attempt = n;
          read = read;
          attempted = sym (laws.keeps_attempt v w (bytes "running") set) ∙ had;
          read_back = reads;
          runs =
              state ∙ laws.keeps_state w u (n + 1) more ∙ laws.sets_state v w (bytes "running") set;
          one_more = attempt ∙ laws.sets_attempt w u (n + 1) more;
        }

    abbrev marked_first : Text ⊎ Text → Text ⊎ List Text → Text ⊎ List Text
    marked_first (inl e) rest = inl e
    marked_first (inr x) (inl e) = inl e
    marked_first (inr x) (inr xs) = inr (x ∷ xs)

    -- The marked texts of distinct ids, read off the jobs as they stood, or the first error.
    unfoldable pub marked_texts : List ℕ → List (ℕ × Text) → Text ⊎ List Text
    marked_texts [] jobs = inr []
    marked_texts (k ∷ ks) jobs = elim (lookup k jobs) [
      | none ↦ marked_texts ks jobs
      | some raw ↦ marked_first (marking raw) (marked_texts ks jobs)
    ]

    marked_texts-insert :
        (k : ℕ) (v : Text) (ks : List ℕ) (jobs : List (ℕ × Text))
        → All (λ i. k ≢ i) ks
        → marked_texts ks (insert k v jobs) ≡ marked_texts ks jobs
    unfolding marked_texts
    marked_texts-insert k v [] jobs n = refl
    marked_texts-insert k v (i ∷ ks) jobs n =
        ground (arith, lookup-insert k i v jobs, marked_texts-insert k v ks jobs n.1)

    abbrev after_claimed : List Text → Text ⊎ List Text → Text ⊎ List Text
    after_claimed claimed (inl e) = inl e
    after_claimed claimed (inr xs) = inr (claimed ++ xs)

    after_claimed-first :
        (claimed : List Text) (x : Text) (rest : Text ⊎ List Text)
        → after_claimed (claimed ++ x ∷ []) rest ≡ after_claimed claimed (marked_first (inr x) rest)
    after_claimed-first claimed x (inl e) = refl
    after_claimed-first claimed x (inr xs) = ap inr (append_assoc claimed (x ∷ []) xs)

    after_nothing : (rest : Text ⊎ List Text) → after_claimed [] rest ≡ rest
    after_nothing (inl e) = refl
    after_nothing (inr xs) = refl

    abbrev marked_each : List ℕ → List (ℕ × Text) → List Text → List (ℕ × Text) × (Text ⊎ List Text)
    marked_each ks jobs claimed = mark_each chrono Payload lua codec ks jobs claimed

    mark_each-marked_texts :
        (ks : List ℕ) (jobs : List (ℕ × Text)) (claimed : List Text)
        → Distinct chrono Payload ks
        → (marked_each ks jobs claimed).1 ≡ after_claimed claimed (marked_texts ks jobs)
    unfolding mark_each marked_texts
    mark_each-marked_texts [] jobs claimed d = ap inr (sym (append-nil claimed))
    mark_each-marked_texts (k ∷ ks) jobs claimed d = elim (Option-cases (lookup k jobs)) [
      | inl e ↦ rw (e, mark_each, marked_texts) (mark_each-marked_texts ks jobs claimed d.1)
      | inr (raw, e) ↦ elim (Sum-cases (marking raw)) [
        | inl (m, f) ↦ rw (e, mark_each, marked_texts, f) refl
        | inr (x, f) ↦
            rw (e, mark_each, marked_texts, f)
              (mark_each-marked_texts ks (insert k x jobs) (claimed ++ x ∷ []) d.1
                ∙ ap (after_claimed (claimed ++ x ∷ [])) (marked_texts-insert k x ks jobs d.0)
                ∙ after_claimed-first claimed x (marked_texts ks jobs))
      ]
    ]

    lookup-mark_each_other :
        (ks : List ℕ) (jobs : List (ℕ × Text)) (claimed : List Text) (k : ℕ)
        → has k ks ≡ false
        → lookup k (marked_each ks jobs claimed).0 ≡ lookup k jobs
    unfolding mark_each
    lookup-mark_each_other [] jobs claimed k h = refl
    lookup-mark_each_other (i ∷ ks) jobs claimed k h =
        let apart : (i == k) ≡ false = ground arith in
        let later : has k ks ≡ false = ground arith in
        elim (Option-cases (lookup i jobs)) [
          | inl e ↦ rw (e, mark_each) (lookup-mark_each_other ks jobs claimed k later)
          | inr (raw, e) ↦ elim (Sum-cases (marking raw)) [
            | inl (m, f) ↦ rw (e, mark_each, f) refl
            | inr (x, f) ↦
                rw (e, mark_each, f)
                  (lookup-mark_each_other ks (insert i x jobs) (claimed ++ x ∷ []) k later
                    ∙ ground (arith, lookup-insert i k x jobs))
          ]
        ]

    inl-ne-inr : {A B : Type 0} {a : A} {b : B} → ¬ (◌≡◌ {A = A ⊎ B} (inl a) (inr b))
    inl-ne-inr e = cc

    cons_none :
        (i : ℕ) (ks : List ℕ) (jobs : List (ℕ × Text)) (claimed : List Text)
        → lookup i jobs ≡ none
        → marked_each (i ∷ ks) jobs claimed ≡ marked_each ks jobs claimed
    unfolding mark_each
    cons_none i ks jobs claimed e = rw (mark_each, e) refl

    cons_fails :
        (i : ℕ) (ks : List ℕ) (jobs : List (ℕ × Text)) (claimed : List Text) (raw e : Text)
        → lookup i jobs ≡ some raw
        → marking raw ≡ inl e
        → marked_each (i ∷ ks) jobs claimed ≡ (jobs, inl e)
    unfolding mark_each
    cons_fails i ks jobs claimed raw e held f = rw (mark_each, held, f) refl

    cons_marked :
        (i : ℕ) (ks : List ℕ) (jobs : List (ℕ × Text)) (claimed : List Text) (raw x : Text)
        → lookup i jobs ≡ some raw
        → marking raw ≡ inr x
        → marked_each (i ∷ ks) jobs claimed ≡ marked_each ks (insert i x jobs) (claimed ++ x ∷ [])
    unfolding mark_each
    cons_marked i ks jobs claimed raw x held f = rw (mark_each, held, f) refl

    lookup-mark_each :
        (ks : List ℕ) (jobs : List (ℕ × Text)) (claimed out : List Text) (k : ℕ) (raw x : Text)
        → Distinct chrono Payload ks
        → has k ks ≡ true
        → lookup k jobs ≡ some raw
        → marking raw ≡ inr x
        → (marked_each ks jobs claimed).1 ≡ inr out
        → lookup k (marked_each ks jobs claimed).0 ≡ some x
    lookup-mark_each [] jobs claimed out k raw x d h e m r = absurd (cc)
    lookup-mark_each (i ∷ ks) jobs claimed out k raw x d h e m r = elim (Bool-cases (i == k)) [
      | inl g ↦
          let same : i ≡ k = ground arith in
          let held = subst (λ n. lookup n jobs ≡ some raw) (sym same) e in
          let absent : has k ks ≡ false = subst (λ n. has n ks ≡ false) same (has-All i ks d.0) in
          ap (λ (p : List (ℕ × Text) × (Text ⊎ List Text)). lookup k p.0)
            (cons_marked i ks jobs claimed raw x held m)
          ∙ lookup-mark_each_other ks (insert i x jobs) (claimed ++ x ∷ []) k absent
          ∙ ground (arith, lookup-insert i k x jobs)
      | inr g ↦
          let later : has k ks ≡ true = subst (λ b. (if b then true else has k ks) ≡ true) g h in
          elim (Option-cases (lookup i jobs)) [
            | inl missing ↦
                let step = cons_none i ks jobs claimed missing in
                ap (λ (p : List (ℕ × Text) × (Text ⊎ List Text)). lookup k p.0) step
                ∙ lookup-mark_each ks jobs claimed out k raw x d.1 later e m
                    (ap (λ (p : List (ℕ × Text) × (Text ⊎ List Text)). p.1) (sym step) ∙ r)
            | inr (other, held) ↦ elim (Sum-cases (marking other)) [
              | inl (failure, f) ↦
                  let step = cons_fails i ks jobs claimed other failure held f in
                  absurd (
                    inl-ne-inr
                      (ap (λ (p : List (ℕ × Text) × (Text ⊎ List Text)). p.1) (sym step) ∙ r))
              | inr (y, f) ↦
                  let step = cons_marked i ks jobs claimed other y held f in
                  let still : lookup k (insert i y jobs) ≡ some raw =
                    ground (arith, lookup-insert i k y jobs) in
                  ap (λ (p : List (ℕ × Text) × (Text ⊎ List Text)). lookup k p.0) step
                  ∙ lookup-mark_each ks (insert i y jobs) (claimed ++ y ∷ []) out k raw x d.1 later
                      still m
                      (ap (λ (p : List (ℕ × Text) × (Text ⊎ List Text)). p.1) (sym step) ∙ r)
            ]
          ]
    ]

    texts_none :
        (i : ℕ) (ks : List ℕ) (jobs : List (ℕ × Text))
        → lookup i jobs ≡ none
        → marked_texts (i ∷ ks) jobs ≡ marked_texts ks jobs
    unfolding marked_texts
    texts_none i ks jobs e = rw (marked_texts, e) refl

    texts_some :
        (i : ℕ) (ks : List ℕ) (jobs : List (ℕ × Text)) (raw : Text)
        → lookup i jobs ≡ some raw
        → marked_texts (i ∷ ks) jobs ≡ marked_first (marking raw) (marked_texts ks jobs)
    unfolding marked_texts
    texts_some i ks jobs raw e = rw (marked_texts, e) refl

    marked_first-inr :
        (one : Text ⊎ Text) (rest : Text ⊎ List Text) (out : List Text)
        → marked_first one rest ≡ inr out
        → (x : Text) × (xs : List Text) × (one ≡ inr x) × (rest ≡ inr xs) × (x ∷ xs ≡ out)
    marked_first-inr (inl e) rest out h = absurd (cc)
    marked_first-inr (inr x) (inl e) out h = absurd (cc)
    marked_first-inr (inr x) (inr xs) out h = (x, xs, refl, refl, cc)

    -- Where nothing fails, each text that is held is marked, and is one of the texts.
    marked_texts-In :
        (ks : List ℕ) (jobs : List (ℕ × Text)) (out : List Text) (k : ℕ) (raw : Text)
        → has k ks ≡ true
        → lookup k jobs ≡ some raw
        → marked_texts ks jobs ≡ inr out
        → (x : Text) × (marking raw ≡ inr x) × In x out
    marked_texts-In [] jobs out k raw h e r = absurd (cc)
    marked_texts-In (i ∷ ks) jobs out k raw h e r = elim (Bool-cases (i == k)) [
      | inl g ↦
          let same : i ≡ k = ground arith in
          let held = subst (λ n. lookup n jobs ≡ some raw) (sym same) e in
          let (x, xs, marks, _, whole) =
            marked_first-inr (marking raw) (marked_texts ks jobs) out
              (sym (texts_some i ks jobs raw held) ∙ r) in
          (x, marks, subst (In x) whole (inl refl))
      | inr g ↦
          let later : has k ks ≡ true = subst (λ b. (if b then true else has k ks) ≡ true) g h in
          elim (Option-cases (lookup i jobs)) [
            | inl missing ↦
                marked_texts-In ks jobs out k raw later e (sym (texts_none i ks jobs missing) ∙ r)
            | inr (other, held) ↦
                let (y, ys, _, rest, whole) =
                  marked_first-inr (marking other) (marked_texts ks jobs) out
                    (sym (texts_some i ks jobs other held) ∙ r) in
                let (x, marks, is_in) = marked_texts-In ks jobs ys k raw later e rest in
                (x, marks, subst (In x) whole (inr is_in))
          ]
    ]

    -- The id is in the sorted set with a score that is not after `now`.
    abbrev pub is_claimed : ℤ → Keys chrono Payload → ℕ → Bool
    is_claimed now r k = is_late now (lookup k r.due)

    abbrev pub script : Keys chrono Payload → ℤ → Keys chrono Payload × (Text ⊎ List Text)
    script r now = claim_script chrono Payload lua codec r now

    abbrev pub ids_at : ℤ → Keys chrono Payload → List ℕ
    ids_at now r = range_by_score chrono Payload now r.due

    abbrev taken : Keys chrono Payload → List ℕ → Keys chrono Payload × (Text ⊎ List Text)
    taken r ids =
        let (jobs, result) = marked_each ids r.jobs [] in
        (record { jobs = jobs; due = zrem chrono Payload ids r.due }, result)

    -- The ids are taken out of the set, or `unpack` has failed and nothing has changed.
    claim_ids-cases :
        (r : Keys chrono Payload) (ids : List ℕ)
        → (claim_ids chrono Payload lua codec r ids ≡ taken r ids)
          ⊎ ((e : Text) × (unpack_fails (length ids) ≡ some e)
              × (claim_ids chrono Payload lua codec r ids ≡ (r, inl e)))
    unfolding mark_each zrem
    claim_ids-cases r [] = inl refl
    claim_ids-cases r (k ∷ ks) = elim (Option-cases (unpack_fails (suc (length ks)))) [
      | inr (e, f) ↦ inr (e, f, rw (claim_ids, f) refl)
      | inl n ↦ inl (rw (claim_ids, n) refl)
    ]

    script-taken :
        (r : Keys chrono Payload) (now : ℤ) (out : List Text)
        → (script r now).1 ≡ inr out
        → script r now ≡ taken r (ids_at now r)
    unfolding claim_script
    script-taken r now out h = elim (claim_ids-cases r (ids_at now r)) [
      | inl same ↦ same
      | inr (e, _, fails) ↦ absurd (
          inl-ne-inr {a = e} {b = out}
            (sym (ap (λ (p : Keys chrono Payload × (Text ⊎ List Text)). p.1) fails) ∙ h))
    ]

    script_fits :
        (r : Keys chrono Payload) (now : ℤ)
        → unpack_fails (length (ids_at now r)) ≡ none
        → script r now ≡ taken r (ids_at now r)
    unfolding claim_script
    script_fits r now fits = elim (claim_ids-cases r (ids_at now r)) [
      | inl same ↦ same
      | inr (e, fails, _) ↦ absurd (none-ne-some (sym fits ∙ fails))
    ]

    -- On a sorted set in which no id stands twice, one poller claims at `now` without an error and
    -- another claims at `now'` after it. The first script hands out the marked texts of the ids whose
    -- score is not after `now`, in the set's order. Of each such id `k` with a text, the marked text is
    -- one of them and is left under its id: it says that the job is running, with one attempt more.
    -- The texts of all other ids `i` stay. The second takes none of the first's ids, and of the
    -- others what it would have taken alone. Lua's values must keep the fields that are set.
    pub claim_script-exclusive :
        (r : Keys chrono Payload) (now now' : ℤ) (k i : ℕ) (raw : Text) (out : List Text)
        → IsMap r.due
        → (script r now).1 ≡ inr out
        → is_claimed now r k ≡ true
        → lookup k r.jobs ≡ some raw
        → is_claimed now r i ≡ false
        → let after = (script r now).0 in
          (marked_texts (ids_at now r) r.jobs ≡ inr out)
          × ((x : Text) × In x out × (lookup k after.jobs ≡ some x) × IsMarked raw x)
          × (lookup i after.jobs ≡ lookup i r.jobs)
          × (is_claimed now' after k ≡ false)
          × (is_claimed now' after i ≡ is_claimed now' r i)
          × IsMap after.due
    claim_script-exclusive r now now' k i raw out m fine late held early =
        let ids = ids_at now r in
        let d = range_by_score-Distinct now r.due m in
        let same = script-taken r now out fine in
        let in_k : has k ids ≡ true = has-range_by_score now r.due k m ∙ late in
        let in_i : has i ids ≡ false = has-range_by_score now r.due i m ∙ early in
        let result : (marked_each ids r.jobs []).1 ≡ inr out =
          ap (λ (p : Keys chrono Payload × (Text ⊎ List Text)). p.1) (sym same) ∙ fine in
        let texts : marked_texts ids r.jobs ≡ inr out =
          sym (after_nothing (marked_texts ids r.jobs))
          ∙ sym (mark_each-marked_texts ids r.jobs [] d)
          ∙ result in
        let (x, marks, is_in) = marked_texts-In ids r.jobs out k raw in_k held texts in
        let left = lookup-zrem ids r.due in
        rw same (
          texts,
          (
            x,
            is_in,
            lookup-mark_each ids r.jobs [] out k raw x d in_k held marks result,
            mark_running-IsMarked raw x marks,
          ),
          lookup-mark_each_other ids r.jobs [] i in_i,
          ap (is_late now') (left k ∙ ap (λ (b : Bool). if b then none else lookup k r.due) in_k),
          ap (is_late now') (left i ∙ ap (λ (b : Bool). if b then none else lookup i r.due) in_i),
          zrem-IsMap ids r.due m,
        )

    -- The script raises an error on the text, or what it makes of it cannot be read.
    abbrev pub IsLost : Text → Type 0
    IsLost raw =
        ((e : Text) × (marking raw ≡ inl e))
        ⊎ ((x : Text) × (e : Text) × (marking raw ≡ inr x) × (decode_job x ≡ inl e))

    decode_all_fails :
        (raws : List Text) (x e : Text)
        → In x raws
        → decode_job x ≡ inl e
        → (failure : StoreError) × (decode_all chrono Payload lua codec raws ≡ err failure)
    unfolding decode_all
    decode_all_fails [] x e h f = absurd h
    decode_all_fails (raw ∷ raws) x e h f = elim (Sum-cases (decode_job raw)) [
      | inl (e', g) ↦ (corrupt e', rw (decode_all, g) refl)
      | inr (j, g) ↦ elim h [
        | inl same ↦ absurd (inl-ne-inr (sym f ∙ ap decode_job same ∙ g))
        | inr later ↦
            let (failure, fails) = decode_all_fails raws x e later f in
            (failure, rw (decode_all, g, fails) refl)
      ]
    ]

    answer_fails :
        (texts : Text ⊎ List Text) (ks : List ℕ) (jobs : List (ℕ × Text)) (k : ℕ) (raw : Text)
        → marked_texts ks jobs ≡ texts
        → has k ks ≡ true
        → lookup k jobs ≡ some raw
        → IsLost raw
        → (failure : StoreError) × (answer chrono Payload lua codec texts ≡ err failure)
    answer_fails (inl e) ks jobs k raw r h held lost = (backend e, refl)
    answer_fails (inr out) ks jobs k raw r h held lost =
        let (x, marks, is_in) = marked_texts-In ks jobs out k raw h held r in
        elim lost [
          | inl (e, raises) ↦ absurd (inl-ne-inr (sym raises ∙ marks))
          | inr (y, e, becomes, unread) ↦
              let same : y ≡ x = inr_inj (sym becomes ∙ marks) in
              decode_all_fails out x e is_in (subst (λ t. decode_job t ≡ inl e) same unread)
        ]
      where
        inr_inj : {y x : Text} → ◌≡◌ {A = Text ⊎ Text} (inr y) (inr x) → y ≡ x
        inr_inj e = cc

    -- On a sorted set in which no id stands twice, and whose due ids `unpack` can take, the script
    -- raises an error on the text of one of the jobs that a claim takes, or leaves a text of it that
    -- cannot be read. Then the claim is answered with an error and no job, and every job `i` that it
    -- took, whatever its text, is out of the sorted set, so that no later claim takes it.
    pub claim_due-corrupt :
        (r : Keys chrono Payload) (now : chrono.DateTime) (later : ℤ) (k i : ℕ) (raw : Text)
        → IsMap r.due
        → unpack_fails (length (ids_at (score now) r)) ≡ none
        → is_claimed (score now) r k ≡ true
        → lookup k r.jobs ≡ some raw
        → IsLost raw
        → is_claimed (score now) r i ≡ true
        → let (after, result) = claim_due chrono Payload lua codec r now in
          ((failure : StoreError) × (result ≡ err failure))
          × (lookup i after.due ≡ none)
          × (is_claimed later after i ≡ false)
    unfolding claim_due
    claim_due-corrupt r now later k i raw m fits late held lost also =
        let ids = ids_at (score now) r in
        let d = range_by_score-Distinct (score now) r.due m in
        let same = script_fits r (score now) fits in
        let in_k : has k ids ≡ true = has-range_by_score (score now) r.due k m ∙ late in
        let in_i : has i ids ≡ true = has-range_by_score (score now) r.due i m ∙ also in
        let texts =
          mark_each-marked_texts ids r.jobs [] d ∙ after_nothing (marked_texts ids r.jobs) in
        let (failure, fails) =
          answer_fails (marked_texts ids r.jobs) ids r.jobs k raw refl in_k held lost in
        let gone =
          lookup-zrem ids r.due i ∙ ap (λ (b : Bool). if b then none else lookup i r.due) in_i in
        rw same (
          (failure, ap (answer chrono Payload lua codec) texts ∙ fails),
          gone,
          ap (is_late later) gone,
        )
