-- ===== src/Examples/Redis.antt =====
-- The theorems on crates/queue/src/redis_store.rs at concrete inputs: two jobs that are due, one of
-- which cannot be read once it is marked, and one that is due later. A text is the attempt and the
-- state.
use servr.Common.{
  ℕ, ◌==◌, ◌≡◌, ◌⊎◌, refl, ap, inl, inr, false, Option, none, some, List, [], ◌∷◌, Text, bytes, pos,
  lookup, IsMap, nat_eq, if◌then◌else◌, ltb,
}
use servr.Core.Chrono.{milliseconds}
use servr.Queue.Job.{Job, new}
use servr.Queue.Store.{StoreError, err}
use servr.Queue.Redis.{Lua, Codec, Keys, range_by_score, mark_running, claim_script, claim_due}
use servr.Queue.Redis.Claims.{
  LuaLaws, In, IsMarked, is_claimed, marked_texts, ids_at, script, claim_script-exclusive,
  claim_due-corrupt,
}

abbrev job : Job milliseconds (Unit {0})
job = new milliseconds (Unit {0}) 1 7 [] (pos 100) tt

abbrev value_of : Text → Text ⊎ (ℕ × Text)
value_of [] = inl (bytes "Expected value but found T_END")
value_of (attempt ∷ state) = inr (attempt, state)

-- Seven texts are what `unpack` takes.
abbrev lua : Lua
lua = record {
  Value = ℕ × Text;
  decode = value_of;
  set_state = λ v t. inr (v.0, t);
  attempt_of = λ v. inr v.0;
  set_attempt = λ v n. inr (n, v.1);
  encode = λ v. inr (v.0 ∷ v.1);
  unpack_fails = λ n. if ltb n 8 then none else some (bytes "too many results to unpack");
  stands_before = ltb;
}

inr_inj : {A : Type 0} {a b : A} → ◌≡◌ {A = Text ⊎ A} (inr a) (inr b) → b ≡ a
inr_inj e = cc

abbrev number : ℕ → Text ⊎ ℕ
number n = inr n

abbrev state : ℕ × Text → Option Text
state v = some v.1

lua-LuaLaws : LuaLaws lua state
lua-LuaLaws = record {
  sets_state = λ v w t e. ap state (inr_inj e);
  keeps_state = λ v w n e. ap state (inr_inj e);
  sets_attempt = λ v w n e. ap (λ (u : ℕ × Text). number u.0) (inr_inj e);
  keeps_attempt = λ v w t e. ap (λ (u : ℕ × Text). number u.0) (inr_inj e);
  reads_back = λ v x e. (v, ap value_of (inr_inj e), refl, refl);
}

-- No job has a seventh attempt.
abbrev read_back : Text → Text ⊎ Job milliseconds (Unit {0})
read_back [] = inl (bytes "EOF while parsing a value")
read_back (attempt ∷ state) = if attempt == 7 then inl (bytes "invalid type: map") else inr job

abbrev codec : Codec milliseconds (Unit {0})
codec = record { encode_job = λ j. inr (1 ∷ []); decode_job = read_back; score = λ t. t }

abbrev waiting : Text
waiting = bytes "scheduled"

abbrev keys : Keys milliseconds (Unit {0})
keys = record {
  jobs = (1, 1 ∷ waiting) ∷ (2, 6 ∷ waiting) ∷ (3, 1 ∷ waiting) ∷ [];
  due = (1, pos 100) ∷ (2, pos 200) ∷ (3, pos 300) ∷ [];
}

keys-IsMap : IsMap keys.due
keys-IsMap = ((refl, (refl, tt)), ((refl, tt), (tt, tt)))

abbrev both : List Text
both = (2 ∷ bytes "running") ∷ (7 ∷ bytes "running") ∷ []

claim_script-exclusive_example :
    let after = (script milliseconds (Unit {0}) lua state lua-LuaLaws codec keys (pos 200)).0 in
    (marked_texts milliseconds
        (Unit {0})
        lua
        state
        lua-LuaLaws
        codec
        (ids_at milliseconds (Unit {0}) lua state lua-LuaLaws codec (pos 200) keys)
        keys.jobs
      ≡ inr both)
    × ((x : Text) × In x both
        × (lookup 1 after.jobs ≡ some x)
        × IsMarked milliseconds (Unit {0}) lua state lua-LuaLaws codec (1 ∷ waiting) x)
    × (lookup 3 after.jobs ≡ some (1 ∷ waiting))
    × (is_claimed milliseconds (Unit {0}) lua state lua-LuaLaws codec (pos 400) after 1 ≡ false)
    × (is_claimed milliseconds (Unit {0}) lua state lua-LuaLaws codec (pos 400) after 3
        ≡ is_claimed milliseconds (Unit {0}) lua state lua-LuaLaws codec (pos 400) keys 3)
    × IsMap after.due
unfolding claim_script mark_running range_by_score
claim_script-exclusive_example =
    claim_script-exclusive milliseconds (Unit {0}) lua state lua-LuaLaws codec keys (pos 200)
      (pos 400) 1 3 (1 ∷ waiting) both keys-IsMap refl refl refl refl

claim_due-corrupt_example :
    let (after, result) = claim_due milliseconds (Unit {0}) lua codec keys (pos 200) in
    ((failure : StoreError) × (result ≡ err failure))
    × (lookup 1 after.due ≡ none)
    × (is_claimed milliseconds (Unit {0}) lua state lua-LuaLaws codec (pos 400) after 1 ≡ false)
unfolding claim_script mark_running range_by_score
claim_due-corrupt_example =
    claim_due-corrupt milliseconds (Unit {0}) lua state lua-LuaLaws codec keys (pos 200) (pos 400) 2
      1 (6 ∷ waiting) keys-IsMap refl refl refl
      (inr (7 ∷ bytes "running", bytes "invalid type: map", refl, refl)) refl
