-- ===== src/Http/Fault/Rules.antt =====
-- What `Effects::resolve` of crates/http/src/fault.rs adds up to, described from the rules that
-- fire.
use servr.Common.{
  ℕ, suc, ◌≡◌, refl, ◌∙◌, Bool, true, ◌||◌, Option, none, List, [], ◌∷◌, ◌++◌, append_assoc,
  append-nil, Bool-cases, inl, inr, any_of, if◌then◌else◌, arith,
}
use servr.Core.Float.{Float}
use servr.Core.Fault.{FaultSpec, Effect, delay_ms, effects}
use servr.Http.Fault.{
  Axum, Effects, no_effects, add_delay, or_else, valid_status, apply_rule, resolve_loop, resolve,
}

module _ (axum : Axum) (float : Float) where
  open axum use {StatusCode}
  open float use {F64, ge}

  -- The rules that fire, each with the draw that scales its jitter.
  unfoldable pub firing : List (FaultSpec float) → (ℕ → F64) → ℕ → List (FaultSpec float × F64)
  firing [] roll i = []
  firing (f ∷ fs) roll i =
      let skipped = firing fs roll (suc i) in
      let fired = (f, roll (suc i)) ∷ firing fs roll (suc (suc i)) in
      if ge (roll i) f.rate then skipped else fired

  -- The last element for which `g` has a value.
  abbrev pub last_of {ℓ κ} : {A : Type ℓ} {B : Type κ} → (A → Option B) → List A → Option B
  last_of g [] = none
  last_of g (x ∷ xs) = or_else axum float (last_of g xs) (g x)

  -- The delays of all the rules that have one, added.
  abbrev pub total_delay : List (FaultSpec float × F64) → Option ℕ
  total_delay [] = none
  total_delay ((f, roll) ∷ fs) = add_delay axum float (delay_ms float f roll) (total_delay fs)

  abbrev pub all_names : List (FaultSpec float × F64) → List Effect
  all_names [] = []
  all_names ((f, roll) ∷ fs) = effects float f ++ all_names fs

  -- What the rules that fire amount to.
  abbrev pub summary : List (FaultSpec float × F64) → Effects axum float
  summary fs = record {
    delay = total_delay fs;
    status = last_of (λ (f, roll). valid_status axum float f) fs;
    truncate_at = last_of (λ (f, roll). f.truncate_body_at) fs;
    drop_connection = any_of (λ (f, roll). f.drop_connection) fs;
    names = all_names fs;
  }

  abbrev join : Effects axum float → Effects axum float → Effects axum float
  join a b = record {
    delay = add_delay axum float a.delay b.delay;
    status = or_else axum float b.status a.status;
    truncate_at = or_else axum float b.truncate_at a.truncate_at;
    drop_connection = a.drop_connection || b.drop_connection;
    names = a.names ++ b.names;
  }

  add_delay_assoc :
      (a b c : Option ℕ)
      → add_delay axum float (add_delay axum float a b) c
        ≡ add_delay axum float a (add_delay axum float b c)
  add_delay_assoc a b c = ground arith

  or_else_assoc :
      {A : Type 0} (a b c : Option A)
      → or_else axum float a (or_else axum float b c)
        ≡ or_else axum float (or_else axum float a b) c
  or_else_assoc a b c = ground arith

  any_or : (c a : Bool) (b : Bool) → ((c || a) || b) ≡ (c || (if a then true else b))
  any_or c a b = ground arith

  join_rule :
      (e : Effects axum float) (f : FaultSpec float) (r : F64) (fs : List (FaultSpec float × F64))
      → join (apply_rule axum float e f r) (summary fs) ≡ join e (summary ((f, r) ∷ fs))
  unfolding apply_rule
  join_rule e f r fs =
      rw
        (
          add_delay_assoc e.delay (delay_ms float f r) (total_delay fs),
          or_else_assoc (last_of (λ (g, s). valid_status axum float g) fs)
              (valid_status axum float f) e.status,
          or_else_assoc (last_of (λ (g, s). g.truncate_body_at) fs) f.truncate_body_at
              e.truncate_at,
          any_or e.drop_connection f.drop_connection (any_of (λ (g, s). g.drop_connection) fs),
          append_assoc e.names (effects float f) (all_names fs),
        )
        refl

  resolve_loop-firing :
      (fs : List (FaultSpec float)) (roll : ℕ → F64) (i : ℕ) (e : Effects axum float)
      → resolve_loop axum float fs roll i e ≡ join e (summary (firing fs roll i))
  unfolding resolve_loop firing
  resolve_loop-firing [] roll i e = ground (arith, append-nil e.names)
  resolve_loop-firing (f ∷ fs) roll i e = elim (Bool-cases (ge (roll i) f.rate)) [
    | inl h ↦ rw (h, resolve_loop, firing) (resolve_loop-firing fs roll (suc i) e)
    | inr h ↦
        rw (h, resolve_loop, firing)
          (resolve_loop-firing fs roll (suc (suc i)) (apply_rule axum float e f (roll (suc i)))
            ∙ join_rule e f (roll (suc i)) (firing fs roll (suc (suc i))))
  ]

  -- The effects of a request are those of the rules that fire: their delays added, the last valid
  -- status and the last cut of the body, a drop if any rule drops, and all their names in order.
  pub resolve-firing :
      (fs : List (FaultSpec float)) (roll : ℕ → F64)
      → resolve axum float fs roll ≡ summary (firing fs roll 0)
  unfolding resolve
  resolve-firing fs roll = resolve_loop-firing fs roll 0 (no_effects axum float) ∙ ground arith
