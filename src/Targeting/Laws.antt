-- ===== src/Targeting/Laws.antt =====
-- What the evaluator resolves to.
use knobs.Base.{
  ℕ, String, String_eq, Bool, true, false, List, [], ◌∷◌, ◌++◌, if◌then◌else◌, ◌==◌, ◌≡◌, refl, ◌≢◌,
  ◌⊎◌, inl, inr, All, Bool-cases, ap,
}
use knobs.Value.{Floats, Value, null}
use knobs.Targeting.{Variant, Rollout, Rule, EvalContext}
use knobs.Targeting.Eval.{match_conditions, pick, pick_from, bucket, outcome, resolve}

module _ (fl : Floats) where
  open fl use {F, zero, add, lt, le}

  -- `x` is the value of one of the variants.
  abbrev pub OneOf : Value F → List (Variant F) → Type 0
  OneOf x [] = ⊥
  OneOf x (v ∷ vs) = (x ≡ v.value) ⊎ OneOf x vs

  OneOf-if :
      (b : Bool) (x y : Value F) (vs : List (Variant F))
      → OneOf x vs
      → OneOf y vs
      → OneOf (if b then x else y) vs
  OneOf-if true x y vs hx hy = hx
  OneOf-if false x y vs hx hy = hy

  pick-OneOf :
      (vs : List (Variant F)) (point cumulative : F) (last : Value F) (v : Variant F)
      → OneOf (pick fl point cumulative last (v ∷ vs)) (v ∷ vs)
  unfolding pick
  pick-OneOf [] point cumulative last v =
      OneOf-if (lt point (add cumulative v.weight)) v.value v.value (v ∷ []) (inl refl) (inl refl)
  pick-OneOf (w ∷ vs) point cumulative last v =
      OneOf-if (lt point (add cumulative v.weight)) v.value _ (v ∷ w ∷ vs) (inl refl)
        (inr (pick-OneOf vs point (add cumulative v.weight) v.value w))

  module _ (hash : String → ℕ) where
    -- Whatever the hash and the float arithmetic, a rollout with variants gives one of theirs.
    pub bucket-OneOf :
        (rollout : Rollout F) (key targeting_key : String)
        → rollout.variants ≢ []
        → OneOf (bucket fl hash rollout key targeting_key) rollout.variants
    unfolding bucket
    bucket-OneOf rollout key targeting_key some_variant = from rollout.variants some_variant
      where
        from :
            (vs : List (Variant F))
            → vs ≢ []
            → OneOf (pick_from fl hash rollout key targeting_key vs) vs
        from [] h = h refl
        from (v ∷ vs) h =
            OneOf-if (targeting_key == "") v.value _ (v ∷ vs) (inl refl)
              (pick-OneOf vs _ zero null v)

    -- `value` is what the first matching rule gives, or `base` where none matches.
    pub data Resolves (key : String) (base : Value F) (ctx : EvalContext F) (rules : List (Rule F))
        (value : Value F) : Type 0 where
      unmatched :
          All (λ r. match_conditions fl r.conditions ctx.attributes ≡ false) rules
          → value ≡ base
          → Resolves key base ctx rules value
      matched :
          (before : List (Rule F)) (rule : Rule F) (after : List (Rule F))
          → rules ≡ before ++ rule ∷ after
          → All (λ r. match_conditions fl r.conditions ctx.attributes ≡ false) before
          → match_conditions fl rule.conditions ctx.attributes ≡ true
          → value ≡ outcome fl hash key rule ctx
          → Resolves key base ctx rules value

    skip :
        (key : String) (base : Value F) (ctx : EvalContext F) (rule : Rule F)
        (rules : List (Rule F)) (value : Value F)
        → match_conditions fl rule.conditions ctx.attributes ≡ false
        → Resolves key base ctx rules value
        → Resolves key base ctx (rule ∷ rules) value
    skip key base ctx rule rules value no_match (unmatched all e) = unmatched (no_match, all) e
    skip key base ctx rule rules value no_match (matched before r after split all hit e) =
        matched (rule ∷ before) r after (ap (◌∷◌ rule) split) (no_match, all) hit e

    -- `Resolve` gives the outcome of the first rule whose conditions all match, and the base value
    -- if there is none.
    pub resolve-Resolves :
        (key : String) (base : Value F) (rules : List (Rule F)) (ctx : EvalContext F)
        → Resolves key base ctx rules (resolve fl hash key base rules ctx)
    unfolding resolve
    resolve-Resolves key base [] ctx = unmatched tt refl
    resolve-Resolves key base (rule ∷ rules) ctx =
        elim (Bool-cases (match_conditions fl rule.conditions ctx.attributes)) [
          | inl hit ↦ rw hit (matched [] rule rules refl tt hit refl)
          | inr miss ↦
              rw miss (skip key base ctx rule rules _ miss (resolve-Resolves key base rules ctx))
        ]
