-- ===== src/Targeting/Validate/Sound.antt =====
-- Targeting that `Validate` accepts resolves to values that the schema accepts.
use knobs.Base.{
  ℕ, suc, String, String_eq, Bool, true, Option, none, some, List, [], ◌∷◌, ◌≡◌, ◌≢◌, refl, inl,
  inr, arith, All, Bool-cases, Option-cases, ◌==◌,
}
use knobs.Assoc.{Assoc, GoMap, entries, get, lookup}
use knobs.Value.{Floats, Value}
use knobs.Schema.{Field}
use knobs.Targeting.{Variant, Rollout, Rule, EvalContext}
use knobs.Targeting.Eval.{bucket, outcome, resolve}
use knobs.Targeting.Laws.{OneOf, bucket-OneOf}
use knobs.Targeting.Validate.{
  validate_variants, validate_rollout, validate_outcome, exactly_one, validate_conditions,
  validate_rule, validate_rules, index_fields, validate_entries, validate, ◌then_check◌,
}

then_check-none :
    {E : Type 0} (first later : Option E)
    → (first then_check later) ≡ none
    → (first ≡ none) × (later ≡ none)
then_check-none none later h = (refl, h)
then_check-none (some e) later h = cc

module _ (fl : Floats) (valid : Field (Floats.F fl) → Value (Floats.F fl) → Bool) where
  open fl use {F, zero, le}

  abbrev ValidVariants : Field F → List (Variant F) → Type 0
  ValidVariants f = All (λ v. valid f v.value ≡ true)

  validate_variants-none :
      (f : Field F) (i : ℕ) (total : F) (vs : List (Variant F))
      → validate_variants fl valid f i total vs ≡ none
      → ValidVariants f vs
  unfolding validate_variants
  validate_variants-none f i total [] h = tt
  validate_variants-none f i total (v ∷ vs) h =
      ground (arith, validate_variants-none f (suc i) (fl.add total v.weight) vs)

  OneOf-valid :
      (f : Field F) (x : Value F) (vs : List (Variant F))
      → OneOf fl x vs
      → ValidVariants f vs
      → valid f x ≡ true
  OneOf-valid f x [] one all = absurd one
  OneOf-valid f x (v ∷ vs) (inl e) (ok, all) = rw e ok
  OneOf-valid f x (v ∷ vs) (inr one) (ok, all) = OneOf-valid f x vs one all

  module _ (zero_le_zero : le zero zero ≡ true) (hash : String → ℕ) where
    validate_rollout_variants :
        (f : Field F) (rollout : Rollout F)
        → validate_rollout fl valid f rollout ≡ none
        → rollout.variants ≢ []
    unfolding validate_rollout validate_variants
    validate_rollout_variants f rollout h e = ground arith

    outcome-valid_from :
        (f : Field F) (value : Value F) (rollout : Option (Rollout F)) (key : String)
        (ctx : EvalContext F)
        → validate_outcome fl valid f value rollout ≡ none
        → valid f
            (outcome fl hash key (record { conditions = []; value = value; rollout = rollout }) ctx)
          ≡ true
    outcome-valid_from f value none key ctx h = ground arith
    outcome-valid_from f value (some rollout) key ctx h =
        OneOf-valid f (bucket fl hash rollout key ctx.targeting_key) rollout.variants
          (bucket-OneOf fl hash rollout key ctx.targeting_key
            (validate_rollout_variants f rollout h))
          (unfold validate_rollout in validate_variants-none f 0 zero rollout.variants h)

    outcome-valid :
        (f : Field F) (rule : Rule F) (key : String) (ctx : EvalContext F)
        → validate_rule fl valid f rule ≡ none
        → valid f (outcome fl hash key rule ctx) ≡ true
    unfolding validate_rule
    outcome-valid f rule key ctx h =
        let parts =
          then_check-none (exactly_one fl valid rule.value rule.rollout)
            (validate_conditions fl valid 0 rule.conditions
              then_check validate_outcome fl valid f rule.value rule.rollout)
            h in
        outcome-valid_from f rule.value rule.rollout key ctx
          (then_check-none (validate_conditions fl valid 0 rule.conditions)
            (validate_outcome fl valid f rule.value rule.rollout) parts.1).1

    resolve-valid :
        (f : Field F) (rules : List (Rule F)) (i : ℕ) (key : String) (base : Value F)
        (ctx : EvalContext F)
        → validate_rules fl valid key f i rules ≡ none
        → valid f base ≡ true
        → valid f (resolve fl hash key base rules ctx) ≡ true
    unfolding validate_rules resolve
    resolve-valid f [] i key base ctx h hb = hb
    resolve-valid f (rule ∷ rules) i key base ctx h hb =
        elim (Option-cases (validate_rule fl valid f rule)) [
          | inl fine ↦
              ground (
                arith,
                resolve-valid f rules (suc i) key base ctx,
                outcome-valid f rule key ctx fine,
              )
          | inr (detail, bad) ↦ ground arith
        ]

    validate_entries-lookup :
        (fields : Assoc String (Field F)) (m : Assoc String (List (Rule F))) (key : String)
        (rules : List (Rule F))
        → validate_entries fl valid fields m ≡ none
        → lookup key m ≡ some rules
        → (f : Field F) × (lookup key fields ≡ some f)
          × (validate_rules fl valid key f 0 rules ≡ none)
    unfolding validate_entries lookup
    validate_entries-lookup fields [] key rules h e = cc
    validate_entries-lookup fields ((k, rs) ∷ m) key rules h e =
        elim (Option-cases (lookup k fields)) [
          | inl missing ↦ absurd (unknown missing)
          | inr (f, has) ↦ elim (Bool-cases (k == key)) [
            | inl same ↦ (
              f,
              ground (arith, String_eq.equal_iff k key),
              ground (arith, String_eq.equal_iff k key, parts f has),
            )
            | inr other ↦ validate_entries-lookup fields m key rules (parts f has).1 (ground arith)
          ]
        ]
      where
        unknown : lookup k fields ≡ none → ⊥
        unknown missing = ground arith

        parts :
            (f : Field F)
            → lookup k fields ≡ some f
            → (validate_rules fl valid k f 0 rs ≡ none)
              × (validate_entries fl valid fields m ≡ none)
        parts f has =
            then_check-none (validate_rules fl valid k f 0 rs) (validate_entries fl valid fields m)
              (ground arith)

    -- Once `Validate` has accepted the targeting of a definition, a rule that matches never
    -- resolves a key to a value that its field's subschema rejects, whatever the context; and
    -- neither does the base value, where no rule matches, if it is accepted itself.
    pub resolve-validated :
        (definition : List (Field F)) (m : GoMap (List (Rule F))) (key : String) (f : Field F)
        (rules : List (Rule F)) (base : Value F) (ctx : EvalContext F)
        → validate fl valid definition m ≡ none
        → get key m ≡ some rules
        → lookup key (index_fields fl valid definition []) ≡ some f
        → valid f base ≡ true
        → valid f (resolve fl hash key base rules ctx) ≡ true
    unfolding validate
    resolve-validated definition m key f rules base ctx accepted has field hb =
        let (g, found, fine) =
          validate_entries-lookup (index_fields fl valid definition []) (entries m) key rules
            accepted has in
        resolve-valid f rules 0 key base ctx (ground arith) hb
