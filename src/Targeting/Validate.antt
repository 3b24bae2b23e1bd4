-- ===== src/Targeting/Validate.antt =====
-- internal/targeting/validate.go. An error keeps the path that its message names. `valid` is
-- whether schema.ValidateFieldValue accepts a value, which a JSON Schema library decides.
pub mod Sound
use knobs.Base.{
  ℕ, suc, String, String_eq, Bool, true, false, Option, none, some, List, [], ◌∷◌, if◌then◌else◌,
  not,
}
use knobs.Assoc.{Assoc, GoMap, entries, lookup, insert}
use knobs.Value.{Floats, Value, is_null}
use knobs.Schema.{Field}
use knobs.Targeting.{Operator, other, Condition, Variant, Rollout, Rule}

pub data Detail : Type 0 where
  both neither : Detail
  unknown_operator : ℕ → Detail
  bad_value : Detail
  bad_variant negative_weight : ℕ → Detail
  no_weight : Detail

pub data Error : Type 0 where
  no_such_field : String → Error
  bad_rule : String → ℕ → Detail → Error

-- The first error of two checks that are made in turn.
infixr 5 ◌then_check◌
abbrev pub ◌then_check◌ : {E : Type 0} → Option E → Option E → Option E
some e then_check later = some e
none then_check later = later

abbrev pub is_allowed : Operator → Bool
is_allowed (other name) = false
is_allowed _ = true

module _ (fl : Floats) (valid : Field (Floats.F fl) → Value (Floats.F fl) → Bool) where
  open fl use {F, zero, add, lt, le}

  unfoldable pub validate_conditions : ℕ → List (Condition F) → Option Detail
  validate_conditions i [] = none
  validate_conditions i (c ∷ conditions) =
      if not (is_allowed c.operator)
      then some (unknown_operator i)
      else validate_conditions (suc i) conditions

  -- The loop of `validateRollout`, and the test of the sum behind it.
  unfoldable pub validate_variants : Field F → ℕ → F → List (Variant F) → Option Detail
  validate_variants f i total [] = if le total zero then some no_weight else none
  validate_variants f i total (v ∷ variants) =
      if not (valid f v.value)
      then some (bad_variant i)
      else if lt v.weight zero
      then some (negative_weight i)
      else validate_variants f (suc i) (add total v.weight) variants

  unfoldable pub validate_rollout : Field F → Rollout F → Option Detail
  validate_rollout f rollout = validate_variants f 0 zero rollout.variants

  abbrev pub validate_outcome : Field F → Value F → Option (Rollout F) → Option Detail
  validate_outcome f value (some rollout) = validate_rollout f rollout
  validate_outcome f value none = if not (valid f value) then some bad_value else none

  abbrev pub exactly_one : Value F → Option (Rollout F) → Option Detail
  exactly_one value (some rollout) = if is_null value then none else some both
  exactly_one value none = if is_null value then some neither else none

  unfoldable pub validate_rule : Field F → Rule F → Option Detail
  validate_rule f rule =
      exactly_one rule.value rule.rollout
      then_check validate_conditions 0 rule.conditions
      then_check validate_outcome f rule.value rule.rollout

  unfoldable pub validate_rules : String → Field F → ℕ → List (Rule F) → Option Error
  validate_rules key f i [] = none
  validate_rules key f i (rule ∷ rules) = elim (validate_rule f rule) [
    | some detail ↦ some (bad_rule key i detail)
    | none ↦ validate_rules key f (suc i) rules
  ]

  -- `for _, f := range def.Fields { fields[f.Name] = f }`
  unfoldable pub index_fields : List (Field F) → Assoc String (Field F) → Assoc String (Field F)
  index_fields [] fields = fields
  index_fields (f ∷ definition) fields = index_fields definition (insert f.name f fields)

  unfoldable pub validate_entries :
      Assoc String (Field F) → Assoc String (List (Rule F)) → Option Error
  validate_entries fields [] = none
  validate_entries fields ((key, rules) ∷ m) =
      elim (lookup key fields) [
        | none ↦ some (no_such_field key)
        | some f ↦ validate_rules key f 0 rules
      ]
      then_check validate_entries fields m

  -- An empty or nil map has no entries, so the early return of `Validate` needs no case.
  unfoldable pub validate : List (Field F) → GoMap (List (Rule F)) → Option Error
  validate definition m = validate_entries (index_fields definition []) (entries m)
