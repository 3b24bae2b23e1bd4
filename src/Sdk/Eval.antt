-- ===== src/Sdk/Eval.antt =====
-- sdk/go/eval.go: the evaluator of the SDK, over the same conditions, rules and values as that of
-- internal/targeting. `hash` is the first four bytes of SHA-256 as a big-endian number.
pub mod Same
use Prim.Native.String.{◌++◌ as concat}
use text.Mathlib.Text.{find?}
use knobs.Base.{
  is_some, ℕ, String, String_eq, Bool, true, false, Option, none, some, List, [], ◌∷◌,
  if◌then◌else◌, ◌==◌, not, or_default,
}
use knobs.Assoc.{Assoc, GoMap, entries, get, insert}
use knobs.Value.{Floats, Value, null, str, float64, float32, int, uint, json_number, deep_equal}
use knobs.Targeting.{
  Operator, op_in, op_not_in, op_eq, op_neq, op_contains, op_gt, op_gte, op_lt, op_lte, other,
  Condition, Variant, Rollout, Rule, EvalContext,
}

-- `c.Operator == OpNotIn`
abbrev pub is_op_not_in : Operator → Bool
is_op_not_in op_not_in = true
is_op_not_in _ = false

-- The keys of a map, put into a set.
unfoldable pub key_set :
    {A : Type 0} → Assoc String A → Assoc String (Unit {0}) → Assoc String (Unit {0})
key_set [] keys = keys
key_set (entry ∷ m) keys = key_set m (insert entry.0 tt keys)

module _ (fl : Floats) where
  open fl use {F, zero, of_ℕ, of_ℤ, parse, add, mul, div, lt, le, eq}

  unfoldable pub to_float64 : Value F → Option F
  to_float64 (float64 n) = some n
  to_float64 (float32 n) = some n
  to_float64 (int width n) = some (of_ℤ n)
  to_float64 (uint width n) = some (of_ℕ n)
  to_float64 (json_number n) = parse n
  to_float64 _ = none

  unfoldable pub equal_values : Value F → Value F → Bool
  equal_values a b = elim (to_float64 a) [
    | none ↦ deep_equal eq a b
    | some af ↦ elim (to_float64 b) [ none ↦ false | some bf ↦ eq af bf ]
  ]

  unfoldable pub contains_value : List (Value F) → Value F → Bool
  contains_value [] needle = false
  contains_value (v ∷ values) needle =
      let rest = contains_value values needle in if equal_values v needle then true else rest

  -- `s, ok := val.(string)`
  abbrev pub as_string : Value F → Option String
  as_string (str s) = some s
  as_string _ = none

  unfoldable pub match_contains : Value F → Value F → Bool
  match_contains val wanted = elim (as_string val) [
    | none ↦ false
    | some s ↦ elim (as_string wanted) [ none ↦ false | some sub ↦ is_some (find? s sub) ]
  ]

  -- The inner `switch` on the operator.
  abbrev pub ordered : Operator → F → F → Bool
  ordered op_gt vf tf = lt tf vf
  ordered op_gte vf tf = le tf vf
  ordered op_lt vf tf = lt vf tf
  ordered op_lte vf tf = le vf tf
  ordered _ vf tf = false

  unfoldable pub match_ordered : Operator → Value F → Value F → Bool
  match_ordered op val wanted = elim (to_float64 val) [
    | none ↦ false
    | some vf ↦ elim (to_float64 wanted) [ none ↦ false | some tf ↦ ordered op vf tf ]
  ]

  -- A test of the first of the values, if there is one.
  abbrev pub on_first : List (Value F) → (Value F → Bool) → Bool
  on_first [] test = false
  on_first (v ∷ values) test = test v

  -- The `switch` on the operator, at an attribute that is there.
  unfoldable pub match_value : Operator → List (Value F) → Value F → Bool
  match_value op_in values val = contains_value values val
  match_value op_not_in values val = not (contains_value values val)
  match_value op_eq values val = on_first values (equal_values val)
  match_value op_neq values val = on_first values (λ v. not (equal_values val v))
  match_value op_contains values val = on_first values (match_contains val)
  match_value op_gt values val = on_first values (match_ordered op_gt val)
  match_value op_gte values val = on_first values (match_ordered op_gte val)
  match_value op_lt values val = on_first values (match_ordered op_lt val)
  match_value op_lte values val = on_first values (match_ordered op_lte val)
  match_value (other name) values val = false

  unfoldable pub match_condition : Condition F → GoMap (Value F) → Bool
  match_condition c attrs = elim (get c.attribute attrs) [
    | none ↦ is_op_not_in c.operator
    | some val ↦ match_value c.operator c.values val
  ]

  unfoldable pub match_conditions : List (Condition F) → GoMap (Value F) → Bool
  match_conditions [] attrs = true
  match_conditions (c ∷ conditions) attrs =
      let rest = match_conditions conditions attrs in
      if not (match_condition c attrs) then false else rest

  unfoldable pub total_weight : F → List (Variant F) → F
  total_weight total [] = total
  total_weight total (v ∷ variants) = total_weight (add total v.weight) variants

  -- `rollout.Variants[len(rollout.Variants)-1].Value`
  unfoldable pub last_value : Variant F → List (Variant F) → Value F
  last_value v [] = v.value
  last_value v (w ∷ variants) = last_value w variants

  -- The loop that returns the first variant whose weights so far reach the point, if one's do.
  unfoldable pub first_reached : F → F → List (Variant F) → Option (Value F)
  first_reached point cumulative [] = none
  first_reached point cumulative (v ∷ variants) =
      let rest = first_reached point (add cumulative v.weight) variants in
      if lt point (add cumulative v.weight) then some v.value else rest

  module _ (hash : String → ℕ) where
    -- `frac`
    unfoldable pub fraction : String → String → String → F
    fraction salt key targeting_key =
        div (of_ℕ (hash (concat salt (concat ":" (concat key (concat ":" targeting_key))))))
          (of_ℕ 4294967296)

    abbrev pub bucket_of : String → List (Variant F) → String → String → Value F
    bucket_of salt [] key targeting_key = null
    bucket_of salt (v ∷ variants) key targeting_key =
        let salted = if salt == "" then key else salt in
        let point = mul (fraction salted key targeting_key) (total_weight zero (v ∷ variants)) in
        if targeting_key == ""
        then v.value
        else or_default (first_reached point zero (v ∷ variants)) (last_value v variants)

    unfoldable pub bucket : Rollout F → String → String → Value F
    bucket rollout key targeting_key = bucket_of rollout.salt rollout.variants key targeting_key

    -- What a rule that matches gives.
    abbrev pub rule_value : String → Rule F → String → Value F
    rule_value key rule targeting_key = elim rule.rollout [
      | none ↦ rule.value
      | some rollout ↦ bucket rollout key targeting_key
    ]

    unfoldable pub resolve : String → Value F → List (Rule F) → EvalContext F → Value F
    resolve key base [] ctx = base
    resolve key base (rule ∷ rules) ctx =
        let rest = resolve key base rules ctx in
        if not (match_conditions rule.conditions ctx.attributes)
        then rest
        else rule_value key rule ctx.targeting_key

    unfoldable pub resolve_set :
        GoMap (Value F)
        → GoMap (List (Rule F))
        → EvalContext F
        → Assoc String (Unit {0})
        → Assoc String (Value F)
        → Assoc String (Value F)
    resolve_set base rules ctx [] result = result
    resolve_set base rules ctx (entry ∷ keys) result =
        let value =
          resolve entry.0 (or_default (get entry.0 base) null) (or_default (get entry.0 rules) [])
            ctx in
        resolve_set base rules ctx keys (insert entry.0 value result)

    unfoldable pub resolve_all :
        GoMap (Value F) → GoMap (List (Rule F)) → EvalContext F → Assoc String (Value F)
    resolve_all base rules ctx =
        resolve_set base rules ctx (key_set (entries rules) (key_set (entries base) [])) []
