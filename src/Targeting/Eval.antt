-- ===== src/Targeting/Eval.antt =====
-- internal/targeting/eval.go. `hash` is the first four bytes of SHA-256 as a big-endian number.
use Prim.Native.String.{◌++◌ as concat}
use text.Mathlib.Text.{find?}
use knobs.Base.{
  is_some, ◌||◌, ℕ, String, String_eq, Bool, true, false, Option, none, some, List, [], ◌∷◌,
  if◌then◌else◌, ◌==◌, not, or_default,
}
use knobs.Assoc.{Assoc, GoMap, entries, get, insert}
use knobs.Value.{Floats, Value, null, str, float64, float32, int, uint, json_number, deep_equal}
use knobs.Targeting.{
  Operator, op_in, op_not_in, op_eq, op_neq, op_contains, op_gt, op_gte, op_lt, op_lte, other,
  Condition, Variant, Rollout, Rule, EvalContext,
}

-- `for k := range m { keys[k] = struct{}{} }`
unfoldable pub add_keys :
    {A : Type 0} → Assoc String A → Assoc String (Unit {0}) → Assoc String (Unit {0})
add_keys [] keys = keys
add_keys ((k, v) ∷ m) keys = add_keys m (insert k tt keys)

abbrev pub is_not_in : Operator → Bool
is_not_in op_not_in = true
is_not_in _ = false

module _ (fl : Floats) where
  open fl use {F, zero, of_ℕ, of_ℤ, parse, add, mul, div, lt, le, eq}

  unfoldable pub to_float64 : Value F → Option F
  to_float64 (float64 n) = some n
  to_float64 (float32 n) = some n
  to_float64 (int width n) = some (of_ℤ n)
  to_float64 (uint width n) = some (of_ℕ n)
  to_float64 (json_number n) = parse n
  to_float64 _ = none

  -- Numbers are compared as floats; a number equals nothing else; the rest is `reflect.DeepEqual`.
  unfoldable pub equal_values : Value F → Value F → Bool
  equal_values a b = elim (to_float64 a) [
    | some af ↦ elim (to_float64 b) [ some bf ↦ eq af bf | none ↦ false ]
    | none ↦ deep_equal eq a b
  ]

  unfoldable pub contains_value : List (Value F) → Value F → Bool
  contains_value [] needle = false
  contains_value (v ∷ values) needle = equal_values v needle || contains_value values needle

  -- `strings.Contains` on two values that hold strings.
  unfoldable pub contains_text : Value F → Value F → Bool
  contains_text (str s) (str sub) = is_some (find? s sub)
  contains_text _ _ = false

  -- A comparison of two values that hold numbers.
  unfoldable pub compare_values : (F → F → Bool) → Value F → Value F → Bool
  compare_values holds a b = elim (to_float64 a) [
    | some af ↦ elim (to_float64 b) [ some bf ↦ holds af bf | none ↦ false ]
    | none ↦ false
  ]

  -- The comparison against the first of the condition's values.
  abbrev pub with_first : List (Value F) → (Value F → Bool) → Bool
  with_first [] test = false
  with_first (v ∷ values) test = test v

  -- `val` holds `op` against `values`.
  unfoldable pub holds : Operator → List (Value F) → Value F → Bool
  holds op_in values val = contains_value values val
  holds op_not_in values val = not (contains_value values val)
  holds op_eq values val = with_first values (λ v. equal_values val v)
  holds op_neq values val = with_first values (λ v. not (equal_values val v))
  holds op_contains values val = with_first values (λ v. contains_text val v)
  holds op_gt values val = with_first values (λ v. compare_values (λ x y. lt y x) val v)
  holds op_gte values val = with_first values (λ v. compare_values (λ x y. le y x) val v)
  holds op_lt values val = with_first values (λ v. compare_values lt val v)
  holds op_lte values val = with_first values (λ v. compare_values le val v)
  holds (other name) values val = false

  unfoldable pub match_condition : Condition F → GoMap (Value F) → Bool
  match_condition c attrs = elim (get c.attribute attrs) [
    | none ↦ is_not_in c.operator
    | some val ↦ holds c.operator c.values val
  ]

  unfoldable pub match_conditions : List (Condition F) → GoMap (Value F) → Bool
  match_conditions [] attrs = true
  match_conditions (c ∷ conditions) attrs =
      if not (match_condition c attrs) then false else match_conditions conditions attrs

  unfoldable pub total_weight : F → List (Variant F) → F
  total_weight total [] = total
  total_weight total (v ∷ variants) = total_weight (add total v.weight) variants

  -- The second loop of `bucket`; `last` is what it falls back to.
  unfoldable pub pick : F → F → Value F → List (Variant F) → Value F
  pick point cumulative last [] = last
  pick point cumulative last (v ∷ variants) =
      if lt point (add cumulative v.weight)
      then v.value
      else pick point (add cumulative v.weight) v.value variants

  module _ (hash : String → ℕ) where
    -- The point of a user on the scale of a rollout whose weights sum to `total`.
    unfoldable pub point_of : String → String → String → F → F
    point_of salt key targeting_key total =
        mul
          (div (of_ℕ (hash (concat salt (concat ":" (concat key (concat ":" targeting_key))))))
            (of_ℕ 4294967296))
          total

    -- `salt` is the key where none is set.
    abbrev pub salt_or : String → String → String
    salt_or salt key = if salt == "" then key else salt

    abbrev pub pick_from : Rollout F → String → String → List (Variant F) → Value F
    pick_from rollout key targeting_key [] = null
    pick_from rollout key targeting_key (v ∷ variants) =
        if targeting_key == ""
        then v.value
        else pick
            (point_of (salt_or rollout.salt key) key targeting_key
              (total_weight zero (v ∷ variants)))
            zero null (v ∷ variants)

    unfoldable pub bucket : Rollout F → String → String → Value F
    bucket rollout key targeting_key = pick_from rollout key targeting_key rollout.variants

    -- What a matching rule resolves to.
    abbrev pub outcome : String → Rule F → EvalContext F → Value F
    outcome key rule ctx = elim rule.rollout [
      | some rollout ↦ bucket rollout key ctx.targeting_key
      | none ↦ rule.value
    ]

    unfoldable pub resolve : String → Value F → List (Rule F) → EvalContext F → Value F
    resolve key base [] ctx = base
    resolve key base (rule ∷ rules) ctx =
        if not (match_conditions rule.conditions ctx.attributes)
        then resolve key base rules ctx
        else outcome key rule ctx

    unfoldable pub resolve_keys :
        GoMap (Value F)
        → GoMap (List (Rule F))
        → EvalContext F
        → Assoc String (Unit {0})
        → Assoc String (Value F)
        → Assoc String (Value F)
    resolve_keys base rules ctx [] result = result
    resolve_keys base rules ctx ((k, used) ∷ keys) result = resolve_keys base rules ctx keys (
        insert k (resolve k (or_default (get k base) null) (or_default (get k rules) []) ctx)
          result)

    unfoldable pub resolve_all :
        GoMap (Value F) → GoMap (List (Rule F)) → EvalContext F → Assoc String (Value F)
    resolve_all base rules ctx =
        resolve_keys base rules ctx (add_keys (entries rules) (add_keys (entries base) [])) []
