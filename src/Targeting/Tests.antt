-- ===== src/Targeting/Tests.antt =====
-- The evaluator and the validator over numbers with 32 binary places, which are exact for buckets.
use knobs.Base.{
  ℕ, ◌+◌, ◌*◌, ◌/◌, String, String_eq, Bool, true, none, some, List, [], ◌∷◌, ltb, leb, nat_eq, ◌≡◌,
  not, refl, arith, eq_iff,
}
use knobs.Base.Int.{pos, negsuc}
use knobs.Assoc.{GoMap, nil_map, made, lookup, insert}
use knobs.Value.{Floats, Value, null, str, deep_equal, is_null}
use knobs.Schema.{Field}
use knobs.Targeting.{op_in, Condition, Variant, Rollout, Rule, EvalContext}
use knobs.Targeting.Eval.{
  to_float64, equal_values, contains_value, holds, match_condition, match_conditions, total_weight,
  pick, point_of, bucket, resolve,
}
use knobs.Targeting.Laws.{Resolves, resolve-Resolves}
use knobs.Targeting.All.{bucket_sticky}
use knobs.Targeting.Validate.{
  validate, validate_entries, validate_rules, validate_rule, validate_conditions, validate_rollout,
  validate_variants, index_fields,
}
use knobs.Targeting.Validate.Sound.{resolve-validated}

abbrev pub unit : ℕ
unit = 4294967296

abbrev pub fixed : Floats
fixed = record {
  F = ℕ;
  zero = 0;
  of_ℕ = λ n. n * unit;
  of_ℤ = λ z. elim z [ pos n ↦ n * unit | negsuc n ↦ 0 ];
  parse = λ s. none;
  add = λ a b. a + b;
  mul = λ a b. a * b / unit;
  div = λ a b. a * unit / b;
  lt = ltb;
  le = leb;
  eq = nat_eq;
}

-- Every user stands at one half.
abbrev pub hash : String → ℕ
hash s = 2147483648

abbrev pub split : List (Variant ℕ)
split =
    record { value = str "a"; weight = 60 * unit }
    ∷ record { value = str "b"; weight = 40 * unit }
    ∷ []

abbrev pub rollout : Rollout ℕ
rollout = record { salt = ""; variants = split }

abbrev pub staff : Condition ℕ
staff = record { attribute = "team"; operator = op_in; values = str "core" ∷ str "ops" ∷ [] }

abbrev pub rules : List (Rule ℕ)
rules =
    record { conditions = staff ∷ []; value = str "new"; rollout = none }
    ∷ record { conditions = []; value = null; rollout = some rollout }
    ∷ []

abbrev pub user : EvalContext ℕ
user = record { targeting_key = "u1"; attributes = made (("team", str "sales") ∷ []) }

abbrev theme : Field ℕ
theme = record {
  name = "theme";
  kind = "string";
  required = true;
  default = null;
  min = none;
  max = none;
  pattern = "";
  enum_values = [];
  description = "";
}

abbrev valid : Field ℕ → Value ℕ → Bool
valid f v = not (is_null v)

abbrev no_values : GoMap (Value ℕ)
no_values = nil_map

abbrev targeting : GoMap (List (Rule ℕ))
targeting = made (("theme", rules) ∷ [])

resolve_runs : resolve fixed hash "theme" (str "old") rules user ≡ str "a"
unfolding resolve match_conditions match_condition holds contains_value equal_values to_float64
    deep_equal lookup bucket pick point_of total_weight
resolve_runs = refl

resolve-Resolves_example :
    Resolves fixed hash "theme"
      (str "old")
      user
      rules
      (resolve fixed hash "theme" (str "old") rules user)
resolve-Resolves_example = resolve-Resolves fixed hash "theme" (str "old") rules user

bucket_sticky_example :
    (bucket fixed hash rollout "theme" "u1" ≡ str "a")
    × (bucket fixed hash
          (record {
            salt = "";
            variants =
                record { value = str "a"; weight = 70 * unit }
                ∷ record { value = str "b"; weight = 30 * unit }
                ∷ [];
          })
          "theme"
          "u1"
        ≡ str "a")
unfolding total_weight point_of
bucket_sticky_example =
    bucket_sticky fixed hash "" "theme" "u1" (record { value = str "a"; weight = 60 * unit })
      (record { value = str "a"; weight = 70 * unit })
      (record { value = str "b"; weight = 40 * unit } ∷ [])
      (record { value = str "b"; weight = 30 * unit } ∷ []) (λ x y z p q. ground arith)
      (λ x y p. ground arith) (ground (arith, eq_iff "u1" "")) refl refl refl

resolve-validated_example : valid theme (resolve fixed hash "theme" (str "old") rules user) ≡ true
unfolding validate validate_entries validate_rules validate_rule validate_conditions
    validate_rollout validate_variants index_fields lookup insert
resolve-validated_example =
    resolve-validated fixed valid refl hash (theme ∷ []) targeting "theme" theme rules (str "old")
      user refl refl refl refl
