-- ===== src/Sdk/Eval/Same.antt =====
-- sdk/go/eval.go against internal/targeting/eval.go.
use knobs.Base.{
  ◌≡◌, refl, ◌∙◌, ap, ℕ, String, String_eq, Bool, List, [], ◌∷◌, ◌==◌, not, or_default, arith,
  Bool-cases, Option-cases, inl, inr,
}
use knobs.Assoc.{Assoc, GoMap, entries, get, insert}
use knobs.Value.{Floats, Value, null, bool, str, float64, float32, int, uint, json_number, arr, obj}
use knobs.Targeting.{
  Operator, op_in, op_not_in, op_eq, op_neq, op_contains, op_gt, op_gte, op_lt, op_lte, other,
  Condition, Variant, Rollout, Rule, EvalContext,
}
use knobs.Targeting.Eval as Server
use knobs.Sdk.Eval as Client

module _ (fl : Floats) where
  open fl use {F}

  to_float64_same : (v : Value F) → Client.to_float64 fl v ≡ Server.to_float64 fl v
  unfolding Client.to_float64 Server.to_float64
  to_float64_same null = refl
  to_float64_same (bool b) = refl
  to_float64_same (str s) = refl
  to_float64_same (float64 n) = refl
  to_float64_same (float32 n) = refl
  to_float64_same (int width n) = refl
  to_float64_same (uint width n) = refl
  to_float64_same (json_number n) = refl
  to_float64_same (arr vs) = refl
  to_float64_same (obj fs) = refl

  equal_values_same : (a b : Value F) → Client.equal_values fl a b ≡ Server.equal_values fl a b
  unfolding Client.equal_values Server.equal_values
  equal_values_same a b = ground (arith, to_float64_same a, to_float64_same b)

  contains_value_same :
      (values : List (Value F)) (needle : Value F)
      → Client.contains_value fl values needle ≡ Server.contains_value fl values needle
  unfolding Client.contains_value Server.contains_value
  contains_value_same [] needle = refl
  contains_value_same (v ∷ values) needle =
      ground (arith, equal_values_same v needle, contains_value_same values needle)

  match_contains_same :
      (val wanted : Value F)
      → Client.match_contains fl val wanted ≡ Server.contains_text fl val wanted
  unfolding Client.match_contains Server.contains_text
  match_contains_same (str s) (str sub) = refl
  match_contains_same _ _ = refl

  match_ordered_same :
      (op : Operator) (val wanted : Value F)
      → Client.match_ordered fl op val wanted
        ≡ Server.compare_values fl (Client.ordered fl op) val wanted
  unfolding Client.match_ordered Server.compare_values
  match_ordered_same op val wanted = ground (arith, to_float64_same val, to_float64_same wanted)

  on_first_same :
      (values : List (Value F)) (test other_test : Value F → Bool)
      → ((v : Value F) → test v ≡ other_test v)
      → Client.on_first fl values test ≡ Server.with_first fl values other_test
  on_first_same [] test other_test h = refl
  on_first_same (v ∷ values) test other_test h = h v

  match_value_same :
      (op : Operator) (values : List (Value F)) (val : Value F)
      → Client.match_value fl op values val ≡ Server.holds fl op values val
  unfolding Client.match_value Server.holds
  match_value_same op_in values val = contains_value_same values val
  match_value_same op_not_in values val = ap not (contains_value_same values val)
  match_value_same op_eq values val = on_first_same values _ _ (equal_values_same val)
  match_value_same op_neq values val =
      on_first_same values _ _ (λ v. ap not (equal_values_same val v))
  match_value_same op_contains values val = on_first_same values _ _ (match_contains_same val)
  match_value_same op_gt values val = on_first_same values _ _ (match_ordered_same op_gt val)
  match_value_same op_gte values val = on_first_same values _ _ (match_ordered_same op_gte val)
  match_value_same op_lt values val = on_first_same values _ _ (match_ordered_same op_lt val)
  match_value_same op_lte values val = on_first_same values _ _ (match_ordered_same op_lte val)
  match_value_same (other name) values val = refl

  is_op_not_in_same : (op : Operator) → Client.is_op_not_in op ≡ Server.is_not_in op
  is_op_not_in_same op_not_in = refl
  is_op_not_in_same _ = refl

  match_condition_same :
      (c : Condition F) (attrs : GoMap (Value F))
      → Client.match_condition fl c attrs ≡ Server.match_condition fl c attrs
  unfolding Client.match_condition Server.match_condition
  match_condition_same c attrs = elim (Option-cases (get c.attribute attrs)) [
    | inl missing ↦
        rw (Client.match_condition, Server.match_condition, missing) (is_op_not_in_same c.operator)
    | inr (val, there) ↦
        rw (Client.match_condition, Server.match_condition, there)
          (match_value_same c.operator c.values val)
  ]

  match_conditions_same :
      (conditions : List (Condition F)) (attrs : GoMap (Value F))
      → Client.match_conditions fl conditions attrs ≡ Server.match_conditions fl conditions attrs
  unfolding Client.match_conditions Server.match_conditions
  match_conditions_same [] attrs = refl
  match_conditions_same (c ∷ conditions) attrs =
      ground (arith, match_condition_same c attrs, match_conditions_same conditions attrs)

  total_weight_same :
      (total : F) (variants : List (Variant F))
      → Client.total_weight fl total variants ≡ Server.total_weight fl total variants
  unfolding Client.total_weight Server.total_weight
  total_weight_same total [] = refl
  total_weight_same total (v ∷ variants) = total_weight_same (fl.add total v.weight) variants

  -- The loop of one falls back to its last argument, the other's caller to the last variant.
  pick_same :
      (point cumulative : F) (v : Variant F) (variants : List (Variant F)) (last : Value F)
      → or_default
          (Client.first_reached fl point cumulative (v ∷ variants))
          (Client.last_value fl v variants)
        ≡ Server.pick fl point cumulative last (v ∷ variants)
  unfolding Client.first_reached Client.last_value Server.pick
  pick_same point cumulative v [] last = ground arith
  pick_same point cumulative v (w ∷ variants) last =
      ground (arith, pick_same point (fl.add cumulative v.weight) w variants v.value)

  module _ (hash : String → ℕ) where
    bucket_of_same :
        (rollout : Rollout F) (variants : List (Variant F)) (key targeting_key : String)
        → Client.bucket_of fl hash rollout.salt variants key targeting_key
          ≡ Server.pick_from fl hash rollout key targeting_key variants
    unfolding Client.fraction Server.point_of
    bucket_of_same rollout [] key targeting_key = refl
    bucket_of_same rollout (v ∷ variants) key targeting_key =
        elim (Bool-cases (targeting_key == "")) [
          | inl anonymous ↦ rw anonymous refl
          | inr known ↦
              rw (known, total_weight_same fl.zero (v ∷ variants))
                (pick_same
                  (Server.point_of fl hash (Server.salt_or fl hash rollout.salt key) key
                    targeting_key (Server.total_weight fl fl.zero (v ∷ variants)))
                  fl.zero v variants null)
        ]

    bucket_same :
        (rollout : Rollout F) (key targeting_key : String)
        → Client.bucket fl hash rollout key targeting_key
          ≡ Server.bucket fl hash rollout key targeting_key
    unfolding Client.bucket Server.bucket
    bucket_same rollout key targeting_key =
        bucket_of_same rollout rollout.variants key targeting_key

    rule_value_same :
        (key : String) (rule : Rule F) (ctx : EvalContext F)
        → Client.rule_value fl hash key rule ctx.targeting_key ≡ Server.outcome fl hash key rule ctx
    rule_value_same key rule ctx = elim (Option-cases rule.rollout) [
      | inl none_set ↦ rw none_set refl
      | inr (rollout, set) ↦ rw set (bucket_same rollout key ctx.targeting_key)
    ]

    pub resolve_same :
        (key : String) (base : Value F) (rules : List (Rule F)) (ctx : EvalContext F)
        → Client.resolve fl hash key base rules ctx ≡ Server.resolve fl hash key base rules ctx
    unfolding Client.resolve Server.resolve
    resolve_same key base [] ctx = refl
    resolve_same key base (rule ∷ rules) ctx = ground (
      arith,
      match_conditions_same rule.conditions ctx.attributes,
      resolve_same key base rules ctx,
      rule_value_same key rule ctx,
    )

    key_set_same :
        {A : Type 0} (m : Assoc String A) (keys : Assoc String (Unit {0}))
        → Client.key_set m keys ≡ Server.add_keys m keys
    unfolding Client.key_set Server.add_keys
    key_set_same [] keys = refl
    key_set_same ((k, v) ∷ m) keys = key_set_same m (insert k tt keys)

    resolve_set_same :
        (base : GoMap (Value F)) (rules : GoMap (List (Rule F))) (ctx : EvalContext F)
        (keys : Assoc String (Unit {0})) (result : Assoc String (Value F))
        → Client.resolve_set fl hash base rules ctx keys result
          ≡ Server.resolve_keys fl hash base rules ctx keys result
    unfolding Client.resolve_set Server.resolve_keys
    resolve_set_same base rules ctx [] result = refl
    resolve_set_same base rules ctx ((k, used) ∷ keys) result =
        let value =
          Client.resolve fl hash k (or_default (get k base) null) (or_default (get k rules) [])
            ctx in
        resolve_set_same base rules ctx keys (insert k value result)
        ∙ ap (λ (v : Value F). Server.resolve_keys fl hash base rules ctx keys (insert k v result))
            (resolve_same k (or_default (get k base) null) (or_default (get k rules) []) ctx)

    -- The evaluators of the SDK and of the server give the same value to every key, base value, rules
    -- and context, and the same map to all keys together.
    pub resolve_all_same :
        (key : String) (value : Value F) (key_rules : List (Rule F)) (base : GoMap (Value F))
        (rules : GoMap (List (Rule F))) (ctx : EvalContext F)
        → (Client.resolve fl hash key value key_rules ctx
            ≡ Server.resolve fl hash key value key_rules ctx)
          × (Client.resolve_all fl hash base rules ctx ≡ Server.resolve_all fl hash base rules ctx)
    unfolding Client.resolve_all Server.resolve_all
    resolve_all_same key value key_rules base rules ctx = (
      resolve_same key value key_rules ctx,
      ap (λ (keys : Assoc String (Unit {0})). Client.resolve_set fl hash base rules ctx keys [])
            (ap (Client.key_set (entries rules)) (key_set_same (entries base) [])
              ∙ key_set_same (entries rules) (Server.add_keys (entries base) []))
          ∙ resolve_set_same base rules ctx
              (Server.add_keys (entries rules) (Server.add_keys (entries base) [])) [],
    )
