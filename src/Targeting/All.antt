-- ===== src/Targeting/All.antt =====
-- `ResolveAll`, and what conditions do with attributes and rollouts with weights.
use knobs.Base.{
  ℕ, String, String_eq, Bool, true, false, none, some, List, [], ◌∷◌, if◌then◌else◌, ◌&&◌, ◌||◌,
  not, or_default, ◌≡◌, refl, ◌∙◌, ◌≢◌, arith, is_some,
}
use knobs.Assoc.{Assoc, GoMap, entries, get, lookup, insert, lookup-insert}
use knobs.Value.{Floats, Value, null}
use knobs.Targeting.{op_in, op_not_in, op_eq, op_neq, Condition, Variant, Rule, EvalContext}
use knobs.Targeting.Eval.{
  match_condition, holds, total_weight, pick, salt_or, point_of, bucket, resolve, add_keys,
  resolve_keys, resolve_all,
}

is_some-add_keys :
    {A : Type 0} (j : String) (m : Assoc String A) (keys : Assoc String (Unit {0}))
    → is_some (lookup j (add_keys m keys)) ≡ is_some (lookup j m) || is_some (lookup j keys)
unfolding add_keys lookup
is_some-add_keys j [] keys = refl
is_some-add_keys j ((k, v) ∷ m) keys =
    ground (arith, is_some-add_keys j m (insert k tt keys), lookup-insert k j tt keys)

module _ (fl : Floats) where
  open fl use {F, zero, add, lt, le}

  abbrev pub is_empty : List (Value F) → Bool
  is_empty [] = true
  is_empty (v ∷ vs) = false

  -- `notIn` is the negation of `in`, also where the attribute is missing. `neq` is the negation of
  -- `eq` only where the attribute is there and the condition has a value; otherwise neither holds.
  pub match_condition_negated :
      (c : Condition F) (attrs : GoMap (Value F))
      → (match_condition fl (record c { operator = op_not_in }) attrs
          ≡ not (match_condition fl (record c { operator = op_in }) attrs))
        × (match_condition fl (record c { operator = op_neq }) attrs
            ≡ (is_some (get c.attribute attrs) && not (is_empty c.values))
              && not (match_condition fl (record c { operator = op_eq }) attrs))
  unfolding match_condition holds
  match_condition_negated c attrs = (ground arith, ground arith)

  module _ (hash : String → ℕ) (base : GoMap (Value F)) (rules : GoMap (List (Rule F)))
      (ctx : EvalContext F) where
    -- What `ResolveAll` computes for one key.
    abbrev pub resolved : String → Value F
    resolved k = resolve fl hash k (or_default (get k base) null) (or_default (get k rules) []) ctx

    lookup-resolve_keys :
        (j : String) (keys : Assoc String (Unit {0})) (result : Assoc String (Value F))
        → lookup j (resolve_keys fl hash base rules ctx keys result)
          ≡ (if is_some (lookup j keys) then some (resolved j) else lookup j result)
    unfolding resolve_keys lookup
    lookup-resolve_keys j [] result = refl
    lookup-resolve_keys j ((k, used) ∷ keys) result = ground (
      arith,
      lookup-resolve_keys j keys (insert k (resolved k) result),
      lookup-insert k j (resolved k) result,
      String_eq.equal_iff k j,
    )

    -- `ResolveAll` has the keys of the values and those of the rules, each with what `Resolve`
    -- gives for it.
    pub lookup-resolve_all :
        (j : String)
        → lookup j (resolve_all fl hash base rules ctx)
          ≡ (if is_some (get j base) || is_some (get j rules) then some (resolved j) else none)
    unfolding resolve_all lookup
    lookup-resolve_all j =
        lookup-resolve_keys j (add_keys (entries rules) (add_keys (entries base) [])) []
        ∙ ground (
          arith,
          is_some-add_keys j (entries rules) (add_keys (entries base) []),
          is_some-add_keys j (entries base) [],
        )

  -- Two laws of IEEE 754 for values that are no NaN.
  abbrev pub LtLe : Type 0
  LtLe = (x y z : F) → lt x y ≡ true → le y z ≡ true → lt x z ≡ true

  abbrev pub AddMono : Type 0
  AddMono = (x y : F) → le x y ≡ true → le (add zero x) (add zero y) ≡ true

  bucket_first :
      (hash : String → ℕ) (salt key targeting_key : String) (v : Variant F) (vs : List (Variant F))
      → targeting_key ≢ ""
      → lt
          (point_of fl hash
            (salt_or fl hash salt key)
            key
            targeting_key
            (total_weight fl zero (v ∷ vs)))
          (add zero v.weight)
        ≡ true
      → bucket fl hash (record { salt = salt; variants = v ∷ vs }) key targeting_key ≡ v.value
  unfolding bucket pick
  bucket_first hash salt key targeting_key v vs user hit =
      ground (arith, String_eq.equal_iff targeting_key "")

  -- Widening the first variant of a rollout, with the salt and the sum of the weights kept, moves
  -- no user out of it: who was bucketed into it still is.
  pub bucket_sticky :
      (hash : String → ℕ) (salt key targeting_key : String) (v w : Variant F)
      (vs ws : List (Variant F))
      → LtLe
      → AddMono
      → targeting_key ≢ ""
      → total_weight fl zero (v ∷ vs) ≡ total_weight fl zero (w ∷ ws)
      → le v.weight w.weight ≡ true
      → lt
          (point_of fl hash
            (salt_or fl hash salt key)
            key
            targeting_key
            (total_weight fl zero (v ∷ vs)))
          (add zero v.weight)
        ≡ true
      → (bucket fl hash (record { salt = salt; variants = v ∷ vs }) key targeting_key ≡ v.value)
        × (bucket fl hash (record { salt = salt; variants = w ∷ ws }) key targeting_key ≡ w.value)
  bucket_sticky hash salt key targeting_key v w vs ws lt_le add_mono user sum grows hit = (
    bucket_first hash salt key targeting_key v vs user hit,
    bucket_first hash salt key targeting_key w ws user (
        rw (← sum) (
          lt_le
            (point_of fl hash (salt_or fl hash salt key) key targeting_key
              (total_weight fl zero (v ∷ vs)))
            (add zero v.weight) (add zero w.weight) hit (add_mono v.weight w.weight grows))),
  )
