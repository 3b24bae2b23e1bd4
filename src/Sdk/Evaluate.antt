-- ===== src/Sdk/Evaluate.antt =====
-- The reads of sdk/go/eval.go: `GetFor` and `EvaluateAll` on the client's snapshot.
use knobs.Base.{
  ℕ, String, String_eq, Bool, true, false, Option, none, some, List, [], ◌∷◌, if◌then◌else◌, ◌&&◌,
  ◌||◌, not, is_some, or_default, ◌≡◌, refl, sym, ap, arith, ◌∙◌,
}
use knobs.Assoc.{Assoc, get, lookup}
use knobs.Value.{Floats, Value, null}
use knobs.Targeting.{Rule, EvalContext}
use knobs.Sdk.Eval.{resolve, resolve_all}
use knobs.Sdk.Eval.Same.{resolve_same, resolve_all_same}
use knobs.Targeting.All.{lookup-resolve_all}
use knobs.Sdk.Client.{Client, get_value}

module _ (fl : Floats) (hash : String → ℕ) where
  open fl use {F}

  -- `len(rules) == 0`
  abbrev pub no_rules : List (Rule F) → Bool
  no_rules [] = true
  no_rules (r ∷ rules) = false

  -- `none` is the result `(nil, false)`.
  unfoldable pub get_for :
      Client (Value F) (List (Rule F)) → String → EvalContext F → Option (Value F)
  get_for c key ctx =
      let base = get key c.current.values in
      let rules = or_default (get key c.current.targeting) [] in
      if not (is_some base) && no_rules rules
      then none
      else some (resolve fl hash key (or_default base null) rules ctx)

  unfoldable pub evaluate_all :
      Client (Value F) (List (Rule F)) → EvalContext F → Assoc String (Value F)
  evaluate_all c ctx = resolve_all fl hash c.current.values c.current.targeting ctx

  agree :
      (key : String) (base : Option (Value F)) (rules : Option (List (Rule F)))
      (ctx : EvalContext F)
      → (if is_some base || is_some rules
          then some (resolve fl hash key (or_default base null) (or_default rules []) ctx)
          else none)
        ≡ (if not (is_some base) && (is_some rules && no_rules (or_default rules []))
            then some null
            else if not (is_some base) && no_rules (or_default rules [])
            then none
            else some (resolve fl hash key (or_default base null) (or_default rules []) ctx))
  unfolding resolve
  agree key none none ctx = refl
  agree key none (some []) ctx = refl
  agree key none (some (r ∷ rules)) ctx = refl
  agree key (some v) rules ctx = refl

  -- `GetFor` and `EvaluateAll` agree on every key, but for one that has no value and an empty list
  -- of rules: `EvaluateAll` holds nil under it, and `GetFor` reports it as missing.
  pub get_for-evaluate_all :
      (c : Client (Value F) (List (Rule F))) (key : String) (ctx : EvalContext F)
      → lookup key (evaluate_all c ctx) ≡ (
          if not (is_some (get key c.current.values))
            && (is_some (get key c.current.targeting)
                && no_rules (or_default (get key c.current.targeting) []))
          then some null
          else get_for c key ctx)
  unfolding get_for evaluate_all
  get_for-evaluate_all c key ctx =
      let base = get key c.current.values in
      let rules = get key c.current.targeting in
      ap (lookup key)
        (resolve_all_same fl hash key null [] c.current.values c.current.targeting ctx).1
      ∙ (lookup-resolve_all fl hash c.current.values c.current.targeting ctx key
          ∙ (ap (λ (v : Value F). if is_some base || is_some rules then some v else none)
                (sym (resolve_same fl hash key (or_default base null) (or_default rules []) ctx))
              ∙ agree key base rules ctx))

  -- Without rules for a key, every context gets its plain value.
  pub get_for_plain :
      (c : Client (Value F) (List (Rule F))) (key : String) (ctx : EvalContext F)
      → get key c.current.targeting ≡ none
      → get_for c key ctx ≡ get_value c key
  unfolding get_for get_value resolve
  get_for_plain c key ctx h = ground arith
