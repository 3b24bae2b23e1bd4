-- ===== src/EndToEnd/Typed.antt =====
-- What a saved configuration is to an SDK that evaluates it: values that fit their fields.
use knobs.Base.{
  ◌≡◌, refl, ◌∙◌, ap, ℕ, ◌≤◌, String, String_eq, ℕ_eq, Bool, true, Option, none, some, List, [],
  ◌∷◌, arith, not, is_some, ◌&&◌, eq_iff, or_default, Option-cases, inl, inr,
}
use knobs.Assoc.{Assoc, GoMap, get, lookup, insert, lookup-insert, get-or_made}
use knobs.Value.{Floats, Value}
use knobs.Store.{Db, Environment, ConfigVersion, next_version_number}
use knobs.Store.Laws.{new_version}
use knobs.Delivery.Snapshot.{Snapshot}
use knobs.Schema.{Field}
use knobs.Schema.Definition.{Definition, validate_definition}
use knobs.Schema.Definition.Laws.{names, are_distinct, validate_definition_exact}
use knobs.Schema.Document.{field_schema, json_schema_doc}
use knobs.Schema.Document.Laws.{find_named, find_named_absent, json_schema_doc_exact}
use knobs.Schema.Rules.{JsonSchema, valid, schema_rules, AppliesProperties}
use knobs.Targeting.{Rule, EvalContext}
use knobs.Targeting.Eval.{resolve}
use knobs.Targeting.Validate.{validate, index_fields}
use knobs.Targeting.Validate.Sound.{resolve-validated}
use knobs.Api.Access.{granted, authorize_env}
use knobs.Api.ApiKeys.{handle_snapshot}
use knobs.Api.Values.{replied, handle_put_values}
use knobs.Api.Values.Answered.{handle_put_values-replied}
use knobs.Api.Values.Laws.{schema_of}
use knobs.Api.Values.Run.{Run}
use knobs.Api.Values.Grows.{revision_at}
use knobs.Api.Values.Usable.{AreUsable, Run-AreUsable}
use knobs.Api.Values.Serve.{put_values-Serves}
use knobs.Sdk.Client.{Client, apply_snapshot}
use knobs.EndToEnd.Publish.{served-handle_snapshot}
use knobs.Sdk.Eval.Same.{resolve_same}
use knobs.Sdk.Evaluate.{get_for}

or_field : {F : Type 0} → Option (Field F) → Option (Field F) → Option (Field F)
or_field none other = other
or_field (some f) other = some f

lookup-index_fields :
    (fl : Floats) (ok : Field fl.F → Value fl.F → Bool) (key : String) (fs : List (Field fl.F))
    (indexed : Assoc String (Field fl.F))
    → are_distinct (names fs) ≡ true
    → lookup key (index_fields fl ok fs indexed) ≡ or_field (find_named key fs) (lookup key indexed)
unfolding index_fields or_field
lookup-index_fields fl ok key [] indexed h = refl
lookup-index_fields fl ok key (f ∷ fs) indexed h = ground (
  arith,
  lookup-index_fields fl ok key fs (insert f.name f indexed),
  lookup-insert f.name key f indexed,
  find_named_absent key fs,
  eq_iff f.name key,
)

module _ (fl : Floats) (hash : String → ℕ) where
  get_for_based :
      (c : Client (Value fl.F) (List (Rule fl.F))) (key : String) (ctx : EvalContext fl.F)
      (base : Value fl.F)
      → get key c.current.values ≡ some base
      → get_for fl hash c key ctx
        ≡ some (resolve fl hash key base (or_default (get key c.current.targeting) []) ctx)
  unfolding get_for
  get_for_based c key ctx base h =
      rw (get_for, h)
        (ap some (resolve_same fl hash key base (or_default (get key c.current.targeting) []) ctx))

  module _ (js : JsonSchema fl.F) (zero_le_zero : fl.le fl.zero fl.zero ≡ true) where
    -- What rules that pass give over an accepted value is accepted.
    resolved-valid :
        (def : Definition fl.F) (m : GoMap (List (Rule fl.F))) (key : String) (f : Field fl.F)
        (base : Value fl.F) (ctx : EvalContext fl.F)
        → validate_definition fl def ≡ none
        → find_named key def.fields ≡ some f
        → validate fl (valid fl js) def.fields m ≡ none
        → valid fl js f base ≡ true
        → valid fl js f (resolve fl hash key base (or_default (get key m) []) ctx) ≡ true
    unfolding resolve lookup or_field
    resolved-valid def m key f base ctx accepted named passed good =
        elim (Option-cases (get key m)) [
          | inl no_rules ↦ rw no_rules good
          | inr (rules, has) ↦
              let distinct : are_distinct (names def.fields) ≡ true =
                ground (arith, validate_definition_exact fl def, accepted) in
              let indexed : lookup key (index_fields fl (valid fl js) def.fields []) ≡ some f =
                lookup-index_fields fl (valid fl js) key def.fields [] distinct
                ∙ ap (λ (o : Option (Field fl.F)). or_field o none) named in
              rw has (
                resolve-validated fl (valid fl js) zero_le_zero hash def.fields m key f rules base
                  ctx passed has indexed good)
        ]

    -- The client's answer is a value that the field accepts.
    abbrev pub Answers : Field fl.F → Option (Value fl.F) → Type 0
    Answers f o = (w : Value fl.F) × ((o ≡ some w) × (valid fl js f w ≡ true))

    abbrev pub definition_of :
        Db (Definition fl.F) (Value fl.F) (List (Rule fl.F)) → ℕ → Definition fl.F
    definition_of db project = (schema_of (schema_rules fl js) db project).definition

    none_of : {A : Type 0} (o : Option A) → not (is_some o) ≡ true → o ≡ none
    none_of none h = refl
    none_of (some a) h = absurd (cc)

    usable-accepted :
        (d : Definition fl.F)
        → ((schema_rules fl js).well_formed d && (schema_rules fl js).compiles d) ≡ true
        → (validate_definition fl d ≡ none) × (js.compiles (json_schema_doc d) ≡ true)
    usable-accepted d h = (
      elim (Option-cases (validate_definition fl d)) [
        | inl fine ↦ fine
        | inr (e, failed) ↦ ground (arith, h, failed)
      ],
      ground (arith, h),
    )

    -- The same, of a save that is known to pass.
    granted-get_for :
        (db : Db (Definition fl.F) (Value fl.F) (List (Rule fl.F))) (user env : ℕ) (e : Environment)
        (values : GoMap (Value fl.F)) (targeting : GoMap (List (Rule fl.F)))
        (c : Client (Value fl.F) (List (Rule fl.F))) (schema_hash : Definition fl.F → String)
        (key : String) (f : Field fl.F) (base : Value fl.F) (ctx : EvalContext fl.F)
        → AppliesProperties fl js
        → (let rules = schema_rules fl js in
            let def = definition_of db e.project_id in
            (rules.well_formed def && rules.compiles def) ≡ true
            → authorize_env db user env "editor" ≡ granted e
            → rules.valid_values def values ≡ true
            → rules.valid_targeting def targeting ≡ true
            → find_named key def.fields ≡ some f
            → get key values ≡ some base
            → c.current.revision ≤ revision_at db env
            → (s : Snapshot (Value fl.F) (List (Rule fl.F))) × ((handle_snapshot rules.no_fields
                  schema_hash
                  (handle_put_values rules db user true (some env) (some (values, targeting))).0
                  env).1
                ≡ replied s)
              × Answers f (get_for fl hash (apply_snapshot c s) key ctx))
    granted-get_for db user env e values targeting c schema_hash key f base ctx applies usable grant
          good passed named has behind =
        let rules = schema_rules fl js in
        let def = definition_of db e.project_id in
        let (accepted, compiled) = usable-accepted def usable in
        let o = handle_put_values rules db user true (some env) (some (values, targeting)) in
        let v =
          new_version env (next_version_number db env)
            (schema_of rules db e.project_id).schema_version values targeting user in
        let (s, answered, its_values, its_rules, now) =
          served-handle_snapshot rules schema_hash db env o v c
            (put_values-Serves rules db user env e values targeting grant compiled good passed)
            behind in
        let property : lookup key (json_schema_doc def).properties ≡ some (field_schema f) =
          (json_schema_doc_exact fl def key accepted).0 ∙ rw named refl in
        let base_good : valid fl js f base ≡ true =
          applies (json_schema_doc def) values key (field_schema f) base good property has in
        let right = none_of (validate fl (valid fl js) def.fields targeting) passed in
        (
          s,
          answered,
          (
            resolve fl hash key base (or_default (get key targeting) []) ctx,
            (
              get_for_based (apply_snapshot c s) key ctx base (
                    ap (λ (t : Snapshot (Value fl.F) (List (Rule fl.F))). get key t.values) now
                    ∙ (get-or_made key s.values
                        ∙ (ap (get key) its_values ∙ (get-or_made key values ∙ has))))
                  ∙ ap (λ m. some (resolve fl hash key base (or_default m []) ctx))
                      (ap (λ (t : Snapshot (Value fl.F) (List (Rule fl.F))). get key t.targeting)
                          now
                        ∙ (get-or_made key s.targeting
                            ∙ (ap (get key) its_rules ∙ get-or_made key targeting))),
              resolved-valid def targeting key f base ctx accepted named right base_good,
            ),
          ),
        )

    -- After any run of the handlers that write from a database whose schemas are all accepted: if a
    -- request to save values and targeting is answered with a version, then the snapshot handler
    -- answers for the environment, and an SDK client that was not ahead of the tables and applies that
    -- snapshot evaluates each field of the project's schema that has a value among those sent, in every
    -- context, to a value that the field's own schema accepts. It is assumed that the JSON Schema
    -- library applies the properties of a document to the values.
    pub put_values-get_for :
        (rolls : Bool) (before db : Db (Definition fl.F) (Value fl.F) (List (Rule fl.F)))
        (user env : ℕ) (commits : Bool) (e : Environment) (values : GoMap (Value fl.F))
        (targeting : GoMap (List (Rule fl.F)))
        (saved : ConfigVersion (Value fl.F) (List (Rule fl.F)))
        (c : Client (Value fl.F) (List (Rule fl.F))) (schema_hash : Definition fl.F → String)
        (key : String) (f : Field fl.F) (base : Value fl.F) (ctx : EvalContext fl.F)
        → AppliesProperties fl js
        → Run (schema_rules fl js) rolls before db
        → AreUsable (schema_rules fl js) before
        → (handle_put_values
            (schema_rules fl js)
            db
            user
            commits
            (some env)
            (some (values, targeting))).1
          ≡ replied saved
        → lookup env db.environments ≡ some e
        → find_named key (definition_of db e.project_id).fields ≡ some f
        → get key values ≡ some base
        → c.current.revision ≤ revision_at db env
        → (let rules = schema_rules fl js in
            let after =
              (handle_put_values rules db user commits (some env) (some (values, targeting))).0 in
            (s : Snapshot (Value fl.F) (List (Rule fl.F))) × ((handle_snapshot rules.no_fields
                schema_hash after env).1
              ≡ replied s)
            × Answers f (get_for fl hash (apply_snapshot c s) key ctx))
    put_values-get_for rolls before db user env commits e values targeting saved c schema_hash key f
          base ctx applies run usable_before answered is named has behind =
        let (e', grant, found, committed, good, right) =
          handle_put_values-replied (schema_rules fl js) db user env commits values targeting saved
            answered in
        let same : e' ≡ e = ground (arith, found, is) in
        rw committed (
          granted-get_for db user env e values targeting c schema_hash key f base ctx applies
            (Run-AreUsable (schema_rules fl js) rolls before db run usable_before e.project_id)
            (rw⁻¹ same grant) (rw⁻¹ same good) (rw⁻¹ same right) named has behind)
