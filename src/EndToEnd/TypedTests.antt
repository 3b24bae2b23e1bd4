-- ===== src/EndToEnd/TypedTests.antt =====
-- An editor saves a theme with rules, and a user of the SDK gets one of its variants.
use knobs.Base.{
  ◌≡◌, refl, ℕ, ℕ_eq, String, String_eq, Bool, true, false, none, some, List, [], ◌∷◌, not, ◌&&◌,
  ◌||◌, is_some, arith, eq_iff,
}
use knobs.Assoc.{Assoc, GoMap, made, lookup, insert, entries}
use knobs.Authz.{at_least, rank}
use knobs.Value.{Value, str, is_null}
use knobs.Store.{
  set_current_version, insert_version, lock_project_schema, get_or_init_schema, find_version,
  version_by_number, ConfigVersion, Db, Environment, member_role, org_id_for_env, max_version,
  next_version_number,
}
use knobs.Delivery.Snapshot.{Snapshot}
use knobs.Targeting.{Rule}
use knobs.Targeting.Tests.{fixed, hash, rules, user}
use knobs.Targeting.Validate.{
  validate, validate_entries, validate_rules, validate_rule, validate_conditions, validate_rollout,
  validate_variants, index_fields,
}
use knobs.Schema.Definition.{Definition, validate_definition, validate_fields, allowed_type}
use knobs.Schema.Document.{json_schema_doc, properties_of, field_schema}
use knobs.Schema.Rules.{JsonSchema, AppliesProperties, schema_rules}
use knobs.Schema.Tests.{plain}
use knobs.Api.Access.{authorize_env, authorize_org}
use knobs.Api.Values.{replied, handle_put_values, put_values_tx, save_version, make_current}
use knobs.Api.ApiKeys.{handle_snapshot}
use knobs.Store.Laws.{new_version}
use knobs.Api.Values.Grows.{revision_at}
use knobs.Api.Values.Run.{stay}
use knobs.Api.Values.Usable.{AreUsable}
use knobs.Sdk.Client.{Client, apply_snapshot, empty_snapshot}
use knobs.Sdk.Evaluate.{get_for}
use knobs.EndToEnd.Typed.{Answers, put_values-get_for}

-- A schema takes any value but null, and a document each value that the schema of its property
-- takes.
abbrev takes : Assoc String (Assoc String (Value ℕ)) → Assoc String (Value ℕ) → Bool
takes props [] = true
takes props ((k, v) ∷ m) = (not (is_some (lookup k props)) || not (is_null v)) && takes props m

abbrev library : JsonSchema ℕ
library = record {
  compiles = λ d. true;
  validates = λ d values. takes d.properties (entries values);
  accepts = λ s v. not (is_null v);
}

takes_all :
    (props : Assoc String (Assoc String (Value ℕ))) (m : Assoc String (Value ℕ)) (key : String)
    (s : Assoc String (Value ℕ)) (v : Value ℕ)
    → takes props m ≡ true
    → lookup key props ≡ some s
    → lookup key m ≡ some v
    → not (is_null v) ≡ true
unfolding lookup
takes_all props [] key s v h hs hv = ground arith
takes_all props ((k, w) ∷ m) key s v h hs hv =
    ground (arith, takes_all props m key s v, eq_iff k key)

library-AppliesProperties : AppliesProperties fixed library
library-AppliesProperties d values key s v = takes_all d.properties (entries values) key s v

abbrev themes : Definition ℕ
themes = record { fields = plain "theme" "string" true ∷ [] }

abbrev staging : Environment
staging = record {
  project_id = 2;
  name = "staging";
  current_version_id = none;
  delivery_revision = 0;
}

abbrev shop : Db (Definition ℕ) (Value ℕ) (List (Rule ℕ))
shop = record {
  members = (1, (7, "editor") ∷ []) ∷ [];
  organizations = (1, record { name = []; slug = [] }) ∷ [];
  users = (7, record { email = "e"; password_hash = "" }) ∷ [];
  projects = (2, record { organization_id = 1; name = "p"; slug = "p" }) ∷ [];
  api_keys = [];
  environments = (0, staging) ∷ [];
  schemas = (2, record { definition = themes; schema_version = 2 }) ∷ [];
  versions = [];
  audit = [];
  notified = [];
  next_id = 3;
}

abbrev reader : Client (Value ℕ) (List (Rule ℕ))
reader = record {
  expected_schema_hash = "";
  current = empty_snapshot;
  listeners = [];
  next_listener_id = 0;
  warned_once = false;
  last_warned_hash = "";
  closed = false;
  started = true;
  log = [];
}

abbrev old_theme : GoMap (Value ℕ)
old_theme = made (("theme", str "old") ∷ [])

abbrev theme_rules : GoMap (List (Rule ℕ))
theme_rules = made (("theme", rules) ∷ [])

shop-AreUsable : AreUsable (schema_rules fixed library) shop
unfolding validate_definition validate_fields allowed_type json_schema_doc lookup
shop-AreUsable project = ground arith

abbrev hash_of : Definition ℕ → String
hash_of def = "h"

abbrev updated : Db (Definition ℕ) (Value ℕ) (List (Rule ℕ))
updated =
    (handle_put_values (schema_rules fixed library) shop 7 true (some 0)
      (some (old_theme, theme_rules))).0

abbrev first_save : ConfigVersion (Value ℕ) (List (Rule ℕ))
first_save = new_version 0 1 2 old_theme theme_rules 7

put_values-get_for_example :
    (s : Snapshot (Value ℕ) (List (Rule ℕ))) × ((handle_snapshot
        (record { fields = [] })
        hash_of
        updated
        0).1
      ≡ replied s)
    × Answers fixed hash library refl
        (plain "theme" "string" true)
        (get_for fixed hash (apply_snapshot reader s) "theme" user)
unfolding authorize_env org_id_for_env authorize_org member_role at_least rank lookup
    next_version_number max_version validate_definition validate_fields allowed_type json_schema_doc
    properties_of insert field_schema validate validate_entries validate_rules validate_rule
    validate_conditions validate_rollout validate_variants index_fields revision_at
    handle_put_values put_values_tx save_version get_or_init_schema lock_project_schema
    insert_version make_current set_current_version find_version version_by_number
put_values-get_for_example =
    put_values-get_for fixed hash library refl false shop shop 7 0 true staging old_theme
      theme_rules first_save reader hash_of "theme" (plain "theme" "string" true) (str "old") user
      library-AppliesProperties (stay shop) shop-AreUsable refl refl refl refl (omega arith)
