-- ===== src/Schema/Rules.antt =====
-- What the handlers ask of a schema, by internal/schema and internal/targeting. `JsonSchema` is the
-- third-party library.
use knobs.Base.{String, String_eq, Bool, not, List, [], ◌≡◌, true, some, is_some}
use knobs.Assoc.{Assoc, GoMap, get, lookup}
use knobs.Value.{Value, Floats}
use knobs.Targeting.{Rule}
use knobs.Targeting.Validate.{validate}
use knobs.Schema.{Field}
use knobs.Schema.Definition.{Definition, validate_definition}
use knobs.Schema.Document.{Document, field_schema, json_schema_doc}
use knobs.Api.Values.{SchemaRules}

-- Whether a document compiles, and whether values pass a document, or the schema of one field.
pub record JsonSchema (F : Type 0) : Type 0 where
  pub compiles : Document F → Bool
  pub validates : Document F → GoMap (Value F) → Bool
  pub accepts : Assoc String (Value F) → Value F → Bool

module _ (fl : Floats) (js : JsonSchema (Floats.F fl)) where
  -- `ValidateFieldValue`
  abbrev pub valid : Field fl.F → Value fl.F → Bool
  valid f v = js.accepts (field_schema f) v

  abbrev pub schema_rules : SchemaRules (Definition fl.F) (Value fl.F) (List (Rule fl.F))
  schema_rules = record {
    no_fields = record { fields = [] };
    well_formed = λ def. not (is_some (validate_definition fl def));
    compiles = λ def. js.compiles (json_schema_doc def);
    valid_values = λ def values. js.validates (json_schema_doc def) values;
    valid_targeting = λ def m. not (is_some (validate fl valid def.fields m));
  }

  -- The values of a map that passes a document pass the schemas that its properties have for them.
  abbrev pub AppliesProperties : Type 0
  AppliesProperties =
      (d : Document fl.F) (values : GoMap (Value fl.F)) (key : String)
      (s : Assoc String (Value fl.F)) (v : Value fl.F)
      → js.validates d values ≡ true
      → lookup key d.properties ≡ some s
      → get key values ≡ some v
      → js.accepts s v ≡ true
