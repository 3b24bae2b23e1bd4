-- ===== src/Schema/Tests.antt =====
-- Definitions that are accepted and rejected.
use knobs.Base.{
  ◌≡◌, refl, String, String_eq, Bool, true, false, none, some, [], ◌∷◌, contains, is_some, not,
  ◌&&◌,
}
use knobs.Assoc.{lookup}
use knobs.Value.{Floats, null}
use knobs.Targeting.Tests.{fixed}
use knobs.Schema.{Field}
use knobs.Schema.Definition.{
  Definition, duplicate_field, needs_values, validate_definition, validate_fields, allowed_type,
  is_field,
}
use knobs.Schema.Definition.Laws.{all, are_distinct, names, validate_definition_exact}
use knobs.Schema.Document.{json_schema_doc}
use knobs.Schema.Document.Laws.{schema_of, find_named, is_required, listed, json_schema_doc_exact}

abbrev pub plain : String → String → Bool → Field (Floats.F fixed)
plain name kind required = record {
  name = name;
  kind = kind;
  required = required;
  default = null;
  min = none;
  max = none;
  pattern = "";
  enum_values = [];
  description = "";
}

abbrev pub two_fields : Definition (Floats.F fixed)
two_fields = record { fields = plain "limit" "int" true ∷ plain "motto" "string" false ∷ [] }

abbrev twice : Definition (Floats.F fixed)
twice = record { fields = plain "limit" "int" true ∷ plain "limit" "string" false ∷ [] }

pub two_fields-accepted : validate_definition fixed two_fields ≡ none
unfolding validate_definition validate_fields allowed_type
two_fields-accepted = refl

twice-rejected : validate_definition fixed twice ≡ some (duplicate_field "limit")
unfolding validate_definition validate_fields allowed_type
twice-rejected = refl

enum-rejected :
    validate_definition fixed (record { fields = plain "mode" "enum" true ∷ [] })
    ≡ some (needs_values "mode")
unfolding validate_definition validate_fields allowed_type
enum-rejected = refl

validate_definition_exact_example :
    is_some (validate_definition fixed twice)
    ≡ not (all (is_field fixed) twice.fields && are_distinct (names twice.fields))
validate_definition_exact_example = validate_definition_exact fixed twice

json_schema_doc_exact_example :
    (lookup "limit" (json_schema_doc two_fields).properties
      ≡ schema_of (find_named "limit" two_fields.fields) none)
    × ((contains "limit" (listed (json_schema_doc two_fields).required)
          ≡ is_required (find_named "limit" two_fields.fields))
        × ((json_schema_doc two_fields).additional_properties ≡ false))
json_schema_doc_exact_example = json_schema_doc_exact fixed two_fields "limit" two_fields-accepted
