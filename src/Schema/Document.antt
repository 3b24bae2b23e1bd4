-- ===== src/Schema/Document.antt =====
-- internal/schema/schema.go: the JSON Schema document of a definition. A Go map of Go values is an
-- association list. The compiler of documents is a third-party library.
pub mod Laws
use knobs.Base.{
  String, String_eq, Bool, true, false, Option, none, some, List, [], ◌∷◌, ◌==◌, if◌then◌else◌,
}
use knobs.Assoc.{Assoc, insert}
use knobs.Value.{Value, str, float64, bool, arr, obj, Items, nil, cons, Fields, end, field}
use knobs.Schema.{Field}
use knobs.Schema.Definition.{Definition}

abbrev pub duration_pattern : String
duration_pattern = "^[0-9]+(ns|us|µs|ms|s|m|h)$"

-- `required` is absent where no field is.
pub record Document (F : Type 0) : Type 0 where
  pub dialect : String
  pub kind : String
  pub additional_properties : Bool
  pub properties : Assoc String (Assoc String (Value F))
  pub required : Option (List String)

abbrev pub unless_empty : List String → Option (List String)
unless_empty [] = none
unless_empty (n ∷ ns) = some (n ∷ ns)

module _ {F : Type 0} where
  abbrev pub items : List (Value F) → Items F
  items [] = nil
  items (v ∷ vs) = cons v (items vs)

  abbrev pub with_min : Option F → Assoc String (Value F) → Assoc String (Value F)
  with_min none s = s
  with_min (some low) s = insert "minimum" (float64 low) s

  abbrev pub with_max : Option F → Assoc String (Value F) → Assoc String (Value F)
  with_max none s = s
  with_max (some high) s = insert "maximum" (float64 high) s

  unfoldable pub field_schema : Field F → Assoc String (Value F)
  field_schema f =
      if f.kind == "string"
      then (if f.pattern == ""
          then ("type", str "string") ∷ []
          else insert "pattern" (str f.pattern) (("type", str "string") ∷ []))
      else if f.kind == "int"
      then with_max f.max (with_min f.min (("type", str "integer") ∷ []))
      else if f.kind == "float"
      then with_max f.max (with_min f.min (("type", str "number") ∷ []))
      else if f.kind == "bool"
      then ("type", str "boolean") ∷ []
      else if f.kind == "enum"
      then ("enum", arr (items f.enum_values)) ∷ []
      else if f.kind == "duration"
      then ("type", str "string") ∷ ("pattern", str duration_pattern) ∷ []
      else []

  -- The loop, with the properties so far.
  unfoldable pub properties_of :
      Assoc String (Assoc String (Value F)) → List (Field F) → Assoc String (Assoc String (Value F))
  properties_of props [] = props
  properties_of props (f ∷ fs) = properties_of (insert f.name (field_schema f) props) fs

  unfoldable pub required_of : List (Field F) → List String
  required_of [] = []
  required_of (f ∷ fs) = let rest = required_of fs in if f.required then f.name ∷ rest else rest

  unfoldable pub json_schema_doc : Definition F → Document F
  json_schema_doc def = record {
    dialect = "https://json-schema.org/draft/2020-12/schema";
    kind = "object";
    additional_properties = false;
    properties = properties_of [] def.fields;
    required = unless_empty (required_of def.fields);
  }
