-- ===== src/Schema/Definition.antt =====
-- internal/schema/schema.go: the definition of a schema and its validation.
pub mod Laws
use knobs.Base.{
  String, String_eq, Bool, true, false, Option, none, some, List, [], ◌∷◌, ◌==◌, ◌&&◌, ◌||◌, not,
  if◌then◌else◌, contains,
}
use knobs.Value.{Value, Floats}
use knobs.Schema.{Field}

pub record Definition (F : Type 0) : Type 0 where
  pub fields : List (Field F)

pub data DefinitionError : Type 0 where
  empty_name : DefinitionError
  duplicate_field : String → DefinitionError
  unknown_type : String → String → DefinitionError
  needs_values : String → DefinitionError
  min_above_max : String → DefinitionError

unfoldable pub allowed_type : String → Bool
allowed_type kind =
    kind == "string"
    || kind == "int"
    || kind == "float"
    || kind == "bool"
    || kind == "json"
    || kind == "enum"
    || kind == "duration"

abbrev pub is_empty : {A : Type 0} → List A → Bool
is_empty [] = true
is_empty (x ∷ xs) = false

module _ (fl : Floats) where
  -- `f.Min != nil && f.Max != nil && *f.Min > *f.Max`
  abbrev pub is_crossed : Option fl.F → Option fl.F → Bool
  is_crossed none high = false
  is_crossed (some low) none = false
  is_crossed (some low) (some high) = fl.lt high low

  -- The loop; `seen` are the names of the fields before.
  unfoldable pub validate_fields : List String → List (Field fl.F) → Option DefinitionError
  validate_fields seen [] = none
  validate_fields seen (f ∷ fs) =
      let rest = validate_fields (f.name ∷ seen) fs in
      if f.name == ""
      then some empty_name
      else if contains f.name seen
      then some (duplicate_field f.name)
      else if not (allowed_type f.kind)
      then some (unknown_type f.name f.kind)
      else if f.kind == "enum" && is_empty f.enum_values
      then some (needs_values f.name)
      else if is_crossed f.min f.max
      then some (min_above_max f.name)
      else rest

  unfoldable pub validate_definition : Definition fl.F → Option DefinitionError
  validate_definition def = validate_fields [] def.fields

  -- What a field has to be by itself.
  abbrev pub is_field : Field fl.F → Bool
  is_field f =
      not (f.name == "")
      && allowed_type f.kind
      && not (f.kind == "enum" && is_empty f.enum_values)
      && not (is_crossed f.min f.max)
