-- ===== src/Codegen/Types.antt =====
-- internal/codegen/codegen.go and go.go: the types and literals of fields. `quote` is
-- strconv.Quote, and `sprint` what fmt prints of a value that is no string with %v.
pub mod Laws
use knobs.Base.{◌==◌, String, String_eq, List, [], ◌∷◌, ◌++◌, if◌then◌else◌, ◌||◌, contains, ℕ_eq}
use knobs.Base.Text.{Text, codes}
use knobs.Value.{Value, str}
use knobs.Schema.{Field}

pub data EmitError : Type 0 where
  no_enum_value : String → EmitError
  unsupported_type : String → String → EmitError
  no_identifier : String → EmitError
  same_identifier : String → String → Text → EmitError
  unformatted : EmitError

pub data Result (A : Type 0) : Type 0 where
  err : EmitError → Result A
  ok : A → Result A

module _ {F : Type 0} where
  -- The type of an enum field, if it has values.
  unfoldable pub if_valued : List (Value F) → String → Text → Result Text
  if_valued [] name kind = err (no_enum_value name)
  if_valued (v ∷ vs) name kind = ok kind

  unfoldable pub go_type : Field F → Result Text
  go_type f =
      if f.kind == "string" || f.kind == "duration"
      then ok (codes "string")
      else if f.kind == "int"
      then ok (codes "int64")
      else if f.kind == "float"
      then ok (codes "float64")
      else if f.kind == "bool"
      then ok (codes "bool")
      else if f.kind == "json"
      then ok (codes "any")
      else if f.kind == "enum"
      then if_valued f.enum_values f.name (codes "string")
      else err (unsupported_type f.name f.kind)

  module _ (quote : Text → Text) (sprint : Value F → Text) where
    unfoldable pub enum_literal : Value F → Text
    enum_literal (str s) = quote (codes s)
    enum_literal v = sprint v

    -- The literals of values, with a text between two of them.
    unfoldable pub joined : Text → List (Value F) → Text
    joined between [] = []
    joined between (v ∷ []) = enum_literal v
    joined between (v ∷ w ∷ vs) = enum_literal v ++ (between ++ joined between (w ∷ vs))

    abbrev pub enum_literal_list : List (Value F) → Text
    enum_literal_list values = joined (codes ", ") values

    unfoldable pub ts_type : Field F → Result Text
    ts_type f =
        if f.kind == "string" || f.kind == "duration"
        then ok (codes "string")
        else if f.kind == "int" || f.kind == "float"
        then ok (codes "number")
        else if f.kind == "bool"
        then ok (codes "boolean")
        else if f.kind == "json"
        then ok (codes "unknown")
        else if f.kind == "enum"
        then if_valued f.enum_values f.name (joined (codes " | ") f.enum_values)
        else err (unsupported_type f.name f.kind)

-- A tag between backticks, or as a quoted literal if it has a backtick itself.
unfoldable pub json_tag_literal : (Text → Text) → Text → Text
json_tag_literal quote name =
    let tag = codes "json:" ++ quote name in
    if contains b'`' tag then quote tag else b'`' ∷ (tag ++ b'`' ∷ [])
