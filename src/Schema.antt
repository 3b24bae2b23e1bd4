-- ===== src/Schema.antt =====
-- internal/schema/schema.go: field definitions. The JSON Schema validator is a third-party library.
pub mod Definition
pub mod Document
pub mod Rules
pub mod Tests
use knobs.Base.{String, Bool, Option, List}
use knobs.Value.{Value}

pub record Field (F : Type 0) : Type 0 where
  pub name : String
  pub kind : String
  pub required : Bool
  pub default : Value F
  pub min : Option F
  pub max : Option F
  pub pattern : String
  pub enum_values : List (Value F)
  pub description : String
