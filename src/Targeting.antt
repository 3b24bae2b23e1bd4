-- ===== src/Targeting.antt =====
-- internal/targeting/targeting.go: the rules.
pub mod Eval
pub mod Laws
pub mod Validate
pub mod All
pub mod Tests
use knobs.Base.{String, Option, List}
use knobs.Assoc.{Assoc, GoMap}
use knobs.Value.{Value}

-- `other` is any string that is no operator.
pub data Operator : Type 0 where
  op_in op_not_in op_eq op_neq op_contains op_gt op_gte op_lt op_lte : Operator
  other : String → Operator

pub record Condition (F : Type 0) : Type 0 where
  pub attribute : String
  pub operator : Operator
  pub values : List (Value F)

pub record Variant (F : Type 0) : Type 0 where
  pub value : Value F
  pub weight : F

pub record Rollout (F : Type 0) : Type 0 where
  pub salt : String
  pub variants : List (Variant F)

pub record Rule (F : Type 0) : Type 0 where
  pub conditions : List (Condition F)
  pub value : Value F
  pub rollout : Option (Rollout F)

pub record EvalContext (F : Type 0) : Type 0 where
  pub targeting_key : String
  pub attributes : GoMap (Value F)
