-- ===== src/Value.antt =====
-- Go's `any` as the program meets it: what JSON decodes to, and the numbers of every kind that a
-- caller may put into an evaluation context. Floats are a parameter: a type with the operations
-- that the source uses.
use knobs.Base.{
  ℕ, suc, String, String_eq, ℕ_eq, Bool, true, false, Option, none, some, ◌&&◌, ◌==◌, nat_eq,
  if◌then◌else◌, not,
}
use mathlib.Core.Bool.{xor}
use knobs.Base.Int.{ℤ, ℤ_equal}

-- float64, with the conversions to it. `parse` is `json.Number.Float64`.
pub record Floats : Type 1 where
  pub F : Type 0
  pub zero : F
  pub of_ℕ : ℕ → F
  pub of_ℤ : ℤ → F
  pub parse : String → Option F
  pub add : F → F → F
  pub mul : F → F → F
  pub div : F → F → F
  pub lt : F → F → Bool
  pub le : F → F → Bool
  pub eq : F → F → Bool

-- A float32 is given by the float64 that it converts to; an integer with the width of its type,
-- which is 0 for int and uint.
mutual
  pub data Value (F : Type 0) : Type 0 where
    null : Value F
    bool : Bool → Value F
    str : String → Value F
    float64 : F → Value F
    float32 : F → Value F
    int : ℕ → ℤ → Value F
    uint : ℕ → ℕ → Value F
    json_number : String → Value F
    arr : Items F → Value F
    obj : Fields F → Value F

  pub data Items (F : Type 0) : Type 0 where
    nil : Items F
    cons : Value F → Items F → Items F

  pub data Fields (F : Type 0) : Type 0 where
    end : Fields F
    field : String → Value F → Fields F → Fields F

module _ {F : Type 0} where
  unfoldable pub find_field : String → Fields F → Option (Value F)
  find_field k end = none
  find_field k (field j v fs) = if j == k then some v else find_field k fs

  unfoldable pub size : Fields F → ℕ
  size end = 0
  size (field j v fs) = suc (size fs)

  abbrev pub is_null : Value F → Bool
  is_null null = true
  is_null _ = false

  -- `reflect.DeepEqual`: the same dynamic type and the same content, maps without regard to order.
  unfoldable mutual
    pub deep_equal : (F → F → Bool) → Value F → Value F → Bool
    deep_equal eq null w = elim w [ null ↦ true | _ ↦ false ]
    deep_equal eq (bool a) w = elim w [ bool b ↦ not (xor a b) | _ ↦ false ]
    deep_equal eq (str a) w = elim w [ str b ↦ a == b | _ ↦ false ]
    deep_equal eq (float64 a) w = elim w [ float64 b ↦ eq a b | _ ↦ false ]
    deep_equal eq (float32 a) w = elim w [ float32 b ↦ eq a b | _ ↦ false ]
    deep_equal eq (int i a) w = elim w [ int j b ↦ nat_eq i j && ℤ_equal a b | _ ↦ false ]
    deep_equal eq (uint i a) w = elim w [ uint j b ↦ nat_eq i j && nat_eq a b | _ ↦ false ]
    deep_equal eq (json_number a) w = elim w [ json_number b ↦ a == b | _ ↦ false ]
    deep_equal eq (arr xs) w = elim w [ arr ys ↦ items_equal eq xs ys | _ ↦ false ]
    deep_equal eq (obj fs) w = elim w [
      | obj gs ↦ nat_eq (size fs) (size gs) && fields_in eq fs gs
      | _ ↦ false
    ]

    pub items_equal : (F → F → Bool) → Items F → Items F → Bool
    items_equal eq nil ys = elim ys [ nil ↦ true | _ ↦ false ]
    items_equal eq (cons x xs) ys = elim ys [
      | nil ↦ false
      | cons y rest ↦ deep_equal eq x y && items_equal eq xs rest
    ]

    -- Each field of the first map is in the second, with an equal value.
    pub fields_in : (F → F → Bool) → Fields F → Fields F → Bool
    fields_in eq end gs = true
    fields_in eq (field k v fs) gs =
        elim (find_field k gs) [ none ↦ false | some w ↦ deep_equal eq v w ] && fields_in eq fs gs
