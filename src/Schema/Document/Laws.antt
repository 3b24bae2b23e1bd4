-- ===== src/Schema/Document/Laws.antt =====
-- internal/schema/schema.go: what the document of an accepted definition says.
use knobs.Base.{
  ◌≡◌, refl, String, String_eq, Bool, true, false, Option, none, some, List, [], ◌∷◌, ◌==◌,
  if◌then◌else◌, contains, arith, eq_iff,
}
use knobs.Assoc.{Assoc, lookup, insert, lookup-insert}
use knobs.Value.{Value, Floats}
use knobs.Schema.{Field}
use knobs.Schema.Definition.{Definition, validate_definition}
use knobs.Schema.Definition.Laws.{are_distinct, names, validate_definition_exact}
use knobs.Schema.Document.{field_schema, properties_of, required_of, json_schema_doc, unless_empty}

abbrev pub listed : Option (List String) → List String
listed none = []
listed (some ns) = ns

listed-unless_empty : (ns : List String) → listed (unless_empty ns) ≡ ns
listed-unless_empty [] = refl
listed-unless_empty (n ∷ ns) = refl

module _ {F : Type 0} where
  abbrev pub find_named : String → List (Field F) → Option (Field F)
  find_named n [] = none
  find_named n (f ∷ fs) = if f.name == n then some f else find_named n fs

  -- The schema of a field that may be there, or else another.
  abbrev pub schema_of :
      Option (Field F) → Option (Assoc String (Value F)) → Option (Assoc String (Value F))
  schema_of none other = other
  schema_of (some f) other = some (field_schema f)

  abbrev pub is_required : Option (Field F) → Bool
  is_required none = false
  is_required (some f) = f.required

  pub find_named_absent :
      (n : String) (fs : List (Field F)) → contains n (names fs) ≡ false → find_named n fs ≡ none
  find_named_absent n [] h = refl
  find_named_absent n (f ∷ fs) h = ground (arith, find_named_absent n fs)

  lookup-properties_of :
      (n : String) (props : Assoc String (Assoc String (Value F))) (fs : List (Field F))
      → are_distinct (names fs) ≡ true
      → lookup n (properties_of props fs) ≡ schema_of (find_named n fs) (lookup n props)
  unfolding properties_of
  lookup-properties_of n props [] h = refl
  lookup-properties_of n props (f ∷ fs) h = ground (
    arith,
    lookup-properties_of n (insert f.name (field_schema f) props) fs,
    lookup-insert f.name n (field_schema f) props,
    find_named_absent n fs,
    eq_iff f.name n,
  )

  contains-required_of_absent :
      (n : String) (fs : List (Field F))
      → contains n (names fs) ≡ false
      → contains n (required_of fs) ≡ false
  unfolding required_of
  contains-required_of_absent n [] h = refl
  contains-required_of_absent n (f ∷ fs) h = ground (arith, contains-required_of_absent n fs)

  contains-required_of :
      (n : String) (fs : List (Field F))
      → are_distinct (names fs) ≡ true
      → contains n (required_of fs) ≡ is_required (find_named n fs)
  unfolding required_of
  contains-required_of n [] h = refl
  contains-required_of n (f ∷ fs) h =
      ground (arith, contains-required_of n fs, contains-required_of_absent n fs, eq_iff f.name n)

-- The document of an accepted definition has, under each name, the schema of the field with that
-- name, if there is one and no property otherwise; it lists the name as required exactly if that
-- field is; and it allows no other properties.
pub json_schema_doc_exact :
    (fl : Floats) (def : Definition fl.F) (n : String)
    → validate_definition fl def ≡ none
    → (lookup n (json_schema_doc def).properties ≡ schema_of (find_named n def.fields) none)
      × ((contains n (listed (json_schema_doc def).required)
            ≡ is_required (find_named n def.fields))
          × ((json_schema_doc def).additional_properties ≡ false))
unfolding json_schema_doc lookup
json_schema_doc_exact fl def n accepted =
    let distinct : are_distinct (names def.fields) ≡ true =
      ground (arith, validate_definition_exact fl def, accepted) in
    (
      lookup-properties_of n [] def.fields distinct,
      (
        rw (listed-unless_empty (required_of def.fields))
            (contains-required_of n def.fields distinct),
        refl,
      ),
    )
