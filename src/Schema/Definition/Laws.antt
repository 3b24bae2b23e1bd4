-- ===== src/Schema/Definition/Laws.antt =====
-- internal/schema/schema.go: which definitions are accepted.
use knobs.Base.{
  ◌≡◌, refl, String, String_eq, Bool, true, List, [], ◌∷◌, ◌&&◌, not, contains, HasEq, is_some,
  arith, eq_iff,
}
use knobs.Value.{Floats}
use knobs.Schema.{Field}
use knobs.Schema.Definition.{Definition, validate_fields, validate_definition, is_field}

abbrev pub all : {A : Type 0} → (A → Bool) → List A → Bool
all p [] = true
all p (x ∷ xs) = p x && all p xs

abbrev pub are_distinct : {A : Type 0} ⦃e : HasEq A⦄ → List A → Bool
are_distinct [] = true
are_distinct (n ∷ ns) = not (contains n ns) && are_distinct ns

abbrev pub names : {F : Type 0} → List (Field F) → List String
names [] = []
names (f ∷ fs) = f.name ∷ names fs

-- No field has a name in the list.
abbrev avoids : {F : Type 0} → List String → List (Field F) → Bool
avoids seen fs = all (λ n. not (contains n seen)) (names fs)

avoids_more :
    {F : Type 0} (n : String) (seen : List String) (fs : List (Field F))
    → avoids (n ∷ seen) fs ≡ (not (contains n (names fs)) && avoids seen fs)
avoids_more n seen [] = refl
avoids_more n seen (f ∷ fs) =
    ground (arith, avoids_more n seen fs, eq_iff n f.name, eq_iff f.name n)

avoids_none : {F : Type 0} (fs : List (Field F)) → avoids [] fs ≡ true
avoids_none [] = refl
avoids_none (f ∷ fs) = avoids_none fs

module _ (fl : Floats) where
  validate_fields_lem :
      (seen : List String) (fs : List (Field fl.F))
      → is_some (validate_fields fl seen fs)
        ≡ not (all (is_field fl) fs && (are_distinct (names fs) && avoids seen fs))
  unfolding validate_fields
  validate_fields_lem seen [] = refl
  validate_fields_lem seen (f ∷ fs) =
      ground (arith, validate_fields_lem (f.name ∷ seen) fs, avoids_more f.name seen fs)

  -- A definition is rejected unless each field has a name, a known type, values if it is an enum, and
  -- no minimum above its maximum, and no two fields have the same name.
  pub validate_definition_exact :
      (def : Definition fl.F)
      → is_some (validate_definition fl def)
        ≡ not (all (is_field fl) def.fields && are_distinct (names def.fields))
  unfolding validate_definition
  validate_definition_exact def =
      ground (arith, validate_fields_lem [] def.fields, avoids_none def.fields)
