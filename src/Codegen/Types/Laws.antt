-- ===== src/Codegen/Types/Laws.antt =====
-- internal/codegen/codegen.go: which fields have a type.
use knobs.Base.{
  ◌==◌, ◌≡◌, refl, String, String_eq, Bool, true, false, List, [], ◌∷◌, if◌then◌else◌, not, ◌&&◌,
  ◌||◌, arith, eq_iff, inl, inr, Bool-cases, ◌⊎◌,
}
use knobs.Base.Text.{Text, Text_eq}
use knobs.Value.{Value, Floats}
use knobs.Schema.{Field}
use knobs.Schema.Definition.{allowed_type, is_field, is_empty}
use knobs.Schema.Definition.Laws.{all}
use knobs.Codegen.Types.{EmitError, Result, err, ok, if_valued, go_type, ts_type}

abbrev pub is_ok : {A : Type 0} → Result A → Bool
is_ok (err e) = false
is_ok (ok a) = true

pub Result-cases :
    {A : Type 0} (r : Result A) → ((e : EmitError) × (r ≡ err e)) ⊎ ((a : A) × (r ≡ ok a))
Result-cases (err e) = inl (e, refl)
Result-cases (ok a) = inr (a, refl)

-- The type of a field is allowed, and an enum has values.
unfoldable pub is_typed : {F : Type 0} → Field F → Bool
is_typed f = allowed_type f.kind && not (f.kind == "enum" && is_empty f.enum_values)

is_ok_if :
    (b : Bool) (r s : Result Text) → is_ok (if b then r else s) ≡ (if b then is_ok r else is_ok s)
is_ok_if true r s = refl
is_ok_if false r s = refl

is_ok-if_valued :
    {F : Type 0} (vs : List (Value F)) (name : String) (kind : Text)
    → is_ok (if_valued vs name kind) ≡ not (is_empty vs)
unfolding if_valued
is_ok-if_valued [] name kind = refl
is_ok-if_valued (v ∷ vs) name kind = refl

-- An enum is no other type.
enum_only :
    (kind : String)
    → (kind == "enum"
        && (kind == "string"
            || kind == "duration"
            || kind == "int"
            || kind == "float"
            || kind == "bool"
            || kind == "json"))
      ≡ false
enum_only kind = elim (Bool-cases (kind == "enum")) [
  | inl is ↦ rw ((eq_iff kind "enum").0 is) refl
  | inr other ↦ rw other refl
]

-- The choice between the types, whatever their tests answer.
go_choice :
    (s d i f b j e v : Bool)
    → (e && (s || d || i || f || b || j)) ≡ false
    → (if s || d
        then true
        else if i
        then true
        else if f
        then true
        else if b
        then true
        else if j
        then true
        else if e
        then not v
        else false)
      ≡ ((s || i || f || b || j || e || d) && not (e && v))
go_choice s d i f b j e v h = ground arith

ts_choice :
    (s d i f b j e v : Bool)
    → (e && (s || d || i || f || b || j)) ≡ false
    → (if s || d
        then true
        else if i || f
        then true
        else if b
        then true
        else if j
        then true
        else if e
        then not v
        else false)
      ≡ ((s || i || f || b || j || e || d) && not (e && v))
ts_choice s d i f b j e v h = ground arith

pub go_type_typed : {F : Type 0} (f : Field F) → is_ok (go_type f) ≡ is_typed f
unfolding is_typed go_type allowed_type
go_type_typed f =
    simp (go_type, is_ok_if, is_ok-if_valued)
      (go_choice (f.kind == "string") (f.kind == "duration") (f.kind == "int") (f.kind == "float")
        (f.kind == "bool") (f.kind == "json") (f.kind == "enum") (is_empty f.enum_values)
        (enum_only f.kind))

pub ts_type_typed :
    {F : Type 0} (quote : Text → Text) (sprint : Value F → Text) (f : Field F)
    → is_ok (ts_type quote sprint f) ≡ is_typed f
unfolding is_typed ts_type allowed_type
ts_type_typed quote sprint f =
    simp (ts_type, is_ok_if, is_ok-if_valued)
      (ts_choice (f.kind == "string") (f.kind == "duration") (f.kind == "int") (f.kind == "float")
        (f.kind == "bool") (f.kind == "json") (f.kind == "enum") (is_empty f.enum_values)
        (enum_only f.kind))

pub all-is_typed :
    (fl : Floats) (fs : List (Field fl.F)) → all (is_field fl) fs ≡ true → all is_typed fs ≡ true
unfolding is_typed
all-is_typed fl [] h = refl
all-is_typed fl (f ∷ fs) h = ground (arith, all-is_typed fl fs)
