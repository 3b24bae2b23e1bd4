-- ===== src/Codegen/Emit/Laws.antt =====
-- internal/codegen/go.go and ts.go: which definitions source is emitted for.
use knobs.Base.{
  ◌≡◌, ◌≢◌, refl, sym, ◌∙◌, ap, ℕ, String, String_eq, Bool, true, false, Option, none, some, List,
  [], ◌∷◌, ◌++◌, not, ◌&&◌, is_some, contains, arith, inl, inr, Option-cases, ◌⊎◌,
}
use knobs.Base.Text.{Text, Text_eq, text_eq_iff, codes}
use knobs.Assoc.{Assoc, lookup, insert, lookup-insert}
use knobs.Value.{Value, Floats}
use knobs.Schema.{Field}
use knobs.Schema.Definition.{Definition, validate_definition, is_field}
use knobs.Schema.Definition.Laws.{all, are_distinct, validate_definition_exact}
use knobs.Codegen.Names.{go_field_name}
use knobs.Codegen.Names.Fields.{has_alnum, go_field_name_exported, IsUpper, IsDigit}
use knobs.Codegen.Types.{EmitError, if_valued, unformatted, Result, err, ok, go_type}
use knobs.Codegen.Emit.{go_member, go_members, emit_go, go_source, ts_members, emit_typescript}
use knobs.Codegen.Types.Laws.{
  is_ok, Result-cases, is_typed, go_type_typed, ts_type_typed, all-is_typed,
}

module _ {F : Type 0} (quote : Text → Text) (sprint : Value F → Text) where
  ts_members_typed : (fs : List (Field F)) → is_ok (ts_members quote sprint fs) ≡ all is_typed fs
  unfolding ts_members
  ts_members_typed [] = refl
  ts_members_typed (f ∷ fs) = ground (arith, ts_type_typed quote sprint f, ts_members_typed fs)

-- None of the names has an entry.
abbrev avoids : Assoc Text String → List Text → Bool
avoids seen ns = all (λ n. not (is_some (lookup n seen))) ns

avoids-insert :
    (n : Text) (field : String) (seen : Assoc Text String) (ns : List Text)
    → avoids (insert n field seen) ns ≡ (not (contains n ns) && avoids seen ns)
avoids-insert n field seen [] = refl
avoids-insert n field seen (m ∷ ns) = ground (
  arith,
  avoids-insert n field seen ns,
  lookup-insert n m field seen,
  text_eq_iff n m,
  text_eq_iff m n,
)

avoids_none : (ns : List Text) → avoids [] ns ≡ true
unfolding lookup
avoids_none [] = refl
avoids_none (n ∷ ns) = avoids_none ns

no_value :
    {F : Type 0} (vs : List (Value F)) (name : String) (kind : Text)
    → if_valued vs name kind ≢ err unformatted
unfolding if_valued
no_value [] name kind h = cc
no_value (v ∷ vs) name kind h = cc

-- A field without a type is no error of the formatter.
go_type_error : {F : Type 0} (f : Field F) (e : EmitError) → go_type f ≡ err e → e ≢ unformatted
unfolding go_type
go_type_error f e h same = ground (arith, h, same, no_value f.enum_values f.name (codes "string"))

true_last : (a b : Bool) → (true && a && (b && true)) ≡ (a && b)
true_last a b = ground arith

is_ok_more :
    (r : Result Text) (before : Text)
    → is_ok (elim r as (λ x. Result Text) [ err e ↦ err e | ok rest ↦ ok (before ++ rest) ])
      ≡ is_ok r
is_ok_more (err e) before = refl
is_ok_more (ok rest) before = refl

module _ (to_upper : ℕ → ℕ) (is_digit : ℕ → Bool) where
  -- The names of the struct fields, as far as there are any.
  abbrev pub derived : {F : Type 0} → List (Field F) → List Text
  derived [] = []
  derived (f ∷ fs) = elim (go_field_name to_upper is_digit (codes f.name)) [
    | none ↦ derived fs
    | some name ↦ name ∷ derived fs
  ]

  abbrev is_named : {F : Type 0} → Field F → Bool
  is_named f = is_some (go_field_name to_upper is_digit (codes f.name))

  -- An error in the loop over the fields is none of the formatter's.
  go_members_error :
      {F : Type 0} (quote : Text → Text) (sprint : Value F → Text) (seen : Assoc Text String)
      (fs : List (Field F)) (e : EmitError)
      → go_members quote sprint to_upper is_digit seen fs ≡ err e
      → e ≢ unformatted
  unfolding go_members
  go_members_error quote sprint seen [] e = λ h. absurd (cc)
  go_members_error quote sprint seen (f ∷ fs) e = elim (Result-cases (go_type f)) [
    | inl (d, bad) ↦ rw (go_members, bad) (λ h. go_type_error f e (bad ∙ h))
    | inr (kind, good) ↦ elim (Option-cases (go_field_name to_upper is_digit (codes f.name))) [
      | inl none_derived ↦ rw (go_members, good, none_derived) (λ h same. cc)
      | inr (name, is) ↦ elim (Option-cases (lookup name seen)) [
        | inr (prev, there) ↦ rw (go_members, good, is, there) (λ h same. cc)
        | inl free ↦
            elim (Result-cases
              (go_members quote sprint to_upper is_digit (insert name f.name seen) fs)) [
                | inl (d, bad) ↦
                    rw (go_members, good, is, free, bad)
                      (λ h. go_members_error quote sprint (insert name f.name seen) fs e (bad ∙ h))
                | inr (rest, fine) ↦ rw (go_members, good, is, free, fine) (λ h. absurd (cc))
              ]
      ]
    ]
  ]

  go_members_exact :
      {F : Type 0} (quote : Text → Text) (sprint : Value F → Text) (seen : Assoc Text String)
      (fs : List (Field F))
      → is_ok (go_members quote sprint to_upper is_digit seen fs) ≡ (
          all is_typed fs
          && all is_named fs
          && (are_distinct (derived fs) && avoids seen (derived fs)))
  unfolding go_members
  go_members_exact quote sprint seen [] = refl
  go_members_exact quote sprint seen (f ∷ fs) = elim (Result-cases (go_type f)) [
    | inl (e, bad) ↦ rw (go_members, bad) (ground (arith, go_type_typed f, ap is_ok bad))
    | inr (kind, good) ↦
        let typed : is_typed f ≡ true = sym (go_type_typed f) ∙ ap is_ok good in
        elim (Option-cases (go_field_name to_upper is_digit (codes f.name))) [
          | inl none_derived ↦ rw (go_members, good, none_derived) (ground arith)
          | inr (name, is) ↦ elim (Option-cases (lookup name seen)) [
            | inr (prev, there) ↦ rw (go_members, good, is, there, typed) (ground (arith, there))
            | inl free ↦
                rw (go_members, good, is, free, typed)
                  (is_ok_more
                      (go_members quote sprint to_upper is_digit (insert name f.name seen) fs)
                      (go_member quote sprint f name kind)
                    ∙ (go_members_exact quote sprint (insert name f.name seen) fs
                        ∙ ground (arith, avoids-insert name f.name seen (derived fs))))
          ]
        ]
  ]

  are_named :
      {F : Type 0} (fs : List (Field F))
      → IsUpper to_upper
      → IsDigit is_digit
      → all is_named fs ≡ all (λ f. has_alnum (codes f.name)) fs
  are_named [] upper digit = refl
  are_named (f ∷ fs) upper digit = ground (
    arith,
    are_named fs upper digit,
    go_field_name_exported to_upper upper is_digit digit (codes f.name),
  )

  -- With tables of upper cases and digits that are right for ASCII, and for a definition that is
  -- accepted: if every field's name has a letter or a digit and no two fields get the same identifier,
  -- the members of the struct are emitted, and the outcome is what the formatter makes of the source
  -- with them, or the formatter's error if it rejects that. Otherwise the outcome is an error of the
  -- fields, whatever the formatter does.
  pub emit_go_exact :
      (fl : Floats) (quote : Text → Text) (sprint : Value fl.F → Text) (format : Text → Option Text)
      (def : Definition fl.F) (schema_hash pkg : Text)
      → IsUpper to_upper
      → IsDigit is_digit
      → validate_definition fl def ≡ none
      → (let emitted = emit_go quote sprint to_upper is_digit format def schema_hash pkg in
          let named =
            all (λ f. has_alnum (codes f.name)) def.fields && are_distinct (derived def.fields) in
          (named ≡ false) × ((e : EmitError) × (emitted ≡ err e) × (e ≢ unformatted))
          ⊎ (named ≡ true)
            × ((members : Text) × (go_members quote sprint to_upper is_digit [] def.fields
                  ≡ ok members)
                × ((format (go_source quote members schema_hash pkg) ≡ none)
                      × (emitted ≡ err unformatted)
                    ⊎ ((source : Text) × (format (go_source quote members schema_hash pkg)
                          ≡ some source)
                        × (emitted ≡ ok source)))))
  unfolding emit_go
  emit_go_exact fl quote sprint format def schema_hash pkg upper digit accepted =
      let valid : all (is_field fl) def.fields ≡ true =
        ground (arith, validate_definition_exact fl def, accepted) in
      let members = go_members quote sprint to_upper is_digit [] def.fields in
      let exact : is_ok members
          ≡ (all (λ f. has_alnum (codes f.name)) def.fields && are_distinct (derived def.fields)) =
        go_members_exact quote sprint [] def.fields
        ∙ rw
            (
              all-is_typed fl def.fields valid,
              are_named def.fields upper digit,
              avoids_none (derived def.fields),
            )
            (true_last (all (λ f. has_alnum (codes f.name)) def.fields)
              (are_distinct (derived def.fields))) in
      elim (Result-cases members) [
        | inl (e, bad) ↦ inl (
          sym exact ∙ ap is_ok bad,
          (e, rw (emit_go, bad) refl, go_members_error quote sprint [] def.fields e bad),
        )
        | inr (text, good) ↦ inr (
          sym exact ∙ ap is_ok good,
          (
            text,
            good,
            elim (Option-cases (format (go_source quote text schema_hash pkg))) [
              | inl rejected ↦ inl (rejected, rw (emit_go, good, rejected) refl)
              | inr (source, formatted) ↦
                  inr (source, formatted, rw (emit_go, good, formatted) refl)
            ],
          ),
        )
      ]

-- For a definition that is accepted, TypeScript source is emitted, whatever the names of its fields.
pub emit_typescript_accepted :
    (fl : Floats) (quote : Text → Text) (sprint : Value fl.F → Text) (def : Definition fl.F)
    (schema_hash : Text)
    → validate_definition fl def ≡ none
    → is_ok (emit_typescript quote sprint def schema_hash) ≡ true
unfolding emit_typescript
emit_typescript_accepted fl quote sprint def schema_hash accepted =
    let valid : all (is_field fl) def.fields ≡ true =
      ground (arith, validate_definition_exact fl def, accepted) in
    ground (arith, ts_members_typed quote sprint def.fields, all-is_typed fl def.fields valid)
