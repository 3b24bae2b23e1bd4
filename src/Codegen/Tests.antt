-- ===== src/Codegen/Tests.antt =====
-- Emitted names and files.
use knobs.Base.{
  ◌≡◌, ◌≢◌, refl, ℕ, ◌-◌, String_eq, Bool, true, false, none, some, [], ◌∷◌, ◌++◌, ◌⊎◌,
  if◌then◌else◌,
}
use knobs.Base.Text.{Text, Text_eq, text_eq, codes, between}
use knobs.Value.{Value, Floats}
use knobs.Targeting.Tests.{fixed}
use knobs.Schema.Tests.{two_fields, two_fields-accepted}
use knobs.Codegen.Names.{
  go_field_name, words_from, pascal, is_go_rest, sanitize_description, replace_crlf, replace_char,
  replace_close, lf, cr,
}
use knobs.Codegen.Names.Fields.{has_alnum, is_exported, go_field_name_exported}
use knobs.Codegen.Types.{EmitError, err, ok, unformatted}
use knobs.Codegen.Emit.{go_members, go_source, emit_go, emit_typescript}
use knobs.Codegen.Types.Laws.{is_ok}
use knobs.Codegen.Emit.Laws.{emit_go_exact, emit_typescript_accepted}

abbrev upper_ascii : ℕ → ℕ
upper_ascii c = if between b'a' b'z' c then c - 32 else c

abbrev digit_ascii : ℕ → Bool
digit_ascii c = between b'0' b'9' c

-- A quotation that is right for texts of letters, and a print of values as nothing.
abbrev quoted : Text → Text
quoted s = b'"' ∷ (s ++ b'"' ∷ [])

abbrev nothing : Value (Floats.F fixed) → Text
nothing v = []

second_factor :
    go_field_name upper_ascii digit_ascii (codes "2fa mode") ≡ some (codes "Field2faMode")
unfolding go_field_name words_from pascal is_go_rest
second_factor = refl

dashes : go_field_name upper_ascii digit_ascii (codes "---") ≡ none
unfolding go_field_name words_from pascal
dashes = refl

closed : sanitize_description (codes "a*/" ++ (cr ∷ lf ∷ [])) ≡ codes "a* / "
unfolding sanitize_description replace_crlf replace_char replace_close
closed = refl

go_field_name_exported_example :
    ((has_alnum (codes "2fa") ≡ false)
      × (go_field_name upper_ascii digit_ascii (codes "2fa") ≡ none))
    ⊎ ((has_alnum (codes "2fa") ≡ true)
        × ((s : Text) × ((go_field_name upper_ascii digit_ascii (codes "2fa") ≡ some s)
              × (is_exported s ≡ true))))
go_field_name_exported_example =
    go_field_name_exported upper_ascii (λ c h. refl) digit_ascii (λ c h. refl) (codes "2fa")

emit_go_exact_example :
    (let emitted =
        emit_go quoted nothing upper_ascii digit_ascii some two_fields [] (codes "config") in
      (true ≡ false) × ((e : EmitError) × (emitted ≡ err e) × (e ≢ unformatted))
      ⊎ (true ≡ true)
        × ((members : Text) × (go_members quoted nothing upper_ascii digit_ascii []
                two_fields.fields
              ≡ ok members)
            × ((some (go_source quoted members [] (codes "config")) ≡ none)
                  × (emitted ≡ err unformatted)
                ⊎ ((source : Text) × (some (go_source quoted members [] (codes "config"))
                      ≡ some source)
                    × (emitted ≡ ok source)))))
unfolding go_field_name words_from pascal is_go_rest text_eq
emit_go_exact_example =
    emit_go_exact upper_ascii digit_ascii fixed quoted nothing some two_fields [] (codes "config")
      (λ c h. refl) (λ c h. refl) two_fields-accepted

emit_typescript-two_fields : is_ok (emit_typescript quoted nothing two_fields []) ≡ true
emit_typescript-two_fields =
    emit_typescript_accepted fixed quoted nothing two_fields [] two_fields-accepted
