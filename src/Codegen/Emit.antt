-- ===== src/Codegen/Emit.antt =====
-- internal/codegen/go.go and ts.go: the emitted files. `format` is format.Source.
pub mod Laws
use knobs.Base.{
  ◌==◌, ℕ, String, String_eq, Bool, true, false, Option, none, some, List, [], ◌∷◌, ◌++◌,
  if◌then◌else◌, not,
}
use knobs.Base.Text.{Text, Text_eq, codes}
use knobs.Assoc.{Assoc, lookup, insert}
use knobs.Value.{Value}
use knobs.Schema.{Field}
use knobs.Schema.Definition.{Definition}
use knobs.Codegen.Names.{go_field_name, property_key, sanitize_description, lf}
use knobs.Codegen.Types.{
  EmitError, no_identifier, same_identifier, unformatted, Result, err, ok, go_type, ts_type,
  enum_literal_list, json_tag_literal,
}

-- A line.
abbrev pub line : Text → Text
line s = s ++ lf ∷ []

unfoldable pub go_source : (Text → Text) → Text → Text → Text → Text
go_source quote members schema_hash pkg =
    line (codes "// Code generated by knobs gen; DO NOT EDIT.")
    ++ (line (codes "// Field order matches the schema definition's field order.")
        ++ (line []
            ++ (line (codes "package " ++ pkg)
                ++ (line []
                    ++ (line (codes "import \"encoding/json\"")
                        ++ (line []
                            ++ (line (codes "type Config struct {")
                                ++ (members
                                    ++ (line (codes "}")
                                        ++ (line []
                                            ++ (line
                                                  (codes "const SchemaHash = " ++ quote schema_hash)
                                                ++ (line []
                                                    ++ (line (
                                                          codes
                                                            "func Typed(client interface{ GetAll() map[string]any }) (Config, error) {")
                                                        ++ (line (codes "var cfg Config")
                                                            ++ (line (
                                                            codes
                                                            "data, err := json.Marshal(client.GetAll())")
                                                            ++ (line (codes "if err != nil {")
                                                            ++ (line (codes "return cfg, err")
                                                            ++ (line (codes "}")
                                                            ++ (line (
                                                            codes
                                                            "if err := json.Unmarshal(data, &cfg); err != nil {")
                                                            ++ (line (codes "return cfg, err")
                                                            ++ (line (codes "}")
                                                            ++ (line (codes "return cfg, nil")
                                                            ++ line
                                                            (codes "}")))))))))))))))))))))))

unfoldable pub ts_source : (Text → Text) → Text → Text → Text
ts_source quote members schema_hash =
    line (codes "// Code generated by knobs gen; DO NOT EDIT.")
    ++ (line (codes "// Field order matches the schema definition's field order.")
        ++ (line []
            ++ (line (codes "export interface AppConfig {")
                ++ (members
                    ++ (line (codes "}")
                        ++ (line []
                            ++ (line (
                                  codes "export const schemaHash = "
                                  ++ (quote schema_hash ++ codes ";"))
                                ++ (line []
                                    ++ (line (
                                          codes
                                            "export function typed(client: { getAll(): Record<string, unknown> }): AppConfig {")
                                        ++ (line (
                                              codes
                                                "  return client.getAll() as unknown as AppConfig;")
                                            ++ line (codes "}")))))))))))

module _ {F : Type 0} (quote : Text → Text) (sprint : Value F → Text) where
  -- The comment above a field.
  unfoldable pub go_comments : Field F → Text
  go_comments f =
      (if f.description == ""
        then []
        else line (codes "// " ++ sanitize_description (codes f.description)))
      ++ (if f.kind == "enum"
          then line (codes "// Allowed values: " ++ enum_literal_list quote sprint f.enum_values)
          else [])

  unfoldable pub go_member : Field F → Text → Text → Text
  go_member f name kind =
      go_comments f
      ++ line (name ++ (b' ' ∷ (kind ++ (b' ' ∷ json_tag_literal quote (codes f.name)))))

  module _ (to_upper : ℕ → ℕ) (is_digit : ℕ → Bool) where
    -- The loop: `seen` has the field that each identifier was derived from.
    unfoldable pub go_members : Assoc Text String → List (Field F) → Result Text
    go_members seen [] = ok []
    go_members seen (f ∷ fs) = elim (go_type f) [
      | err e ↦ err e
      | ok kind ↦ elim (go_field_name to_upper is_digit (codes f.name)) [
        | none ↦ err (no_identifier f.name)
        | some name ↦ elim (lookup name seen) [
          | some prev ↦ err (same_identifier prev f.name name)
          | none ↦ elim (go_members (insert name f.name seen) fs) [
            | err e ↦ err e
            | ok rest ↦ ok (go_member f name kind ++ rest)
          ]
        ]
      ]
    ]

    unfoldable pub emit_go : (Text → Option Text) → Definition F → Text → Text → Result Text
    emit_go format def schema_hash pkg = elim (go_members [] def.fields) [
      | err e ↦ err e
      | ok members ↦ elim (format (go_source quote members schema_hash pkg)) [
        | none ↦ err unformatted
        | some source ↦ ok source
      ]
    ]

  unfoldable pub ts_member : Field F → Text → Text
  ts_member f kind =
      (if f.description == ""
        then []
        else line (codes "  /** " ++ (sanitize_description (codes f.description) ++ codes " */")))
      ++ line (
          codes "  "
          ++ (property_key quote (codes f.name)
              ++ ((if f.required then [] else codes "?") ++ (codes ": " ++ (kind ++ codes ";")))))

  unfoldable pub ts_members : List (Field F) → Result Text
  ts_members [] = ok []
  ts_members (f ∷ fs) = elim (ts_type quote sprint f) [
    | err e ↦ err e
    | ok kind ↦ elim (ts_members fs) [ err e ↦ err e | ok rest ↦ ok (ts_member f kind ++ rest) ]
  ]

  unfoldable pub emit_typescript : Definition F → Text → Result Text
  emit_typescript def schema_hash = elim (ts_members def.fields) [
    | err e ↦ err e
    | ok members ↦ ok (ts_source quote members schema_hash)
  ]
