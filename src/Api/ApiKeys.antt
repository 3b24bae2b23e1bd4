-- ===== src/Api/ApiKeys.antt =====
-- internal/api/apikey_handlers.go, apikey_guard.go, snapshot_handler.go and
-- schema_delivery_handler.go. `hash` is SHA-256 in hexadecimal, which internal/apikey takes.
pub mod Laws
pub mod Homes
use knobs.Base.{
  ℕ, String, ℕ_eq, Bool, true, false, Option, none, some, List, [], ◌∷◌, ◌++◌, if◌then◌else◌,
  nat_eq, ◌==◌, String_eq,
}
use knobs.Base.Text.{Text, codes}
use knobs.Assoc.{lookup}
use knobs.Delivery.Snapshot.{Snapshot, build_snapshot}
use knobs.Store.{
  Db, ConfigSchema, Environment, current_version, get_or_init_schema, lock_project_schema,
  record_audit,
}
use knobs.Store.ApiKeys.{create_api_key, api_key_by_hash, revoke_api_key, touch_api_key}
use knobs.Api.Access.{
  Status, bad_request, unauthorized, not_found, unprocessable, internal, Access, denied, granted,
  authorize_env,
}
use knobs.Api.Values.{Outcome, failed, done, Reply, refused, replied, with_tx}

-- `apikey.Generate` with the random part that is drawn, if one is.
unfoldable pub generate : (Text → String) → Option Text → Option (Text × String)
generate hash none = none
generate hash (some drawn) = some (codes "knobs_" ++ drawn, hash (codes "knobs_" ++ drawn))

pub record CreatedKey : Type 0 where
  pub id : ℕ
  pub name : String
  pub key : Text

-- What stands behind a prefix.
unfoldable pub strip_prefix : Text → Text → Option Text
strip_prefix [] s = some s
strip_prefix (p ∷ prefix) [] = none
strip_prefix (p ∷ prefix) (c ∷ s) =
    let rest = strip_prefix prefix s in if nat_eq c p then rest else none

abbrev pub unless_blank : Option Text → Option Text
unless_blank none = none
unless_blank (some []) = none
unless_blank (some (c ∷ s)) = some (c ∷ s)

-- The key of an `Authorization` header; a missing header is empty.
unfoldable pub bearer : Text → Option Text
bearer header = unless_blank (strip_prefix (codes "Bearer ") header)

module _ {S V R : Type 0} where
  unfoldable pub create_key_tx :
      Db S V R → ℕ → ℕ → ℕ → String → Text × String → Outcome (Db S V R) CreatedKey
  create_key_tx db user env project name (plaintext, hash) =
      elim (create_api_key db env project name hash) [
        | none ↦ failed internal
        | some made ↦
            done (record_audit made.0 (some project) user "apikey.create" made.1)
              (record { id = made.1; name = name; key = plaintext })
      ]

  unfoldable pub handle_create_api_key :
      (Text → String)
      → Db S V R
      → ℕ
      → Bool
      → Option Text
      → Option ℕ
      → Option String
      → Db S V R × Reply CreatedKey
  handle_create_api_key hash db user commits drawn none body = (db, refused bad_request)
  handle_create_api_key hash db user commits drawn (some env) none = (db, refused bad_request)
  handle_create_api_key hash db user commits drawn (some env) (some name) =
      if name == "" then (db, refused unprocessable) else elim (authorize_env db user env "admin") [
        | denied status ↦ (db, refused status)
        | granted e ↦ elim (generate hash drawn) [
          | none ↦ (db, refused internal)
          | some pair ↦ with_tx db commits (create_key_tx db user env e.project_id name pair)
        ]
      ]

  unfoldable pub revoke_key_tx : Db S V R → ℕ → ℕ → ℕ → ℕ → Outcome (Db S V R) (Unit {0})
  revoke_key_tx db user env project id = elim (revoke_api_key db id env) [
    | none ↦ failed not_found
    | some after ↦ done (record_audit after (some project) user "apikey.revoke" id) tt
  ]

  unfoldable pub handle_revoke_api_key :
      Db S V R → ℕ → Bool → Option ℕ → Option ℕ → Db S V R × Reply (Unit {0})
  handle_revoke_api_key db user commits none key = (db, refused bad_request)
  handle_revoke_api_key db user commits (some env) none = (db, refused bad_request)
  handle_revoke_api_key db user commits (some env) (some id) =
      elim (authorize_env db user env "admin") [
        | denied status ↦ (db, refused status)
        | granted e ↦ with_tx db commits (revoke_key_tx db user env e.project_id id)
      ]

  -- `touches` is whether the write of the time succeeds, which nothing depends on.
  unfoldable pub api_key_guard : (Text → String) → Db S V R → ℕ → Bool → Text → Db S V R × Access ℕ
  api_key_guard hash db now touches header = elim (bearer header) [
    | none ↦ (db, denied unauthorized)
    | some plaintext ↦ elim (api_key_by_hash db (hash plaintext)) [
      | none ↦ (db, denied unauthorized)
      | some row ↦
          (if touches then touch_api_key db now row.0 else db, granted row.1.environment_id)
    ]
  ]

  module _ (no_fields : S) (schema_hash : S → String) where
    -- `GetOrInitSchema`, which writes the row that it does not find.
    abbrev pub with_schema : {A : Type 0} → Db S V R → ℕ → (ConfigSchema S → A) → Db S V R × Reply A
    with_schema db project answer =
        let ready = get_or_init_schema no_fields db project in
        elim (lock_project_schema ready project) [
          | none ↦ (db, refused internal)
          | some cs ↦ (ready, replied (answer cs))
        ]

    unfoldable pub handle_snapshot : Db S V R → ℕ → Db S V R × Reply (Snapshot V R)
    handle_snapshot db env = elim (lookup env db.environments) [
      | none ↦ (db, refused not_found)
      | some e ↦ elim (current_version db env) [
        | none ↦ (db, refused not_found)
        | some cv ↦ with_schema db e.project_id (λ cs.
            build_snapshot cv.version cv.values cv.targeting (schema_hash cs.definition)
              e.delivery_revision)
      ]
    ]

    unfoldable pub handle_schema_delivery : Db S V R → ℕ → Db S V R × Reply (S × (ℕ × String))
    handle_schema_delivery db env = elim (lookup env db.environments) [
      | none ↦ (db, refused not_found)
      | some e ↦
          with_schema db e.project_id
            (λ cs. (cs.definition, (cs.schema_version, schema_hash cs.definition)))
    ]

    abbrev pub guarded :
        {A : Type 0}
        → (Db S V R → ℕ → Db S V R × Reply A)
        → Db S V R × Access ℕ
        → Db S V R × Reply A
    guarded handler (db, denied status) = (db, refused status)
    guarded handler (db, granted env) = handler db env

    -- `GET /v1/snapshot`
    unfoldable pub snapshot_request :
        (Text → String) → Db S V R → ℕ → Bool → Text → Db S V R × Reply (Snapshot V R)
    snapshot_request hash db now touches header =
        guarded handle_snapshot (api_key_guard hash db now touches header)
