-- ===== src/Api/Values.antt =====
-- internal/api: the handlers that change what an environment serves (values_handlers.go,
-- versions_handlers.go, schema_handlers.go), and repo.go's `WithTx` around them. An id that does
-- not parse and a body that does not decode are `none`.
pub mod Usable
pub mod Transactions
pub mod Laws
pub mod Grows
pub mod Advances
pub mod Fits
pub mod Run
pub mod Apart
pub mod Live
pub mod Serve
pub mod Answered
use knobs.Base.{
  ℕ, String, String_eq, ℕ_eq, Bool, true, false, Option, none, some, List, [], ◌∷◌, if◌then◌else◌,
  not, nat_eq,
}
use knobs.Assoc.{Assoc, GoMap, lookup}
use knobs.Store.{
  Db, Environment, ConfigVersion, ConfigSchema, next_version_number, version_by_number,
  insert_version, set_current_version, current_version, get_or_init_schema, lock_project_schema,
  update_schema, record_audit, notify,
}
use knobs.Api.Access.{
  Status, bad_request, not_found, conflict, unprocessable, internal, Access, denied, granted,
  authorize_project, authorize_env,
}

-- What the handlers ask of a schema `S`: the column's default, `ValidateDefinition`, `Compile`,
-- `ValidateValues` and targeting's `Validate`.
pub record SchemaRules (S V R : Type 0) : Type 0 where
  pub no_fields : S
  pub well_formed : S → Bool
  pub compiles : S → Bool
  pub valid_values : S → GoMap V → Bool
  pub valid_targeting : S → GoMap R → Bool

-- How the function given to `WithTx` ends.
pub data Outcome (D A : Type 0) : Type 0 where
  failed : Status → Outcome D A
  done : D → A → Outcome D A

pub data Reply (A : Type 0) : Type 0 where
  refused : Status → Reply A
  replied : A → Reply A

-- A transaction that fails, or whose commit fails, leaves the tables as they were.
abbrev pub with_tx : {D A : Type 0} → D → Bool → Outcome D A → D × Reply A
with_tx db commits (failed status) = (db, refused status)
with_tx db commits (done after a) = if commits then (after, replied a) else (db, refused internal)

module _ {S V R : Type 0} where
  -- `SetCurrentVersion`, `RecordAudit` and `pg_notify`, as both write paths end.
  unfoldable pub make_current :
      Db S V R → ℕ → ℕ → ℕ → String → ℕ × ConfigVersion V R → Outcome (Db S V R) (ConfigVersion V R)
  make_current db user env project action row = elim (set_current_version db env row.0) [
    | none ↦ failed internal
    | some moved ↦
        done (notify (record_audit moved.0 (some project) user action env) env moved.1) row.1
  ]

  unfoldable pub rollback_tx :
      Db S V R → ℕ → ℕ → Environment → ℕ → Outcome (Db S V R) (ConfigVersion V R)
  rollback_tx db user env e number = elim (version_by_number db env number) [
    | none ↦ failed not_found
    | some row ↦ make_current db user env e.project_id "values.rollback" row
  ]

  -- The body decodes to an object that may lack the version.
  unfoldable pub handle_rollback :
      Db S V R → ℕ → Bool → Option ℕ → Option (Option ℕ) → Db S V R × Reply (ConfigVersion V R)
  handle_rollback db user commits none body = (db, refused bad_request)
  handle_rollback db user commits (some env) none = (db, refused bad_request)
  handle_rollback db user commits (some env) (some none) = (db, refused unprocessable)
  handle_rollback db user commits (some env) (some (some number)) =
      elim (authorize_env db user env "editor") [
        | denied status ↦ (db, refused status)
        | granted e ↦ with_tx db commits (rollback_tx db user env e number)
      ]

  module _ (rules : SchemaRules S V R) where
    -- The part of `handlePutValues` under the lock on the schema.
    unfoldable pub save_version :
        Db S V R
        → ℕ
        → ℕ
        → ℕ
        → ConfigSchema S
        → GoMap V
        → GoMap R
        → Outcome (Db S V R) (ConfigVersion V R)
    save_version db user env project cs values targeting =
        if not (rules.compiles cs.definition)
        then failed unprocessable
        else if not (rules.valid_values cs.definition values)
        then failed unprocessable
        else if not (rules.valid_targeting cs.definition targeting)
        then failed unprocessable
        else elim (insert_version db env (next_version_number db env) cs.schema_version values
            targeting (some user)) [
              | none ↦ failed conflict
              | some inserted ↦ make_current inserted.0 user env project "values.update" inserted.1
            ]

    unfoldable pub put_values_tx :
        Db S V R → ℕ → ℕ → ℕ → GoMap V → GoMap R → Outcome (Db S V R) (ConfigVersion V R)
    put_values_tx db user env project values targeting =
        let ready = get_or_init_schema rules.no_fields db project in
        elim (lock_project_schema ready project) [
          | none ↦ failed internal
          | some cs ↦ save_version ready user env project cs values targeting
        ]

    unfoldable pub handle_put_values :
        Db S V R
        → ℕ
        → Bool
        → Option ℕ
        → Option (GoMap V × GoMap R)
        → Db S V R × Reply (ConfigVersion V R)
    handle_put_values db user commits none body = (db, refused bad_request)
    handle_put_values db user commits (some env) none = (db, refused bad_request)
    handle_put_values db user commits (some env) (some body) =
        elim (authorize_env db user env "editor") [
          | denied status ↦ (db, refused status)
          | granted e ↦ with_tx db commits (put_values_tx db user env e.project_id body.0 body.1)
        ]

    -- The test of one environment in the loop over the project's environments.
    abbrev pub values_fit : S → Option (ConfigVersion V R) → Bool
    values_fit definition none = true
    values_fit definition (some cv) = rules.valid_values definition cv.values

    -- The loop: whether the live values of each environment fit the new schema.
    unfoldable pub is_change_safe : Db S V R → ℕ → S → Assoc ℕ Environment → Bool
    is_change_safe db project definition [] = true
    is_change_safe db project definition ((env, e) ∷ environments) =
        let rest = is_change_safe db project definition environments in
        if not (nat_eq e.project_id project)
        then rest
        else if values_fit definition (current_version db env)
        then rest
        else false

    unfoldable pub put_schema_tx : Db S V R → ℕ → ℕ → S → Outcome (Db S V R) S
    put_schema_tx db user project definition =
        let ready = get_or_init_schema rules.no_fields db project in
        elim (lock_project_schema ready project) [
          | none ↦ failed internal
          | some cs ↦
              if is_change_safe ready project definition ready.environments
              then done
                  (record_audit (update_schema ready project definition) (some project) user
                    "schema.update" project)
                  definition
              else failed conflict
        ]

    unfoldable pub handle_put_schema :
        Db S V R → ℕ → Bool → Option ℕ → Option S → Db S V R × Reply S
    handle_put_schema db user commits none body = (db, refused bad_request)
    handle_put_schema db user commits (some project) body =
        elim (authorize_project db user project "admin") [
          | denied status ↦ (db, refused status)
          | granted role ↦ elim body [
            | none ↦ (db, refused bad_request)
            | some definition ↦
                if not (rules.well_formed definition)
                then (db, refused unprocessable)
                else if not (rules.compiles definition)
                then (db, refused unprocessable)
                else with_tx db commits (put_schema_tx db user project definition)
          ]
        ]
