-- ===== src/Api/Audit/Trail.antt =====
-- internal/api: the handlers that write, and the log as audit_handlers.go lists it afterwards.
use knobs.Base.{
  ◌≡◌, refl, ap, ℕ, ◌-◌, String, String_eq, ℕ_eq, Bool, true, false, Option, none, some, [], ◌∷◌,
  ◌++◌, not, ◌==◌, ◌||◌, ◌⊎◌, inl, inr, Bool-cases, arith,
}
use knobs.Base.Text.{Text}
use knobs.Assoc.{GoMap, lookup}
use knobs.Store.{
  Db, AuditEntry, Environment, record_audit, notify, update_schema, create_environment,
}
use knobs.Store.Schemas.{audit-get_or_init_schema}
use knobs.Api.Access.{Status, bad_request, granted, authorize_env, authorize_project}
use knobs.Api.Audit.{parse_audit_limit, list_audit}
use knobs.Api.Audit.Laws.{list_audit-added}
use knobs.Api.Projects.{
  handle_create_environment, handle_patch_project, create_environment_tx, rename_tx, matches_slug,
}
use knobs.Api.Projects.Laws.{create_environment_tx_lem, rename_tx_lem}
use knobs.Api.Values.{
  SchemaRules, Outcome, Reply, refused, replied, with_tx, handle_put_values, handle_rollback,
  handle_put_schema, put_values_tx, rollback_tx, put_schema_tx,
}
use knobs.Api.Values.Transactions.{Ends, Access-cases, authorize_env_found}
use knobs.Api.Values.Laws.{put_values_tx_lem, rollback_tx_lem, put_schema_tx_lem}

abbrev pub entry : ℕ → ℕ → String → ℕ → AuditEntry
entry user project action target = record {
  project_id = some project;
  actor = user;
  action = action;
  target = target;
}

module _ {S V R : Type 0} where
  -- The request is refused and nothing has changed, or it is answered, and whatever limit is asked
  -- for, the log of the project lists the caller's action on the target first.
  abbrev pub Logged : {A : Type 0} → Db S V R → ℕ → ℕ → String → ℕ → Db S V R × Reply A → Type 0
  Logged {A} db user project action target o =
      ((status : Status) × (o ≡ (db, refused status)))
      ⊎ ((a : A) × (o.1 ≡ replied a)
          × ((raw : Text)
              → list_audit o.0 project (parse_audit_limit raw)
                ≡ entry user project action target
                  ∷ list_audit db project (parse_audit_limit raw - 1)))

  -- The tables with the entry, however they came about.
  Adds : {A : Type 0} → Db S V R → AuditEntry → Db S V R → A → Type 0
  Adds db a after r = after.audit ≡ db.audit ++ a ∷ []

  Logged-with_tx :
      {A : Type 0} (db : Db S V R) (user project : ℕ) (action : String) (target : ℕ)
      (commits : Bool) (end : Outcome (Db S V R) A)
      → Ends (Adds db (entry user project action target)) end
      → Logged db user project action target (with_tx db commits end)
  unfolding Adds
  Logged-with_tx db user project action target commits (Outcome.failed status) added =
      inl (status, refl)
  Logged-with_tx db user project action target true (Outcome.done after r) added =
      inr (r, refl, λ raw. list_audit-added db after project _ raw added refl)
  Logged-with_tx db user project action target false (Outcome.done after r) added =
      inl (Status.internal, refl)

  same_environment :
      (db : Db S V R) (user env : ℕ) (e held : Environment)
      → lookup env db.environments ≡ some e
      → authorize_env db user env "editor" ≡ granted held
      → held ≡ e
  same_environment db user env e held found grant =
      ground (arith, found, authorize_env_found db user env "editor" held grant)

  rollback-Logged :
      (db : Db S V R) (user : ℕ) (commits : Bool) (env : ℕ) (body : Option (Option ℕ))
      (e : Environment)
      → lookup env db.environments ≡ some e
      → Logged db user e.project_id "values.rollback" env
          (handle_rollback db user commits (some env) body)
  unfolding handle_rollback Adds record_audit notify
  rollback-Logged db user commits env none e found = inl (bad_request, refl)
  rollback-Logged db user commits env (some none) e found = inl (Status.unprocessable, refl)
  rollback-Logged db user commits env (some (some number)) e found =
      elim (Access-cases (authorize_env db user env "editor")) [
        | inl (status, refusal) ↦ rw (refusal, handle_rollback) (inl (status, refl))
        | inr (held, grant) ↦
            rw (grant, handle_rollback, same_environment db user env e held found grant)
              (Logged-with_tx db user e.project_id "values.rollback" env commits
                (rollback_tx db user env e number)
                (rollback_tx_lem (Adds db _) db user env number e found (λ row present. refl)))
      ]

  created-Logged :
      (db : Db S V R) (user : ℕ) (commits : Bool) (project : ℕ) (body : Option String)
      → Logged db user project "environment.create" db.next_id
          (handle_create_environment db user commits (some project) body)
  unfolding handle_create_environment Adds record_audit create_environment
  created-Logged db user commits project none = inl (bad_request, refl)
  created-Logged db user commits project (some name) =
      elim (Bool-cases (name == "" || not (matches_slug name))) [
        | inl bad ↦ rw (bad, handle_create_environment) (inl (Status.unprocessable, refl))
        | inr good ↦ elim (Access-cases (authorize_project db user project "admin")) [
          | inl (status, refusal) ↦
              rw (good, refusal, handle_create_environment) (inl (status, refl))
          | inr (role, grant) ↦
              rw (good, grant, handle_create_environment)
                (Logged-with_tx db user project "environment.create" db.next_id commits
                  (create_environment_tx db user project name)
                  (create_environment_tx_lem (Adds db _) db user project name (λ free. refl)))
        ]
      ]

  patched-Logged :
      (db : Db S V R) (user : ℕ) (commits : Bool) (project : ℕ) (body : Option String)
      → Logged db user project "project.rename" project
          (handle_patch_project db user commits (some project) body)
  unfolding handle_patch_project Adds record_audit
  patched-Logged db user commits project none = inl (bad_request, refl)
  patched-Logged db user commits project (some name) = elim (Bool-cases (name == "")) [
    | inl bad ↦ rw (bad, handle_patch_project) (inl (Status.unprocessable, refl))
    | inr good ↦ elim (Access-cases (authorize_project db user project "admin")) [
      | inl (status, refusal) ↦ rw (good, refusal, handle_patch_project) (inl (status, refl))
      | inr (role, grant) ↦
          rw (good, grant, handle_patch_project)
            (Logged-with_tx db user project "project.rename" project commits
              (rename_tx db user project name)
              (rename_tx_lem (Adds db _) db user project name (λ p found. refl)))
    ]
  ]

  module _ (rules : SchemaRules S V R) where
    saved-Logged :
        (db : Db S V R) (user : ℕ) (commits : Bool) (env : ℕ) (body : Option (GoMap V × GoMap R))
        (e : Environment)
        → lookup env db.environments ≡ some e
        → Logged db user e.project_id "values.update" env
            (handle_put_values rules db user commits (some env) body)
    unfolding handle_put_values Adds record_audit notify
    saved-Logged db user commits env none e found = inl (bad_request, refl)
    saved-Logged db user commits env (some body) e found =
        elim (Access-cases (authorize_env db user env "editor")) [
          | inl (status, refusal) ↦ rw (refusal, handle_put_values) (inl (status, refl))
          | inr (held, grant) ↦
              rw (grant, handle_put_values, same_environment db user env e held found grant)
                (Logged-with_tx db user e.project_id "values.update" env commits
                  (put_values_tx rules db user env e.project_id body.0 body.1)
                  (put_values_tx_lem rules (Adds db _) db user env body.0 body.1 e found
                    (λ good right.
                      ap (λ log. log ++ entry user e.project_id "values.update" env ∷ [])
                        (audit-get_or_init_schema rules.no_fields db e.project_id))))
        ]

    changed-Logged :
        (db : Db S V R) (user : ℕ) (commits : Bool) (project : ℕ) (body : Option S)
        → Logged db user project "schema.update" project
            (handle_put_schema rules db user commits (some project) body)
    unfolding handle_put_schema Adds record_audit update_schema
    changed-Logged db user commits project none =
        elim (Access-cases (authorize_project db user project "admin")) [
          | inl (status, refusal) ↦ rw (refusal, handle_put_schema) (inl (status, refl))
          | inr (role, grant) ↦ rw (grant, handle_put_schema) (inl (bad_request, refl))
        ]
    changed-Logged db user commits project (some d) =
        elim (Access-cases (authorize_project db user project "admin")) [
          | inl (status, refusal) ↦ rw (refusal, handle_put_schema) (inl (status, refl))
          | inr (role, grant) ↦ elim (Bool-cases (rules.well_formed d)) [
            | inr bad ↦ rw (grant, bad, handle_put_schema) (inl (Status.unprocessable, refl))
            | inl good ↦ elim (Bool-cases (rules.compiles d)) [
              | inr bad ↦
                  rw (grant, good, bad, handle_put_schema) (inl (Status.unprocessable, refl))
              | inl compiled ↦
                  rw (grant, good, compiled, handle_put_schema)
                    (Logged-with_tx db user project "schema.update" project commits
                      (put_schema_tx rules db user project d)
                      (put_schema_tx_lem rules
                        (Adds db (entry user project "schema.update" project)) db user project d
                        (λ safe.
                          ap (λ log. log ++ entry user project "schema.update" project ∷ [])
                            (audit-get_or_init_schema rules.no_fields db project))))
            ]
          ]
        ]

    -- Whoever saves values of an environment, rolls it back, changes the schema of a project, renames
    -- it or creates an environment in it: the request is refused and nothing has changed, or it is
    -- answered, and whatever limit the log of the project is then read with, its newest entry has
    -- the caller, the action and its target, with the entries from before behind it.
    pub handlers-Logged :
        (db : Db S V R) (user : ℕ) (commits : Bool) (env : ℕ) (e : Environment) (project : ℕ)
        (values : Option (GoMap V × GoMap R)) (number : Option (Option ℕ)) (definition : Option S)
        (name : Option String)
        → lookup env db.environments ≡ some e
        → Logged db user e.project_id "values.update" env
            (handle_put_values rules db user commits (some env) values)
          × Logged db user e.project_id "values.rollback" env
              (handle_rollback db user commits (some env) number)
          × Logged db user project "schema.update" project
              (handle_put_schema rules db user commits (some project) definition)
          × Logged db user project "environment.create" db.next_id
              (handle_create_environment db user commits (some project) name)
          × Logged db user project "project.rename" project
              (handle_patch_project db user commits (some project) name)
    handlers-Logged db user commits env e project values number definition name found = (
      saved-Logged db user commits env values e found,
      rollback-Logged db user commits env number e found,
      changed-Logged db user commits project definition,
      created-Logged db user commits project name,
      patched-Logged db user commits project name,
    )
