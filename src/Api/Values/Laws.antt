-- ===== src/Api/Values/Laws.antt =====
-- internal/api/values_handlers.go, versions_handlers.go and schema_handlers.go: how the
-- transactions end. What is shown for the tables that a transaction commits holds after the handler.
use knobs.Base.{
  ◌&&◌, ◌≡◌, refl, ℕ, ℕ_eq, Bool, true, Option, none, some, arith, Option-cases, Bool-cases, inl,
  inr, nat_eq_iff,
}
use knobs.Assoc.{GoMap, lookup}
use knobs.Store.{
  Db, Environment, ConfigVersion, ConfigSchema, next_version_number, version_by_number,
  get_or_init_schema, lock_project_schema, update_schema, record_audit,
}
use knobs.Store.Laws.{extended, new_version, insert_version_next}
use knobs.Store.Schemas.{schema_or, lookup-get_or_init_schema, environments-get_or_init_schema}
use knobs.Api.Access.{Status, bad_request, unprocessable, authorize_env, authorize_project}
use knobs.Api.Reads.{handle_get_schema}
use knobs.Api.Values.{
  SchemaRules, Reply, refused, replied, rollback_tx, handle_rollback, save_version, put_values_tx,
  handle_put_values, put_schema_tx, handle_put_schema, is_change_safe,
}
use knobs.Api.Values.Transactions.{
  Ends, with_tx_lem, Access-cases, authorize_env_found, published, make_current_lem,
}

module _ {S V R : Type 0} where
  pub rollback_tx_lem :
      (P : Db S V R → ConfigVersion V R → Type 0)
      → (db : Db S V R) (user env number : ℕ) (e : Environment)
      → lookup env db.environments ≡ some e
      → ((row : ℕ × ConfigVersion V R)
          → version_by_number db env number ≡ some row
          → P (published db user env e.project_id "values.rollback" row.0 e) row.1)
      → Ends P (rollback_tx db user env e number)
  unfolding rollback_tx
  rollback_tx_lem P db user env number e found p =
      elim (Option-cases (version_by_number db env number)) [
        | inl absent ↦ rw (absent, rollback_tx) tt
        | inr (row, present) ↦
            rw (present, rollback_tx)
              (make_current_lem P db user env e.project_id "values.rollback" row e found
                (p row present))
      ]

  pub handle_rollback_lem :
      (Q : Db S V R × Reply (ConfigVersion V R) → Type 0)
      → (db : Db S V R) (user : ℕ) (commits : Bool) (id : Option ℕ) (body : Option (Option ℕ))
      → ((status : Status) → Q (db, refused status))
      → ((env number : ℕ) (e : Environment)
          → lookup env db.environments ≡ some e
          → Ends (λ after v. Q (after, replied v)) (rollback_tx db user env e number))
      → Q (handle_rollback db user commits id body)
  unfolding handle_rollback
  handle_rollback_lem Q db user commits none body before after = before bad_request
  handle_rollback_lem Q db user commits (some env) none before after = before bad_request
  handle_rollback_lem Q db user commits (some env) (some none) before after = before unprocessable
  handle_rollback_lem Q db user commits (some env) (some (some number)) before after =
      elim (Access-cases (authorize_env db user env "editor")) [
        | inl (status, refusal) ↦ rw (refusal, handle_rollback) (before status)
        | inr (e, grant) ↦
            rw (grant, handle_rollback)
              (with_tx_lem Q db commits (rollback_tx db user env e number) before
                (after env number e (authorize_env_found db user env "editor" e grant)))
      ]

  module _ (rules : SchemaRules S V R) where
    pub save_version_lem :
        (P : Db S V R → ConfigVersion V R → Type 0)
        → (db : Db S V R) (user env project : ℕ) (cs : ConfigSchema S) (values : GoMap V)
          (targeting : GoMap R) (e : Environment)
        → lookup env db.environments ≡ some e
        → (let v =
              new_version env
                (next_version_number db env)
                cs.schema_version
                values
                targeting
                user in
            rules.valid_values cs.definition values ≡ true
            → rules.valid_targeting cs.definition targeting ≡ true
            → P (published (extended db v) user env project "values.update" db.next_id e) v)
        → Ends P (save_version rules db user env project cs values targeting)
    unfolding save_version
    save_version_lem P db user env project cs values targeting e found p =
        elim (Bool-cases (rules.compiles cs.definition)) [
          | inr broken ↦ rw (broken, save_version) tt
          | inl compiled ↦ elim (Bool-cases (rules.valid_values cs.definition values)) [
            | inr bad ↦ rw (compiled, bad, save_version) tt
            | inl good ↦ elim (Bool-cases (rules.valid_targeting cs.definition targeting)) [
              | inr bad ↦ rw (compiled, good, bad, save_version) tt
              | inl right ↦
                  rw
                    (
                      compiled,
                      good,
                      right,
                      save_version,
                      insert_version_next db env cs.schema_version values targeting user,
                    )
                    (make_current_lem P
                      (extended db (
                        new_version env (next_version_number db env) cs.schema_version values
                          targeting user))
                      user env project "values.update"
                      (
                        db.next_id,
                        new_version env (next_version_number db env) cs.schema_version values
                            targeting user,
                      )
                      e found (p good right))
            ]
          ]
        ]

    -- The schema that a save or a change of the schema reads under the lock.
    abbrev pub schema_of : Db S V R → ℕ → ConfigSchema S
    schema_of db project = schema_or rules.no_fields (lookup project db.schemas)

    pub lock_project_schema_ready :
        (db : Db S V R) (project : ℕ)
        → lock_project_schema (get_or_init_schema rules.no_fields db project) project
          ≡ some (schema_of db project)
    unfolding lock_project_schema
    lock_project_schema_ready db project =
        ground (arith, lookup-get_or_init_schema rules.no_fields db project project)

    pub put_values_tx_lem :
        (P : Db S V R → ConfigVersion V R → Type 0)
        → (db : Db S V R) (user env : ℕ) (values : GoMap V) (targeting : GoMap R) (e : Environment)
        → lookup env db.environments ≡ some e
        → (let ready = get_or_init_schema rules.no_fields db e.project_id in
            let cs = schema_of db e.project_id in
            let v =
              new_version env
                (next_version_number ready env)
                cs.schema_version
                values
                targeting
                user in
            rules.valid_values cs.definition values ≡ true
            → rules.valid_targeting cs.definition targeting ≡ true
            → P
                (published (extended ready v) user env e.project_id "values.update" ready.next_id e)
                v)
        → Ends P (put_values_tx rules db user env e.project_id values targeting)
    unfolding put_values_tx
    put_values_tx_lem P db user env values targeting e found p =
        rw (lock_project_schema_ready db e.project_id, put_values_tx)
          (save_version_lem P (get_or_init_schema rules.no_fields db e.project_id) user env
            e.project_id (schema_of db e.project_id) values targeting e
            (rw (environments-get_or_init_schema rules.no_fields db e.project_id) found) p)

    pub handle_put_values_lem :
        (Q : Db S V R × Reply (ConfigVersion V R) → Type 0)
        → (db : Db S V R) (user : ℕ) (commits : Bool) (id : Option ℕ)
          (body : Option (GoMap V × GoMap R))
        → ((status : Status) → Q (db, refused status))
        → ((env : ℕ) (e : Environment) (values : GoMap V) (targeting : GoMap R)
            → lookup env db.environments ≡ some e
            → Ends
                (λ after v. Q (after, replied v))
                (put_values_tx rules db user env e.project_id values targeting))
        → Q (handle_put_values rules db user commits id body)
    unfolding handle_put_values
    handle_put_values_lem Q db user commits none body before after = before bad_request
    handle_put_values_lem Q db user commits (some env) none before after = before bad_request
    handle_put_values_lem Q db user commits (some env) (some body) before after =
        elim (Access-cases (authorize_env db user env "editor")) [
          | inl (status, refusal) ↦ rw (refusal, handle_put_values) (before status)
          | inr (e, grant) ↦
              rw (grant, handle_put_values)
                (with_tx_lem Q db commits
                  (put_values_tx rules db user env e.project_id body.0 body.1) before
                  (after env e body.0 body.1 (authorize_env_found db user env "editor" e grant)))
        ]

    pub put_schema_tx_lem :
        (P : Db S V R → S → Type 0)
        → (db : Db S V R) (user project : ℕ) (definition : S)
        → (let ready = get_or_init_schema rules.no_fields db project in
            is_change_safe rules ready project definition ready.environments ≡ true
            → P
                (record_audit
                  (update_schema ready project definition)
                  (some project)
                  user
                  "schema.update"
                  project)
                definition)
        → Ends P (put_schema_tx rules db user project definition)
    unfolding put_schema_tx
    put_schema_tx_lem P db user project definition p =
        let ready = get_or_init_schema rules.no_fields db project in
        elim (Bool-cases (is_change_safe rules ready project definition ready.environments)) [
          | inl safe ↦ rw (lock_project_schema_ready db project, safe, put_schema_tx) (p safe)
          | inr unsafe ↦ rw (lock_project_schema_ready db project, unsafe, put_schema_tx) tt
        ]

    pub handle_put_schema_lem :
        (Q : Db S V R × Reply S → Type 0)
        → (db : Db S V R) (user : ℕ) (commits : Bool) (id : Option ℕ) (body : Option S)
        → ((status : Status) → Q (db, refused status))
        → ((project : ℕ) (definition : S)
            → (rules.well_formed definition && rules.compiles definition) ≡ true
            → Ends
                (λ after d. Q (after, replied d))
                (put_schema_tx rules db user project definition))
        → Q (handle_put_schema rules db user commits id body)
    unfolding handle_put_schema
    handle_put_schema_lem Q db user commits none body before after = before bad_request
    handle_put_schema_lem Q db user commits (some project) none before after =
        elim (Access-cases (authorize_project db user project "admin")) [
          | inl (status, refusal) ↦ rw (refusal, handle_put_schema) (before status)
          | inr (role, grant) ↦ rw (grant, handle_put_schema) (before bad_request)
        ]
    handle_put_schema_lem Q db user commits (some project) (some d) before after =
        elim (Access-cases (authorize_project db user project "admin")) [
          | inl (status, refusal) ↦ rw (refusal, handle_put_schema) (before status)
          | inr (role, grant) ↦ elim (Bool-cases (rules.well_formed d)) [
            | inr bad ↦ rw (grant, bad, handle_put_schema) (before unprocessable)
            | inl good ↦ elim (Bool-cases (rules.compiles d)) [
              | inr bad ↦ rw (grant, good, bad, handle_put_schema) (before unprocessable)
              | inl compiled ↦
                  rw (grant, good, compiled, handle_put_schema)
                    (with_tx_lem Q db commits (put_schema_tx rules db user project d) before
                      (after project d (rw (good, compiled) refl)))
            ]
          ]
        ]

    -- A read of a schema leaves the tables as they were, or with the default row.
    pub handle_get_schema_lem :
        (Q : Db S V R → Type 0)
        → (db : Db S V R) (user : ℕ) (id : Option ℕ) → Q db
        → ((project : ℕ) → Q (get_or_init_schema rules.no_fields db project))
        → Q (handle_get_schema rules.no_fields db user id).0
    unfolding handle_get_schema
    handle_get_schema_lem Q db user none before after = before
    handle_get_schema_lem Q db user (some project) before after =
        elim (Access-cases (authorize_project db user project "viewer")) [
          | inl (status, refusal) ↦ rw (refusal, handle_get_schema) before
          | inr (role, grant) ↦
              rw
                (
                  grant,
                  handle_get_schema,
                  lookup-get_or_init_schema rules.no_fields db project project,
                  (nat_eq_iff project project).1 refl,
                )
                (after project)
        ]
