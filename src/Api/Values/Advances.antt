-- ===== src/Api/Values/Advances.antt =====
-- internal/api: the transactions of the handlers that write, and the tables they commit.
use knobs.Base.{◌≡◌, ap, ◌∙◌, ℕ, suc, String, ℕ_eq, true, some, nat_eq_iff, arith}
use knobs.Assoc.{GoMap, lookup, lookup-insert}
use knobs.Store.{
  Db, Environment, ConfigVersion, Project, create_environment, get_or_init_schema, update_schema,
  record_audit, notify, version_by_number, next_version_number,
}
use knobs.Store.Laws.{
  IsSound, repointed, extended, new_version, is_own, repointed-IsSound, extended-IsSound, suc_shift,
  get_or_init_schema-IsSound, next_version_number_unused,
}
use knobs.Store.Numbered.{find_version_stored, find_version_found}
use knobs.Store.Schemas.{environments-get_or_init_schema}
use knobs.Api.Values.{SchemaRules, put_values_tx, rollback_tx, put_schema_tx}
use knobs.Api.Values.Transactions.{Ends, published}
use knobs.Api.Values.Laws.{schema_of, put_values_tx_lem, rollback_tx_lem, put_schema_tx_lem}
use knobs.Api.Projects.Laws.{settled, founded, renamed}
use knobs.Api.Values.Grows.{
  Grows, published-Grows, extended-Grows, ready-Grows, updated-Grows, Grows-trans,
}

module _ {S V R : Type 0} where
  published-IsSound :
      (db : Db S V R) (user env project : ℕ) (action : String) (id : ℕ) (e : Environment)
      → IsSound (repointed db env id e)
      → IsSound (published db user env project action id e)
  unfolding notify record_audit
  published-IsSound db user env project action id e h = record {
    fresh_version = h.fresh_version;
    fresh_environment = h.fresh_environment;
    is_map = h.is_map;
    is_numbered = h.is_numbered;
    points = h.points;
  }

  updated-IsSound :
      (db : Db S V R) (user project : ℕ) (definition : S)
      → IsSound db
      → IsSound (
          record_audit
            (update_schema db project definition)
            (some project)
            user
            "schema.update"
            project)
  unfolding record_audit update_schema
  updated-IsSound db user project definition h = record {
    fresh_version = h.fresh_version;
    fresh_environment = h.fresh_environment;
    is_map = h.is_map;
    is_numbered = h.is_numbered;
    points = h.points;
  }

  pub settled-IsSound :
      (db : Db S V R) (user project : ℕ) (name : String)
      → IsSound (create_environment db project name)
      → IsSound (settled db user project name)
  unfolding record_audit
  settled-IsSound db user project name h = record {
    fresh_version = h.fresh_version;
    fresh_environment = h.fresh_environment;
    is_map = h.is_map;
    is_numbered = h.is_numbered;
    points = h.points;
  }

  pub founded-IsSound :
      (db : Db S V R) (user org : ℕ) (name slug : String)
      → IsSound db
      → IsSound (founded db user org name slug)
  unfolding record_audit
  founded-IsSound db user org name slug h = record {
    fresh_version =
        λ k. ap (λ n. lookup n db.versions) (suc_shift db.next_id k) ∙ h.fresh_version (suc k);
    fresh_environment = λ k.
        ap (λ n. lookup n db.environments) (suc_shift db.next_id k) ∙ h.fresh_environment (suc k);
    is_map = h.is_map;
    is_numbered = h.is_numbered;
    points = h.points;
  }

  pub renamed-IsSound :
      (db : Db S V R) (user project : ℕ) (p : Project) (name : String)
      → IsSound db
      → IsSound (renamed db user project p name)
  unfolding record_audit
  renamed-IsSound db user project p name h = record {
    fresh_version = h.fresh_version;
    fresh_environment = h.fresh_environment;
    is_map = h.is_map;
    is_numbered = h.is_numbered;
    points = h.points;
  }

  -- Both, of the tables after a step.
  abbrev pub Advances : Db S V R → Db S V R → Type 0
  Advances before after = IsSound after × Grows before after

  inserted-is_own :
      (db : Db S V R) (v : ConfigVersion V R)
      → is_own v.environment_id (lookup db.next_id (extended db v).versions) ≡ true
  inserted-is_own db v = ground (
    arith,
    lookup-insert db.next_id db.next_id v db.versions,
    nat_eq_iff db.next_id db.next_id,
    nat_eq_iff v.environment_id v.environment_id,
  )

  -- A version is inserted under the next number and made current.
  saved-Advances :
      (db : Db S V R) (user env project schema_version : ℕ) (action : String) (e : Environment)
      (values : GoMap V) (targeting : GoMap R)
      → IsSound db
      → lookup env db.environments ≡ some e
      → Advances db (
          published
            (extended db
              (new_version env (next_version_number db env) schema_version values targeting user))
            user
            env
            project
            action
            db.next_id
            e)
  saved-Advances db user env project schema_version action e values targeting sound found =
      let v = new_version env (next_version_number db env) schema_version values targeting user in
      (
        published-IsSound (extended db v) user env project action db.next_id e (
            repointed-IsSound (extended db v) env db.next_id e
              (extended-IsSound db v sound (next_version_number_unused db env)) found
              (inserted-is_own db v)),
        Grows-trans db (extended db v)
            (published (extended db v) user env project action db.next_id e)
            (extended-Grows db v sound)
            (published-Grows (extended db v) user env project action db.next_id e found),
      )

  pub rollback_tx-Advances :
      (db : Db S V R) (user env number : ℕ) (e : Environment)
      → IsSound db
      → lookup env db.environments ≡ some e
      → Ends (λ after v. Advances db after) (rollback_tx db user env e number)
  unfolding version_by_number
  rollback_tx-Advances db user env number e sound found =
      rollback_tx_lem (λ after v. Advances db after) db user env number e found
        (λ row present. (
          published-IsSound db user env e.project_id "values.rollback" row.0 e (
              repointed-IsSound db env row.0 e sound found (
                rw (find_version_stored env number db.versions row sound.is_map present) (
                  (nat_eq_iff row.1.environment_id env).1
                    (find_version_found env number db.versions row present).0))),
          published-Grows db user env e.project_id "values.rollback" row.0 e found,
        ))

  module _ (rules : SchemaRules S V R) where
    pub put_values_tx-Advances :
        (db : Db S V R) (user env : ℕ) (e : Environment) (values : GoMap V) (targeting : GoMap R)
        → IsSound db
        → lookup env db.environments ≡ some e
        → Ends
            (λ after v. Advances db after)
            (put_values_tx rules db user env e.project_id values targeting)
    put_values_tx-Advances db user env e values targeting sound found =
        put_values_tx_lem rules (λ after v. Advances db after) db user env values targeting e found
          (λ good right.
            let ready = get_or_init_schema rules.no_fields db e.project_id in
            let saved =
              saved-Advances ready user env e.project_id
                (schema_of rules db e.project_id).schema_version "values.update" e values targeting
                (get_or_init_schema-IsSound rules.no_fields db e.project_id sound)
                (rw (environments-get_or_init_schema rules.no_fields db e.project_id) found) in
            (saved.0, Grows-trans db ready _ (ready-Grows rules.no_fields db e.project_id) saved.1))

    pub put_schema_tx-Advances :
        (db : Db S V R) (user project : ℕ) (definition : S)
        → IsSound db
        → Ends (λ after d. Advances db after) (put_schema_tx rules db user project definition)
    put_schema_tx-Advances db user project definition sound =
        put_schema_tx_lem rules (λ after d. Advances db after) db user project definition
          (λ safe.
            let ready = get_or_init_schema rules.no_fields db project in
            (
              updated-IsSound ready user project definition
                  (get_or_init_schema-IsSound rules.no_fields db project sound),
              Grows-trans db ready _ (ready-Grows rules.no_fields db project)
                  (updated-Grows ready user project definition),
            ))
