-- ===== src/Api/Values/Serve.antt =====
-- internal/api/values_handlers.go, versions_handlers.go and schema_handlers.go: what a request
-- that is accepted does.
use knobs.Base.{
  ◌≡◌, refl, sym, ◌∙◌, ap, ℕ, suc, String, ℕ_eq, true, some, [], ◌∷◌, ◌++◌, nat_eq_iff, arith,
}
use knobs.Assoc.{GoMap, lookup, lookup-insert}
use knobs.Store.{
  Db, Environment, ConfigVersion, ConfigSchema, get_or_init_schema, version_by_number,
  current_version, next_version_number, max_version, set_current_version, notify, record_audit,
}
use knobs.Store.Laws.{IsSound, new_version, extended, insert_version_next}
use knobs.Store.Numbered.{find_version_stored}
use knobs.Store.Schemas.{
  notified-get_or_init_schema, versions-get_or_init_schema, environments-get_or_init_schema,
}
use knobs.Api.Access.{granted, authorize_env}
use knobs.Api.Values.{
  SchemaRules, done, Reply, replied, handle_put_values, handle_rollback, put_values_tx, rollback_tx,
  make_current, save_version,
}
use knobs.Api.Values.Laws.{schema_of, lock_project_schema_ready}
use knobs.Api.Values.Transactions.{published, authorize_env_found}
use knobs.Api.Values.Fits.{live_fits, live_fits-published}
use knobs.Api.Values.Grows.{revision_at, revision_of}

module _ {S V R : Type 0} where
  -- The request is answered with `v`, which is what `env` serves from then on under the next
  -- revision, of which the listeners are told.
  abbrev pub Serves :
      Db S V R → ℕ → Db S V R × Reply (ConfigVersion V R) → ConfigVersion V R → Type 0
  Serves db env o v =
      (o.1 ≡ replied v)
      × (current_version o.0 env ≡ some v)
      × (revision_at o.0 env ≡ suc (revision_at db env))
      × (o.0.notified ≡ db.notified ++ (env, revision_at o.0 env) ∷ [])

  published-Serves :
      (db : Db S V R) (user env project : ℕ) (action : String) (id : ℕ) (e : Environment)
      (v : ConfigVersion V R)
      → lookup env db.environments ≡ some e
      → lookup id db.versions ≡ some v
      → Serves db env (published db user env project action id e, replied v) v
  unfolding current_version revision_at notify record_audit
  published-Serves db user env project action id e v found stored =
      let moved : Environment = record e {
        current_version_id = some id;
        delivery_revision = suc e.delivery_revision;
      } in
      let read = lookup-insert env env moved db.environments in
      (
        refl,
        ground (arith, read, nat_eq_iff env env, stored),
        ground (arith, read, nat_eq_iff env env, found),
        ground (arith, read, nat_eq_iff env env),
      )

  make_current_done :
      (db : Db S V R) (user env project : ℕ) (action : String) (row : ℕ × ConfigVersion V R)
      (e : Environment)
      → lookup env db.environments ≡ some e
      → make_current db user env project action row
        ≡ done (published db user env project action row.0 e) row.1
  unfolding make_current set_current_version
  make_current_done db user env project action row e found =
      rw (found, make_current, set_current_version) refl

  pub handle_rollback_granted :
      (db : Db S V R) (user env number : ℕ) (e : Environment) (row : ℕ × ConfigVersion V R)
      → authorize_env db user env "editor" ≡ granted e
      → version_by_number db env number ≡ some row
      → handle_rollback db user true (some env) (some (some number))
        ≡ (published db user env e.project_id "values.rollback" row.0 e, replied row.1)
  unfolding handle_rollback rollback_tx make_current set_current_version
  handle_rollback_granted db user env number e row grant present =
      rw
        (
          grant,
          handle_rollback,
          rollback_tx,
          present,
          make_current,
          set_current_version,
          authorize_env_found db user env "editor" e grant,
        )
        refl

  -- A rollback that finds its version serves it again, under a new revision. The values are not
  -- tested: they fit the schema of today exactly if they happen to.
  pub rollback-Serves :
      (rules : SchemaRules S V R) (db : Db S V R) (user env number : ℕ) (e : Environment)
      (row : ℕ × ConfigVersion V R)
      → IsSound db
      → authorize_env db user env "editor" ≡ granted e
      → version_by_number db env number ≡ some row
      → Serves db env (handle_rollback db user true (some env) (some (some number))) row.1
        × (live_fits rules (handle_rollback db user true (some env) (some (some number))).0 env
            ≡ rules.valid_values (schema_of rules db e.project_id).definition row.1.values)
  unfolding version_by_number
  rollback-Serves rules db user env number e row sound grant present =
      let stored = find_version_stored env number db.versions row sound.is_map present in
      let found = authorize_env_found db user env "editor" e grant in
      rw (handle_rollback_granted db user env number e row grant present) (
        published-Serves db user env e.project_id "values.rollback" row.0 e row.1 found stored,
        ground (
          arith,
          live_fits-published rules db user env e.project_id "values.rollback" row.0 e env,
          nat_eq_iff env env,
          stored,
        ),
      )

  lookup-inserted :
      (db : Db S V R) (v : ConfigVersion V R) → lookup db.next_id (extended db v).versions ≡ some v
  lookup-inserted db v =
      ground
        (arith, lookup-insert db.next_id db.next_id v db.versions, nat_eq_iff db.next_id db.next_id)

  module _ (rules : SchemaRules S V R) where
    save_version_done :
        (db : Db S V R) (user env project : ℕ) (cs : ConfigSchema S) (values : GoMap V)
        (targeting : GoMap R) (e : Environment)
        → lookup env db.environments ≡ some e
        → rules.compiles cs.definition ≡ true
        → rules.valid_values cs.definition values ≡ true
        → rules.valid_targeting cs.definition targeting ≡ true
        → (let v =
              new_version env
                (next_version_number db env)
                cs.schema_version
                values
                targeting
                user in
            save_version rules db user env project cs values targeting
            ≡ done (published (extended db v) user env project "values.update" db.next_id e) v)
    unfolding save_version
    save_version_done db user env project cs values targeting e found compiled good right =
        let v =
          new_version env (next_version_number db env) cs.schema_version values targeting user in
        rw
          (
            compiled,
            good,
            right,
            save_version,
            insert_version_next db env cs.schema_version values targeting user,
          )
          (make_current_done (extended db v) user env project "values.update" (db.next_id, v) e
            found)

    next_version_number-ready :
        (db : Db S V R) (project env : ℕ)
        → next_version_number db env
          ≡ next_version_number (get_or_init_schema rules.no_fields db project) env
    unfolding next_version_number
    next_version_number-ready db project env =
        ap (λ table. suc (max_version env table))
          (sym (versions-get_or_init_schema rules.no_fields db project))

    ready-Serves :
        (db : Db S V R) (env project : ℕ) (o : Db S V R × Reply (ConfigVersion V R))
        (v : ConfigVersion V R)
        → Serves (get_or_init_schema rules.no_fields db project) env o v
        → Serves db env o v
    unfolding revision_at
    ready-Serves db env project o v (answer, current, revision, told) = (
      answer,
      current,
      revision
          ∙ ap (λ table. suc (revision_of (lookup env table)))
              (environments-get_or_init_schema rules.no_fields db project),
      told
          ∙ ap (λ sent. sent ++ (env, revision_at o.0 env) ∷ [])
              (notified-get_or_init_schema rules.no_fields db project),
    )

    ready_found :
        (db : Db S V R) (env project : ℕ) (e : Environment)
        → lookup env db.environments ≡ some e
        → lookup env (get_or_init_schema rules.no_fields db project).environments ≡ some e
    ready_found db env project e found =
        ap (lookup env) (environments-get_or_init_schema rules.no_fields db project) ∙ found

    handle_put_values_granted :
        (db : Db S V R) (user env : ℕ) (e : Environment) (values : GoMap V) (targeting : GoMap R)
        → authorize_env db user env "editor" ≡ granted e
        → rules.compiles (schema_of rules db e.project_id).definition ≡ true
        → rules.valid_values (schema_of rules db e.project_id).definition values ≡ true
        → rules.valid_targeting (schema_of rules db e.project_id).definition targeting ≡ true
        → (let ready = get_or_init_schema rules.no_fields db e.project_id in
            let v =
              new_version env
                (next_version_number ready env)
                (schema_of rules db e.project_id).schema_version
                values
                targeting
                user in
            handle_put_values rules db user true (some env) (some (values, targeting)) ≡ (
              published (extended ready v) user env e.project_id "values.update" ready.next_id e,
              replied v,
            ))
    unfolding handle_put_values put_values_tx
    handle_put_values_granted db user env e values targeting grant compiled good right =
        rw
          (
            grant,
            handle_put_values,
            put_values_tx,
            lock_project_schema_ready rules db e.project_id,
            save_version_done (get_or_init_schema rules.no_fields db e.project_id) user env
                e.project_id (schema_of rules db e.project_id) values targeting e
                (ready_found db env e.project_id e
                  (authorize_env_found db user env "editor" e grant))
                compiled good right,
          )
          refl

    -- A save that is accepted is served under the next number of the environment and the next
    -- revision.
    pub put_values-Serves :
        (db : Db S V R) (user env : ℕ) (e : Environment) (values : GoMap V) (targeting : GoMap R)
        → authorize_env db user env "editor" ≡ granted e
        → rules.compiles (schema_of rules db e.project_id).definition ≡ true
        → rules.valid_values (schema_of rules db e.project_id).definition values ≡ true
        → rules.valid_targeting (schema_of rules db e.project_id).definition targeting ≡ true
        → Serves db env
            (handle_put_values rules db user true (some env) (some (values, targeting)))
            (new_version env
              (next_version_number db env)
              (schema_of rules db e.project_id).schema_version
              values
              targeting
              user)
    unfolding revision_at
    put_values-Serves db user env e values targeting grant compiled good right =
        let ready = get_or_init_schema rules.no_fields db e.project_id in
        let v =
          new_version env (next_version_number ready env)
            (schema_of rules db e.project_id).schema_version values targeting user in
        rw
          (
            handle_put_values_granted db user env e values targeting grant compiled good right,
            next_version_number-ready db e.project_id env,
          )
          (ready-Serves db env e.project_id _ v (
            published-Serves (extended ready v) user env e.project_id "values.update" ready.next_id
              e v
              (ready_found db env e.project_id e (authorize_env_found db user env "editor" e grant))
              (lookup-inserted ready v)))
