-- ===== src/Api/Values/Usable.antt =====
-- internal/api/schema_handlers.go: the schemas that are stored have been accepted.
use knobs.Base.{◌≡◌, ℕ, String, ℕ_eq, Bool, true, some, ◌&&◌, nat_eq_iff, arith}
use knobs.Assoc.{lookup, lookup-insert}
use knobs.Store.{
  Db, Environment, get_or_init_schema, update_schema, record_audit, notify, create_environment,
  bumped, next_version_number,
}
use knobs.Store.Laws.{extended, new_version}
use knobs.Store.Schemas.{lookup-get_or_init_schema}
use knobs.Api.Values.{SchemaRules}
use knobs.Api.Values.Transactions.{published}
use knobs.Api.Values.Laws.{
  schema_of, put_values_tx_lem, rollback_tx_lem, put_schema_tx_lem, handle_put_values_lem,
  handle_rollback_lem, handle_put_schema_lem, handle_get_schema_lem,
}
use knobs.Api.Values.Run.{
  Step, saved, schema_changed, environment_created, project_created, project_renamed, schema_read,
  rolled_back, Run, stay, next,
}
use knobs.Api.Projects.Laws.{
  handle_create_environment_lem, handle_create_project_lem, handle_patch_project_lem,
}

module _ {S V R : Type 0} (rules : SchemaRules S V R) where
  -- The schema of every project, the default one included, has been accepted.
  abbrev pub AreUsable : Db S V R → Type 0
  AreUsable db =
      (project : ℕ)
      → (rules.well_formed (schema_of rules db project).definition
          && rules.compiles (schema_of rules db project).definition)
        ≡ true

  AreUsable-ready :
      (db : Db S V R) (project : ℕ)
      → AreUsable db
      → AreUsable (get_or_init_schema rules.no_fields db project)
  AreUsable-ready db project h j =
      rw (lookup-get_or_init_schema rules.no_fields db project j)
        (ground (arith, h j, h project, nat_eq_iff project j))

  AreUsable-published :
      (db : Db S V R) (user env project : ℕ) (action : String) (id : ℕ) (e : Environment)
      → AreUsable db
      → AreUsable (published db user env project action id e)
  unfolding notify record_audit
  AreUsable-published db user env project action id e h j = h j

  AreUsable-update_schema :
      (db : Db S V R) (user project : ℕ) (d : S)
      → AreUsable db
      → (rules.well_formed d && rules.compiles d) ≡ true
      → AreUsable
          (record_audit (update_schema db project d) (some project) user "schema.update" project)
  unfolding record_audit update_schema
  AreUsable-update_schema db user project d h usable j =
      rw
        (lookup-insert project j
          (record { definition = d; schema_version = bumped (lookup project db.schemas) })
          db.schemas)
        (ground (arith, h j, usable))

  Step-AreUsable :
      (rolls : Bool) (before after : Db S V R)
      → Step rules rolls before after
      → AreUsable before
      → AreUsable after
  unfolding create_environment record_audit
  Step-AreUsable rolls before after (saved db user commits env body) h =
      handle_put_values_lem rules (λ o. AreUsable o.0) db user commits env body (λ status. h)
        (λ i e values targeting found.
          put_values_tx_lem rules (λ after v. AreUsable after) db user i values targeting e found
            (λ good right.
              AreUsable-published
                (extended (get_or_init_schema rules.no_fields db e.project_id) (
                  new_version i
                    (next_version_number (get_or_init_schema rules.no_fields db e.project_id) i)
                    (schema_of rules db e.project_id).schema_version values targeting user))
                user i e.project_id "values.update"
                (get_or_init_schema rules.no_fields db e.project_id).next_id e
                (AreUsable-ready db e.project_id h)))
  Step-AreUsable rolls before after (schema_changed db user commits project body) h =
      handle_put_schema_lem rules (λ o. AreUsable o.0) db user commits project body (λ status. h)
        (λ p d usable.
          put_schema_tx_lem rules (λ after d. AreUsable after) db user p d
            (λ safe.
              AreUsable-update_schema (get_or_init_schema rules.no_fields db p) user p d
                (AreUsable-ready db p h) usable))
  Step-AreUsable rolls before after (environment_created db user commits project body) h =
      handle_create_environment_lem (λ o. AreUsable o.0) db user commits project body (λ status. h)
        (λ p role name grant fine free. h)
  Step-AreUsable rolls before after (project_created db user commits body) h =
      handle_create_project_lem (λ o. AreUsable o.0) db user commits body (λ status. h)
        (λ org role name slug grant fine free. h)
  Step-AreUsable rolls before after (project_renamed db user commits project body) h =
      handle_patch_project_lem (λ o. AreUsable o.0) db user commits project body (λ status. h)
        (λ i role name p grant found. h)
  Step-AreUsable rolls before after (schema_read db user project) h =
      handle_get_schema_lem rules AreUsable db user project h (λ p. AreUsable-ready db p h)
  Step-AreUsable rolls before after (rolled_back db user commits env body) h =
      handle_rollback_lem (λ o. AreUsable o.0) db user commits env body (λ status. h)
        (λ i number e found.
          rollback_tx_lem (λ after v. AreUsable after) db user i number e found
            (λ row present. AreUsable-published db user i e.project_id "values.rollback" row.0 e h))

  -- Whatever requests are made, every schema is one that has been accepted.
  pub Run-AreUsable :
      (rolls : Bool) (before after : Db S V R)
      → Run rules rolls before after
      → AreUsable before
      → AreUsable after
  Run-AreUsable rolls before after (stay db) h = h
  Run-AreUsable rolls before after (next run step) h =
      Step-AreUsable rolls _ after step (Run-AreUsable rolls before _ run h)
