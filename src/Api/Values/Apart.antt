-- ===== src/Api/Values/Apart.antt =====
-- internal/api: the handlers of values, schemas, environments and projects, as against the memberships.
use knobs.Base.{ℕ, ◌≡◌, refl, ℕ_eq, true}
use knobs.Store.{get_or_init_schema, Db, update_schema, record_audit, notify, create_environment}
use knobs.Store.Schemas.{members-get_or_init_schema, api_keys-get_or_init_schema}
use knobs.Api.Values.{SchemaRules}
use knobs.Api.Values.Laws.{
  put_values_tx_lem, rollback_tx_lem, put_schema_tx_lem, handle_put_values_lem, handle_rollback_lem,
  handle_put_schema_lem, handle_get_schema_lem,
}
use knobs.Api.Values.Run.{
  Step, saved, schema_changed, environment_created, project_created, project_renamed, schema_read,
  rolled_back,
}
use knobs.Api.Projects.Laws.{
  handle_create_environment_lem, handle_create_project_lem, handle_patch_project_lem,
}

module _ {S V R : Type 0} where
  abbrev pub IsApart : Db S V R → Db S V R → Type 0
  IsApart before after = (after.members ≡ before.members) × (after.api_keys ≡ before.api_keys)

  ready-IsApart :
      (definition : S) (db : Db S V R) (project : ℕ)
      → IsApart db (get_or_init_schema definition db project)
  ready-IsApart definition db project = (
    members-get_or_init_schema definition db project,
    api_keys-get_or_init_schema definition db project,
  )

  pub Step-IsApart :
      (rules : SchemaRules S V R) (before after : Db S V R)
      → Step rules true before after
      → IsApart before after
  unfolding create_environment record_audit update_schema notify
  Step-IsApart rules before after (saved db user commits env body) =
      handle_put_values_lem rules (λ o. IsApart db o.0) db user commits env body
        (λ status. (refl, refl))
        (λ i e values targeting found.
          put_values_tx_lem rules (λ after v. IsApart db after) db user i values targeting e found
            (λ good right. ready-IsApart rules.no_fields db e.project_id))
  Step-IsApart rules before after (schema_changed db user commits project body) =
      handle_put_schema_lem rules (λ o. IsApart db o.0) db user commits project body
        (λ status. (refl, refl))
        (λ p d usable.
          put_schema_tx_lem rules (λ after d. IsApart db after) db user p d
            (λ safe. ready-IsApart rules.no_fields db p))
  Step-IsApart rules before after (environment_created db user commits project body) =
      handle_create_environment_lem (λ o. IsApart db o.0) db user commits project body
        (λ status. (refl, refl)) (λ p role name grant fine free. (refl, refl))
  Step-IsApart rules before after (project_created db user commits body) =
      handle_create_project_lem (λ o. IsApart db o.0) db user commits body (λ status. (refl, refl))
        (λ org role name slug grant fine free. (refl, refl))
  Step-IsApart rules before after (project_renamed db user commits project body) =
      handle_patch_project_lem (λ o. IsApart db o.0) db user commits project body
        (λ status. (refl, refl)) (λ i role name p grant found. (refl, refl))
  Step-IsApart rules before after (schema_read db user project) =
      handle_get_schema_lem rules (λ d. IsApart db d) db user project (refl, refl)
        (λ p. ready-IsApart rules.no_fields db p)
  Step-IsApart rules before after (rolled_back db user commits env body) =
      handle_rollback_lem (λ o. IsApart db o.0) db user commits env body (λ status. (refl, refl))
        (λ i number e found.
          rollback_tx_lem (λ after v. IsApart db after) db user i number e found
            (λ row present. (refl, refl)))
