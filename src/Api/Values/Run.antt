-- ===== src/Api/Values/Run.antt =====
-- internal/api: the handlers of values, versions, schemas, environments and projects that write, in
-- any order. A step is one request, with whatever caller, body and end of the commit.
use knobs.Base.{ℕ, String, ℕ_eq, Bool, true, Option}
use knobs.Assoc.{GoMap}
use knobs.Store.{Db}
use knobs.Store.Laws.{IsSound, create_environment-IsSound, get_or_init_schema-IsSound}
use knobs.Api.Values.{SchemaRules, handle_put_values, handle_put_schema, handle_rollback}
use knobs.Api.Values.Laws.{
  handle_put_values_lem, handle_rollback_lem, handle_put_schema_lem, handle_get_schema_lem,
}
use knobs.Api.Reads.{handle_get_schema}
use knobs.Api.Projects.{
  CreateProject, handle_create_environment, handle_create_project, handle_patch_project,
}
use knobs.Api.Projects.Laws.{
  handle_create_environment_lem, handle_create_project_lem, handle_patch_project_lem,
}
use knobs.Api.Values.Grows.{
  Grows, ready-Grows, settled-Grows, founded-Grows, renamed-Grows, Grows-refl, Grows-trans,
}
use knobs.Api.Values.Advances.{
  Advances, put_values_tx-Advances, put_schema_tx-Advances, rollback_tx-Advances, settled-IsSound,
  founded-IsSound, renamed-IsSound,
}

-- The flag says whether rollbacks are among the steps.
pub data Step {S V R : Type 0} (rules : SchemaRules S V R)
    : Bool → Db S V R → Db S V R → Type 0 where
  saved :
      {rolls : Bool} (db : Db S V R) (user : ℕ) (commits : Bool) (env : Option ℕ)
      (body : Option (GoMap V × GoMap R))
      → Step rules rolls db (handle_put_values rules db user commits env body).0
  schema_changed :
      {rolls : Bool} (db : Db S V R) (user : ℕ) (commits : Bool) (project : Option ℕ)
      (body : Option S)
      → Step rules rolls db (handle_put_schema rules db user commits project body).0
  environment_created :
      {rolls : Bool} (db : Db S V R) (user : ℕ) (commits : Bool) (project : Option ℕ)
      (body : Option String)
      → Step rules rolls db (handle_create_environment db user commits project body).0
  project_created :
      {rolls : Bool} (db : Db S V R) (user : ℕ) (commits : Bool) (body : Option CreateProject)
      → Step rules rolls db (handle_create_project db user commits body).0
  project_renamed :
      {rolls : Bool} (db : Db S V R) (user : ℕ) (commits : Bool) (project : Option ℕ)
      (body : Option String)
      → Step rules rolls db (handle_patch_project db user commits project body).0
  schema_read :
      {rolls : Bool} (db : Db S V R) (user : ℕ) (project : Option ℕ)
      → Step rules rolls db (handle_get_schema rules.no_fields db user project).0
  rolled_back :
      (db : Db S V R) (user : ℕ) (commits : Bool) (env : Option ℕ) (body : Option (Option ℕ))
      → Step rules true db (handle_rollback db user commits env body).0

pub data Run {S V R : Type 0} (rules : SchemaRules S V R)
    : Bool → Db S V R → Db S V R → Type 0 where
  stay : {rolls : Bool} (db : Db S V R) → Run rules rolls db db
  next :
      {rolls : Bool} {before during after : Db S V R}
      → Run rules rolls before during
      → Step rules rolls during after
      → Run rules rolls before after

module _ {S V R : Type 0} (rules : SchemaRules S V R) where
  pub Step-Advances :
      (rolls : Bool) (before after : Db S V R)
      → Step rules rolls before after
      → IsSound before
      → Advances before after
  Step-Advances rolls before after (saved db user commits env body) sound =
      handle_put_values_lem rules (λ o. Advances db o.0) db user commits env body
        (λ status. (sound, Grows-refl db))
        (λ i e values targeting found.
          put_values_tx-Advances rules db user i e values targeting sound found)
  Step-Advances rolls before after (schema_changed db user commits project body) sound =
      handle_put_schema_lem rules (λ o. Advances db o.0) db user commits project body
        (λ status. (sound, Grows-refl db))
        (λ p d usable. put_schema_tx-Advances rules db user p d sound)
  Step-Advances rolls before after (environment_created db user commits project body) sound =
      handle_create_environment_lem (λ o. Advances db o.0) db user commits project body
        (λ status. (sound, Grows-refl db))
        (λ p role name grant fine free. (
          settled-IsSound db user p name (create_environment-IsSound db p name sound),
          settled-Grows db user p name sound,
        ))
  Step-Advances rolls before after (project_created db user commits body) sound =
      handle_create_project_lem (λ o. Advances db o.0) db user commits body
        (λ status. (sound, Grows-refl db))
        (λ org role name slug grant fine free.
          (founded-IsSound db user org name slug sound, founded-Grows db user org name slug))
  Step-Advances rolls before after (project_renamed db user commits project body) sound =
      handle_patch_project_lem (λ o. Advances db o.0) db user commits project body
        (λ status. (sound, Grows-refl db))
        (λ i role name p grant found.
          (renamed-IsSound db user i p name sound, renamed-Grows db user i p name))
  Step-Advances rolls before after (schema_read db user project) sound =
      handle_get_schema_lem rules (λ d. Advances db d) db user project (sound, Grows-refl db)
        (λ p.
          (get_or_init_schema-IsSound rules.no_fields db p sound, ready-Grows rules.no_fields db p))
  Step-Advances rolls before after (rolled_back db user commits env body) sound =
      handle_rollback_lem (λ o. Advances db o.0) db user commits env body
        (λ status. (sound, Grows-refl db))
        (λ i number e found. rollback_tx-Advances db user i number e sound found)

  -- Whatever requests are made, in whatever order, the tables stay sound, every version ever
  -- saved stays as it is, and no environment's revision falls.
  pub Run-IsSound :
      (rolls : Bool) (before after : Db S V R)
      → Run rules rolls before after
      → IsSound before
      → IsSound after × Grows before after
  Run-IsSound rolls before after (stay db) sound = (sound, Grows-refl db)
  Run-IsSound rolls before after (next run step) sound =
      let first = Run-IsSound rolls before _ run sound in
      let last = Step-Advances rolls _ after step first.0 in
      (last.0, Grows-trans before _ after first.1 last.1)
