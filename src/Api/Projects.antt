-- ===== src/Api/Projects.antt =====
-- internal/api/projects_handlers.go and environments_handlers.go. An id that does not parse and a
-- body that does not decode are `none`, and so is the nil UUID of an organization.
pub mod Laws
pub mod Visible
pub mod Named
use knobs.Base.{
  ℕ, String, String_eq, Bool, true, false, Option, none, some, List, [], ◌∷◌, if◌then◌else◌, not,
  ◌==◌, ◌&&◌, ◌||◌, nat_eq,
}
use knobs.Base.Text.{Text, codes, between}
use knobs.Assoc.{Assoc, lookup}
use knobs.Base.{ℕ_eq}
use knobs.Store.{Db, Environment, Project, record_audit}
use knobs.Store.Projects.{
  create_project, update_project_name, list_projects_for_user, insert_environment,
  list_environments,
}
use knobs.Api.Access.{
  Status, bad_request, not_found, conflict, unprocessable, Access, denied, granted, authorize_org,
  authorize_project, authorize_env,
}
use knobs.Api.Values.{Outcome, failed, done, Reply, refused, replied, with_tx}

-- The class `[a-z0-9-]`.
abbrev pub is_slug_char : ℕ → Bool
is_slug_char c = between b'a' b'z' c || between b'0' b'9' c || nat_eq c b'-'

unfoldable pub all_slug_chars : Text → Bool
all_slug_chars [] = true
all_slug_chars (c ∷ t) = is_slug_char c && all_slug_chars t

-- `slugRe`, `^[a-z0-9-]+$`
unfoldable pub matches_slug : String → Bool
matches_slug s = not (s == "") && all_slug_chars (codes s)

-- The body of `handleCreateProject`, with the nil UUID as `none`.
pub record CreateProject : Type 0 where
  pub name : String
  pub slug : String
  pub organization_id : Option ℕ

module _ {S V R : Type 0} where
  -- `authorizeProject` hands out the row as well.
  unfoldable pub project_granted : Db S V R → ℕ → ℕ → String → Access Project
  project_granted db user project least = elim (lookup project db.projects) [
    | none ↦ denied not_found
    | some p ↦ elim (authorize_org db user p.organization_id least) [
      | denied status ↦ denied status
      | granted role ↦ granted p
    ]
  ]

  unfoldable pub create_project_tx :
      Db S V R → ℕ → ℕ → String → String → Outcome (Db S V R) (ℕ × String × String)
  create_project_tx db user org name slug = elim (create_project db org name slug) [
    | none ↦ failed conflict
    | some made ↦
        done (record_audit made.0 (some made.1) user "project.create" made.1) (made.1, name, slug)
  ]

  -- The checks behind those of the name and of the slug.
  unfoldable pub create_project_in :
      Db S V R → ℕ → Bool → Option ℕ → String → String → Db S V R × Reply (ℕ × String × String)
  create_project_in db user commits none name slug = (db, refused unprocessable)
  create_project_in db user commits (some org) name slug =
      elim (authorize_org db user org "admin") [
        | denied status ↦ (db, refused status)
        | granted role ↦ with_tx db commits (create_project_tx db user org name slug)
      ]

  unfoldable pub handle_create_project :
      Db S V R → ℕ → Bool → Option CreateProject → Db S V R × Reply (ℕ × String × String)
  unfolding matches_slug
  handle_create_project db user commits none = (db, refused bad_request)
  handle_create_project db user commits (some req) =
      if req.name == "" || not (matches_slug req.slug)
      then (db, refused unprocessable)
      else create_project_in db user commits req.organization_id req.name req.slug

  unfoldable pub handle_list_projects : Db S V R → ℕ → Reply (Assoc ℕ Project)
  handle_list_projects db user = replied (list_projects_for_user db user)

  unfoldable pub handle_get_project : Db S V R → ℕ → Option ℕ → Reply Project
  handle_get_project db user none = refused bad_request
  handle_get_project db user (some project) = elim (project_granted db user project "viewer") [
    | denied status ↦ refused status
    | granted p ↦ replied p
  ]

  unfoldable pub rename_tx : Db S V R → ℕ → ℕ → String → Outcome (Db S V R) Project
  rename_tx db user project name = elim (update_project_name db project name) [
    | none ↦ failed not_found
    | some renamed ↦
        done (record_audit renamed.0 (some project) user "project.rename" project) renamed.1
  ]

  unfoldable pub handle_patch_project :
      Db S V R → ℕ → Bool → Option ℕ → Option String → Db S V R × Reply Project
  handle_patch_project db user commits none body = (db, refused bad_request)
  handle_patch_project db user commits (some project) none = (db, refused bad_request)
  handle_patch_project db user commits (some project) (some name) =
      if name == ""
      then (db, refused unprocessable)
      else elim (authorize_project db user project "admin") [
        | denied status ↦ (db, refused status)
        | granted role ↦ with_tx db commits (rename_tx db user project name)
      ]

  unfoldable pub create_environment_tx : Db S V R → ℕ → ℕ → String → Outcome (Db S V R) (ℕ × String)
  create_environment_tx db user project name = elim (insert_environment db project name) [
    | none ↦ failed conflict
    | some made ↦
        done (record_audit made.0 (some project) user "environment.create" made.1) (made.1, name)
  ]

  unfoldable pub handle_create_environment :
      Db S V R → ℕ → Bool → Option ℕ → Option String → Db S V R × Reply (ℕ × String)
  unfolding matches_slug
  handle_create_environment db user commits none body = (db, refused bad_request)
  handle_create_environment db user commits (some project) none = (db, refused bad_request)
  handle_create_environment db user commits (some project) (some name) =
      if name == "" || not (matches_slug name)
      then (db, refused unprocessable)
      else elim (authorize_project db user project "admin") [
        | denied status ↦ (db, refused status)
        | granted role ↦ with_tx db commits (create_environment_tx db user project name)
      ]

  unfoldable pub handle_list_environments : Db S V R → ℕ → Option ℕ → Reply (Assoc ℕ Environment)
  handle_list_environments db user none = refused bad_request
  handle_list_environments db user (some project) =
      elim (authorize_project db user project "viewer") [
        | denied status ↦ refused status
        | granted role ↦ replied (list_environments db project)
      ]

  unfoldable pub handle_get_environment : Db S V R → ℕ → Option ℕ → Reply Environment
  handle_get_environment db user none = refused bad_request
  handle_get_environment db user (some env) = elim (authorize_env db user env "viewer") [
    | denied status ↦ refused status
    | granted e ↦ replied e
  ]
