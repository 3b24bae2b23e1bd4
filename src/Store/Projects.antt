-- ===== src/Store/Projects.antt =====
-- internal/store/projects.go and environments.go: the rows of projects and environments. What a
-- UNIQUE constraint refuses is `none`, and so is a row that is not there. Rows stand in the order in
-- which they were created, which is that of the listings.
use knobs.Base.{
  ℕ, suc, String, String_eq, ℕ_eq, Option, none, some, [], ◌∷◌, if◌then◌else◌, ◌==◌, ◌&&◌, nat_eq,
  is_some,
}
use knobs.Assoc.{Assoc, lookup, insert}
use knobs.Store.{Db, Environment, Project, member_role, create_environment}

-- The row that has the slug, which `UNIQUE (slug)` allows one of.
unfoldable pub find_project : String → Assoc ℕ Project → Option ℕ
find_project slug [] = none
find_project slug ((id, p) ∷ projects) =
    if p.slug == slug then some id else find_project slug projects

-- The row of a project that has the name, which `UNIQUE (project_id, name)` allows one of.
unfoldable pub find_environment : ℕ → String → Assoc ℕ Environment → Option ℕ
find_environment project name [] = none
find_environment project name ((id, e) ∷ environments) =
    if nat_eq e.project_id project && e.name == name
    then some id
    else find_environment project name environments

-- `WHERE project_id = $1`, over the rows
unfoldable pub environments_of : ℕ → Assoc ℕ Environment → Assoc ℕ Environment
environments_of project [] = []
environments_of project ((id, e) ∷ environments) =
    let rest = environments_of project environments in
    if nat_eq e.project_id project then (id, e) ∷ rest else rest

module _ {S V R : Type 0} where
  -- The new row's id comes with it.
  unfoldable pub create_project : Db S V R → ℕ → String → String → Option (Db S V R × ℕ)
  unfolding find_project
  create_project db org name slug = elim (find_project slug db.projects) [
    | some id ↦ none
    | none ↦ some (
      record db {
        projects =
            insert db.next_id (record { organization_id = org; name = name; slug = slug })
              db.projects;
        next_id = suc db.next_id;
      },
      db.next_id,
    )
  ]

  unfoldable pub update_project_name : Db S V R → ℕ → String → Option (Db S V R × Project)
  update_project_name db id name = elim (lookup id db.projects) [
    | none ↦ none
    | some p ↦ some (
      record db { projects = insert id (record p { name = name }) db.projects },
      record p { name = name },
    )
  ]

  -- The rows joined with the memberships of the user.
  unfoldable pub joined_projects : Db S V R → ℕ → Assoc ℕ Project → Assoc ℕ Project
  joined_projects db user [] = []
  joined_projects db user ((id, p) ∷ projects) =
      let rest = joined_projects db user projects in
      if is_some (member_role db p.organization_id user) then (id, p) ∷ rest else rest

  unfoldable pub list_projects_for_user : Db S V R → ℕ → Assoc ℕ Project
  list_projects_for_user db user = joined_projects db user db.projects

  -- `CreateEnvironment`, with the constraint.
  unfoldable pub insert_environment : Db S V R → ℕ → String → Option (Db S V R × ℕ)
  unfolding find_environment
  insert_environment db project name = elim (find_environment project name db.environments) [
    | some id ↦ none
    | none ↦ some (create_environment db project name, db.next_id)
  ]

  unfoldable pub list_environments : Db S V R → ℕ → Assoc ℕ Environment
  list_environments db project = environments_of project db.environments
