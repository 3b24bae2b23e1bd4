-- ===== src/Api/Projects/Visible.antt =====
-- internal/api/projects_handlers.go: the projects that are listed are those that can be read.
use knobs.Base.{
  ◌≡◌, refl, ◌∙◌, ap, sym, ℕ, ℕ_eq, String, String_eq, true, Option, none, some, [], ◌∷◌, is_some,
  if◌then◌else◌, nat_eq_iff, arith, Option-cases, inl, inr,
}
use knobs.Assoc.{Assoc, lookup, IsMap}
use knobs.Authz.{rank, at_least, valid_role}
use knobs.Store.{Db, Project, member_role}
use knobs.Store.Projects.{joined_projects, list_projects_for_user}
use knobs.Api.Access.{not_found, authorize_org}
use knobs.Api.Projects.{project_granted, handle_get_project, handle_list_projects}
use knobs.Api.Values.{Reply, refused, replied}

known_viewer : (role : String) → valid_role role ≡ true → at_least role "viewer" ≡ true
unfolding at_least rank valid_role
known_viewer role h = ground arith

abbrev pub found_or_not : {A : Type 0} → Option A → Reply A
found_or_not none = refused not_found
found_or_not (some a) = replied a

module _ {S V R : Type 0} where
  -- Every membership has one of the four roles, as the table's CHECK has it.
  abbrev pub HasRoles : Db S V R → Type 0
  HasRoles db =
      (org user : ℕ) (role : String) → member_role db org user ≡ some role → valid_role role ≡ true

  -- What a project is to one who is asked about it.
  abbrev pub seen : Db S V R → ℕ → Option Project → Option Project
  seen db user none = none
  seen db user (some p) = if is_some (member_role db p.organization_id user) then some p else none

  joined_projects-none :
      (db : Db S V R) (user id : ℕ) (projects : Assoc ℕ Project)
      → lookup id projects ≡ none
      → lookup id (joined_projects db user projects) ≡ none
  unfolding joined_projects lookup
  joined_projects-none db user id [] h = refl
  joined_projects-none db user id ((j, p) ∷ projects) h =
      ground (arith, joined_projects-none db user id projects)

  lookup-joined_projects :
      (db : Db S V R) (user id : ℕ) (projects : Assoc ℕ Project)
      → IsMap projects
      → lookup id (joined_projects db user projects) ≡ seen db user (lookup id projects)
  unfolding joined_projects lookup
  lookup-joined_projects db user id [] h = refl
  lookup-joined_projects db user id ((j, p) ∷ projects) h = ground (
    arith,
    lookup-joined_projects db user id projects,
    joined_projects-none db user id projects,
    nat_eq_iff j id,
  )

  get_project-seen :
      (db : Db S V R) (user id : ℕ)
      → HasRoles db
      → handle_get_project db user (some id) ≡ found_or_not (seen db user (lookup id db.projects))
  unfolding handle_get_project project_granted authorize_org
  get_project-seen db user id roles = elim (Option-cases (lookup id db.projects)) [
    | inl absent ↦ rw (absent, handle_get_project, project_granted) refl
    | inr (p, found) ↦ elim (Option-cases (member_role db p.organization_id user)) [
      | inl out ↦ rw (found, handle_get_project, project_granted, authorize_org, out) refl
      | inr (role, has) ↦
          let enough = known_viewer role (roles p.organization_id user role has) in
          rw (found, handle_get_project, project_granted, authorize_org, has, enough) refl
    ]
  ]

  -- Where every membership has one of the four roles, handleListProjects lists, under each id, the
  -- project that handleGetProject answers that id with, and nothing where that does not find one.
  pub list_projects-get_project :
      (db : Db S V R) (user : ℕ)
      → IsMap db.projects
      → HasRoles db
      → (listed : Assoc ℕ Project) × (handle_list_projects db user ≡ replied listed)
        × ((id : ℕ) → handle_get_project db user (some id) ≡ found_or_not (lookup id listed))
  unfolding handle_list_projects list_projects_for_user
  list_projects-get_project db user is_map roles = (
    joined_projects db user db.projects,
    refl,
    λ id.
        get_project-seen db user id roles
        ∙ ap found_or_not (sym (lookup-joined_projects db user id db.projects is_map)),
  )
