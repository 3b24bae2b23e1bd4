-- ===== src/Api/Projects/Laws.antt =====
-- internal/api/projects_handlers.go and environments_handlers.go: how the handlers that write end.
-- The tables are as they were, or a row has passed the checks.
use knobs.Base.{
  ◌≡◌, ℕ, suc, String, String_eq, ℕ_eq, Bool, true, false, Option, none, some, not, ◌==◌, ◌||◌, inl,
  inr, Bool-cases, Option-cases, arith,
}
use knobs.Assoc.{lookup, insert}
use knobs.Store.{Db, Project, record_audit, create_environment}
use knobs.Store.Projects.{
  find_project, find_environment, create_project, update_project_name, insert_environment,
}
use knobs.Api.Access.{Status, bad_request, unprocessable, granted, authorize_org, authorize_project}
use knobs.Api.Values.{Reply, refused, replied}
use knobs.Api.Values.Transactions.{Ends, with_tx_lem, Access-cases}
use knobs.Api.Projects.{
  CreateProject, matches_slug, create_project_tx, create_project_in, handle_create_project,
  rename_tx, handle_patch_project, create_environment_tx, handle_create_environment,
}

-- A name or a slug that passes the test.
passed :
    (name slug : String)
    → (name == "" || not (matches_slug slug)) ≡ false
    → matches_slug slug ≡ true
passed name slug h = ground arith

module _ {S V R : Type 0} where
  -- The tables with a new project, with one of another name, and with a new environment.
  abbrev pub founded : Db S V R → ℕ → ℕ → String → String → Db S V R
  founded db user org name slug =
      record_audit
        (record db {
          projects =
              insert db.next_id (record { organization_id = org; name = name; slug = slug })
                db.projects;
          next_id = suc db.next_id;
        })
        (some db.next_id) user "project.create" db.next_id

  abbrev pub renamed : Db S V R → ℕ → ℕ → Project → String → Db S V R
  renamed db user project p name =
      record_audit (record db { projects = insert project (record p { name = name }) db.projects })
        (some project) user "project.rename" project

  abbrev pub settled : Db S V R → ℕ → ℕ → String → Db S V R
  settled db user project name =
      record_audit (create_environment db project name) (some project) user "environment.create"
        db.next_id

  create_project_tx_lem :
      (P : Db S V R → ℕ × String × String → Type 0)
      → (db : Db S V R) (user org : ℕ) (name slug : String)
      → (find_project slug db.projects ≡ none
          → P (founded db user org name slug) (db.next_id, name, slug))
      → Ends P (create_project_tx db user org name slug)
  unfolding create_project_tx create_project
  create_project_tx_lem P db user org name slug p =
      elim (Option-cases (find_project slug db.projects)) [
        | inl free ↦ rw (free, create_project, create_project_tx) (p free)
        | inr (id, taken) ↦ rw (taken, create_project, create_project_tx) tt
      ]

  create_project_in_lem :
      (Q : Db S V R × Reply (ℕ × String × String) → Type 0)
      → (db : Db S V R) (user : ℕ) (commits : Bool) (id : Option ℕ) (name slug : String)
      → ((status : Status) → Q (db, refused status))
      → ((org : ℕ) (role : String)
          → authorize_org db user org "admin" ≡ granted role
          → find_project slug db.projects ≡ none
          → Q (founded db user org name slug, replied (db.next_id, name, slug)))
      → Q (create_project_in db user commits id name slug)
  unfolding create_project_in
  create_project_in_lem Q db user commits none name slug before after = before unprocessable
  create_project_in_lem Q db user commits (some org) name slug before after =
      elim (Access-cases (authorize_org db user org "admin")) [
        | inl (status, refusal) ↦ rw (refusal, create_project_in) (before status)
        | inr (role, grant) ↦
            rw (grant, create_project_in)
              (with_tx_lem Q db commits (create_project_tx db user org name slug) before (
                create_project_tx_lem (λ d r. Q (d, replied r)) db user org name slug
                  (after org role grant)))
      ]

  pub handle_create_project_lem :
      (Q : Db S V R × Reply (ℕ × String × String) → Type 0)
      → (db : Db S V R) (user : ℕ) (commits : Bool) (body : Option CreateProject)
      → ((status : Status) → Q (db, refused status))
      → ((org : ℕ) (role name slug : String)
          → authorize_org db user org "admin" ≡ granted role
          → matches_slug slug ≡ true
          → find_project slug db.projects ≡ none
          → Q (founded db user org name slug, replied (db.next_id, name, slug)))
      → Q (handle_create_project db user commits body)
  unfolding handle_create_project
  handle_create_project_lem Q db user commits none before after = before bad_request
  handle_create_project_lem Q db user commits (some req) before after =
      elim (Bool-cases (req.name == "" || not (matches_slug req.slug))) [
        | inl bad ↦ rw (bad, handle_create_project) (before unprocessable)
        | inr good ↦
            rw (good, handle_create_project)
              (create_project_in_lem Q db user commits req.organization_id req.name req.slug before
                (λ org role grant.
                  after org role req.name req.slug grant (passed req.name req.slug good)))
      ]

  pub rename_tx_lem :
      (P : Db S V R → Project → Type 0)
      → (db : Db S V R) (user project : ℕ) (name : String)
      → ((p : Project)
          → lookup project db.projects ≡ some p
          → P (renamed db user project p name) (record p { name = name }))
      → Ends P (rename_tx db user project name)
  unfolding rename_tx update_project_name
  rename_tx_lem P db user project name h = elim (Option-cases (lookup project db.projects)) [
    | inl absent ↦ rw (absent, update_project_name, rename_tx) tt
    | inr (p, found) ↦ rw (found, update_project_name, rename_tx) (h p found)
  ]

  pub handle_patch_project_lem :
      (Q : Db S V R × Reply Project → Type 0)
      → (db : Db S V R) (user : ℕ) (commits : Bool) (id : Option ℕ) (body : Option String)
      → ((status : Status) → Q (db, refused status))
      → ((project : ℕ) (role name : String) (p : Project)
          → authorize_project db user project "admin" ≡ granted role
          → lookup project db.projects ≡ some p
          → Q (renamed db user project p name, replied (record p { name = name })))
      → Q (handle_patch_project db user commits id body)
  unfolding handle_patch_project
  handle_patch_project_lem Q db user commits none body before after = before bad_request
  handle_patch_project_lem Q db user commits (some project) none before after = before bad_request
  handle_patch_project_lem Q db user commits (some project) (some name) before after =
      elim (Bool-cases (name == "")) [
        | inl bad ↦ rw (bad, handle_patch_project) (before unprocessable)
        | inr good ↦ elim (Access-cases (authorize_project db user project "admin")) [
          | inl (status, refusal) ↦ rw (good, refusal, handle_patch_project) (before status)
          | inr (role, grant) ↦
              rw (good, grant, handle_patch_project)
                (with_tx_lem Q db commits (rename_tx db user project name) before (
                  rename_tx_lem (λ d r. Q (d, replied r)) db user project name
                    (λ p found. after project role name p grant found)))
        ]
      ]

  pub create_environment_tx_lem :
      (P : Db S V R → ℕ × String → Type 0)
      → (db : Db S V R) (user project : ℕ) (name : String)
      → (find_environment project name db.environments ≡ none
          → P (settled db user project name) (db.next_id, name))
      → Ends P (create_environment_tx db user project name)
  unfolding create_environment_tx insert_environment
  create_environment_tx_lem P db user project name p =
      elim (Option-cases (find_environment project name db.environments)) [
        | inl free ↦ rw (free, insert_environment, create_environment_tx) (p free)
        | inr (id, taken) ↦ rw (taken, insert_environment, create_environment_tx) tt
      ]

  pub handle_create_environment_lem :
      (Q : Db S V R × Reply (ℕ × String) → Type 0)
      → (db : Db S V R) (user : ℕ) (commits : Bool) (id : Option ℕ) (body : Option String)
      → ((status : Status) → Q (db, refused status))
      → ((project : ℕ) (role name : String)
          → authorize_project db user project "admin" ≡ granted role
          → matches_slug name ≡ true
          → find_environment project name db.environments ≡ none
          → Q (settled db user project name, replied (db.next_id, name)))
      → Q (handle_create_environment db user commits id body)
  unfolding handle_create_environment
  handle_create_environment_lem Q db user commits none body before after = before bad_request
  handle_create_environment_lem Q db user commits (some project) none before after =
      before bad_request
  handle_create_environment_lem Q db user commits (some project) (some name) before after =
      elim (Bool-cases (name == "" || not (matches_slug name))) [
        | inl bad ↦ rw (bad, handle_create_environment) (before unprocessable)
        | inr good ↦ elim (Access-cases (authorize_project db user project "admin")) [
          | inl (status, refusal) ↦ rw (good, refusal, handle_create_environment) (before status)
          | inr (role, grant) ↦
              rw (good, grant, handle_create_environment)
                (with_tx_lem Q db commits (create_environment_tx db user project name) before (
                  create_environment_tx_lem (λ d r. Q (d, replied r)) db user project name
                    (after project role name grant (passed name name good))))
        ]
      ]
