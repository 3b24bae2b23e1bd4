-- ===== src/Api/Projects/Named.antt =====
-- internal/api: the names of projects and environments, whatever the handlers that write do.
use knobs.Base.{
  ◌≡◌, refl, ◌≢◌, ap, sym, ◌∙◌, ℕ, String, String_eq, ℕ_eq, Bool, true, none, some, [], ◌∷◌,
  is_some, eq_iff, nat_eq_iff, arith, Option-cases, inl, inr,
}
use knobs.Assoc.{Assoc, lookup, insert, lookup-insert}
use knobs.Store.{
  Db, Environment, Project, create_environment, get_or_init_schema, update_schema, record_audit,
  notify, next_version_number,
}
use knobs.Store.Laws.{new_environment, extended, new_version}
use knobs.Store.Keyed.{AllRows, IsUnique, insert-AllRows, insert_new-IsUnique, insert_kept-IsUnique}
use knobs.Store.Projects.{find_project, find_environment}
use knobs.Store.Schemas.{environments-get_or_init_schema, projects-get_or_init_schema}
use knobs.Api.Access.{granted, authorize_project}
use knobs.Api.Projects.{matches_slug}
use knobs.Api.Projects.Laws.{
  handle_create_environment_lem, handle_create_project_lem, handle_patch_project_lem,
}
use knobs.Api.Values.{SchemaRules}
use knobs.Api.Values.Transactions.{published}
use knobs.Api.Values.Laws.{
  schema_of, put_values_tx_lem, rollback_tx_lem, put_schema_tx_lem, handle_put_values_lem,
  handle_rollback_lem, handle_put_schema_lem, handle_get_schema_lem,
}
use knobs.Api.Values.Run.{
  Step, saved, schema_changed, environment_created, project_created, project_renamed, schema_read,
  rolled_back, Run, stay, next,
}

-- The name of an environment, with its project.
abbrev pub place : Environment → ℕ × String
place e = (e.project_id, e.name)

-- Slugs and names are as `slugRe` has them; no two projects have the same slug, nor two
-- environments of a project the same name; and every environment's project is there.
pub record AreNamed (projects : Assoc ℕ Project) (environments : Assoc ℕ Environment) : Type 0 where
  pub slugs : AllRows (λ p. matches_slug p.slug) projects
  pub names : AllRows (λ e. matches_slug e.name) environments
  pub slug_once : IsUnique (λ p. p.slug) projects
  pub name_once : IsUnique place environments
  pub parents : AllRows (λ e. is_some (lookup e.project_id projects)) environments

find_project-none :
    (slug : String) (projects : Assoc ℕ Project) (id : ℕ) (p : Project)
    → find_project slug projects ≡ none
    → lookup id projects ≡ some p
    → p.slug ≢ slug
unfolding find_project lookup
find_project-none slug [] id p free found same = ground arith
find_project-none slug ((j, q) ∷ projects) id p free found same =
    ground (arith, find_project-none slug projects id p, eq_iff q.slug slug)

find_environment-none :
    (project : ℕ) (name : String) (environments : Assoc ℕ Environment) (id : ℕ) (e : Environment)
    → find_environment project name environments ≡ none
    → lookup id environments ≡ some e
    → e.project_id ≡ project
    → e.name ≢ name
unfolding find_environment lookup
find_environment-none project name [] id e free found here same = ground arith
find_environment-none project name ((j, f) ∷ environments) id e free found here same = ground (
  arith,
  find_environment-none project name environments id e,
  eq_iff f.name name,
  nat_eq_iff f.project_id project,
)

-- A project whose slug is free, another name of a project, and the environments below them.
founded-AreNamed :
    (projects : Assoc ℕ Project) (environments : Assoc ℕ Environment) (id : ℕ) (p : Project)
    → AreNamed projects environments
    → matches_slug p.slug ≡ true
    → find_project p.slug projects ≡ none
    → AreNamed (insert id p projects) environments
founded-AreNamed projects environments id p h fine free = record {
  slugs = insert-AllRows (λ p. matches_slug p.slug) id p projects h.slugs fine;
  names = h.names;
  slug_once =
      insert_new-IsUnique (λ p. p.slug) id p projects h.slug_once
        (λ j q. find_project-none p.slug projects j q free);
  name_once = h.name_once;
  parents =
      λ j e found. ground (arith, h.parents j e found, lookup-insert id e.project_id p projects);
}

renamed-AreNamed :
    (projects : Assoc ℕ Project) (environments : Assoc ℕ Environment) (id : ℕ) (old p : Project)
    → AreNamed projects environments
    → lookup id projects ≡ some old
    → old.slug ≡ p.slug
    → AreNamed (insert id p projects) environments
renamed-AreNamed projects environments id old p h found kept = record {
  slugs =
      insert-AllRows (λ p. matches_slug p.slug) id p projects h.slugs
        (ap matches_slug (sym kept) ∙ h.slugs id old found);
  names = h.names;
  slug_once = insert_kept-IsUnique (λ p. p.slug) id old p projects h.slug_once found kept;
  name_once = h.name_once;
  parents =
      λ j e seen. ground (arith, h.parents j e seen, lookup-insert id e.project_id p projects);
}

-- An environment whose name is free, and one that is pointed at another version.
settled-AreNamed :
    (projects : Assoc ℕ Project) (environments : Assoc ℕ Environment) (id : ℕ) (e : Environment)
    → AreNamed projects environments
    → matches_slug e.name ≡ true
    → find_environment e.project_id e.name environments ≡ none
    → is_some (lookup e.project_id projects) ≡ true
    → AreNamed projects (insert id e environments)
settled-AreNamed projects environments id e h fine free there = record {
  slugs = h.slugs;
  names = insert-AllRows (λ e. matches_slug e.name) id e environments h.names fine;
  slug_once = h.slug_once;
  name_once = insert_new-IsUnique place id e environments h.name_once (λ j f found same.
      find_environment-none e.project_id e.name environments j f free found
        (ap (λ (k : ℕ × String). k.0) same) (ap (λ (k : ℕ × String). k.1) same));
  parents =
      insert-AllRows (λ e. is_some (lookup e.project_id projects)) id e environments h.parents
        there;
}

moved-AreNamed :
    (projects : Assoc ℕ Project) (environments : Assoc ℕ Environment) (id : ℕ) (old e : Environment)
    → AreNamed projects environments
    → lookup id environments ≡ some old
    → place old ≡ place e
    → AreNamed projects (insert id e environments)
moved-AreNamed projects environments id old e h found kept = record {
  slugs = h.slugs;
  names =
      insert-AllRows (λ e. matches_slug e.name) id e environments h.names
        (ap (λ (k : ℕ × String). matches_slug k.1) (sym kept) ∙ h.names id old found);
  slug_once = h.slug_once;
  name_once = insert_kept-IsUnique place id old e environments h.name_once found kept;
  parents =
      insert-AllRows (λ e. is_some (lookup e.project_id projects)) id e environments h.parents
        (ap (λ (k : ℕ × String). is_some (lookup k.0 projects)) (sym kept)
          ∙ h.parents id old found);
}

module _ {S V R : Type 0} where
  authorize_project_found :
      (db : Db S V R) (user project : ℕ) (least role : String)
      → authorize_project db user project least ≡ granted role
      → is_some (lookup project db.projects) ≡ true
  unfolding authorize_project
  authorize_project_found db user project least role h =
      elim (Option-cases (lookup project db.projects)) [
        | inl absent ↦ ground (arith, absent, h)
        | inr (p, found) ↦ rw found refl
      ]

  abbrev pub NamedDb : Db S V R → Type 0
  NamedDb db = AreNamed db.projects db.environments

  published-NamedDb :
      (db : Db S V R) (user env project : ℕ) (action : String) (id : ℕ) (e : Environment)
      → NamedDb db
      → lookup env db.environments ≡ some e
      → NamedDb (published db user env project action id e)
  unfolding notify record_audit
  published-NamedDb db user env project action id e h found =
      moved-AreNamed db.projects db.environments env e _ h found refl

  module _ (rules : SchemaRules S V R) where
    ready-NamedDb :
        (db : Db S V R) (project : ℕ)
        → NamedDb db
        → NamedDb (get_or_init_schema rules.no_fields db project)
    ready-NamedDb db project h =
        rw
          (
            environments-get_or_init_schema rules.no_fields db project,
            projects-get_or_init_schema rules.no_fields db project,
          )
          h

    pub Step-NamedDb :
        (rolls : Bool) (before after : Db S V R)
        → Step rules rolls before after
        → NamedDb before
        → NamedDb after
    unfolding create_environment record_audit update_schema
    Step-NamedDb rolls before after (saved db user commits env body) h =
        handle_put_values_lem rules (λ o. NamedDb o.0) db user commits env body (λ status. h)
          (λ i e values targeting found.
            let ready = get_or_init_schema rules.no_fields db e.project_id in
            put_values_tx_lem rules (λ after v. NamedDb after) db user i values targeting e found
              (λ good right.
                published-NamedDb
                  (extended ready (
                    new_version i (next_version_number ready i)
                      (schema_of rules db e.project_id).schema_version values targeting user))
                  user i e.project_id "values.update" ready.next_id e
                  (ready-NamedDb db e.project_id h)
                  (rw (environments-get_or_init_schema rules.no_fields db e.project_id) found)))
    Step-NamedDb rolls before after (schema_changed db user commits project body) h =
        handle_put_schema_lem rules (λ o. NamedDb o.0) db user commits project body (λ status. h)
          (λ p d usable.
            put_schema_tx_lem rules (λ after d. NamedDb after) db user p d
              (λ safe. ready-NamedDb db p h))
    Step-NamedDb rolls before after (environment_created db user commits project body) h =
        handle_create_environment_lem (λ o. NamedDb o.0) db user commits project body (λ status. h)
          (λ p role name grant fine free.
            settled-AreNamed db.projects db.environments db.next_id (new_environment p name) h fine
              free (authorize_project_found db user p "admin" role grant))
    Step-NamedDb rolls before after (project_created db user commits body) h =
        handle_create_project_lem (λ o. NamedDb o.0) db user commits body (λ status. h)
          (λ org role name slug grant fine free.
            founded-AreNamed db.projects db.environments db.next_id
              (record { organization_id = org; name = name; slug = slug }) h fine free)
    Step-NamedDb rolls before after (project_renamed db user commits project body) h =
        handle_patch_project_lem (λ o. NamedDb o.0) db user commits project body (λ status. h)
          (λ i role name p grant found.
            renamed-AreNamed db.projects db.environments i p (record p { name = name }) h found
              refl)
    Step-NamedDb rolls before after (schema_read db user project) h =
        handle_get_schema_lem rules NamedDb db user project h (λ p. ready-NamedDb db p h)
    Step-NamedDb rolls before after (rolled_back db user commits env body) h =
        handle_rollback_lem (λ o. NamedDb o.0) db user commits env body (λ status. h)
          (λ i number e found.
            rollback_tx_lem (λ after v. NamedDb after) db user i number e found
              (λ row present.
                published-NamedDb db user i e.project_id "values.rollback" row.0 e h found))

    -- Whatever requests are made to save values, change a schema, roll back, create or rename a
    -- project or create an environment, in whatever order and however they end: if it was so before,
    -- every slug and every environment's name is one or more of a-z, 0-9 and the dash, no two
    -- projects have the same slug, no two environments of a project have the same name, and the
    -- project of every environment exists.
    pub Run-AreNamed :
        (rolls : Bool) (before after : Db S V R)
        → Run rules rolls before after
        → AreNamed before.projects before.environments
        → AreNamed after.projects after.environments
    Run-AreNamed rolls before after (stay db) h = h
    Run-AreNamed rolls before after (next run step) h =
        Step-NamedDb rolls _ after step (Run-AreNamed rolls before _ run h)
