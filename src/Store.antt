-- ===== src/Store.antt =====
-- internal/store: the tables as one record, and the queries of environments.go, versions.go,
-- schema.go, audit.go and organizations.go that the handlers of Api.Values use. A table is a map
-- from its key. A row that is not there is `none`; `insert_version` is `none` where a version has
-- the number already, which the table's UNIQUE constraint refuses.
pub mod Numbered
pub mod Laws
pub mod Schemas
pub mod Members
pub mod ApiKeys
pub mod Projects
pub mod Listings
pub mod Keyed
use knobs.Base.{
  ℕ, suc, max, String, String_eq, ℕ_eq, Bool, true, false, Option, none, some, List, [], ◌∷◌, ◌++◌,
  if◌then◌else◌, nat_eq, ◌&&◌, is_some,
}
use knobs.Base.Text.{Text}
use knobs.Assoc.{Assoc, GoMap, or_made, lookup, insert}

pub record ConfigVersion (V R : Type 0) : Type 0 where
  pub environment_id : ℕ
  pub version : ℕ
  pub schema_version : ℕ
  pub values : GoMap V
  pub targeting : GoMap R
  pub created_by : Option ℕ

pub record Environment : Type 0 where
  pub project_id : ℕ
  pub name : String
  pub current_version_id : Option ℕ
  pub delivery_revision : ℕ

pub record ConfigSchema (S : Type 0) : Type 0 where
  pub definition : S
  pub schema_version : ℕ

pub record Organization : Type 0 where
  pub name : Text
  pub slug : Text

pub record User : Type 0 where
  pub email : String
  pub password_hash : String

pub record Project : Type 0 where
  pub organization_id : ℕ
  pub name : String
  pub slug : String

pub record ApiKey : Type 0 where
  pub environment_id : ℕ
  pub project_id : ℕ
  pub name : String
  pub hash : String
  pub last_used_at : Option ℕ

-- The project is NULL where the entry is about an organization.
pub record AuditEntry : Type 0 where
  pub project_id : Option ℕ
  pub actor : ℕ
  pub action : String
  pub target : ℕ

-- `members` holds the roles by organization and user. `notified` are the committed notifications,
-- oldest first. `next_id` stands for the drawing of fresh ids.
pub record Db (S V R : Type 0) : Type 0 where
  pub members : Assoc ℕ (Assoc ℕ String)
  pub organizations : Assoc ℕ Organization
  pub users : Assoc ℕ User
  pub projects : Assoc ℕ Project
  pub api_keys : Assoc ℕ ApiKey
  pub environments : Assoc ℕ Environment
  pub schemas : Assoc ℕ (ConfigSchema S)
  pub versions : Assoc ℕ (ConfigVersion V R)
  pub audit : List AuditEntry
  pub notified : List (ℕ × ℕ)
  pub next_id : ℕ

module _ {V R : Type 0} where
  -- `COALESCE(MAX(version), 0)` over the versions of an environment
  unfoldable pub max_version : ℕ → Assoc ℕ (ConfigVersion V R) → ℕ
  max_version env [] = 0
  max_version env ((id, v) ∷ versions) =
      let rest = max_version env versions in
      if nat_eq v.environment_id env then max v.version rest else rest

  -- `WHERE environment_id = $1 AND version = $2`, with the id of the row
  unfoldable pub find_version : ℕ → ℕ → Assoc ℕ (ConfigVersion V R) → Option (ℕ × ConfigVersion V R)
  find_version env number [] = none
  find_version env number ((id, v) ∷ versions) =
      if nat_eq v.environment_id env && nat_eq v.version number
      then some (id, v)
      else find_version env number versions

-- The number that a schema's update gives it.
abbrev pub bumped : {S : Type 0} → Option (ConfigSchema S) → ℕ
bumped none = 1
bumped (some cs) = suc cs.schema_version

module _ {S V R : Type 0} where
  unfoldable pub member_role : Db S V R → ℕ → ℕ → Option String
  member_role db org user = elim (lookup org db.members) [
    | none ↦ none
    | some roles ↦ lookup user roles
  ]

  unfoldable pub org_id_for_env : Db S V R → ℕ → Option ℕ
  org_id_for_env db env = elim (lookup env db.environments) [
    | none ↦ none
    | some e ↦ elim (lookup e.project_id db.projects) [
      | none ↦ none
      | some p ↦ some p.organization_id
    ]
  ]

  unfoldable pub create_environment : Db S V R → ℕ → String → Db S V R
  create_environment db project name = record db {
    environments =
        insert db.next_id
          (record {
            project_id = project;
            name = name;
            current_version_id = none;
            delivery_revision = 0;
          })
          db.environments;
    next_id = suc db.next_id;
  }

  unfoldable pub next_version_number : Db S V R → ℕ → ℕ
  unfolding max_version
  next_version_number db env = suc (max_version env db.versions)

  unfoldable pub version_by_number : Db S V R → ℕ → ℕ → Option (ℕ × ConfigVersion V R)
  unfolding find_version
  version_by_number db env number = find_version env number db.versions

  -- The new row's id comes with the row.
  unfoldable pub insert_version :
      Db S V R
      → ℕ
      → ℕ
      → ℕ
      → GoMap V
      → GoMap R
      → Option ℕ
      → Option (Db S V R × (ℕ × ConfigVersion V R))
  insert_version db env number schema_version values targeting created_by =
      let v : ConfigVersion V R = record {
        environment_id = env;
        version = number;
        schema_version = schema_version;
        values = values;
        targeting = or_made targeting;
        created_by = created_by;
      } in
      if is_some (version_by_number db env number)
      then none
      else some (
        record db { versions = insert db.next_id v db.versions; next_id = suc db.next_id },
        (db.next_id, v),
      )

  unfoldable pub set_current_version : Db S V R → ℕ → ℕ → Option (Db S V R × ℕ)
  set_current_version db env id = elim (lookup env db.environments) [
    | none ↦ none
    | some e ↦ some (
      record db {
        environments =
            insert env
              (record e {
                current_version_id = some id;
                delivery_revision = suc e.delivery_revision;
              })
              db.environments;
      },
      suc e.delivery_revision,
    )
  ]

  abbrev pub version_at : Db S V R → Option ℕ → Option (ConfigVersion V R)
  version_at db none = none
  version_at db (some id) = lookup id db.versions

  unfoldable pub current_version : Db S V R → ℕ → Option (ConfigVersion V R)
  current_version db env = elim (lookup env db.environments) [
    | none ↦ none
    | some e ↦ version_at db e.current_version_id
  ]

  -- `INSERT ... ON CONFLICT DO NOTHING`; `definition` is the column's default.
  unfoldable pub get_or_init_schema : S → Db S V R → ℕ → Db S V R
  get_or_init_schema definition db project = elim (lookup project db.schemas) [
    | some cs ↦ db
    | none ↦ record db {
      schemas = insert project (record { definition = definition; schema_version = 1 }) db.schemas;
    }
  ]

  unfoldable pub lock_project_schema : Db S V R → ℕ → Option (ConfigSchema S)
  lock_project_schema db project = lookup project db.schemas

  unfoldable pub update_schema : Db S V R → ℕ → S → Db S V R
  update_schema db project definition = record db {
    schemas =
        insert project
          (record { definition = definition; schema_version = bumped (lookup project db.schemas) })
          db.schemas;
  }

  unfoldable pub record_audit : Db S V R → Option ℕ → ℕ → String → ℕ → Db S V R
  record_audit db project actor action target = record db {
    audit =
        db.audit
        ++ (record { project_id = project; actor = actor; action = action; target = target }) ∷ [];
  }

  -- `pg_notify` of an environment and its revision, delivered on commit
  unfoldable pub notify : Db S V R → ℕ → ℕ → Db S V R
  notify db env revision = record db { notified = db.notified ++ (env, revision) ∷ [] }
