-- ===== src/Store/Schemas.antt =====
-- internal/store/schema.go: the default row that a first access inserts.
use knobs.Base.{◌≡◌, ℕ, ℕ_eq, Option, none, some, if◌then◌else◌, nat_eq, nat_eq_iff, arith}
use knobs.Assoc.{lookup, lookup-insert}
use knobs.Store.{Db, ConfigSchema, get_or_init_schema}

-- The row of a project, or the default one.
abbrev pub schema_or : {S : Type 0} → S → Option (ConfigSchema S) → ConfigSchema S
schema_or definition none = record { definition = definition; schema_version = 1 }
schema_or definition (some cs) = cs

module _ {S V R : Type 0} where
  pub lookup-get_or_init_schema :
      (definition : S) (db : Db S V R) (project j : ℕ)
      → lookup j (get_or_init_schema definition db project).schemas ≡ (
          if nat_eq project j
          then some (schema_or definition (lookup project db.schemas))
          else lookup j db.schemas)
  unfolding get_or_init_schema
  lookup-get_or_init_schema definition db project j = ground (
    arith,
    lookup-insert project j (record { definition = definition; schema_version = 1 }) db.schemas,
    nat_eq_iff project j,
  )

  pub environments-get_or_init_schema :
      (definition : S) (db : Db S V R) (project : ℕ)
      → (get_or_init_schema definition db project).environments ≡ db.environments
  unfolding get_or_init_schema
  environments-get_or_init_schema definition db project = ground arith

  pub versions-get_or_init_schema :
      (definition : S) (db : Db S V R) (project : ℕ)
      → (get_or_init_schema definition db project).versions ≡ db.versions
  unfolding get_or_init_schema
  versions-get_or_init_schema definition db project = ground arith

  pub notified-get_or_init_schema :
      (definition : S) (db : Db S V R) (project : ℕ)
      → (get_or_init_schema definition db project).notified ≡ db.notified
  unfolding get_or_init_schema
  notified-get_or_init_schema definition db project = ground arith

  pub projects-get_or_init_schema :
      (definition : S) (db : Db S V R) (project : ℕ)
      → (get_or_init_schema definition db project).projects ≡ db.projects
  unfolding get_or_init_schema
  projects-get_or_init_schema definition db project = ground arith

  pub audit-get_or_init_schema :
      (definition : S) (db : Db S V R) (project : ℕ)
      → (get_or_init_schema definition db project).audit ≡ db.audit
  unfolding get_or_init_schema
  audit-get_or_init_schema definition db project = ground arith

  pub members-get_or_init_schema :
      (definition : S) (db : Db S V R) (project : ℕ)
      → (get_or_init_schema definition db project).members ≡ db.members
  unfolding get_or_init_schema
  members-get_or_init_schema definition db project = ground arith

  pub api_keys-get_or_init_schema :
      (definition : S) (db : Db S V R) (project : ℕ)
      → (get_or_init_schema definition db project).api_keys ≡ db.api_keys
  unfolding get_or_init_schema
  api_keys-get_or_init_schema definition db project = ground arith
