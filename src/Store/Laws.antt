-- ===== src/Store/Laws.antt =====
-- internal/store/versions.go and schema.go: what the tables keep to.
use knobs.Base.{
  String, ◌≡◌, refl, sym, ◌∙◌, ap, ℕ, suc, ◌+◌, ℕ_eq, Bool, true, false, Option, none, some, nat_eq,
  nat_eq_iff, arith, Option-cases, inl, inr,
}
use knobs.Assoc.{Assoc, GoMap, or_made, lookup, insert, lookup-insert, IsMap, insert-IsMap}
use knobs.Store.{
  Db, ConfigVersion, Environment, max_version, find_version, next_version_number, version_by_number,
  get_or_init_schema, create_environment, insert_version,
}
use knobs.Store.Numbered.{IsNumbered, find_version_above, insert-IsNumbered}

module _ {V R : Type 0} where
  -- The row that a save inserts.
  abbrev pub new_version : ℕ → ℕ → ℕ → GoMap V → GoMap R → ℕ → ConfigVersion V R
  new_version env number schema_version values targeting user = record {
    environment_id = env;
    version = number;
    schema_version = schema_version;
    values = values;
    targeting = or_made targeting;
    created_by = some user;
  }

  -- Whether the version that an environment points at is there and is its own.
  abbrev pub is_own : ℕ → Option (ConfigVersion V R) → Bool
  is_own env none = false
  is_own env (some v) = nat_eq v.environment_id env

  abbrev pub points_well : ℕ → Option ℕ → Assoc ℕ (ConfigVersion V R) → Bool
  points_well env none versions = true
  points_well env (some id) versions = is_own env (lookup id versions)

  abbrev pub env_points_well : ℕ → Option Environment → Assoc ℕ (ConfigVersion V R) → Bool
  env_points_well env none versions = true
  env_points_well env (some e) versions = points_well env e.current_version_id versions

pub suc_shift : (n k : ℕ) → suc n + k ≡ n + suc k
suc_shift n k = omega arith

zero_shift : (n : ℕ) → n + 0 ≡ n
zero_shift n = omega arith

-- The row that `create_environment` inserts.
abbrev pub new_environment : ℕ → String → Environment
new_environment project name = record {
  project_id = project;
  name = name;
  current_version_id = none;
  delivery_revision = 0;
}

module _ {S V R : Type 0} where
  -- What the tables keep to: fresh ids are unused, rows of versions are told apart by id and by
  -- number, and every environment points at a version of its own or at none.
  pub record IsSound (db : Db S V R) : Type 0 where
    pub fresh_version : (k : ℕ) → lookup (db.next_id + k) db.versions ≡ none
    pub fresh_environment : (k : ℕ) → lookup (db.next_id + k) db.environments ≡ none
    pub is_map : IsMap db.versions
    pub is_numbered : IsNumbered db.versions
    pub points : (env : ℕ) → env_points_well env (lookup env db.environments) db.versions ≡ true

  -- The tables after `make_current` has pointed `env`, whose row was `e`, at a version.
  abbrev pub repointed : Db S V R → ℕ → ℕ → Environment → Db S V R
  repointed db env id e = record db {
    environments =
        insert env
          (record e { current_version_id = some id; delivery_revision = suc e.delivery_revision })
          db.environments;
  }

  -- The tables after a version has been inserted.
  abbrev pub extended : Db S V R → ConfigVersion V R → Db S V R
  extended db v = record db { versions = insert db.next_id v db.versions; next_id = suc db.next_id }

  pub repointed-IsSound :
      (db : Db S V R) (env id : ℕ) (e : Environment)
      → IsSound db
      → lookup env db.environments ≡ some e
      → is_own env (lookup id db.versions) ≡ true
      → IsSound (repointed db env id e)
  repointed-IsSound db env id e h found own = record {
    fresh_version = h.fresh_version;
    fresh_environment = λ k. ground (
      arith,
      h.fresh_environment k,
      lookup-insert env (db.next_id + k)
          (record e { current_version_id = some id; delivery_revision = suc e.delivery_revision })
          db.environments,
      nat_eq_iff env (db.next_id + k),
      found,
    );
    is_map = h.is_map;
    is_numbered = h.is_numbered;
    points = λ j. ground (
      arith,
      h.points j,
      lookup-insert env j
          (record e { current_version_id = some id; delivery_revision = suc e.delivery_revision })
          db.environments,
      nat_eq_iff env j,
      own,
    );
  }

  pub unused_version : (db : Db S V R) → IsSound db → lookup db.next_id db.versions ≡ none
  unused_version db h =
      ap (λ n. lookup n db.versions) (sym (zero_shift db.next_id)) ∙ h.fresh_version 0

  pub unused_environment : (db : Db S V R) → IsSound db → lookup db.next_id db.environments ≡ none
  unused_environment db h =
      ap (λ n. lookup n db.environments) (sym (zero_shift db.next_id)) ∙ h.fresh_environment 0

  -- A version that is there stays where it is when a fresh one is inserted.
  extended_version :
      (v : ConfigVersion V R) (held : Option ℕ) (db : Db S V R) (env : ℕ)
      → lookup db.next_id db.versions ≡ none
      → points_well env held db.versions ≡ true
      → points_well env held (insert db.next_id v db.versions) ≡ true
  extended_version v none db env fresh h = refl
  extended_version v (some id) db env fresh h =
      ground (arith, lookup-insert db.next_id id v db.versions, nat_eq_iff db.next_id id, fresh, h)

  extended_points :
      (v : ConfigVersion V R) (held : Option Environment) (db : Db S V R) (env : ℕ)
      → lookup db.next_id db.versions ≡ none
      → env_points_well env held db.versions ≡ true
      → env_points_well env held (insert db.next_id v db.versions) ≡ true
  extended_points v none db env fresh h = refl
  extended_points v (some e) db env fresh h = extended_version v e.current_version_id db env fresh h

  pub extended-IsSound :
      (db : Db S V R) (v : ConfigVersion V R)
      → IsSound db
      → find_version v.environment_id v.version db.versions ≡ none
      → IsSound (extended db v)
  extended-IsSound db v h new = record {
    fresh_version = λ k. ground (
      arith,
      h.fresh_version (suc k),
      lookup-insert db.next_id (suc db.next_id + k) v db.versions,
      nat_eq_iff db.next_id (suc db.next_id + k),
      ap (λ n. lookup n db.versions) (suc_shift db.next_id k),
    );
    fresh_environment = λ k.
        ap (λ n. lookup n db.environments) (suc_shift db.next_id k) ∙ h.fresh_environment (suc k);
    is_map = insert-IsMap db.next_id v db.versions h.is_map;
    is_numbered =
        insert-IsNumbered db.next_id v db.versions (unused_version db h) new h.is_numbered;
    points =
        λ j. extended_points v (lookup j db.environments) db j (unused_version db h) (h.points j);
  }

  pub create_environment-IsSound :
      (db : Db S V R) (project : ℕ) (name : String)
      → IsSound db
      → IsSound (create_environment db project name)
  unfolding create_environment
  create_environment-IsSound db project name h = record {
    fresh_version =
        λ k. ap (λ n. lookup n db.versions) (suc_shift db.next_id k) ∙ h.fresh_version (suc k);
    fresh_environment = λ k. ground (
      arith,
      h.fresh_environment (suc k),
      lookup-insert db.next_id (suc db.next_id + k) (new_environment project name) db.environments,
      nat_eq_iff db.next_id (suc db.next_id + k),
      ap (λ n. lookup n db.environments) (suc_shift db.next_id k),
    );
    is_map = h.is_map;
    is_numbered = h.is_numbered;
    points = λ j. ground (
      arith,
      h.points j,
      lookup-insert db.next_id j (new_environment project name) db.environments,
    );
  }

  pub get_or_init_schema-IsSound :
      (definition : S) (db : Db S V R) (project : ℕ)
      → IsSound db
      → IsSound (get_or_init_schema definition db project)
  unfolding get_or_init_schema
  get_or_init_schema-IsSound definition db project h =
      elim (Option-cases (lookup project db.schemas)) [
        | inl absent ↦
            rw (absent, get_or_init_schema)
              record {
                fresh_version = h.fresh_version;
                fresh_environment = h.fresh_environment;
                is_map = h.is_map;
                is_numbered = h.is_numbered;
                points = h.points;
              }
        | inr (cs, found) ↦ rw (found, get_or_init_schema) h
      ]

  -- The next number of an environment is free, so that its insertion is not refused.
  pub next_version_number_unused :
      (db : Db S V R) (env : ℕ) → find_version env (next_version_number db env) db.versions ≡ none
  unfolding next_version_number
  next_version_number_unused db env =
      find_version_above env (suc (max_version env db.versions)) db.versions (omega arith)

  pub insert_version_next :
      (db : Db S V R) (env schema_version : ℕ) (values : GoMap V) (targeting : GoMap R) (user : ℕ)
      → (let v =
            new_version env (next_version_number db env) schema_version values targeting user in
          insert_version db env
            (next_version_number db env)
            schema_version
            values
            targeting
            (some user)
          ≡ some (extended db v, (db.next_id, v)))
  unfolding insert_version version_by_number
  insert_version_next db env schema_version values targeting user =
      rw (next_version_number_unused db env, insert_version, version_by_number) refl
