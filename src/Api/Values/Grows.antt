-- ===== src/Api/Values/Grows.antt =====
-- internal/api: what the handlers that write add to the tables, as against what they change.
use knobs.Base.{
  ◌≡◌, refl, ap, ℕ, suc, ◌≤◌, String, ℕ_eq, Option, none, some, nat_eq_iff, ◌⊎◌, inr, arith,
}
use knobs.Assoc.{lookup, lookup-insert}
use knobs.Store.{
  Db, Environment, ConfigVersion, Project, create_environment, get_or_init_schema, update_schema,
  record_audit, notify,
}
use knobs.Store.Laws.{IsSound, extended, unused_version, unused_environment, new_environment}
use knobs.Store.Schemas.{versions-get_or_init_schema, environments-get_or_init_schema}
use knobs.Api.Values.Transactions.{published}
use knobs.Api.Projects.Laws.{settled, founded, renamed}

abbrev pub revision_of : Option Environment → ℕ
revision_of none = 0
revision_of (some e) = e.delivery_revision

-- The project that an environment belongs to.
abbrev pub project_of : Option Environment → Option ℕ
project_of none = none
project_of (some e) = some e.project_id

module _ {S V R : Type 0} where
  unfoldable pub revision_at : Db S V R → ℕ → ℕ
  revision_at db env = revision_of (lookup env db.environments)

  -- Nothing that was saved is gone or changed, no revision has fallen, and every environment is still
  -- there and in its project.
  pub record Grows (before after : Db S V R) : Type 0 where
    pub history :
        (id : ℕ)
        → (lookup id before.versions ≡ none)
          ⊎ (lookup id after.versions ≡ lookup id before.versions)
    pub revisions : (env : ℕ) → revision_at before env ≤ revision_at after env
    pub places :
        (env : ℕ)
        → (lookup env before.environments ≡ none)
          ⊎ (project_of (lookup env after.environments)
              ≡ project_of (lookup env before.environments))

  pub published-Grows :
      (db : Db S V R) (user env project : ℕ) (action : String) (id : ℕ) (e : Environment)
      → lookup env db.environments ≡ some e
      → Grows db (published db user env project action id e)
  unfolding notify record_audit revision_at
  published-Grows db user env project action id e found = record {
    history = λ j. inr refl;
    revisions = λ j. ground (
      arith,
      lookup-insert env j
          (record e { current_version_id = some id; delivery_revision = suc e.delivery_revision })
          db.environments,
      nat_eq_iff env j,
      found,
    );
    places = λ j. ground (
      arith,
      lookup-insert env j
          (record e { current_version_id = some id; delivery_revision = suc e.delivery_revision })
          db.environments,
      nat_eq_iff env j,
      found,
    );
  }

  pub extended-Grows :
      (db : Db S V R) (v : ConfigVersion V R) → IsSound db → Grows db (extended db v)
  unfolding revision_at
  extended-Grows db v sound = record {
    history = λ j. ground (
      arith,
      lookup-insert db.next_id j v db.versions,
      nat_eq_iff db.next_id j,
      unused_version db sound,
    );
    revisions = λ j. omega arith;
    places = λ j. inr refl;
  }

  pub ready-Grows :
      (definition : S) (db : Db S V R) (project : ℕ)
      → Grows db (get_or_init_schema definition db project)
  unfolding revision_at
  ready-Grows definition db project = record {
    history = λ j. inr (ap (lookup j) (versions-get_or_init_schema definition db project));
    revisions = λ j. rw (environments-get_or_init_schema definition db project) (omega arith);
    places = λ j.
        inr (
          ap (λ m. project_of (lookup j m))
            (environments-get_or_init_schema definition db project));
  }

  pub updated-Grows :
      (db : Db S V R) (user project : ℕ) (definition : S)
      → Grows db (
          record_audit
            (update_schema db project definition)
            (some project)
            user
            "schema.update"
            project)
  unfolding record_audit update_schema revision_at
  updated-Grows db user project definition = record {
    history = λ j. inr refl;
    revisions = λ j. omega arith;
    places = λ j. inr refl;
  }

  -- A new environment, a new project and a project's new name.
  pub settled-Grows :
      (db : Db S V R) (user project : ℕ) (name : String)
      → IsSound db
      → Grows db (settled db user project name)
  unfolding record_audit create_environment revision_at
  settled-Grows db user project name sound = record {
    history = λ j. inr refl;
    revisions = λ j. ground (
      arith,
      lookup-insert db.next_id j (new_environment project name) db.environments,
      nat_eq_iff db.next_id j,
      unused_environment db sound,
    );
    places = λ j. ground (
      arith,
      lookup-insert db.next_id j (new_environment project name) db.environments,
      nat_eq_iff db.next_id j,
      unused_environment db sound,
    );
  }

  pub founded-Grows :
      (db : Db S V R) (user org : ℕ) (name slug : String) → Grows db (founded db user org name slug)
  unfolding record_audit revision_at
  founded-Grows db user org name slug = record {
    history = λ j. inr refl;
    revisions = λ j. omega arith;
    places = λ j. inr refl;
  }

  pub renamed-Grows :
      (db : Db S V R) (user project : ℕ) (p : Project) (name : String)
      → Grows db (renamed db user project p name)
  unfolding record_audit revision_at
  renamed-Grows db user project p name = record {
    history = λ j. inr refl;
    revisions = λ j. omega arith;
    places = λ j. inr refl;
  }

  pub Grows-refl : (db : Db S V R) → Grows db db
  Grows-refl db = record {
    history = λ j. inr refl;
    revisions = λ j. omega arith;
    places = λ j. inr refl;
  }

  pub Grows-trans : (a b c : Db S V R) → Grows a b → Grows b c → Grows a c
  Grows-trans a b c ab bc = record {
    history = λ j. ground (arith, ab.history j, bc.history j);
    revisions = λ j. omega (arith, ab.revisions j, bc.revisions j);
    places = λ j. ground (arith, ab.places j, bc.places j);
  }
