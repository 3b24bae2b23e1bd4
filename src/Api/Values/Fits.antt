-- ===== src/Api/Values/Fits.antt =====
-- internal/api/values_handlers.go, schema_handlers.go and versions_handlers.go: whether the values
-- that an environment serves fit the schema of its project.
use knobs.Base.{
  ◌≡◌, refl, ◌∙◌, ap, ℕ, suc, String, ℕ_eq, Bool, true, false, Option, none, some, [], ◌∷◌,
  if◌then◌else◌, nat_eq, nat_eq_iff, ◌⊎◌, inl, inr, arith, Option-cases,
}
use knobs.Assoc.{Assoc, GoMap, lookup, lookup-insert}
use knobs.Store.{
  Db, Project, Environment, ConfigVersion, create_environment, version_at, current_version,
  get_or_init_schema, update_schema, record_audit, notify, version_by_number, next_version_number,
  bumped,
}
use knobs.Store.Laws.{
  IsSound, extended, new_version, points_well, env_points_well, unused_version, new_environment,
  get_or_init_schema-IsSound,
}
use knobs.Store.Numbered.{find_version_stored}
use knobs.Store.Schemas.{
  lookup-get_or_init_schema, environments-get_or_init_schema, versions-get_or_init_schema,
}
use knobs.Api.Values.{SchemaRules, values_fit, is_change_safe, rollback_tx, put_values_tx}
use knobs.Api.Values.Transactions.{Ends, published}
use knobs.Api.Values.Laws.{schema_of, put_values_tx_lem, rollback_tx_lem}
use knobs.Api.Projects.Laws.{settled, founded, renamed}

module _ {S V R : Type 0} (rules : SchemaRules S V R) where
  -- Whether the values served in an environment fit; where none are, they do.
  abbrev pub env_fits : Db S V R → Option Environment → Bool
  env_fits db none = true
  env_fits db (some e) =
      values_fit rules (schema_of rules db e.project_id).definition
        (version_at db e.current_version_id)

  unfoldable pub live_fits : Db S V R → ℕ → Bool
  live_fits db env = env_fits db (lookup env db.environments)

  version_at-ready :
      (db : Db S V R) (project : ℕ) (held : Option ℕ)
      → version_at (get_or_init_schema rules.no_fields db project) held ≡ version_at db held
  version_at-ready db project none = refl
  version_at-ready db project (some id) =
      rw (versions-get_or_init_schema rules.no_fields db project) refl

  pub live_fits-published :
      (db : Db S V R) (user env project : ℕ) (action : String) (id : ℕ) (e : Environment) (j : ℕ)
      → live_fits (published db user env project action id e) j ≡ (
          if nat_eq env j
          then values_fit rules (schema_of rules db e.project_id).definition (lookup id db.versions)
          else live_fits db j)
  unfolding live_fits notify record_audit
  live_fits-published db user env project action id e j = ground (
    arith,
    lookup-insert env j
        (record e { current_version_id = some id; delivery_revision = suc e.delivery_revision })
        db.environments,
    nat_eq_iff env j,
  )

  schema_of-ready :
      (db : Db S V R) (project j : ℕ)
      → schema_of rules (get_or_init_schema rules.no_fields db project) j ≡ schema_of rules db j
  schema_of-ready db project j =
      ground (arith, lookup-get_or_init_schema rules.no_fields db project j, nat_eq_iff project j)

  env_fits-ready :
      (db : Db S V R) (project : ℕ) (held : Option Environment)
      → env_fits (get_or_init_schema rules.no_fields db project) held ≡ env_fits db held
  env_fits-ready db project none = refl
  env_fits-ready db project (some e) =
      rw (schema_of-ready db project e.project_id, version_at-ready db project e.current_version_id)
        refl

  pub live_fits-ready :
      (db : Db S V R) (project j : ℕ)
      → live_fits (get_or_init_schema rules.no_fields db project) j ≡ live_fits db j
  unfolding live_fits
  live_fits-ready db project j =
      rw (environments-get_or_init_schema rules.no_fields db project)
        (env_fits-ready db project (lookup j db.environments))

  version_at-extended :
      (db : Db S V R) (v : ConfigVersion V R) (env : ℕ) (held : Option ℕ)
      → lookup db.next_id db.versions ≡ none
      → points_well env held db.versions ≡ true
      → version_at (extended db v) held ≡ version_at db held
  version_at-extended db v env none fresh h = refl
  version_at-extended db v env (some id) fresh h =
      ground (arith, lookup-insert db.next_id id v db.versions, nat_eq_iff db.next_id id)

  env_fits-extended :
      (db : Db S V R) (v : ConfigVersion V R) (env : ℕ) (held : Option Environment)
      → lookup db.next_id db.versions ≡ none
      → env_points_well env held db.versions ≡ true
      → env_fits (extended db v) held ≡ env_fits db held
  env_fits-extended db v env none fresh h = refl
  env_fits-extended db v env (some e) fresh h =
      rw (version_at-extended db v env e.current_version_id fresh h) refl

  live_fits-extended :
      (db : Db S V R) (v : ConfigVersion V R) (j : ℕ)
      → IsSound db
      → live_fits (extended db v) j ≡ live_fits db j
  unfolding live_fits
  live_fits-extended db v j sound =
      env_fits-extended db v j (lookup j db.environments) (unused_version db sound) (sound.points j)

  live_fits-saved :
      (db : Db S V R) (v : ConfigVersion V R) (user env project : ℕ) (action : String)
      (e : Environment) (j : ℕ)
      → IsSound db
      → rules.valid_values (schema_of rules db e.project_id).definition v.values ≡ true
      → live_fits (published (extended db v) user env project action db.next_id e) j
        ≡ (if nat_eq env j then true else live_fits db j)
  live_fits-saved db v user env project action e j sound good = ground (
    arith,
    live_fits-published (extended db v) user env project action db.next_id e j,
    lookup-insert db.next_id db.next_id v db.versions,
    nat_eq_iff db.next_id db.next_id,
    live_fits-extended db v j sound,
    good,
  )

  -- A successful save leaves an environment whose values fit, and the others as they fitted.
  pub live_fits-put_values :
      (db : Db S V R) (user env : ℕ) (values : GoMap V) (targeting : GoMap R) (e : Environment)
      → IsSound db
      → lookup env db.environments ≡ some e
      → Ends
          (λ after v. (j : ℕ) → live_fits after j ≡ (if nat_eq env j then true else live_fits db j))
          (put_values_tx rules db user env e.project_id values targeting)
  live_fits-put_values db user env values targeting e sound found =
      put_values_tx_lem rules
        (λ after v. (j : ℕ) → live_fits after j ≡ (if nat_eq env j then true else live_fits db j))
        db user env values targeting e found
        (λ good right j.
          let ready = get_or_init_schema rules.no_fields db e.project_id in
          live_fits-saved ready
            (new_version env (next_version_number ready env)
              (schema_of rules db e.project_id).schema_version values targeting user)
            user env e.project_id "values.update" e j
            (get_or_init_schema-IsSound rules.no_fields db e.project_id sound)
            (rw (schema_of-ready db e.project_id e.project_id) good)
          ∙ ap (λ b. if nat_eq env j then true else b) (live_fits-ready db e.project_id j))

  -- The loop over the environments of a project has looked at each.
  is_change_safe_at :
      (db : Db S V R) (project : ℕ) (definition : S) (environments : Assoc ℕ Environment) (j : ℕ)
      (e : Environment)
      → is_change_safe rules db project definition environments ≡ true
      → lookup j environments ≡ some e
      → (nat_eq e.project_id project ≡ false)
        ⊎ (values_fit rules definition (current_version db j) ≡ true)
  unfolding is_change_safe lookup
  is_change_safe_at db project definition [] j e safe found = ground arith
  is_change_safe_at db project definition ((i, held) ∷ environments) j e safe found =
      ground (arith, is_change_safe_at db project definition environments j e, nat_eq_iff i j)

  pub live_fits-put_schema :
      (db : Db S V R) (user project : ℕ) (definition : S) (j : ℕ)
      → is_change_safe rules db project definition db.environments ≡ true
      → live_fits db j ≡ true
      → live_fits
          (record_audit
            (update_schema db project definition)
            (some project)
            user
            "schema.update"
            project)
          j
        ≡ true
  unfolding live_fits record_audit update_schema current_version
  live_fits-put_schema db user project definition j safe fits =
      elim (Option-cases (lookup j db.environments)) [
        | inl absent ↦ rw absent refl
        | inr (e, found) ↦ ground (
          arith,
          is_change_safe_at db project definition db.environments j e safe found,
          lookup-insert project e.project_id
              (record {
                definition = definition;
                schema_version = bumped (lookup project db.schemas);
              })
              db.schemas,
          nat_eq_iff e.project_id project,
          nat_eq_iff project e.project_id,
          found,
          fits,
        )
      ]

  -- A successful rollback: the environment's values fit exactly if the old ones fit the schema of
  -- today.
  pub live_fits-rollback :
      (db : Db S V R) (user env number : ℕ) (e : Environment)
      → IsSound db
      → lookup env db.environments ≡ some e
      → Ends
          (λ after v.
            (j : ℕ)
            → live_fits after j ≡ (
                if nat_eq env j
                then rules.valid_values (schema_of rules db e.project_id).definition v.values
                else live_fits db j))
          (rollback_tx db user env e number)
  unfolding version_by_number
  live_fits-rollback db user env number e sound found =
      rollback_tx_lem
        (λ after v.
          (j : ℕ)
          → live_fits after j ≡ (
              if nat_eq env j
              then rules.valid_values (schema_of rules db e.project_id).definition v.values
              else live_fits db j))
        db user env number e found
        (λ row present j.
          live_fits-published db user env e.project_id "values.rollback" row.0 e j
          ∙ ap
              (λ held.
                if nat_eq env j
                then values_fit rules (schema_of rules db e.project_id).definition held
                else live_fits db j)
              (find_version_stored env number db.versions row sound.is_map present))

  pub live_fits-settled :
      (db : Db S V R) (user project : ℕ) (name : String) (j : ℕ)
      → live_fits db j ≡ true
      → live_fits (settled db user project name) j ≡ true
  unfolding live_fits create_environment record_audit
  live_fits-settled db user project name j fits = ground (
    arith,
    lookup-insert db.next_id j (new_environment project name) db.environments,
    nat_eq_iff db.next_id j,
    fits,
  )

  pub live_fits-founded :
      (db : Db S V R) (user org : ℕ) (name slug : String) (j : ℕ)
      → live_fits db j ≡ true
      → live_fits (founded db user org name slug) j ≡ true
  unfolding live_fits record_audit
  live_fits-founded db user org name slug j fits = fits

  pub live_fits-renamed :
      (db : Db S V R) (user project : ℕ) (p : Project) (name : String) (j : ℕ)
      → live_fits db j ≡ true
      → live_fits (renamed db user project p name) j ≡ true
  unfolding live_fits record_audit
  live_fits-renamed db user project p name j fits = fits
