-- ===== src/EndToEnd/Publish.antt =====
-- What a write on the server is to an SDK that asks the snapshot handler for what is served then.
use knobs.Base.{
  ◌≡◌, refl, ◌∙◌, ap, ℕ, ◌≤◌, String, ℕ_eq, true, false, none, some, leb, lt→leb, arith, inl, inr,
  Option-cases,
}
use knobs.Assoc.{get, lookup, or_made, get-or_made}
use knobs.Store.{Db, Environment, ConfigVersion, current_version, version_by_number}
use knobs.Store.Laws.{IsSound}
use knobs.Delivery.Snapshot.{Snapshot, build_snapshot}
use knobs.Api.Access.{granted, authorize_env}
use knobs.Api.ApiKeys.{handle_snapshot, with_schema}
use knobs.Api.Values.{SchemaRules, Reply, replied, handle_rollback}
use knobs.Api.Values.Laws.{schema_of, lock_project_schema_ready}
use knobs.Api.Values.Grows.{revision_at}
use knobs.Api.Values.Serve.{Serves, rollback-Serves}
use knobs.Sdk.Client.{Client, apply_snapshot, normalized, get_value}
use knobs.Sdk.Gate.{current-apply_snapshot}

-- An environment that serves a version exists.
pub unserved :
    {S V R : Type 0} (db : Db S V R) (env : ℕ) (v : ConfigVersion V R)
    → lookup env db.environments ≡ none
    → current_version db env ≡ some v
    → ⊥
unfolding current_version
unserved db env v missing serves = ground (arith, missing, serves)

module _ {S V R : Type 0} (rules : SchemaRules S V R) (schema_hash : S → String) where
  -- The handler answers with what the environment serves, with some hash of a schema.
  handle_snapshot_served :
      (db : Db S V R) (env : ℕ) (v : ConfigVersion V R)
      → current_version db env ≡ some v
      → (hash : String) × ((handle_snapshot rules.no_fields schema_hash db env).1
          ≡ replied (build_snapshot v.version v.values v.targeting hash (revision_at db env)))
  unfolding handle_snapshot revision_at
  handle_snapshot_served db env v serves = elim (Option-cases (lookup env db.environments)) [
    | inl missing ↦ absurd (unserved db env v missing serves)
    | inr (e, found) ↦ (
      schema_hash (schema_of rules db e.project_id).definition,
      rw
          (
            handle_snapshot,
            found,
            serves,
            with_schema,
            lock_project_schema_ready rules db e.project_id,
          )
          refl,
    )
  ]

  -- A client that is not ahead of the tables takes over what the handler answers.
  pub served-handle_snapshot :
      (db : Db S V R) (env : ℕ) (o : Db S V R × Reply (ConfigVersion V R)) (v : ConfigVersion V R)
      (c : Client V R)
      → Serves db env o v
      → c.current.revision ≤ revision_at db env
      → (s : Snapshot V R) × ((handle_snapshot rules.no_fields schema_hash o.0 env).1 ≡ replied s)
        × (s.values ≡ or_made v.values)
        × (s.targeting ≡ v.targeting)
        × ((apply_snapshot c s).current ≡ normalized s)
  unfolding build_snapshot
  served-handle_snapshot db env o v c (answer, current, revision, told) behind =
      let (hash, answered) = handle_snapshot_served o.0 env v current in
      let s = build_snapshot v.version v.values v.targeting hash (revision_at o.0 env) in
      let stale : leb (revision_at o.0 env) c.current.revision ≡ false =
        lt→leb (revision_at o.0 env) c.current.revision (omega (arith, revision)) in
      (s, answered, refl, refl, current-apply_snapshot c s ∙ rw stale refl)

  -- From sound tables, after a rollback by an editor to a version that exists, the snapshot handler
  -- answers for the environment, and from that snapshot an SDK client whose revision was not ahead of
  -- the tables before the rollback reads, under every key, the values and the rules of the old version,
  -- whatever its number is.
  pub rollback-get_value :
      (db : Db S V R) (user env number : ℕ) (e : Environment) (row : ℕ × ConfigVersion V R)
      (c : Client V R) (k : String)
      → IsSound db
      → authorize_env db user env "editor" ≡ granted e
      → version_by_number db env number ≡ some row
      → c.current.revision ≤ revision_at db env
      → (let after = (handle_rollback db user true (some env) (some (some number))).0 in
          (s : Snapshot V R) × ((handle_snapshot rules.no_fields schema_hash after env).1
            ≡ replied s)
          × (get_value (apply_snapshot c s) k ≡ get k row.1.values)
          × (get k (apply_snapshot c s).current.targeting ≡ get k row.1.targeting))
  unfolding get_value
  rollback-get_value db user env number e row c k sound grant present behind =
      let o = handle_rollback db user true (some env) (some (some number)) in
      let served = (rollback-Serves rules db user env number e row sound grant present).0 in
      let (s, answered, values, targeting, now) =
        served-handle_snapshot db env o row.1 c served behind in
      (
        s,
        answered,
        ap (λ (t : Snapshot V R). get k t.values) now
            ∙ (get-or_made k s.values ∙ (ap (get k) values ∙ get-or_made k row.1.values)),
        ap (λ (t : Snapshot V R). get k t.targeting) now
            ∙ (get-or_made k s.targeting ∙ ap (get k) targeting),
      )
