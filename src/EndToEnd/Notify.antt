-- ===== src/EndToEnd/Notify.antt =====
-- What a write on the server is to the subscribers of a hub that is fed by the listener.
use knobs.Base.{
  ◌≡◌, refl, ap, ℕ, suc, ◌<◌, String, ℕ_eq, true, false, Option, none, some, [], ◌∷◌, ◌++◌, arith,
  Option-cases, inl, inr,
}
use knobs.Base.Text.{Text, has}
use knobs.Assoc.{GoMap, lookup}
use knobs.Store.{Db, Environment, ConfigVersion, current_version, next_version_number}
use knobs.Store.Laws.{new_version}
use knobs.Delivery.Snapshot.{Snapshot, build_snapshot}
use knobs.Delivery.Hub.{Hub, publish}
use knobs.Delivery.Listener.{load_snapshot, publish_loaded, on_notification, payload}
use knobs.Delivery.Listener.RoundTrip.{parse_payload-payload}
use knobs.Api.Access.{granted, authorize_env}
use knobs.Api.Values.{SchemaRules, Reply, handle_put_values}
use knobs.Api.Values.Laws.{schema_of, lock_project_schema_ready}
use knobs.Api.Values.Grows.{revision_at}
use knobs.Api.Values.Serve.{Serves, put_values-Serves}
use knobs.EndToEnd.Publish.{unserved}

module _ {S V R : Type 0} (rules : SchemaRules S V R) (schema_hash : S → String) where
  -- The loader finds what an environment serves, with some hash of a schema.
  load_snapshot_served :
      (db : Db S V R) (env : ℕ) (v : ConfigVersion V R)
      → current_version db env ≡ some v
      → (hash : String) × ((load_snapshot rules.no_fields schema_hash db env).1
          ≡ some (build_snapshot v.version v.values v.targeting hash (revision_at db env)))
  unfolding load_snapshot revision_at
  load_snapshot_served db env v serves = elim (Option-cases (lookup env db.environments)) [
    | inl missing ↦ absurd (unserved db env v missing serves)
    | inr (e, found) ↦ (
      schema_hash (schema_of rules db e.project_id).definition,
      rw (load_snapshot, found, serves, lock_project_schema_ready rules db e.project_id) refl,
    )
  ]

  -- The hub after a notification about a snapshot that could be loaded.
  loaded_lem :
      (hub : Hub (Snapshot V R)) (env : ℕ) (loaded : Db S V R × Option (Snapshot V R))
      (s : Snapshot V R)
      → loaded.1 ≡ some s
      → (publish_loaded rules.no_fields schema_hash hub env loaded).1 ≡ publish hub env s
  loaded_lem hub env (db, none) s h = absurd (ground (arith, h))
  loaded_lem hub env (db, some t) s h = ap (publish hub env) (ground (arith, h))

  -- The notification of what is served, read by the listener.
  served-on_notification :
      (print_id : ℕ → Text) (parse_id : Text → Option ℕ) (db : Db S V R) (env : ℕ)
      (o : Db S V R × Reply (ConfigVersion V R)) (v : ConfigVersion V R) (hub : Hub (Snapshot V R))
      → parse_id (print_id env) ≡ some env
      → has b':' (print_id env) ≡ false
      → revision_at o.0 env < 9223372036854775808
      → Serves db env o v
      → (hash : String) × ((on_notification rules.no_fields schema_hash parse_id o.0 hub
            (payload print_id env (revision_at o.0 env))).1
          ≡ publish hub env
              (build_snapshot v.version v.values v.targeting hash (revision_at o.0 env)))
  unfolding on_notification
  served-on_notification print_id parse_id db env o v hub known plain small
        (answer, current, revision, told) =
      let loaded = load_snapshot_served o.0 env v current in
      (
        loaded.0,
        rw
            (
              on_notification,
              parse_payload-payload print_id parse_id env (revision_at o.0 env) known plain small,
            )
            (loaded_lem hub env (load_snapshot rules.no_fields schema_hash o.0 env)
              (build_snapshot v.version v.values v.targeting loaded.0 (revision_at o.0 env))
              loaded.1),
      )

  -- If an editor saves values and targeting that pass the current schema, one notification is sent, of
  -- the environment and its new revision; the listener parses its payload, if ids are printed without
  -- a colon and parsed back and the revision is below 2 ^ 63, and with the tables as they are then it
  -- publishes to the environment's subscribers the snapshot of what was saved, under that revision.
  pub put_values-on_notification :
      (print_id : ℕ → Text) (parse_id : Text → Option ℕ) (db : Db S V R) (user env : ℕ)
      (e : Environment) (values : GoMap V) (targeting : GoMap R) (hub : Hub (Snapshot V R))
      → parse_id (print_id env) ≡ some env
      → has b':' (print_id env) ≡ false
      → suc (revision_at db env) < 9223372036854775808
      → authorize_env db user env "editor" ≡ granted e
      → rules.compiles (schema_of rules db e.project_id).definition ≡ true
      → rules.valid_values (schema_of rules db e.project_id).definition values ≡ true
      → rules.valid_targeting (schema_of rules db e.project_id).definition targeting ≡ true
      → (let after =
            (handle_put_values rules db user true (some env) (some (values, targeting))).0 in
          let v =
            new_version env
              (next_version_number db env)
              (schema_of rules db e.project_id).schema_version
              values
              targeting
              user in
          (after.notified ≡ db.notified ++ (env, suc (revision_at db env)) ∷ [])
          × ((hash : String) × ((on_notification rules.no_fields schema_hash parse_id after hub
                  (payload print_id env (suc (revision_at db env)))).1
                ≡ publish hub env (
                    build_snapshot v.version v.values v.targeting hash
                      (suc (revision_at db env))))))
  put_values-on_notification print_id parse_id db user env e values targeting hub known plain small
        grant compiled good right =
      let o = handle_put_values rules db user true (some env) (some (values, targeting)) in
      let v =
        new_version env (next_version_number db env)
          (schema_of rules db e.project_id).schema_version values targeting user in
      let served =
        put_values-Serves rules db user env e values targeting grant compiled good right in
      let next : revision_at o.0 env ≡ suc (revision_at db env) = served.2 in
      (
        rw⁻¹ next served.3,
        rw⁻¹ next (
            served-on_notification print_id parse_id db env o v hub known plain (rw next small)
              served),
      )
