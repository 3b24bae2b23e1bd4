-- ===== src/Api/ApiKeys/Homes.antt =====
-- internal/api/apikey_handlers.go and apikey_guard.go: what the rows of the API keys keep to.
use knobs.Base.{
  ◌≡◌, ◌≢◌, refl, ℕ, ℕ_eq, String, String_eq, Bool, Option, none, some, [], ◌∷◌, nat_eq, ◌==◌,
  eq_iff, arith, Bool-cases, Option-cases, inl, inr,
}
use knobs.Base.Text.{Text}
use knobs.Assoc.{Assoc, lookup, insert, delete, lookup-insert, lookup-delete}
use knobs.Store.{Db, ApiKey, Environment, record_audit, get_or_init_schema}
use knobs.Store.Keyed.{IsUnique, insert_new-IsUnique, insert_kept-IsUnique}
use knobs.Store.ApiKeys.{
  find_hash, is_stale, create_api_key, api_key_by_hash, revoke_api_key, touch_api_key,
}
use knobs.Api.Access.{Access, authorize_env}
use knobs.Api.Values.Transactions.{Ends, with_tx_lem, Access-cases, authorize_env_found}
use knobs.Api.Values.Grows.{Grows, project_of}
use knobs.Api.ApiKeys.{
  generate, bearer, create_key_tx, handle_create_api_key, revoke_key_tx, handle_revoke_api_key,
  api_key_guard, handle_snapshot, handle_schema_delivery, guarded,
}

-- No two keys have the same hash, and the environment of every key is there, in the key's project.
pub record AreKeyed (keys : Assoc ℕ ApiKey) (environments : Assoc ℕ Environment) : Type 0 where
  pub hash_once : IsUnique (λ k. k.hash) keys
  pub homes :
      (id : ℕ) (k : ApiKey)
      → lookup id keys ≡ some k
      → project_of (lookup k.environment_id environments) ≡ some k.project_id

find_hash-none :
    (hash : String) (keys : Assoc ℕ ApiKey) (id : ℕ) (k : ApiKey)
    → find_hash hash keys ≡ none
    → lookup id keys ≡ some k
    → k.hash ≢ hash
unfolding find_hash lookup
find_hash-none hash [] id k free found same = ground arith
find_hash-none hash ((j, held) ∷ keys) id k free found same =
    ground (arith, find_hash-none hash keys id k, eq_iff held.hash hash)

created-AreKeyed :
    (keys : Assoc ℕ ApiKey) (environments : Assoc ℕ Environment) (id : ℕ) (k : ApiKey)
    → AreKeyed keys environments
    → find_hash k.hash keys ≡ none
    → project_of (lookup k.environment_id environments) ≡ some k.project_id
    → AreKeyed (insert id k keys) environments
created-AreKeyed keys environments id k h free home = record {
  hash_once =
      insert_new-IsUnique (λ k. k.hash) id k keys h.hash_once
        (λ j held. find_hash-none k.hash keys j held free);
  homes = λ j held found. ground (arith, lookup-insert id j k keys, h.homes j held, home);
}

revoked-AreKeyed :
    (keys : Assoc ℕ ApiKey) (environments : Assoc ℕ Environment) (id : ℕ)
    → AreKeyed keys environments
    → AreKeyed (delete id keys) environments
revoked-AreKeyed keys environments id h = record {
  hash_once = λ i j v w first second same.
      ground (arith, lookup-delete id i keys, lookup-delete id j keys, h.hash_once i j v w);
  homes = λ j held found. ground (arith, lookup-delete id j keys, h.homes j held);
}

touched-AreKeyed :
    (keys : Assoc ℕ ApiKey) (environments : Assoc ℕ Environment) (id : ℕ) (k : ApiKey)
    (used : Option ℕ)
    → AreKeyed keys environments
    → lookup id keys ≡ some k
    → AreKeyed (insert id (record k { last_used_at = used }) keys) environments
touched-AreKeyed keys environments id k used h there = record {
  hash_once =
      insert_kept-IsUnique (λ k. k.hash) id k (record k { last_used_at = used }) keys h.hash_once
        there refl;
  homes = λ j held found. ground (
    arith,
    lookup-insert id j (record k { last_used_at = used }) keys,
    h.homes j held,
    h.homes id k there,
  );
}

module _ {S V R : Type 0} where
  abbrev pub KeyedDb : Db S V R → Type 0
  KeyedDb db = AreKeyed db.api_keys db.environments

  pub create_key_tx-KeyedDb :
      (db : Db S V R) (user env : ℕ) (name : String) (pair : Text × String) (e : Environment)
      → KeyedDb db
      → lookup env db.environments ≡ some e
      → Ends (λ after a. KeyedDb after) (create_key_tx db user env e.project_id name pair)
  unfolding create_key_tx create_api_key record_audit
  create_key_tx-KeyedDb db user env name (plaintext, hash) e h found =
      elim (Option-cases (find_hash hash db.api_keys)) [
        | inr (row, taken) ↦ rw (create_key_tx, create_api_key, taken) tt
        | inl free ↦
            rw (create_key_tx, create_api_key, free)
              (created-AreKeyed db.api_keys db.environments db.next_id _ h free (rw found refl))
      ]

  pub handle_create_api_key-KeyedDb :
      (hash : Text → String) (db : Db S V R) (user : ℕ) (commits : Bool) (drawn : Option Text)
      (env : Option ℕ) (body : Option String)
      → KeyedDb db
      → KeyedDb (handle_create_api_key hash db user commits drawn env body).0
  unfolding handle_create_api_key
  handle_create_api_key-KeyedDb hash db user commits drawn none body h = h
  handle_create_api_key-KeyedDb hash db user commits drawn (some env) none h = h
  handle_create_api_key-KeyedDb hash db user commits drawn (some env) (some name) h =
      elim (Bool-cases (name == "")) [
        | inl bad ↦ rw (bad, handle_create_api_key) h
        | inr named ↦ elim (Access-cases (authorize_env db user env "admin")) [
          | inl (status, refusal) ↦ rw (named, refusal, handle_create_api_key) h
          | inr (e, grant) ↦ elim (Option-cases (generate hash drawn)) [
            | inl failing ↦ rw (named, grant, failing, handle_create_api_key) h
            | inr (pair, new) ↦
                rw (named, grant, new, handle_create_api_key)
                  (with_tx_lem (λ o. KeyedDb o.0) db commits
                    (create_key_tx db user env e.project_id name pair) (λ status. h)
                    (create_key_tx-KeyedDb db user env name pair e h
                      (authorize_env_found db user env "admin" e grant)))
          ]
        ]
      ]

  revoke_key_tx-KeyedDb :
      (db : Db S V R) (user env project id : ℕ)
      → KeyedDb db
      → Ends (λ after a. KeyedDb after) (revoke_key_tx db user env project id)
  unfolding revoke_key_tx revoke_api_key record_audit
  revoke_key_tx-KeyedDb db user env project id h = elim (Option-cases (lookup id db.api_keys)) [
    | inl absent ↦ rw (absent, revoke_key_tx, revoke_api_key) tt
    | inr (k, there) ↦ elim (Bool-cases (nat_eq k.environment_id env)) [
      | inr other ↦ rw (there, other, revoke_key_tx, revoke_api_key) tt
      | inl own ↦
          rw (there, own, revoke_key_tx, revoke_api_key)
            (revoked-AreKeyed db.api_keys db.environments id h)
    ]
  ]

  pub handle_revoke_api_key-KeyedDb :
      (db : Db S V R) (user : ℕ) (commits : Bool) (env key : Option ℕ)
      → KeyedDb db
      → KeyedDb (handle_revoke_api_key db user commits env key).0
  unfolding handle_revoke_api_key
  handle_revoke_api_key-KeyedDb db user commits none key h = h
  handle_revoke_api_key-KeyedDb db user commits (some env) none h = h
  handle_revoke_api_key-KeyedDb db user commits (some env) (some id) h =
      elim (Access-cases (authorize_env db user env "admin")) [
        | inl (status, refusal) ↦ rw (refusal, handle_revoke_api_key) h
        | inr (e, grant) ↦
            rw (grant, handle_revoke_api_key)
              (with_tx_lem (λ o. KeyedDb o.0) db commits (revoke_key_tx db user env e.project_id id)
                (λ status. h) (revoke_key_tx-KeyedDb db user env e.project_id id h))
      ]

  touch_api_key-KeyedDb :
      (db : Db S V R) (now id : ℕ) → KeyedDb db → KeyedDb (touch_api_key db now id)
  unfolding touch_api_key
  touch_api_key-KeyedDb db now id h = elim (Option-cases (lookup id db.api_keys)) [
    | inl absent ↦ rw (absent, touch_api_key) h
    | inr (k, there) ↦ elim (Bool-cases (is_stale now k.last_used_at)) [
      | inr fresh ↦ rw (there, fresh, touch_api_key) h
      | inl stale ↦
          rw (there, stale, touch_api_key)
            (touched-AreKeyed db.api_keys db.environments id k (some now) h there)
    ]
  ]

  pub api_key_guard-KeyedDb :
      (hash : Text → String) (db : Db S V R) (now : ℕ) (touches : Bool) (header : Text)
      → KeyedDb db
      → KeyedDb (api_key_guard hash db now touches header).0
  unfolding api_key_guard api_key_by_hash
  api_key_guard-KeyedDb hash db now touches header h = elim (Option-cases (bearer header)) [
    | inl bare ↦ rw (bare, api_key_guard) h
    | inr (plaintext, sent) ↦ elim (Option-cases (find_hash (hash plaintext) db.api_keys)) [
      | inl unknown ↦ rw (sent, api_key_guard, api_key_by_hash, unknown) h
      | inr (row, known) ↦ elim (Bool-cases touches) [
        | inr failing ↦ rw (sent, api_key_guard, api_key_by_hash, known, failing) h
        | inl writes ↦
            rw (sent, api_key_guard, api_key_by_hash, known, writes)
              (touch_api_key-KeyedDb db now row.0 h)
      ]
    ]
  ]

  -- Environments come, and stay in their projects.
  pub grown-AreKeyed :
      (before after : Db S V R)
      → Grows before after
      → KeyedDb before
      → AreKeyed before.api_keys after.environments
  grown-AreKeyed before after grows h = record {
    hash_once = h.hash_once;
    homes = λ id k found. ground (arith, grows.places k.environment_id, h.homes id k found);
  }

  -- Nothing else of the keys or the environments changes behind the guard.
  module _ (no_fields : S) (schema_hash : S → String) where
    snapshot_behind :
        (access : Db S V R × Access ℕ)
        → (let after =
              (guarded no_fields schema_hash (handle_snapshot no_fields schema_hash) access).0 in
            (after.api_keys ≡ access.0.api_keys) × (after.environments ≡ access.0.environments))
    unfolding handle_snapshot get_or_init_schema
    snapshot_behind access = ground arith

    schema_behind :
        (access : Db S V R × Access ℕ)
        → (let after =
              (guarded no_fields schema_hash
                (handle_schema_delivery no_fields schema_hash)
                access).0 in
            (after.api_keys ≡ access.0.api_keys) × (after.environments ≡ access.0.environments))
    unfolding handle_schema_delivery get_or_init_schema
    schema_behind access = ground arith

    pub snapshot_behind-KeyedDb :
        (access : Db S V R × Access ℕ)
        → KeyedDb access.0
        → KeyedDb (guarded no_fields schema_hash (handle_snapshot no_fields schema_hash) access).0
    snapshot_behind-KeyedDb access h = rw ((snapshot_behind access).0, (snapshot_behind access).1) h

    pub schema_behind-KeyedDb :
        (access : Db S V R × Access ℕ)
        → KeyedDb access.0
        → KeyedDb
            (guarded no_fields schema_hash (handle_schema_delivery no_fields schema_hash) access).0
    schema_behind-KeyedDb access h = rw ((schema_behind access).0, (schema_behind access).1) h
