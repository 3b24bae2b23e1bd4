-- ===== src/Api/ApiKeys/Laws.antt =====
-- internal/api: what an API key opens, and until when.
use knobs.Base.{
  ◌≡◌, refl, ◌∙◌, ap, ℕ, suc, String, String_eq, ℕ_eq, Bool, true, false, none, some, [], ◌∷◌, ◌++◌,
  if◌then◌else◌, ◌==◌, nat_eq, nat_eq_iff, arith, Bool-cases, Option-cases, inl, inr, eq_iff,
}
use knobs.Base.Text.{Text, codes}
use knobs.Assoc.{Assoc, lookup, insert, delete, lookup-insert}
use knobs.Delivery.Snapshot.{build_snapshot}
use knobs.Store.{
  Db, ApiKey, ConfigSchema, Environment, org_id_for_env, member_role, current_version,
  get_or_init_schema, lock_project_schema, record_audit,
}
use knobs.Store.ApiKeys.{
  find_hash, is_stale, create_api_key, api_key_by_hash, revoke_api_key, touch_api_key,
}
use knobs.Api.Access.{unauthorized, granted, authorize_env, authorize_org}
use knobs.Api.Values.{refused, replied}
use knobs.Api.ApiKeys.{
  generate, bearer, strip_prefix, create_key_tx, handle_create_api_key, revoke_key_tx,
  handle_revoke_api_key, api_key_guard, handle_snapshot, snapshot_request, with_schema,
}

find_hash-insert :
    (id : ℕ) (k : ApiKey) (keys : Assoc ℕ ApiKey)
    → lookup id keys ≡ none
    → find_hash k.hash keys ≡ none
    → find_hash k.hash (insert id k keys) ≡ some (id, k)
unfolding find_hash insert lookup
find_hash-insert id k [] fresh new = ground (arith, eq_iff k.hash k.hash)
find_hash-insert id k ((j, held) ∷ keys) fresh new = ground (arith, find_hash-insert id k keys)

delete-insert :
    (id : ℕ) (k : ApiKey) (keys : Assoc ℕ ApiKey)
    → lookup id keys ≡ none
    → delete id (insert id k keys) ≡ keys
unfolding insert delete lookup
delete-insert id k [] fresh = ground (arith, nat_eq_iff id id)
delete-insert id k ((j, held) ∷ keys) fresh = ground (arith, delete-insert id k keys)

abbrev pub key_of : Text → Text
key_of drawn = codes "knobs_" ++ drawn

abbrev pub header_of : Text → Text
header_of drawn = codes "Bearer " ++ key_of drawn

module _ {S V R : Type 0} (hash : Text → String) where
  -- The row of a new key.
  abbrev pub new_key : Db S V R → Environment → ℕ → String → Text → ApiKey
  new_key db e env name drawn = record {
    environment_id = env;
    project_id = e.project_id;
    name = name;
    hash = hash (key_of drawn);
    last_used_at = none;
  }

  abbrev pub with_key : Db S V R → Environment → ℕ → ℕ → String → Text → Db S V R
  with_key db e user env name drawn =
      record_audit
        (record db {
          api_keys = insert db.next_id (new_key db e env name drawn) db.api_keys;
          next_id = suc db.next_id;
        })
        (some e.project_id) user "apikey.create" db.next_id

  handle_create_api_key_granted :
      (db : Db S V R) (user env : ℕ) (drawn : Text) (name : String) (e : Environment)
      → (name == "") ≡ false
      → authorize_env db user env "admin" ≡ granted e
      → find_hash (hash (key_of drawn)) db.api_keys ≡ none
      → handle_create_api_key hash db user true (some drawn) (some env) (some name) ≡ (
        with_key db e user env name drawn,
        replied (record { id = db.next_id; name = name; key = key_of drawn }),
      )
  unfolding handle_create_api_key generate create_key_tx create_api_key
  handle_create_api_key_granted db user env drawn name e named grant new =
      rw (handle_create_api_key, named, grant, generate, create_key_tx, create_api_key, new) refl

  handle_revoke_api_key_granted :
      (db : Db S V R) (user env id : ℕ) (k : ApiKey) (e : Environment)
      → authorize_env db user env "admin" ≡ granted e
      → lookup id db.api_keys ≡ some k
      → k.environment_id ≡ env
      → handle_revoke_api_key db user true (some env) (some id) ≡ (
        record_audit
            (record db { api_keys = delete id db.api_keys })
            (some e.project_id)
            user
            "apikey.revoke"
            id,
        replied tt,
      )
  unfolding handle_revoke_api_key revoke_key_tx revoke_api_key
  handle_revoke_api_key_granted db user env id k e grant there own =
      let same : nat_eq k.environment_id env ≡ true = (nat_eq_iff k.environment_id env).1 own in
      rw (handle_revoke_api_key, grant, revoke_key_tx, revoke_api_key, there, same) refl

  authorize_env-with_key :
      (db : Db S V R) (e : Environment) (caller user env : ℕ) (name : String) (drawn : Text)
      → authorize_env (with_key db e user env name drawn) caller env "admin"
        ≡ authorize_env db caller env "admin"
  unfolding authorize_env record_audit org_id_for_env authorize_org member_role
  authorize_env-with_key db e caller user env name drawn = refl

module _ {S V R : Type 0} (no_fields : S) (schema_hash : S → String) where
  with_schema_keys :
      {A : Type 0} (db : Db S V R) (keys : Assoc ℕ ApiKey) (project : ℕ)
      (answer : ConfigSchema S → A)
      → (with_schema no_fields schema_hash (record db { api_keys = keys }) project answer).1
        ≡ (with_schema no_fields schema_hash db project answer).1
  unfolding get_or_init_schema lock_project_schema
  with_schema_keys db keys project answer = ground (
    arith,
    lookup-insert project project (record { definition = no_fields; schema_version = 1 })
        db.schemas,
  )

  -- A snapshot does not depend on the keys.
  handle_snapshot_keys :
      (db : Db S V R) (keys : Assoc ℕ ApiKey) (env : ℕ)
      → (handle_snapshot no_fields schema_hash (record db { api_keys = keys }) env).1
        ≡ (handle_snapshot no_fields schema_hash db env).1
  unfolding handle_snapshot current_version get_or_init_schema lock_project_schema
  handle_snapshot_keys db keys env = elim (Option-cases (lookup env db.environments)) [
    | inl absent ↦ rw (handle_snapshot, absent) refl
    | inr (e, found) ↦ elim (Option-cases (current_version db env)) [
      | inl unset ↦ rw (handle_snapshot, found, unset) refl
      | inr (cv, set) ↦
          rw (handle_snapshot, found, set)
            (with_schema_keys db keys e.project_id (λ cs.
              build_snapshot cv.version cv.values cv.targeting (schema_hash cs.definition)
                e.delivery_revision))
    ]
  ]

  pub handle_snapshot-touch_api_key :
      (db : Db S V R) (touches : Bool) (now id env : ℕ)
      → (handle_snapshot no_fields schema_hash
          (if touches then touch_api_key db now id else db)
          env).1
        ≡ (handle_snapshot no_fields schema_hash db env).1
  unfolding touch_api_key
  handle_snapshot-touch_api_key db false now id env = refl
  handle_snapshot-touch_api_key db true now id env = elim (Option-cases (lookup id db.api_keys)) [
    | inl absent ↦ rw (touch_api_key, absent) refl
    | inr (k, there) ↦ elim (Bool-cases (is_stale now k.last_used_at)) [
      | inl stale ↦
          rw (touch_api_key, there, stale)
            (handle_snapshot_keys db (insert id (record k { last_used_at = some now }) db.api_keys)
              env)
      | inr recent ↦ rw (touch_api_key, there, recent) refl
    ]
  ]

  module _ (hash : Text → String) where
    guard_known :
        (db : Db S V R) (now : ℕ) (touches : Bool) (drawn : Text) (row : ℕ × ApiKey)
        → find_hash (hash (key_of drawn)) db.api_keys ≡ some row
        → (snapshot_request no_fields schema_hash hash db now touches (header_of drawn)).1
          ≡ (handle_snapshot no_fields schema_hash db row.1.environment_id).1
    unfolding snapshot_request api_key_guard bearer strip_prefix api_key_by_hash
    guard_known db now touches drawn row known =
        rw (snapshot_request, api_key_guard, known)
          (handle_snapshot-touch_api_key db touches now row.0 row.1.environment_id)

    guard_unknown :
        (db : Db S V R) (now : ℕ) (touches : Bool) (drawn : Text)
        → find_hash (hash (key_of drawn)) db.api_keys ≡ none
        → snapshot_request no_fields schema_hash hash db now touches (header_of drawn)
          ≡ (db, refused unauthorized)
    unfolding snapshot_request api_key_guard bearer strip_prefix api_key_by_hash
    guard_unknown db now touches drawn unknown = rw (snapshot_request, api_key_guard, unknown) refl

    -- With a name, a grant to the creator and to whoever revokes it, and a hash that is new: a key of an
    -- environment is created and answered by that reply, and as a bearer token it opens the snapshot of
    -- that environment; once it is revoked, the tables have the keys that they had before, and a request
    -- with it is unauthorized.
    pub api_key_lifecycle :
        (db : Db S V R) (user revoker env now : ℕ) (touches : Bool) (drawn : Text) (name : String)
        (e : Environment)
        → (name == "") ≡ false
        → authorize_env db user env "admin" ≡ granted e
        → authorize_env db revoker env "admin" ≡ granted e
        → lookup db.next_id db.api_keys ≡ none
        → find_hash (hash (key_of drawn)) db.api_keys ≡ none
        → (let created =
              handle_create_api_key hash db user true (some drawn) (some env) (some name) in
            let revoked =
              handle_revoke_api_key created.0 revoker true (some env) (some db.next_id) in
            (created.1 ≡ replied (record { id = db.next_id; name = name; key = key_of drawn }))
            × (((snapshot_request no_fields schema_hash hash created.0 now touches
                    (header_of drawn)).1
                  ≡ (handle_snapshot no_fields schema_hash created.0 env).1)
                × ((revoked.1 ≡ replied tt)
                    × ((revoked.0.api_keys ≡ db.api_keys)
                        × (snapshot_request no_fields schema_hash hash revoked.0 now touches
                              (header_of drawn)
                            ≡ (revoked.0, refused unauthorized))))))
    unfolding record_audit
    api_key_lifecycle db user revoker env now touches drawn name e named grant regrant fresh new =
        let k = new_key hash db e env name drawn in
        let with_it = with_key hash db e user env name drawn in
        let stored : lookup db.next_id with_it.api_keys ≡ some k = ground (
          arith,
          lookup-insert db.next_id db.next_id k db.api_keys,
          nat_eq_iff db.next_id db.next_id,
        ) in
        let gone : delete db.next_id with_it.api_keys ≡ db.api_keys =
          delete-insert db.next_id k db.api_keys fresh in
        let create = handle_create_api_key_granted hash db user env drawn name e named grant new in
        let revoke =
          handle_revoke_api_key_granted hash with_it revoker env db.next_id k e
            (authorize_env-with_key hash db e revoker user env name drawn ∙ regrant) stored refl in
        rw (create, revoke)
          (
            refl,
            (
              guard_known with_it now touches drawn (db.next_id, k)
                  (find_hash-insert db.next_id k db.api_keys fresh new),
              (
                refl,
                (
                  gone,
                  guard_unknown
                      (record_audit
                        (record with_it { api_keys = delete db.next_id with_it.api_keys })
                        (some e.project_id) revoker "apikey.revoke" db.next_id)
                      now touches drawn (ap (find_hash (hash (key_of drawn))) gone ∙ new),
                ),
              ),
            ),
          )
