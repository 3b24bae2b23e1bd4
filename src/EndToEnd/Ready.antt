-- ===== src/EndToEnd/Ready.antt =====
-- The start of an SDK: `Ready` of sdk/go/knobs.go and sdk/go/http.go against the server's
-- internal/api/snapshot_handler.go behind its guard, over the responses of internal/api/respond.go.
use knobs.Base.{
  ◌∙◌, ◌≡◌, ◌≢◌, refl, ℕ, ℕ_eq, String, String_eq, Bool, true, false, Option, none, some, [], ◌∷◌,
  ◌++◌, ◌||◌, ◌⊎◌, inl, inr, arith, nat_eq_iff, Option-cases,
}
use knobs.Base.Text.{Text, codes}
use knobs.Assoc.{lookup}
use knobs.Store.{Db, Environment, ConfigVersion, current_version, lock_project_schema}
use knobs.Store.ApiKeys.{find_hash, api_key_by_hash}
use knobs.Store.Schemas.{schema_or, lookup-get_or_init_schema}
use knobs.Delivery.Snapshot.{Snapshot, SameSnapshot, build_snapshot}
use knobs.Api.Access.{
  Status, bad_request, unauthorized, forbidden, not_found, conflict, unprocessable,
  too_many_requests, internal,
}
use knobs.Api.Values.{Reply, refused, replied}
use knobs.Api.ApiKeys.{
  bearer, strip_prefix, api_key_guard, handle_snapshot, snapshot_request, with_schema,
}
use knobs.Sdk.Client.{
  Client, ready, set_snapshot, start_background, check_schema_drift, empty_snapshot,
}
use knobs.Sdk.Http.{
  FetchError, Request, Response, Options, fetch_snapshot, read_snapshot, fetched_of,
  snapshot_request_of,
}
use knobs.Sdk.Live.{normalized_same}
use knobs.Sdk.Gate.{check_schema_drift_keeps}
use knobs.Api.ApiKeys.Laws.{handle_snapshot-touch_api_key}

-- The constants of net/http.
abbrev pub code_of : Status → ℕ
code_of bad_request = 400
code_of unauthorized = 401
code_of forbidden = 403
code_of not_found = 404
code_of conflict = 409
code_of unprocessable = 422
code_of too_many_requests = 429
code_of internal = 500

module _ {V R : Type 0} (encode : Snapshot V R → Text) (message : Status → Text)
    (status_line : ℕ → Text) where
  -- `writeJSON` of a snapshot, and `writeErr` with the encoded message of the status.
  unfoldable pub respond : Reply (Snapshot V R) → Response
  respond (refused s) = record {
    code = code_of s;
    status = status_line (code_of s);
    body = some (message s);
  }
  respond (replied snap) = record {
    code = 200;
    status = status_line 200;
    body = some (encode snap);
  }

module _ {S V R : Type 0} (hash : Text → String) (no_fields : S) (schema_hash : S → String) where
  -- What there is to be read with a key: nothing, an environment in which nothing is set, or what its
  -- current version has.
  abbrev pub set_in :
      Db S V R → Option Environment → Option (ConfigVersion V R) → Option (Snapshot V R)
  set_in db none cv = none
  set_in db (some e) none = none
  set_in db (some e) (some cv) = some (
      build_snapshot cv.version cv.values cv.targeting
        (schema_hash (schema_or no_fields (lookup e.project_id db.schemas)).definition)
        e.delivery_revision)

  abbrev pub readable : Db S V R → Text → Option (Option (Snapshot V R))
  readable db key = elim (find_hash (hash key) db.api_keys) [
    | none ↦ none
    | some row ↦ some (
        set_in db (lookup row.1.environment_id db.environments)
          (current_version db row.1.environment_id))
  ]

  handle_snapshot-set_in :
      (db : Db S V R) (env : ℕ)
      → (handle_snapshot no_fields schema_hash db env).1
        ≡ elim (set_in db (lookup env db.environments) (current_version db env)) [
          | none ↦ refused not_found
          | some snap ↦ replied snap
        ]
  unfolding handle_snapshot lock_project_schema
  handle_snapshot-set_in db env = elim (Option-cases (lookup env db.environments)) [
    | inl absent ↦ rw (absent, handle_snapshot) refl
    | inr (e, there) ↦ elim (Option-cases (current_version db env)) [
      | inl unset ↦ rw (there, unset, handle_snapshot) refl
      | inr (cv, set) ↦
          rw
            (
              there,
              set,
              handle_snapshot,
              with_schema,
              lock_project_schema,
              lookup-get_or_init_schema no_fields db e.project_id e.project_id,
              (nat_eq_iff e.project_id e.project_id).1 refl,
            )
            refl
    ]
  ]

  -- The answer to a request with a key, whatever becomes of the time of its use.
  snapshot_request-readable :
      (db : Db S V R) (now : ℕ) (touches : Bool) (key : Text)
      → key ≢ []
      → (snapshot_request no_fields schema_hash hash db now touches (codes "Bearer " ++ key)).1
        ≡ elim (readable db key) [
          | none ↦ refused unauthorized
          | some there ↦ elim there [ none ↦ refused not_found | some snap ↦ replied snap ]
        ]
  unfolding snapshot_request api_key_guard api_key_by_hash bearer strip_prefix
  snapshot_request-readable db now touches [] given = absurd (given refl)
  snapshot_request-readable db now touches (c ∷ key) given =
      elim (Option-cases (find_hash (hash (c ∷ key)) db.api_keys)) [
        | inl unknown ↦ rw (snapshot_request, api_key_guard, unknown) refl
        | inr (row, known) ↦
            rw (snapshot_request, api_key_guard, known)
              (handle_snapshot-touch_api_key no_fields schema_hash db touches now row.0
                  row.1.environment_id
                ∙ handle_snapshot-set_in db row.1.environment_id)
      ]

-- How `Ready` ends on what there is to be read: with an error, on nothing, or on what is served. The
-- background work is started unless the client is closed.
abbrev pub Starts :
    {V R : Type 0} → Client V R → Option (Option (Snapshot V R)) → Client V R × Bool → Type 0
Starts c none o = o ≡ (c, true)
Starts c (some none) o =
    (o.1 ≡ false) × (o.0.current ≡ empty_snapshot) × ((o.0.started || o.0.closed) ≡ true)
Starts c (some (some s)) o =
    (o.1 ≡ false) × SameSnapshot o.0.current s × ((o.0.started || o.0.closed) ≡ true)

start_background_lem :
    {V R : Type 0} (c : Client V R)
    → ((start_background c).current ≡ c.current)
      × (((start_background c).started || (start_background c).closed) ≡ true)
unfolding start_background
start_background_lem c = ground arith

module _ {V R : Type 0} (encode : Snapshot V R → Text) (decode : Text → Option (Snapshot V R))
    (message : Status → Text) (status_line : ℕ → Text) (trim : Text → Text)
    (decode_error : Text → Option Text) where
  -- The same, of what the server has answered.
  abbrev answered : Reply (Snapshot V R) → FetchError ⊎ Option (Snapshot V R)
  answered reply = read_snapshot trim decode_error decode (respond encode message status_line reply)

  ready-Starts :
      (c : Client V R) (there : Option (Option (Snapshot V R)))
      → ((s : Snapshot V R) → there ≡ some (some s) → decode (encode s) ≡ some s)
      → Starts c there (
          ready c (
            fetched_of (
              answered (elim there [
                | none ↦ refused unauthorized
                | some seen ↦ elim seen [ none ↦ refused not_found | some snap ↦ replied snap ]
              ]))))
  unfolding read_snapshot respond ready set_snapshot
  ready-Starts c none reads = refl
  ready-Starts c (some none) reads =
      let started = start_background_lem (set_snapshot c empty_snapshot) in
      (refl, started.0, started.1)
  ready-Starts c (some (some s)) reads =
      let checked = check_schema_drift (set_snapshot c s) s in
      let started = start_background_lem checked in
      rw (reads s refl) (
        refl,
        rw (started.0 ∙ (check_schema_drift_keeps (set_snapshot c s) s).0) (normalized_same s),
        started.1,
      )

  module _ {S : Type 0} (hash : Text → String) (no_fields : S) (schema_hash : S → String) where
    -- Where the transport brings the server's answer to the request, and JSON reads back the snapshot
    -- that it has written: `Ready` with a key that the server does not have is an error that leaves the client as
    -- it was; with a key of an environment in which nothing is set, it ends with an empty snapshot; and
    -- otherwise with what the environment serves, under its revision. Unless it is an error, the
    -- background work is running or the client is closed.
    pub fetch_snapshot-ready :
        (db : Db S V R) (now : ℕ) (touches : Bool) (c : Client V R) (opts : Options)
        (send : Request → Option Response)
        → ((s : Snapshot V R)
            → readable hash no_fields schema_hash db opts.api_key ≡ some (some s)
            → decode (encode s) ≡ some s)
        → opts.api_key ≢ []
        → (let request = snapshot_request_of opts 0 in
            send request
            ≡ some (
                respond encode message status_line
                  (snapshot_request no_fields schema_hash hash db now touches
                    request.authorization).1))
        → Starts c
            (readable hash no_fields schema_hash db opts.api_key)
            (ready c (fetched_of (fetch_snapshot trim decode_error decode send opts 0)))
    unfolding fetch_snapshot snapshot_request_of
    fetch_snapshot-ready db now touches c opts send reads given answers =
        rw
          (
            answers,
            fetch_snapshot,
            snapshot_request-readable hash no_fields schema_hash db now touches opts.api_key given,
          )
          (ready-Starts c (readable hash no_fields schema_hash db opts.api_key) reads)
