-- ===== src/Api/Aside.antt =====
-- internal/api: the requests about organizations, members and API keys, and those of the SDKs, as
-- against the tables that an SDK is served from.
pub mod Laws
use knobs.Base.{◌≡◌, ℕ, suc, ◌≤◌, String, String_eq, ℕ_eq, Bool, Option, none, some, [], ◌∷◌, arith}
use knobs.Base.Text.{Text}
use knobs.Assoc.{Assoc}
use knobs.Store.{Db, Environment, ConfigVersion, Project, record_audit, get_or_init_schema}
use knobs.Store.Members.{
  put_role, add_member, update_member_role, remove_member, create_organization, create_user,
}
use knobs.Store.ApiKeys.{create_api_key, revoke_api_key, touch_api_key}
use knobs.Api.Members.{
  enlist, add_member_tx, handle_add_member, update_role_tx, handle_update_member_role, remove_tx,
  handle_remove_member, create_tx, create_attempts, handle_create_organization, max_slug_attempts,
}
use knobs.Api.Members.Slug.{derive_slug}
use knobs.Api.ApiKeys.{
  create_key_tx, handle_create_api_key, revoke_key_tx, handle_revoke_api_key, api_key_guard,
  handle_snapshot, handle_schema_delivery, guarded,
}

-- What an SDK is served, but for the schema.
pub record Served (V R : Type 0) : Type 0 where
  pub projects : Assoc ℕ Project
  pub environments : Assoc ℕ Environment
  pub versions : Assoc ℕ (ConfigVersion V R)

module _ {S V R : Type 0} where
  abbrev pub served : Db S V R → Served V R
  served db = record {
    projects = db.projects;
    environments = db.environments;
    versions = db.versions;
  }

  -- A change beside those tables, which may take ids.
  abbrev pub IsAside : Db S V R → Db S V R → Type 0
  IsAside before after = (served after ≡ served before) × (before.next_id ≤ after.next_id)

  -- One that leaves the memberships as they were, too.
  abbrev pub IsBeside : Db S V R → Db S V R → Type 0
  IsBeside before after = IsAside before after × (after.members ≡ before.members)

  -- One that leaves the keys as they were, too.
  abbrev pub LeavesKeys : Db S V R → Db S V R → Type 0
  LeavesKeys before after = IsAside before after × (after.api_keys ≡ before.api_keys)

  pub handle_add_member-LeavesKeys :
      (lower : String → String) (db : Db S V R) (caller : ℕ) (commits : Bool)
      (invite : Option (String × String)) (org : Option ℕ) (body : Option (String × String))
      → LeavesKeys db (handle_add_member lower db caller commits invite org body).0
  unfolding handle_add_member add_member_tx enlist add_member create_user put_role record_audit
  handle_add_member-LeavesKeys lower db caller commits invite org body = ground arith

  pub handle_update_member_role-LeavesKeys :
      (db : Db S V R) (caller : ℕ) (commits : Bool) (org target : Option ℕ) (body : Option String)
      → LeavesKeys db (handle_update_member_role db caller commits org target body).0
  unfolding handle_update_member_role update_role_tx update_member_role put_role record_audit
  handle_update_member_role-LeavesKeys db caller commits org target body = ground arith

  pub handle_remove_member-LeavesKeys :
      (db : Db S V R) (caller : ℕ) (commits : Bool) (org target : Option ℕ)
      → LeavesKeys db (handle_remove_member db caller commits org target).0
  unfolding handle_remove_member remove_tx remove_member record_audit
  handle_remove_member-LeavesKeys db caller commits org target = ground arith

  create_attempts-LeavesKeys :
      (left attempt : ℕ) (db : Db S V R) (caller : ℕ) (commits : Bool) (name base : Text)
      → LeavesKeys db (create_attempts left attempt db caller commits name base).0
  unfolding create_attempts create_tx create_organization add_member put_role record_audit
  create_attempts-LeavesKeys ℕ.zero attempt db caller commits name base = ground arith
  create_attempts-LeavesKeys (suc left) attempt db caller commits name base =
      ground (arith, create_attempts-LeavesKeys left (suc attempt) db caller commits name base)

  pub handle_create_organization-LeavesKeys :
      (to_lower : ℕ → ℕ) (db : Db S V R) (caller : ℕ) (commits : Bool) (body : Option Text)
      → LeavesKeys db (handle_create_organization to_lower db caller commits body).0
  unfolding handle_create_organization
  handle_create_organization-LeavesKeys to_lower db caller commits none = ground arith
  handle_create_organization-LeavesKeys to_lower db caller commits (some []) = ground arith
  handle_create_organization-LeavesKeys to_lower db caller commits (some (c ∷ name)) =
      create_attempts-LeavesKeys max_slug_attempts 0 db caller commits (c ∷ name)
        (derive_slug to_lower (c ∷ name))

  pub handle_create_api_key-IsBeside :
      (hash : Text → String) (db : Db S V R) (user : ℕ) (commits : Bool) (drawn : Option Text)
      (env : Option ℕ) (body : Option String)
      → IsBeside db (handle_create_api_key hash db user commits drawn env body).0
  unfolding handle_create_api_key create_key_tx create_api_key record_audit
  handle_create_api_key-IsBeside hash db user commits drawn env body = ground arith

  pub handle_revoke_api_key-IsBeside :
      (db : Db S V R) (user : ℕ) (commits : Bool) (env key : Option ℕ)
      → IsBeside db (handle_revoke_api_key db user commits env key).0
  unfolding handle_revoke_api_key revoke_key_tx revoke_api_key record_audit
  handle_revoke_api_key-IsBeside db user commits env key = ground arith

  module _ (no_fields : S) (schema_hash : S → String) where
    pub snapshot-IsBeside :
        (hash : Text → String) (db : Db S V R) (now : ℕ) (touches : Bool) (header : Text)
        → IsBeside db
            (guarded no_fields schema_hash
              (handle_snapshot no_fields schema_hash)
              (api_key_guard hash db now touches header)).0
    unfolding api_key_guard touch_api_key handle_snapshot get_or_init_schema
    snapshot-IsBeside hash db now touches header = ground arith

    pub schema_delivery-IsBeside :
        (hash : Text → String) (db : Db S V R) (now : ℕ) (touches : Bool) (header : Text)
        → IsBeside db
            (guarded no_fields schema_hash
              (handle_schema_delivery no_fields schema_hash)
              (api_key_guard hash db now touches header)).0
    unfolding api_key_guard touch_api_key handle_schema_delivery get_or_init_schema
    schema_delivery-IsBeside hash db now touches header = ground arith
