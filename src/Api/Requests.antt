-- ===== src/Api/Requests.antt =====
-- internal/api: all requests that write, of members, of values and by SDKs, in any order.
use knobs.Base.{ℕ, String, ℕ_eq, Bool, true, Option}
use knobs.Base.Text.{Text}
use knobs.Store.{Db}
use knobs.Store.Laws.{IsSound}
use knobs.Api.Values.{SchemaRules}
use knobs.Api.Values.Grows.{Grows, Grows-refl, Grows-trans}
use knobs.Api.Values.Run
use knobs.Api.Values.Run.{
  saved, schema_changed, environment_created, project_created, project_renamed, schema_read,
  rolled_back, Step-Advances,
}
use knobs.Api.Projects.Named.{AreNamed, Step-NamedDb}
use knobs.Api.Members.Owners
use knobs.Api.Members.Owners.{IsOwned, added, role_changed, removed, created, Step-IsOwned}
use knobs.Api.ApiKeys.{
  handle_create_api_key, handle_revoke_api_key, api_key_guard, handle_snapshot,
  handle_schema_delivery, guarded,
}
use knobs.Api.Aside.{
  IsBeside, LeavesKeys, handle_add_member-LeavesKeys, handle_update_member_role-LeavesKeys,
  handle_remove_member-LeavesKeys, handle_create_organization-LeavesKeys,
  handle_create_api_key-IsBeside, handle_revoke_api_key-IsBeside, snapshot-IsBeside,
  schema_delivery-IsBeside,
}
use knobs.Api.Aside.Laws.{aside-IsSound, aside-Grows, aside-AreNamed}
use knobs.Api.Values.Apart.{Step-IsApart}
use knobs.Api.ApiKeys.Homes.{
  AreKeyed, KeyedDb, handle_create_api_key-KeyedDb, handle_revoke_api_key-KeyedDb,
  api_key_guard-KeyedDb, grown-AreKeyed, snapshot_behind-KeyedDb, schema_behind-KeyedDb,
}

-- A request about keys or by an SDK, whatever the clock and the random numbers. What the opening of a
-- stream writes is what the reading of a snapshot does.
pub data KeyStep {S V R : Type 0} (no_fields : S) (schema_hash : S → String)
    : Db S V R → Db S V R → Type 0 where
  key_created :
      (hash : Text → String) (db : Db S V R) (user : ℕ) (commits : Bool) (drawn : Option Text)
      (env : Option ℕ) (body : Option String)
      → KeyStep no_fields schema_hash db
          (handle_create_api_key hash db user commits drawn env body).0
  key_revoked :
      (db : Db S V R) (user : ℕ) (commits : Bool) (env key : Option ℕ)
      → KeyStep no_fields schema_hash db (handle_revoke_api_key db user commits env key).0
  snapshot_read :
      (hash : Text → String) (db : Db S V R) (now : ℕ) (touches : Bool) (header : Text)
      → KeyStep no_fields schema_hash db
          (guarded no_fields schema_hash
            (handle_snapshot no_fields schema_hash)
            (api_key_guard hash db now touches header)).0
  schema_delivered :
      (hash : Text → String) (db : Db S V R) (now : ℕ) (touches : Bool) (header : Text)
      → KeyStep no_fields schema_hash db
          (guarded no_fields schema_hash
            (handle_schema_delivery no_fields schema_hash)
            (api_key_guard hash db now touches header)).0

-- The requests of all kinds that can change a table.
pub data Step {S V R : Type 0} (rules : SchemaRules S V R) (schema_hash : S → String)
    : Db S V R → Db S V R → Type 0 where
  of_values :
      {before after : Db S V R}
      → Run.Step rules true before after
      → Step rules schema_hash before after
  of_members :
      {before after : Db S V R} → Owners.Step before after → Step rules schema_hash before after
  of_keys :
      {before after : Db S V R}
      → KeyStep rules.no_fields schema_hash before after
      → Step rules schema_hash before after

pub data Requests {S V R : Type 0} (rules : SchemaRules S V R) (schema_hash : S → String)
    : Db S V R → Db S V R → Type 0 where
  stay : (db : Db S V R) → Requests rules schema_hash db db
  next :
      {before during after : Db S V R}
      → Requests rules schema_hash before during
      → Step rules schema_hash during after
      → Requests rules schema_hash before after

-- What all tables together keep to.
pub record IsConsistent {S V R : Type 0} (db : Db S V R) : Type 0 where
  pub sound : IsSound db
  pub named : AreNamed db.projects db.environments
  pub owned : IsOwned db.members
  pub keyed : AreKeyed db.api_keys db.environments

module _ {S V R : Type 0} where
  Owners-LeavesKeys : (before after : Db S V R) → Owners.Step before after → LeavesKeys before after
  Owners-LeavesKeys before after (added lower db caller commits invite org body) =
      handle_add_member-LeavesKeys lower db caller commits invite org body
  Owners-LeavesKeys before after (role_changed db caller commits org target body) =
      handle_update_member_role-LeavesKeys db caller commits org target body
  Owners-LeavesKeys before after (removed db caller commits org target) =
      handle_remove_member-LeavesKeys db caller commits org target
  Owners-LeavesKeys before after (created to_lower db caller commits body) =
      handle_create_organization-LeavesKeys to_lower db caller commits body

  KeyStep-IsBeside :
      (no_fields : S) (schema_hash : S → String) (before after : Db S V R)
      → KeyStep no_fields schema_hash before after
      → IsBeside before after
  KeyStep-IsBeside no_fields schema_hash before after
        (key_created hash db user commits drawn env body) =
      handle_create_api_key-IsBeside hash db user commits drawn env body
  KeyStep-IsBeside no_fields schema_hash before after (key_revoked db user commits env key) =
      handle_revoke_api_key-IsBeside db user commits env key
  KeyStep-IsBeside no_fields schema_hash before after (snapshot_read hash db now touches header) =
      snapshot-IsBeside no_fields schema_hash hash db now touches header
  KeyStep-IsBeside no_fields schema_hash before after
        (schema_delivered hash db now touches header) =
      schema_delivery-IsBeside no_fields schema_hash hash db now touches header

  KeyStep-KeyedDb :
      (no_fields : S) (schema_hash : S → String) (before after : Db S V R)
      → KeyStep no_fields schema_hash before after
      → KeyedDb before
      → KeyedDb after
  KeyStep-KeyedDb no_fields schema_hash before after
        (key_created hash db user commits drawn env body) h =
      handle_create_api_key-KeyedDb hash db user commits drawn env body h
  KeyStep-KeyedDb no_fields schema_hash before after (key_revoked db user commits env key) h =
      handle_revoke_api_key-KeyedDb db user commits env key h
  KeyStep-KeyedDb no_fields schema_hash before after (snapshot_read hash db now touches header) h =
      snapshot_behind-KeyedDb no_fields schema_hash (api_key_guard hash db now touches header)
        (api_key_guard-KeyedDb hash db now touches header h)
  KeyStep-KeyedDb no_fields schema_hash before after (schema_delivered hash db now touches header)
        h =
      schema_behind-KeyedDb no_fields schema_hash (api_key_guard hash db now touches header)
        (api_key_guard-KeyedDb hash db now touches header h)

  module _ (rules : SchemaRules S V R) (schema_hash : S → String) where
    Step-IsConsistent :
        (before after : Db S V R)
        → Step rules schema_hash before after
        → IsConsistent before
        → IsConsistent after × Grows before after
    Step-IsConsistent before after (of_values step) h =
        let advance = Step-Advances rules true before after step h.sound in
        let apart = Step-IsApart rules before after step in
        (
          record {
            sound = advance.0;
            named = Step-NamedDb rules true before after step h.named;
            owned = rw apart.0 h.owned;
            keyed = rw apart.1 (grown-AreKeyed before after advance.1 h.keyed);
          },
          advance.1,
        )
    Step-IsConsistent before after (of_members step) h =
        let leaves = Owners-LeavesKeys before after step in
        let growth = aside-Grows before after leaves.0 in
        (
          record {
            sound = aside-IsSound before after leaves.0 h.sound;
            named = aside-AreNamed before after leaves.0 h.named;
            owned = Step-IsOwned before after step h.owned;
            keyed = rw leaves.1 (grown-AreKeyed before after growth h.keyed);
          },
          growth,
        )
    Step-IsConsistent before after (of_keys step) h =
        let beside = KeyStep-IsBeside rules.no_fields schema_hash before after step in
        (
          record {
            sound = aside-IsSound before after beside.0 h.sound;
            named = aside-AreNamed before after beside.0 h.named;
            owned = rw beside.1 h.owned;
            keyed = KeyStep-KeyedDb rules.no_fields schema_hash before after step h.keyed;
          },
          aside-Grows before after beside.0,
        )

    -- Whatever requests are made that can change a table (to save values, read or change a schema,
    -- roll back, create or rename a project, create an environment, an organization or a key, add or
    -- remove a member, change a role, revoke a key, or fetch a snapshot or a schema with a key), in
    -- whatever order and however they end, consistent tables stay consistent: they are sound
    -- (version numbers are unique in an environment, each environment points at a version of its own
    -- or at none, fresh ids are unused), slugs and names are well formed and unique and every
    -- environment has its project, every organization with members has an owner, and no two keys
    -- have the same hash and each is of an environment that exists, with that environment's project.
    -- Every version ever saved stays as it is, no environment's revision falls, and no environment is
    -- gone or in another project.
    pub Requests-IsConsistent :
        (before after : Db S V R)
        → Requests rules schema_hash before after
        → IsConsistent before
        → IsConsistent after × Grows before after
    Requests-IsConsistent before after (stay db) h = (h, Grows-refl db)
    Requests-IsConsistent before after (next run step) h =
        let first = Requests-IsConsistent before _ run h in
        let last = Step-IsConsistent _ after step first.0 in
        (last.0, Grows-trans before _ after first.1 last.1)
