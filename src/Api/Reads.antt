-- ===== src/Api/Reads.antt =====
-- internal/api: the handlers that read, of values_handlers.go, versions_handlers.go,
-- schema_handlers.go, apikey_handlers.go, org_handlers.go and auth_handlers.go. An id that does not
-- parse is `none`. Errors of the database itself are left out, but for the one in
-- `handle_list_versions`.
pub mod Laws
use knobs.Base.{ℕ, String, ℕ_eq, String_eq, Bool, Option, none, some, List, [], ◌∷◌}
use knobs.Base.Text.{Text}
use knobs.Assoc.{Assoc, GoMap, lookup, or_made}
use knobs.Store.{Db, ApiKey, ConfigVersion, ConfigSchema, current_version, get_or_init_schema}
use knobs.Store.Listings.{
  VersionMeta, OrgWithRole, Member, list_versions, list_api_keys, list_organizations_for_user,
  list_members,
}
use knobs.Api.Access.{
  Status, bad_request, unauthorized, not_found, internal, Access, denied, granted, authorize_org,
  authorize_project, authorize_env,
}
use knobs.Api.Values.{Reply, refused, replied}

-- `valuesView`
pub record ValuesView (V R : Type 0) : Type 0 where
  pub version : ℕ
  pub values : GoMap V
  pub schema_version : ℕ
  pub targeting : GoMap R

-- What `handleMe` answers.
pub record Me : Type 0 where
  pub id : ℕ
  pub email : String
  pub organizations : List OrgWithRole

module _ {V R : Type 0} where
  abbrev pub values_view : ConfigVersion V R → ValuesView V R
  values_view cv = record {
    version = cv.version;
    values = or_made cv.values;
    schema_version = cv.schema_version;
    targeting = cv.targeting;
  }

module _ {S V R : Type 0} where
  unfoldable pub handle_get_values : Db S V R → ℕ → Option ℕ → Reply (ValuesView V R)
  handle_get_values db user none = refused bad_request
  handle_get_values db user (some env) = elim (authorize_env db user env "viewer") [
    | denied status ↦ refused status
    | granted e ↦ elim (current_version db env) [
      | none ↦ refused not_found
      | some cv ↦ replied (values_view cv)
    ]
  ]

  unfoldable pub handle_list_versions : Db S V R → ℕ → Option ℕ → Reply (List VersionMeta)
  handle_list_versions db user none = refused bad_request
  handle_list_versions db user (some env) = elim (authorize_env db user env "viewer") [
    | denied status ↦ refused status
    | granted e ↦ elim (list_versions db env) [
      | none ↦ refused internal
      | some metas ↦ replied metas
    ]
  ]

  -- The first read of a project's schema inserts the default row.
  unfoldable pub handle_get_schema : S → Db S V R → ℕ → Option ℕ → Db S V R × Reply (ConfigSchema S)
  handle_get_schema no_fields db user none = (db, refused bad_request)
  handle_get_schema no_fields db user (some project) =
      elim (authorize_project db user project "viewer") [
        | denied status ↦ (db, refused status)
        | granted role ↦
            let ready = get_or_init_schema no_fields db project in
            elim (lookup project ready.schemas) [
              | none ↦ (ready, refused internal)
              | some cs ↦ (ready, replied cs)
            ]
      ]

  unfoldable pub handle_list_api_keys : Db S V R → ℕ → Option ℕ → Reply (Assoc ℕ ApiKey)
  handle_list_api_keys db user none = refused bad_request
  handle_list_api_keys db user (some env) = elim (authorize_env db user env "viewer") [
    | denied status ↦ refused status
    | granted e ↦ replied (list_api_keys db env)
  ]

  unfoldable pub handle_list_organizations :
      (Text → Text → Bool) → Db S V R → ℕ → Reply (List OrgWithRole)
  handle_list_organizations at_most db user = replied (list_organizations_for_user at_most db user)

  unfoldable pub handle_list_members :
      (String → String → Bool) → Db S V R → ℕ → Option ℕ → Reply (List Member)
  handle_list_members at_most db user none = refused bad_request
  handle_list_members at_most db user (some org) = elim (authorize_org db user org "viewer") [
    | denied status ↦ refused status
    | granted role ↦ replied (list_members at_most db org)
  ]

  -- The user is the one of the session, if there is one.
  unfoldable pub handle_me : (Text → Text → Bool) → Db S V R → Option ℕ → Reply Me
  handle_me at_most db none = refused unauthorized
  handle_me at_most db (some user) = elim (lookup user db.users) [
    | none ↦ refused unauthorized
    | some u ↦ replied (record {
      id = user;
      email = u.email;
      organizations = list_organizations_for_user at_most db user;
    })
  ]
