-- ===== src/Api/Reads/Laws.antt =====
-- internal/api/versions_handlers.go: the versions that are listed are those that can be rolled back
-- to.
use knobs.Base.{
  ◌≡◌, refl, ℕ, String, String_eq, ℕ_eq, true, Option, none, some, List, Option-cases, inl, inr,
  arith,
}
use knobs.Assoc.{lookup}
use knobs.Authz.{rank, at_least}
use knobs.Store.{Db, Environment, ConfigVersion, org_id_for_env, member_role, version_by_number}
use knobs.Store.Laws.{IsSound}
use knobs.Store.Numbered.{find_version_found}
use knobs.Store.Listings.{VersionMeta}
use knobs.Store.Listings.Laws.{find_meta, IsFalling, listed, list_versions_exact}
use knobs.Api.Access.{not_found, granted, keep_env, authorize_env, authorize_org}
use knobs.Api.Reads.{handle_list_versions}
use knobs.Api.Values.{Reply, refused, replied, handle_rollback, rollback_tx}
use knobs.Api.Values.Transactions.{authorize_env_found}
use knobs.Api.Values.Serve.{handle_rollback_granted}

-- An editor may see what a viewer may.
at_least_viewer : (role : String) → at_least role "editor" ≡ true → at_least role "viewer" ≡ true
unfolding at_least rank
at_least_viewer role h = ground arith

module _ {V R : Type 0} where
  -- A rollback to a number is answered as the history has it: not found, or with that version.
  abbrev pub Agrees : ℕ → Option VersionMeta → Reply (ConfigVersion V R) → Type 0
  Agrees number none reply = reply ≡ refused not_found
  Agrees number (some m) reply =
      (v : ConfigVersion V R) × (reply ≡ replied v)
      × (v.version ≡ number)
      × (m.version ≡ number)
      × (m.schema_version ≡ v.schema_version)

module _ {S V R : Type 0} where
  viewer_org :
      (db : Db S V R) (user org : ℕ) (e held : Environment)
      → keep_env held (authorize_org db user org "editor") ≡ granted e
      → keep_env held (authorize_org db user org "viewer") ≡ granted e
  unfolding authorize_org
  viewer_org db user org e held h = elim (Option-cases (member_role db org user)) [
    | inl out ↦ ground (arith, out, h)
    | inr (role, has) ↦ ground (arith, has, h, at_least_viewer role)
  ]

  viewer_env :
      (db : Db S V R) (user env : ℕ) (e : Environment)
      → authorize_env db user env "editor" ≡ granted e
      → authorize_env db user env "viewer" ≡ granted e
  unfolding authorize_env
  viewer_env db user env e h = elim (Option-cases (lookup env db.environments)) [
    | inl absent ↦ ground (arith, absent, h)
    | inr (held, found) ↦ elim (Option-cases (org_id_for_env db env)) [
      | inl absent ↦ ground (arith, found, absent, h)
      | inr (org, owner) ↦ ground (arith, found, owner, h, viewer_org db user org e held)
    ]
  ]

  version_by_number_found :
      (db : Db S V R) (env number : ℕ) (row : ℕ × ConfigVersion V R)
      → version_by_number db env number ≡ some row
      → row.1.version ≡ number
  unfolding version_by_number
  version_by_number_found db env number row h = (find_version_found env number db.versions row h).1

  Agrees-rollback :
      (db : Db S V R) (user env number id : ℕ) (e : Environment)
      → authorize_env db user env "editor" ≡ granted e
      → Agrees number
          (listed id (version_by_number db env number))
          (handle_rollback db user true (some env) (some (some number))).1
  unfolding handle_rollback rollback_tx
  Agrees-rollback db user env number id e grant =
      elim (Option-cases (version_by_number db env number)) [
        | inl absent ↦ rw (absent, grant, handle_rollback, absent, rollback_tx) refl
        | inr (row, present) ↦
            let right = version_by_number_found db env number row present in
            rw (present, handle_rollback_granted db user env number e row grant present)
              (row.1, refl, right, right, refl)
      ]

  -- From sound tables, an editor of an environment that has a current version is listed its versions,
  -- their numbers falling; and a rollback to a number, if it commits, is answered with the version
  -- of that number if the number is listed, and otherwise not found.
  pub list_versions-rollback :
      (db : Db S V R) (user env id : ℕ) (e : Environment)
      → IsSound db
      → authorize_env db user env "editor" ≡ granted e
      → e.current_version_id ≡ some id
      → (metas : List VersionMeta) × (handle_list_versions db user (some env) ≡ replied metas)
        × IsFalling metas
        × ((number : ℕ)
            → Agrees number
                (find_meta number metas)
                (handle_rollback db user true (some env) (some (some number))).1)
  unfolding handle_list_versions
  list_versions-rollback db user env id e sound grant current =
      let (metas, answer, falling, same) =
        list_versions_exact db env id e sound (authorize_env_found db user env "editor" e grant)
          current in
      (
        metas,
        rw (viewer_env db user env e grant, handle_list_versions, answer) refl,
        falling,
        λ number. rw (same number) (Agrees-rollback db user env number id e grant),
      )
