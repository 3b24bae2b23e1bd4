-- ===== src/Api/Access/Laws.antt =====
-- internal/api/authorize.go: what the checks let a caller see.
use knobs.Base.{◌≡◌, refl, ℕ, ℕ_eq, String, none, some, inl, inr, Bool-cases, if◌then◌else◌}
use knobs.Assoc.{lookup}
use knobs.Authz.{at_least}
use knobs.Store.{Db, Environment, member_role, org_id_for_env}
use knobs.Api.Access.{denied, granted, forbidden, authorize_org, authorize_env}

module _ {S V R : Type 0} where
  -- To one who is no member of its organization, an environment is as if it did not exist; a
  -- member is refused as such exactly if the role falls short.
  pub authorize_env_hides :
      (db : Db S V R) (outsider member env missing org : ℕ) (least role : String) (e : Environment)
      → lookup env db.environments ≡ some e
      → org_id_for_env db env ≡ some org
      → member_role db org outsider ≡ none
      → member_role db org member ≡ some role
      → lookup missing db.environments ≡ none
      → (authorize_env db outsider env least ≡ authorize_env db outsider missing least)
        × (authorize_env db member env least
            ≡ (if at_least role least then granted e else denied forbidden))
  unfolding authorize_env authorize_org
  authorize_env_hides db outsider member env missing org least role e found owner outside inside
        absent =
      (
        rw (found, owner, absent, authorize_env, authorize_org, outside) refl,
        elim (Bool-cases (at_least role least)) [
          | inl enough ↦ rw (found, owner, authorize_env, authorize_org, inside, enough) refl
          | inr short ↦ rw (found, owner, authorize_env, authorize_org, inside, short) refl
        ],
      )
