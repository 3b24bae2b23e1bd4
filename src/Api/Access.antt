-- ===== src/Api/Access.antt =====
-- internal/api/authorize.go: what a caller may see and do.
pub mod Laws
use knobs.Base.{ℕ, String, none, some, if◌then◌else◌}
use knobs.Base.{ℕ_eq}
use knobs.Assoc.{lookup}
use knobs.Authz.{at_least}
use knobs.Store.{Db, Environment, member_role, org_id_for_env}

-- The statuses of a refusal or an error.
pub data Status : Type 0 where
  bad_request unauthorized forbidden not_found conflict unprocessable too_many_requests internal :
      Status

pub data Access (A : Type 0) : Type 0 where
  denied : Status → Access A
  granted : A → Access A

abbrev pub keep_env : Environment → Access String → Access Environment
keep_env e (denied status) = denied status
keep_env e (granted role) = granted e

module _ {S V R : Type 0} where
  unfoldable pub authorize_org : Db S V R → ℕ → ℕ → String → Access String
  authorize_org db user org least = elim (member_role db org user) [
    | none ↦ denied not_found
    | some role ↦ if at_least role least then granted role else denied forbidden
  ]

  unfoldable pub authorize_project : Db S V R → ℕ → ℕ → String → Access String
  authorize_project db user project least = elim (lookup project db.projects) [
    | none ↦ denied not_found
    | some p ↦ authorize_org db user p.organization_id least
  ]

  unfoldable pub authorize_env : Db S V R → ℕ → ℕ → String → Access Environment
  authorize_env db user env least = elim (lookup env db.environments) [
    | none ↦ denied not_found
    | some e ↦ elim (org_id_for_env db env) [
      | none ↦ denied not_found
      | some org ↦ keep_env e (authorize_org db user org least)
    ]
  ]
