-- ===== src/Store/Listings.antt =====
-- internal/store: the queries that list rows. Rows stand in the order of their creation. `at_most`
-- is the order that the database has texts in.
pub mod Laws
use knobs.Base.{
  ℕ, String, String_eq, ℕ_eq, Bool, true, false, Option, none, some, List, [], ◌∷◌, if◌then◌else◌,
  nat_eq, leb,
}
use knobs.Base.Text.{Text}
use knobs.Assoc.{Assoc, lookup}
use knobs.Store.{Db, ApiKey, ConfigVersion, Organization, member_role}
use knobs.Store.Members.{roles_of}

-- Sorting: `before a b` says whether `a` may stand before `b`. Rows that tie keep their order.
module _ {A : Type 0} (before : A → A → Bool) where
  unfoldable pub place : A → List A → List A
  place a [] = a ∷ []
  place a (b ∷ rows) = if before a b then a ∷ (b ∷ rows) else b ∷ place a rows

  unfoldable pub order_by : List A → List A
  unfolding place
  order_by [] = []
  order_by (a ∷ rows) = place a (order_by rows)

-- `ConfigVersionMeta`
pub record VersionMeta : Type 0 where
  pub id : ℕ
  pub version : ℕ
  pub schema_version : ℕ
  pub created_by : Option ℕ
  pub is_current : Bool

abbrev pub newer : VersionMeta → VersionMeta → Bool
newer a b = leb b.version a.version

-- `OrgWithRole`
pub record OrgWithRole : Type 0 where
  pub id : ℕ
  pub name : Text
  pub slug : Text
  pub role : String

-- `Member`
pub record Member : Type 0 where
  pub user_id : ℕ
  pub email : String
  pub role : String

-- `WHERE environment_id = $1`, over the rows
unfoldable pub keys_of : ℕ → Assoc ℕ ApiKey → Assoc ℕ ApiKey
keys_of env [] = []
keys_of env ((id, k) ∷ keys) =
    let rest = keys_of env keys in if nat_eq k.environment_id env then (id, k) ∷ rest else rest

module _ {V R : Type 0} where
  abbrev pub meta_of : ℕ → ℕ × ConfigVersion V R → VersionMeta
  meta_of current row = record {
    id = row.0;
    version = row.1.version;
    schema_version = row.1.schema_version;
    created_by = row.1.created_by;
    is_current = nat_eq row.0 current;
  }

  -- The rows of an environment that is at the version `current`.
  unfoldable pub metas_of : ℕ → ℕ → Assoc ℕ (ConfigVersion V R) → List VersionMeta
  metas_of env current [] = []
  metas_of env current ((id, v) ∷ versions) =
      let rest = metas_of env current versions in
      if nat_eq v.environment_id env then meta_of current (id, v) ∷ rest else rest

-- Where no version is current, `is_current` is NULL, which does not scan: any row is an error.
abbrev pub unless_rows : List VersionMeta → Option (List VersionMeta)
unless_rows [] = some []
unless_rows (m ∷ metas) = none

module _ {S V R : Type 0} where
  unfoldable pub list_api_keys : Db S V R → ℕ → Assoc ℕ ApiKey
  list_api_keys db env = keys_of env db.api_keys

  unfoldable pub list_versions : Db S V R → ℕ → Option (List VersionMeta)
  unfolding metas_of order_by
  list_versions db env = elim (lookup env db.environments) [
    | none ↦ some []
    | some e ↦ elim e.current_version_id [
      | none ↦ unless_rows (metas_of env 0 db.versions)
      | some id ↦ some (order_by newer (metas_of env id db.versions))
    ]
  ]

  -- The organizations joined with the memberships of the user.
  unfoldable pub joined_organizations : Db S V R → ℕ → Assoc ℕ Organization → List OrgWithRole
  joined_organizations db user [] = []
  joined_organizations db user ((id, o) ∷ organizations) =
      let rest = joined_organizations db user organizations in
      elim (member_role db id user) [
        | none ↦ rest
        | some role ↦ record { id = id; name = o.name; slug = o.slug; role = role } ∷ rest
      ]

  unfoldable pub list_organizations_for_user :
      (Text → Text → Bool) → Db S V R → ℕ → List OrgWithRole
  unfolding order_by
  list_organizations_for_user at_most db user =
      order_by (λ a b. at_most a.name b.name) (joined_organizations db user db.organizations)

  -- The memberships joined with the users.
  unfoldable pub joined_members : Db S V R → Assoc ℕ String → List Member
  joined_members db [] = []
  joined_members db ((id, role) ∷ roles) =
      let rest = joined_members db roles in
      elim (lookup id db.users) [
        | none ↦ rest
        | some u ↦ record { user_id = id; email = u.email; role = role } ∷ rest
      ]

  unfoldable pub list_members : (String → String → Bool) → Db S V R → ℕ → List Member
  unfolding order_by
  list_members at_most db org =
      order_by (λ a b. at_most a.email b.email)
        (joined_members db (roles_of (lookup org db.members)))
