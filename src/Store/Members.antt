-- ===== src/Store/Members.antt =====
-- internal/store/organizations.go and users.go: the rows of organizations, members and users. What
-- a UNIQUE constraint or a primary key refuses is `none`, and so is a row that is not there.
-- `lower` is the database's lower().
use knobs.Base.{ℕ, suc, String, String_eq, ℕ_eq, Option, none, some, [], ◌∷◌, if◌then◌else◌, ◌==◌}
use knobs.Base.Text.{Text, Text_eq}
use knobs.Assoc.{Assoc, lookup, insert, delete}
use knobs.Store.{Db, Organization, User, member_role}

-- The members of an organization; a missing one has none.
abbrev pub roles_of : Option (Assoc ℕ String) → Assoc ℕ String
roles_of none = []
roles_of (some roles) = roles

-- The rows with the role of an owner.
unfoldable pub count_owners : Assoc ℕ String → ℕ
count_owners [] = 0
count_owners ((user, role) ∷ roles) =
    let rest = count_owners roles in if role == "owner" then suc rest else rest

-- `WHERE slug = $1`, over the rows
unfoldable pub find_slug : Text → Assoc ℕ Organization → Option ℕ
find_slug slug [] = none
find_slug slug ((id, o) ∷ organizations) =
    if o.slug == slug then some id else find_slug slug organizations

-- `WHERE lower(email) = lower($1)`, over the rows
unfoldable pub find_email : (String → String) → String → Assoc ℕ User → Option ℕ
find_email lower email [] = none
find_email lower email ((id, u) ∷ users) =
    if lower u.email == lower email then some id else find_email lower email users

module _ {S V R : Type 0} where
  unfoldable pub put_role : Db S V R → ℕ → ℕ → String → Db S V R
  put_role db org user role = record db {
    members = insert org (insert user role (roles_of (lookup org db.members))) db.members;
  }

  unfoldable pub add_member : Db S V R → ℕ → ℕ → String → Option (Db S V R)
  add_member db org user role = elim (member_role db org user) [
    | none ↦ some (put_role db org user role)
    | some old ↦ none
  ]

  unfoldable pub update_member_role : Db S V R → ℕ → ℕ → String → Option (Db S V R)
  update_member_role db org user role = elim (member_role db org user) [
    | none ↦ none
    | some old ↦ some (put_role db org user role)
  ]

  unfoldable pub remove_member : Db S V R → ℕ → ℕ → Option (Db S V R)
  remove_member db org user = elim (member_role db org user) [
    | none ↦ none
    | some old ↦ some (record db {
      members = insert org (delete user (roles_of (lookup org db.members))) db.members;
    })
  ]

  unfoldable pub count_owners_for_update : Db S V R → ℕ → ℕ
  count_owners_for_update db org = count_owners (roles_of (lookup org db.members))

  -- The new row's id comes with it.
  unfoldable pub create_organization : Db S V R → Text → Text → Option (Db S V R × ℕ)
  create_organization db name slug = elim (find_slug slug db.organizations) [
    | some id ↦ none
    | none ↦ some (
      record db {
        organizations = insert db.next_id (record { name = name; slug = slug }) db.organizations;
        next_id = suc db.next_id;
      },
      db.next_id,
    )
  ]

  unfoldable pub user_by_email : (String → String) → Db S V R → String → Option ℕ
  user_by_email lower db email = find_email lower email db.users

  unfoldable pub create_user :
      (String → String) → Db S V R → String → String → Option (Db S V R × ℕ)
  create_user lower db email password_hash = elim (find_email lower email db.users) [
    | some id ↦ none
    | none ↦ some (
      record db {
        users =
            insert db.next_id (record { email = email; password_hash = password_hash }) db.users;
        next_id = suc db.next_id;
      },
      db.next_id,
    )
  ]
