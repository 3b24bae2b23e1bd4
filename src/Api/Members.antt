-- ===== src/Api/Members.antt =====
-- internal/api/org_handlers.go: organizations and their members. An id that does not parse and a
-- body that does not decode are `none`.
pub mod Slug
pub mod Laws
pub mod Owners
pub mod Grants
pub mod Create
use knobs.Base.{
  ℕ, suc, ◌+◌, String, String_eq, ℕ_eq, Bool, true, false, Option, none, some, List, [], ◌∷◌,
  if◌then◌else◌, not, ◌==◌, ◌&&◌, ◌||◌, leb,
}
use knobs.Base.Text.{Text, Text_eq}
use knobs.Assoc.{Assoc, lookup}
use knobs.Authz.{at_least, valid_role}
use knobs.Store.{Db, member_role, record_audit}
use knobs.Store.Members.{
  add_member, update_member_role, remove_member, count_owners_for_update, create_organization,
  user_by_email, create_user,
}
use knobs.Api.Access.{
  Status, bad_request, forbidden, not_found, conflict, unprocessable, internal, Access, denied,
  granted, authorize_org,
}
use knobs.Api.Values.{Outcome, failed, done, Reply, refused, replied, with_tx}
use Slug.{derive_slug, numbered}

pub record Added : Type 0 where
  pub user_id : ℕ
  pub email : String
  pub role : String
  pub temporary_password : Option String

abbrev pub max_slug_attempts : ℕ
max_slug_attempts = 20

module _ {S V R : Type 0} where
  -- `AddMember` and `RecordAudit`, as `handleAddMember` ends.
  unfoldable pub enlist :
      Db S V R → ℕ → ℕ → ℕ → String → String → Option String → Outcome (Db S V R) Added
  enlist db caller org user email role password = elim (add_member db org user role) [
    | none ↦ failed conflict
    | some after ↦
        done (record_audit after none caller "org.member.add" user)
          (record { user_id = user; email = email; role = role; temporary_password = password })
  ]

  -- `invite` is a generated password with its hash, if both can be had.
  unfoldable pub add_member_tx :
      (String → String)
      → Db S V R
      → ℕ
      → ℕ
      → Option (String × String)
      → String
      → String
      → Outcome (Db S V R) Added
  add_member_tx lower db caller org invite email role = elim (user_by_email lower db email) [
    | some user ↦ enlist db caller org user email role none
    | none ↦ elim invite [
      | none ↦ failed internal
      | some pw ↦ elim (create_user lower db email pw.1) [
        | none ↦ failed conflict
        | some created ↦ enlist created.0 caller org created.1 email role (some pw.0)
      ]
    ]
  ]

  unfoldable pub handle_add_member :
      (String → String)
      → Db S V R
      → ℕ
      → Bool
      → Option (String × String)
      → Option ℕ
      → Option (String × String)
      → Db S V R × Reply Added
  handle_add_member lower db caller commits invite none body = (db, refused bad_request)
  handle_add_member lower db caller commits invite (some org) none = (db, refused bad_request)
  handle_add_member lower db caller commits invite (some org) (some body) =
      if body.0 == "" || not (valid_role body.1)
      then (db, refused unprocessable)
      else elim (authorize_org db caller org "admin") [
        | denied status ↦ (db, refused status)
        | granted own ↦
            if not (at_least own body.1)
            then (db, refused forbidden)
            else with_tx db commits (add_member_tx lower db caller org invite body.0 body.1)
      ]

  -- The guard of the last owner, which both transactions below make of a change to `after`.
  abbrev pub unless_last_owner :
      {A : Type 0} → Db S V R → ℕ → Bool → Outcome (Db S V R) A → Outcome (Db S V R) A
  unless_last_owner db org leaves change =
      if leaves && leb (count_owners_for_update db org) 1 then failed conflict else change

  unfoldable pub update_role_tx : Db S V R → ℕ → ℕ → ℕ → String → Outcome (Db S V R) String
  update_role_tx db caller org target role = elim (member_role db org target) [
    | none ↦ failed not_found
    | some current ↦
        unless_last_owner db org (current == "owner" && not (role == "owner"))
          (elim (update_member_role db org target role) [
            | none ↦ failed not_found
            | some after ↦
                done (record_audit after none caller "org.member.role_change" target) role
          ])
  ]

  unfoldable pub handle_update_member_role :
      Db S V R → ℕ → Bool → Option ℕ → Option ℕ → Option String → Db S V R × Reply String
  handle_update_member_role db caller commits none target body = (db, refused bad_request)
  handle_update_member_role db caller commits (some org) none body = (db, refused bad_request)
  handle_update_member_role db caller commits (some org) (some target) none =
      (db, refused bad_request)
  handle_update_member_role db caller commits (some org) (some target) (some role) =
      if not (valid_role role)
      then (db, refused unprocessable)
      else elim (authorize_org db caller org "owner") [
        | denied status ↦ (db, refused status)
        | granted own ↦ with_tx db commits (update_role_tx db caller org target role)
      ]

  unfoldable pub remove_tx : Db S V R → ℕ → ℕ → ℕ → Outcome (Db S V R) (Unit {0})
  remove_tx db caller org target = elim (member_role db org target) [
    | none ↦ failed not_found
    | some current ↦
        unless_last_owner db org (current == "owner") (elim (remove_member db org target) [
          | none ↦ failed not_found
          | some after ↦ done (record_audit after none caller "org.member.remove" target) tt
        ])
  ]

  unfoldable pub handle_remove_member :
      Db S V R → ℕ → Bool → Option ℕ → Option ℕ → Db S V R × Reply (Unit {0})
  handle_remove_member db caller commits none target = (db, refused bad_request)
  handle_remove_member db caller commits (some org) none = (db, refused bad_request)
  handle_remove_member db caller commits (some org) (some target) =
      elim (authorize_org db caller org "owner") [
        | denied status ↦ (db, refused status)
        | granted own ↦ with_tx db commits (remove_tx db caller org target)
      ]

  -- One attempt: the organization, its first owner, and the entry in the log.
  unfoldable pub create_tx : Db S V R → ℕ → Text → Text → Outcome (Db S V R) (ℕ × Text)
  create_tx db caller name slug = elim (create_organization db name slug) [
    | none ↦ failed conflict
    | some made ↦ elim (add_member made.0 made.1 caller "owner") [
      | none ↦ failed conflict
      | some after ↦ done (record_audit after none caller "org.create" made.1) (made.1, slug)
    ]
  ]

  -- What follows an attempt: a violated constraint, which is all that `create_tx` can fail by, leads
  -- to the rest of the attempts.
  abbrev pub tried :
      {A : Type 0}
      → Db S V R
      → Bool
      → Outcome (Db S V R) A
      → Db S V R × Reply A
      → Db S V R × Reply A
  tried db commits (failed status) again = again
  tried db commits (done after made) again = with_tx db commits (done after made)

  -- The attempts that are left, the number of the next one, and whether the commit succeeds.
  unfoldable pub create_attempts :
      ℕ → ℕ → Db S V R → ℕ → Bool → Text → Text → Db S V R × Reply (ℕ × Text)
  create_attempts ℕ.zero attempt db caller commits name base = (db, refused conflict)
  create_attempts (suc left) attempt db caller commits name base =
      let again = create_attempts left (suc attempt) db caller commits name base in
      tried db commits (create_tx db caller name (numbered base attempt)) again

  unfoldable pub handle_create_organization :
      (ℕ → ℕ) → Db S V R → ℕ → Bool → Option Text → Db S V R × Reply (ℕ × Text)
  handle_create_organization to_lower db caller commits none = (db, refused bad_request)
  handle_create_organization to_lower db caller commits (some []) = (db, refused unprocessable)
  handle_create_organization to_lower db caller commits (some (c ∷ name)) =
      create_attempts max_slug_attempts 0 db caller commits (c ∷ name)
        (derive_slug to_lower (c ∷ name))
