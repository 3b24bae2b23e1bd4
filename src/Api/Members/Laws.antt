-- ===== src/Api/Members/Laws.antt =====
-- internal/api/org_handlers.go: what each handler can make of the table of members, and under which
-- conditions.
pub mod Add
pub mod Create
use knobs.Base.{
  ◌≡◌, refl, sym, ◌∙◌, ap, ℕ, suc, String, String_eq, ℕ_eq, Bool, true, false, Option, none, some,
  List, [], ◌∷◌, if◌then◌else◌, not, ◌&&◌, ◌||◌, ◌==◌, leb, arith, Option-cases, Bool-cases, inl,
  inr,
}
use knobs.Base.Text.{Text}
use knobs.Assoc.{Assoc, lookup, insert, delete}
use knobs.Authz.{at_least, valid_role}
use knobs.Store.{Db, member_role, record_audit}
use knobs.Store.Members.{
  roles_of, count_owners, put_role, add_member, update_member_role, remove_member,
  count_owners_for_update, create_organization, user_by_email, create_user, find_email, find_slug,
}
use knobs.Api.Access.{Status, denied, granted, authorize_org}
use knobs.Api.Values.{Outcome, failed, done, Reply, refused, replied, with_tx}
use knobs.Api.Values.Transactions.{Ends, with_tx_lem, Access-cases}
use knobs.Api.Members.{
  Added, enlist, add_member_tx, handle_add_member, unless_last_owner, update_role_tx,
  handle_update_member_role, remove_tx, handle_remove_member, create_tx, create_attempts,
  handle_create_organization, max_slug_attempts, tried,
}
use knobs.Api.Members.Slug.{numbered, derive_slug}

-- The table: roles by organization and user.
abbrev pub Members : Type 0
Members = Assoc ℕ (Assoc ℕ String)

abbrev pub role_in : Members → ℕ → ℕ → Option String
role_in m org user = lookup user (roles_of (lookup org m))

abbrev pub with_role : Members → ℕ → ℕ → String → Members
with_role m org user role = insert org (insert user role (roles_of (lookup org m))) m

abbrev pub without : Members → ℕ → ℕ → Members
without m org user = insert org (delete user (roles_of (lookup org m))) m

-- Whether a change takes the last owner out.
abbrev pub takes_last : Members → ℕ → Bool → Bool
takes_last m org leaves = leaves && leb (count_owners (roles_of (lookup org m))) 1

module _ {S V R : Type 0} where
  pub member_role-role_in :
      (db : Db S V R) (org user : ℕ) → member_role db org user ≡ role_in db.members org user
  unfolding member_role lookup
  member_role-role_in db org user = ground arith

  pub authorize_org_granted :
      (db : Db S V R) (user org : ℕ) (least own : String)
      → authorize_org db user org least ≡ granted own
      → (role_in db.members org user ≡ some own) × (at_least own least ≡ true)
  unfolding authorize_org
  authorize_org_granted db user org least own h = ground (arith, member_role-role_in db org user)

  update_role_tx_lem :
      (P : Members → Type 0)
      → (db : Db S V R) (caller org target : ℕ) (role : String)
      → ((current : String)
          → role_in db.members org target ≡ some current
          → takes_last db.members org (current == "owner" && not (role == "owner")) ≡ false
          → P (with_role db.members org target role))
      → Ends (λ after a. P after.members) (update_role_tx db caller org target role)
  unfolding update_role_tx count_owners_for_update update_member_role put_role record_audit
  update_role_tx_lem P db caller org target role p =
      elim (Option-cases (role_in db.members org target)) [
        | inl absent ↦ rw (update_role_tx, member_role-role_in db org target, absent) tt
        | inr (current, there) ↦
            elim (Bool-cases
              (takes_last db.members org (current == "owner" && not (role == "owner")))) [
                | inl last ↦
                    rw
                      (
                        update_role_tx,
                        member_role-role_in db org target,
                        there,
                        count_owners_for_update,
                        last,
                      )
                      tt
                | inr free ↦
                    rw
                      (
                        update_role_tx,
                        member_role-role_in db org target,
                        there,
                        count_owners_for_update,
                        free,
                        update_member_role,
                        member_role-role_in db org target,
                        there,
                      )
                      (p current there free)
              ]
      ]

  pub handle_update_member_role_lem :
      (P : Members → Type 0)
      → (db : Db S V R) (caller : ℕ) (commits : Bool) (id target : Option ℕ) (body : Option String)
      → P db.members
      → ((org user : ℕ) (own current role : String)
          → role_in db.members org caller ≡ some own
          → at_least own "owner" ≡ true
          → valid_role role ≡ true
          → role_in db.members org user ≡ some current
          → takes_last db.members org (current == "owner" && not (role == "owner")) ≡ false
          → P (with_role db.members org user role))
      → P (handle_update_member_role db caller commits id target body).0.members
  unfolding handle_update_member_role
  handle_update_member_role_lem P db caller commits none target body before after = before
  handle_update_member_role_lem P db caller commits (some org) none body before after = before
  handle_update_member_role_lem P db caller commits (some org) (some user) none before after =
      before
  handle_update_member_role_lem P db caller commits (some org) (some user) (some role) before
        after =
      elim (Bool-cases (valid_role role)) [
        | inr bad ↦ rw (handle_update_member_role, bad) before
        | inl good ↦ elim (Access-cases (authorize_org db caller org "owner")) [
          | inl (status, refusal) ↦ rw (handle_update_member_role, good, refusal) before
          | inr (own, grant) ↦
              let access = authorize_org_granted db caller org "owner" own grant in
              rw (handle_update_member_role, good, grant)
                (with_tx_lem (λ o. P o.0.members) db commits
                  (update_role_tx db caller org user role) (λ status. before)
                  (update_role_tx_lem P db caller org user role (λ current there free.
                    after org user own current role access.0 access.1 good there free)))
        ]
      ]

  remove_tx_lem :
      (P : Members → Type 0)
      → (db : Db S V R) (caller org target : ℕ)
      → ((current : String)
          → role_in db.members org target ≡ some current
          → takes_last db.members org (current == "owner") ≡ false
          → P (without db.members org target))
      → Ends (λ after a. P after.members) (remove_tx db caller org target)
  unfolding remove_tx count_owners_for_update remove_member record_audit
  remove_tx_lem P db caller org target p = elim (Option-cases (role_in db.members org target)) [
    | inl absent ↦ rw (remove_tx, member_role-role_in db org target, absent) tt
    | inr (current, there) ↦ elim (Bool-cases (takes_last db.members org (current == "owner"))) [
      | inl last ↦
          rw (remove_tx, member_role-role_in db org target, there, count_owners_for_update, last) tt
      | inr free ↦
          rw
            (
              remove_tx,
              member_role-role_in db org target,
              there,
              count_owners_for_update,
              free,
              remove_member,
              member_role-role_in db org target,
              there,
            )
            (p current there free)
    ]
  ]

  pub handle_remove_member_lem :
      (P : Members → Type 0)
      → (db : Db S V R) (caller : ℕ) (commits : Bool) (id target : Option ℕ) → P db.members
      → ((org user : ℕ) (own current : String)
          → role_in db.members org caller ≡ some own
          → at_least own "owner" ≡ true
          → role_in db.members org user ≡ some current
          → takes_last db.members org (current == "owner") ≡ false
          → P (without db.members org user))
      → P (handle_remove_member db caller commits id target).0.members
  unfolding handle_remove_member
  handle_remove_member_lem P db caller commits none target before after = before
  handle_remove_member_lem P db caller commits (some org) none before after = before
  handle_remove_member_lem P db caller commits (some org) (some user) before after =
      elim (Access-cases (authorize_org db caller org "owner")) [
        | inl (status, refusal) ↦ rw (handle_remove_member, refusal) before
        | inr (own, grant) ↦
            let access = authorize_org_granted db caller org "owner" own grant in
            rw (handle_remove_member, grant)
              (with_tx_lem (λ o. P o.0.members) db commits (remove_tx db caller org user)
                (λ status. before)
                (remove_tx_lem P db caller org user
                  (λ current there free. after org user own current access.0 access.1 there free)))
      ]
