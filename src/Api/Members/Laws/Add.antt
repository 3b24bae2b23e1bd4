-- ===== src/Api/Members/Laws/Add.antt =====
-- internal/api/org_handlers.go: what the addition of a member can make of the table of members.
use knobs.Base.{
  ◌≡◌, ℕ, String, String_eq, ℕ_eq, Bool, true, Option, none, some, not, ◌||◌, ◌==◌, arith,
  Option-cases, Bool-cases, inl, inr,
}
use knobs.Authz.{at_least, valid_role}
use knobs.Store.{Db, record_audit}
use knobs.Store.Members.{put_role, add_member, user_by_email, create_user}
use knobs.Api.Access.{authorize_org}
use knobs.Api.Values.Transactions.{Ends, with_tx_lem, Access-cases}
use knobs.Api.Members.{enlist, add_member_tx, handle_add_member}
use knobs.Api.Members.Laws.{Members, role_in, with_role, member_role-role_in, authorize_org_granted}

module _ {S V R : Type 0} where
  enlist_lem :
      (P : Members → Type 0)
      → (db : Db S V R) (caller org user : ℕ) (email role : String) (password : Option String)
      → (role_in db.members org user ≡ none → P (with_role db.members org user role))
      → Ends (λ after a. P after.members) (enlist db caller org user email role password)
  unfolding enlist add_member put_role record_audit
  enlist_lem P db caller org user email role password p =
      elim (Option-cases (role_in db.members org user)) [
        | inl absent ↦ rw (enlist, add_member, member_role-role_in db org user, absent) (p absent)
        | inr (old, there) ↦ rw (enlist, add_member, member_role-role_in db org user, there) tt
      ]

  members-create_user :
      (lower : String → String) (db : Db S V R) (email hash : String) (created : Db S V R × ℕ)
      → create_user lower db email hash ≡ some created
      → created.0.members ≡ db.members
  unfolding create_user
  members-create_user lower db email hash created h = ground arith

  add_member_tx_lem :
      (P : Members → Type 0)
      → (lower : String → String) (db : Db S V R) (caller org : ℕ)
        (invite : Option (String × String)) (email role : String)
      → ((user : ℕ) → role_in db.members org user ≡ none → P (with_role db.members org user role))
      → Ends (λ after a. P after.members) (add_member_tx lower db caller org invite email role)
  unfolding add_member_tx
  add_member_tx_lem P lower db caller org invite email role p =
      elim (Option-cases (user_by_email lower db email)) [
        | inr (user, known) ↦
            rw (add_member_tx, known) (enlist_lem P db caller org user email role none (p user))
        | inl unknown ↦ elim (Option-cases invite) [
          | inl failing ↦ rw (add_member_tx, unknown, failing) tt
          | inr (pw, invited) ↦ elim (Option-cases (create_user lower db email pw.1)) [
            | inl taken ↦ rw (add_member_tx, unknown, invited, taken) tt
            | inr (created, new) ↦
                rw (add_member_tx, unknown, invited, new)
                  (enlist_lem P created.0 caller org created.1 email role (some pw.0)
                    (rw (members-create_user lower db email pw.1 created new) (p created.1)))
          ]
        ]
      ]

  pub handle_add_member_lem :
      (P : Members → Type 0)
      → (lower : String → String) (db : Db S V R) (caller : ℕ) (commits : Bool)
        (invite : Option (String × String)) (id : Option ℕ) (body : Option (String × String))
      → P db.members
      → ((org user : ℕ) (own role : String)
          → role_in db.members org caller ≡ some own
          → at_least own "admin" ≡ true
          → at_least own role ≡ true
          → role_in db.members org user ≡ none
          → P (with_role db.members org user role))
      → P (handle_add_member lower db caller commits invite id body).0.members
  unfolding handle_add_member
  handle_add_member_lem P lower db caller commits invite none body before after = before
  handle_add_member_lem P lower db caller commits invite (some org) none before after = before
  handle_add_member_lem P lower db caller commits invite (some org) (some body) before after =
      elim (Bool-cases (body.0 == "" || not (valid_role body.1))) [
        | inl bad ↦ rw (handle_add_member, bad) before
        | inr good ↦ elim (Access-cases (authorize_org db caller org "admin")) [
          | inl (status, refusal) ↦ rw (handle_add_member, good, refusal) before
          | inr (own, grant) ↦ elim (Bool-cases (at_least own body.1)) [
            | inr above ↦ rw (handle_add_member, good, grant, above) before
            | inl below ↦
                let access = authorize_org_granted db caller org "admin" own grant in
                rw (handle_add_member, good, grant, below)
                  (with_tx_lem (λ o. P o.0.members) db commits
                    (add_member_tx lower db caller org invite body.0 body.1) (λ status. before)
                    (add_member_tx_lem P lower db caller org invite body.0 body.1
                      (λ user absent. after org user own body.1 access.0 access.1 below absent)))
          ]
        ]
      ]
