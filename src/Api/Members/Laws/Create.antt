-- ===== src/Api/Members/Laws/Create.antt =====
-- internal/api/org_handlers.go: what the creation of an organization can make of the table of members.
use knobs.Base.{
  ◌≡◌, ℕ, suc, String_eq, ℕ_eq, Bool, true, false, Option, none, some, [], ◌∷◌, arith, Option-cases,
  inl, inr,
}
use knobs.Base.Text.{Text}
use knobs.Store.{Db, record_audit}
use knobs.Store.Members.{put_role, add_member, create_organization}
use knobs.Api.Values.{Outcome, failed, done, Reply}
use knobs.Api.Values.Transactions.{Ends}
use knobs.Api.Members.{
  create_tx, create_attempts, handle_create_organization, max_slug_attempts, tried,
}
use knobs.Api.Members.Slug.{numbered, derive_slug}
use knobs.Api.Members.Laws.{Members, role_in, with_role, member_role-role_in}

module _ {S V R : Type 0} where
  members-create_organization :
      (db : Db S V R) (name slug : Text) (created : Db S V R × ℕ)
      → create_organization db name slug ≡ some created
      → created.0.members ≡ db.members
  unfolding create_organization
  members-create_organization db name slug created h = ground arith

  create_tx_lem :
      (P : Members → Type 0)
      → (db : Db S V R) (caller : ℕ) (name slug : Text)
      → ((org : ℕ)
          → role_in db.members org caller ≡ none
          → P (with_role db.members org caller "owner"))
      → Ends (λ after a. P after.members) (create_tx db caller name slug)
  unfolding create_tx add_member put_role record_audit
  create_tx_lem P db caller name slug p = elim (Option-cases (create_organization db name slug)) [
    | inl taken ↦ rw (create_tx, taken) tt
    | inr (made, new) ↦
        let same = members-create_organization db name slug made new in
        elim (Option-cases (role_in made.0.members made.1 caller)) [
          | inr (old, there) ↦
              rw (create_tx, new, add_member, member_role-role_in made.0 made.1 caller, there) tt
          | inl absent ↦
              rw (create_tx, new, add_member, member_role-role_in made.0 made.1 caller, absent)
                (rw same (p made.1 (rw⁻¹ same absent)))
        ]
  ]

  attempt_lem :
      (P : Members → Type 0)
      → (db : Db S V R) (commits : Bool) (end : Outcome (Db S V R) (ℕ × Text))
        (again : Db S V R × Reply (ℕ × Text))
      → P db.members
      → Ends (λ after a. P after.members) end
      → P again.0.members
      → P (tried db commits end again).0.members
  attempt_lem P db commits (failed status) again before after later = later
  attempt_lem P db true (done d a) again before after later = after
  attempt_lem P db false (done d a) again before after later = before

  create_attempts_lem :
      (P : Members → Type 0)
      → (left attempt : ℕ) (db : Db S V R) (caller : ℕ) (commits : Bool) (name base : Text)
      → P db.members
      → ((org : ℕ)
          → role_in db.members org caller ≡ none
          → P (with_role db.members org caller "owner"))
      → P (create_attempts left attempt db caller commits name base).0.members
  unfolding create_attempts
  create_attempts_lem P ℕ.zero attempt db caller commits name base before after = before
  create_attempts_lem P (suc left) attempt db caller commits name base before after =
      attempt_lem P db commits (create_tx db caller name (numbered base attempt))
        (create_attempts left (suc attempt) db caller commits name base) before
        (create_tx_lem P db caller name (numbered base attempt) after)
        (create_attempts_lem P left (suc attempt) db caller commits name base before after)

  pub handle_create_organization_lem :
      (P : Members → Type 0)
      → (to_lower : ℕ → ℕ) (db : Db S V R) (caller : ℕ) (commits : Bool) (body : Option Text)
      → P db.members
      → ((org : ℕ)
          → role_in db.members org caller ≡ none
          → P (with_role db.members org caller "owner"))
      → P (handle_create_organization to_lower db caller commits body).0.members
  unfolding handle_create_organization
  handle_create_organization_lem P to_lower db caller commits none before after = before
  handle_create_organization_lem P to_lower db caller commits (some []) before after = before
  handle_create_organization_lem P to_lower db caller commits (some (c ∷ name)) before after =
      create_attempts_lem P max_slug_attempts 0 db caller commits (c ∷ name)
        (derive_slug to_lower (c ∷ name)) before after
