-- ===== src/Api/Members/Create.antt =====
-- internal/api/org_handlers.go: a new organization takes the first slug that is free.
use knobs.Base.{◌≡◌, refl, ℕ, suc, ◌+◌, ◌<◌, ◌≤◌, ℕ_eq, true, none, some, ◌∷◌, arith}
use knobs.Base.Text.{Text, Text_eq}
use knobs.Assoc.{insert}
use knobs.Store.{Db, record_audit}
use knobs.Store.Members.{add_member, put_role, create_organization, find_slug}
use knobs.Api.Access.{conflict}
use knobs.Api.Values.{failed, done, Reply, replied}
use knobs.Api.Members.{create_tx, create_attempts, handle_create_organization, max_slug_attempts}
use knobs.Api.Members.Slug.{derive_slug, numbered}
use knobs.Api.Members.Slug.Laws.{IsSlug, numbered-IsSlug}
use knobs.Api.Members.Laws.{with_role, role_in, member_role-role_in}

module _ {S V R : Type 0} where
  -- Whether an organization has the slug.
  abbrev pub Taken : Db S V R → Text → Type 0
  Taken db slug = (id : ℕ) × (find_slug slug db.organizations ≡ some id)

  -- The tables have one organization more, which `caller` owns.
  pub record IsFounded (before after : Db S V R) (caller : ℕ) (name slug : Text) : Type 0 where
    pub organizations :
        after.organizations
        ≡ insert before.next_id (record { name = name; slug = slug }) before.organizations
    pub members : after.members ≡ with_role before.members before.next_id caller "owner"

  taken_lem :
      (db : Db S V R) (caller : ℕ) (name slug : Text)
      → Taken db slug
      → create_tx db caller name slug ≡ failed conflict
  unfolding create_tx create_organization
  taken_lem db caller name slug (id, there) = rw (create_tx, create_organization, there) refl

  free_lem :
      (db : Db S V R) (caller : ℕ) (name slug : Text)
      → find_slug slug db.organizations ≡ none
      → role_in db.members db.next_id caller ≡ none
      → (after : Db S V R) × ((create_tx db caller name slug ≡ done after (db.next_id, slug))
          × IsFounded db after caller name slug)
  unfolding create_tx create_organization add_member put_role record_audit
  free_lem db caller name slug free fresh =
      let founded = record db {
        organizations = insert db.next_id (record { name = name; slug = slug }) db.organizations;
        next_id = suc db.next_id;
      } in
      (
        record_audit (put_role founded db.next_id caller "owner") none caller "org.create"
            db.next_id,
        (
          rw
              (
                create_tx,
                create_organization,
                free,
                add_member,
                member_role-role_in founded db.next_id caller,
                fresh,
              )
              refl,
          record { organizations = refl; members = refl },
        ),
      )

  -- The result of attempts that reach a free slug.
  abbrev pub Founds : Db S V R → ℕ → Text → Text → Db S V R × Reply (ℕ × Text) → Type 0
  Founds db caller name slug result =
      (result.1 ≡ replied (db.next_id, slug)) × IsFounded db result.0 caller name slug

  attempts_lem :
      (left ahead attempt last : ℕ) (db : Db S V R) (caller : ℕ) (name base : Text)
      → ahead < left
      → attempt + ahead ≡ last
      → ((i : ℕ) → attempt ≤ i → i < last → Taken db (numbered base i))
      → find_slug (numbered base last) db.organizations ≡ none
      → role_in db.members db.next_id caller ≡ none
      → Founds db caller name
          (numbered base last)
          (create_attempts left attempt db caller true name base)
  unfolding create_attempts
  attempts_lem ℕ.zero ahead attempt last db caller name base more reach taken free fresh =
      absurd (omega (arith, more))
  attempts_lem (suc left) ℕ.zero attempt last db caller name base more reach taken free fresh =
      let here : attempt ≡ last = omega (arith, reach) in
      let made = free_lem db caller name (numbered base last) free fresh in
      rw (here, made.1.0) (refl, made.1.1)
  attempts_lem (suc left) (suc ahead) attempt last db caller name base more reach taken free fresh =
      rw
        (taken_lem db caller name (numbered base attempt)
          (taken attempt (omega arith) (omega (arith, reach))))
        (attempts_lem left ahead (suc attempt) last db caller name base (omega (arith, more))
          (omega (arith, reach)) (λ i above below. taken i (omega (arith, above)) below) free fresh)

  -- If the slugs of the attempts before the `k`-th, of the twenty, are taken and that of the `k`-th is
  -- free, an organization of a name that is not empty is created with it, in a transaction that
  -- commits: the answer is its id and slug, the tables have it and its creator as its owner, and no
  -- organization and no membership besides is changed. The slug, whatever the table of lower cases, is
  -- words of lower-case letters and digits with a dash between two of them, and not empty.
  pub create_organization_free :
      (to_lower : ℕ → ℕ) (db : Db S V R) (caller c k : ℕ) (name : Text)
      → k < max_slug_attempts
      → ((i : ℕ) → i < k → Taken db (numbered (derive_slug to_lower (c ∷ name)) i))
      → find_slug (numbered (derive_slug to_lower (c ∷ name)) k) db.organizations ≡ none
      → role_in db.members db.next_id caller ≡ none
      → IsSlug (numbered (derive_slug to_lower (c ∷ name)) k)
        × Founds db caller
            (c ∷ name)
            (numbered (derive_slug to_lower (c ∷ name)) k)
            (handle_create_organization to_lower db caller true (some (c ∷ name)))
  unfolding handle_create_organization
  create_organization_free to_lower db caller c k name within taken free fresh = (
    numbered-IsSlug to_lower (c ∷ name) k within,
    attempts_lem max_slug_attempts k 0 k db caller (c ∷ name) (derive_slug to_lower (c ∷ name))
        within (omega arith) (λ i above below. taken i below) free fresh,
  )
