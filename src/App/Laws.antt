-- ===== src/App/Laws.antt =====
-- internal/config/config.go and internal/app/app.go: what a server starts with.
use knobs.Base.{
  ◌≡◌, refl, ap, ◌∙◌, ℕ, suc, ◌≤◌, ◌↔◌, String, String_eq, ℕ_eq, Bool, true, false, Option, none,
  some, [], ◌∷◌, if◌then◌else◌, ◌==◌, ◌≢◌, eq_iff, nat_eq_iff, arith, Option-cases, inl, inr,
}
use knobs.Base.Text.{codes}
use knobs.Assoc.{lookup, insert, lookup-insert}
use knobs.Store.{Db, member_role}
use knobs.Store.Members.{find_slug, find_email, create_user, add_member, put_role, roles_of}
use knobs.App.{Config, loaded, byte_length, read_config, load, has_users, seed_owner, seed_admin}

byte_length_empty : (s : String) → (s == "") ≡ true → byte_length (codes s) ≡ 0
unfolding byte_length
byte_length_empty s h = rw ((eq_iff s "").0 h) refl

-- Settings are loaded exactly if there is a database and a secret of 32 bytes or more, and are then
-- as they were read, but that the address to listen on is never empty.
pub load_exact :
    (getenv : String → String) (cfg : Config)
    → (load getenv ≡ loaded cfg) ↔ (
        (getenv "DATABASE_URL" ≢ "")
        × (32 ≤ byte_length (codes (getenv "JWT_SECRET")))
        × (cfg ≡ (
            let read = read_config getenv in
            if read.listen_addr == "" then record read { listen_addr = ":8080" } else read)))
unfolding load read_config
load_exact getenv cfg = ground (
  arith,
  eq_iff (getenv "DATABASE_URL") "",
  eq_iff (getenv "JWT_SECRET") "",
  byte_length_empty (getenv "JWT_SECRET"),
)

module _ {S V R : Type 0} where
  -- How the first run ends: the organization called "default" gets an owner, or the run fails and
  -- leaves the members as they were.
  abbrev pub Seeded : Db S V R → Option ℕ → Db S V R × Bool → Type 0
  Seeded db none o = (o.1 ≡ false) × (o.0.members ≡ db.members)
  Seeded db (some org) o = (o.1 ≡ true) × (member_role o.0 org db.next_id ≡ some "owner")

  seed_admin-done :
      (lower : String → String) (hash : String → Option String) (db : Db S V R) (cfg : Config)
      → has_users db.users ≡ true
      → seed_admin lower hash db cfg ≡ (db, true)
  unfolding seed_admin
  seed_admin-done lower hash db cfg h = ground (arith, h)

  -- The tables with the first user.
  abbrev with_admin : Db S V R → String → String → Db S V R
  with_admin db email hashed = record db {
    users = insert db.next_id (record { email = email; password_hash = hashed }) db.users;
    next_id = suc db.next_id;
  }

  put_owner :
      (db : Db S V R) (org user : ℕ)
      → member_role (put_role db org user "owner") org user ≡ some "owner"
  unfolding member_role put_role
  put_owner db org user = ground (
    arith,
    lookup-insert org org (insert user "owner" (roles_of (lookup org db.members))) db.members,
    lookup-insert user user "owner" (roles_of (lookup org db.members)),
    nat_eq_iff org org,
    nat_eq_iff user user,
  )

  seed_owner-Seeded :
      (db : Db S V R) (email hashed : String)
      → ((org : ℕ) → member_role db org db.next_id ≡ none)
      → Seeded db
          (find_slug (codes "default") db.organizations)
          (seed_owner (with_admin db email hashed) db.next_id)
  unfolding seed_owner add_member member_role
  seed_owner-Seeded db email hashed fresh =
      elim (Option-cases (find_slug (codes "default") db.organizations)) [
        | inl absent ↦ rw (absent, seed_owner) (refl, refl)
        | inr (org, found) ↦
            rw (found, seed_owner, add_member, fresh org)
              (refl, put_owner (with_admin db email hashed) org db.next_id)
      ]

  seed_owner-users : (db : Db S V R) (user : ℕ) → (seed_owner db user).0.users ≡ db.users
  unfolding seed_owner add_member put_role
  seed_owner-users db user = ground arith

  seed_admin-first :
      (lower : String → String) (hash : String → Option String) (db : Db S V R) (cfg : Config)
      (hashed : String)
      → db.users ≡ []
      → cfg.admin_email ≢ ""
      → cfg.admin_password ≢ ""
      → hash cfg.admin_password ≡ some hashed
      → seed_admin lower hash db cfg ≡ seed_owner (with_admin db cfg.admin_email hashed) db.next_id
  unfolding seed_admin create_user find_email
  seed_admin-first lower hash db cfg hashed empty email password can =
      ground (arith, empty, can, eq_iff cfg.admin_email "", eq_iff cfg.admin_password "")

  -- The first run on tables without users, with credentials and a password that can be hashed,
  -- creates a user with that address; it makes the user an owner of the organization with the slug
  -- "default" if there is one, and fails otherwise. However that ends, every later run changes nothing
  -- and reports no error.
  pub seed_admin_once :
      (lower : String → String) (hash : String → Option String) (db : Db S V R) (cfg later : Config)
      (hashed : String)
      → db.users ≡ []
      → ((org : ℕ) → member_role db org db.next_id ≡ none)
      → cfg.admin_email ≢ ""
      → cfg.admin_password ≢ ""
      → hash cfg.admin_password ≡ some hashed
      → (let o = seed_admin lower hash db cfg in
          (o.0.users
            ≡ (db.next_id, record { email = cfg.admin_email; password_hash = hashed }) ∷ [])
          × Seeded db (find_slug (codes "default") db.organizations) o
          × (seed_admin lower hash o.0 later ≡ (o.0, true)))
  unfolding insert
  seed_admin_once lower hash db cfg later hashed empty fresh email password can =
      let same = seed_admin-first lower hash db cfg hashed empty email password can in
      let users : (seed_owner (with_admin db cfg.admin_email hashed) db.next_id).0.users
          ≡ (db.next_id, record { email = cfg.admin_email; password_hash = hashed }) ∷ [] =
        seed_owner-users (with_admin db cfg.admin_email hashed) db.next_id
        ∙ ap (insert db.next_id (record { email = cfg.admin_email; password_hash = hashed }))
            empty in
      rw same (
        users,
        seed_owner-Seeded db cfg.admin_email hashed fresh,
        seed_admin-done lower hash _ later (rw users refl),
      )
