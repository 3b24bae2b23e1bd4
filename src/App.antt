-- ===== src/App.antt =====
-- internal/config/config.go, and `seedAdmin` of internal/app/app.go.
pub mod Laws
mod Tests
use knobs.Base.{
  ℕ, ◌+◌, String, String_eq, ℕ_eq, Bool, true, false, Option, none, some, List, [], ◌∷◌,
  if◌then◌else◌, not, ◌==◌, ◌||◌, ltb, leb,
}
use knobs.Base.Text.{Text, Text_eq, codes}
use knobs.Assoc.{Assoc}
use knobs.Store.{Db, User}
use knobs.Store.Members.{find_slug, create_user, add_member}

abbrev pub min_jwt_secret_len : ℕ
min_jwt_secret_len = 32

pub record Config : Type 0 where
  pub database_url : String
  pub listen_addr : String
  pub jwt_secret : String
  pub admin_email : String
  pub admin_password : String
  pub cookie_secure : Bool
  pub trust_proxy : Bool

-- The errors of `Load`, in the order of its tests.
pub data ConfigError : Type 0 where
  no_database_url no_jwt_secret short_jwt_secret : ConfigError

pub data Loaded : Type 0 where
  error : ConfigError → Loaded
  loaded : Config → Loaded

-- The bytes of a character in UTF-8, and `len` of a string.
abbrev pub bytes_of : ℕ → ℕ
bytes_of c = if ltb c 0x80 then 1 else if ltb c 0x800 then 2 else if ltb c 0x10000 then 3 else 4

unfoldable pub byte_length : Text → ℕ
byte_length [] = 0
byte_length (c ∷ s) = bytes_of c + byte_length s

-- The settings as they are read; a variable that is not set is empty.
unfoldable pub read_config : (String → String) → Config
read_config getenv = record {
  database_url = getenv "DATABASE_URL";
  listen_addr = getenv "LISTEN_ADDR";
  jwt_secret = getenv "JWT_SECRET";
  admin_email = getenv "ADMIN_EMAIL";
  admin_password = getenv "ADMIN_PASSWORD";
  cookie_secure = not (getenv "COOKIE_SECURE" == "false");
  trust_proxy = getenv "TRUST_PROXY" == "true";
}

unfoldable pub load : (String → String) → Loaded
unfolding read_config byte_length
load getenv =
    let cfg = read_config getenv in
    if cfg.database_url == ""
    then error no_database_url
    else if cfg.jwt_secret == ""
    then error no_jwt_secret
    else if ltb (byte_length (codes cfg.jwt_secret)) min_jwt_secret_len
    then error short_jwt_secret
    else if cfg.listen_addr == ""
    then loaded (record cfg { listen_addr = ":8080" })
    else loaded cfg

-- Whether `SELECT count(*)` finds any user.
abbrev pub has_users : Assoc ℕ User → Bool
has_users [] = false
has_users (row ∷ users) = true

module _ {S V R : Type 0} where
  -- `OrganizationBySlug` and `AddMember`, with which `seedAdmin` ends. The flag says that all went
  -- well.
  unfoldable pub seed_owner : Db S V R → ℕ → Db S V R × Bool
  seed_owner db user = elim (find_slug (codes "default") db.organizations) [
    | none ↦ (db, false)
    | some org ↦ elim (add_member db org user "owner") [
      | none ↦ (db, false)
      | some after ↦ (after, true)
    ]
  ]

  -- `hash` is bcrypt's, which may fail. Nothing here is a transaction.
  unfoldable pub seed_admin :
      (String → String) → (String → Option String) → Db S V R → Config → Db S V R × Bool
  unfolding seed_owner
  seed_admin lower hash db cfg =
      if cfg.admin_email == "" || cfg.admin_password == ""
      then (db, true)
      else if has_users db.users
      then (db, true)
      else elim (hash cfg.admin_password) [
        | none ↦ (db, false)
        | some h ↦ elim (create_user lower db cfg.admin_email h) [
          | none ↦ (db, false)
          | some created ↦ seed_owner created.0 created.1
        ]
      ]
