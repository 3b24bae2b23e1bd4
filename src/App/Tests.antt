-- ===== src/App/Tests.antt =====
-- A first start, with and without an organization called "default".
use knobs.Base.{
  ◌≡◌, refl, ℕ, ℕ_eq, String, String_eq, true, false, none, some, [], ◌∷◌, ◌==◌, if◌then◌else◌,
}
use knobs.Base.Text.{codes, text_eq}
use knobs.Assoc.{lookup}
use knobs.Store.{Db, member_role}
use knobs.Store.Members.{find_slug}
use knobs.App.{Config, error, short_jwt_secret, load, read_config, byte_length, seed_admin}
use knobs.App.Laws.{Seeded, seed_admin_once}

abbrev fresh : Db ℕ ℕ ℕ
fresh = record {
  members = [];
  organizations = (1, record { name = codes "Default"; slug = codes "default" }) ∷ [];
  users = [];
  projects = [];
  api_keys = [];
  environments = [];
  schemas = [];
  versions = [];
  audit = [];
  notified = [];
  next_id = 2;
}

abbrev settings : Config
settings = record {
  database_url = "d";
  listen_addr = ":8080";
  jwt_secret = "s";
  admin_email = "root@example.org";
  admin_password = "pw";
  cookie_secure = true;
  trust_proxy = false;
}

no_members : (org : ℕ) → member_role fresh org 2 ≡ none
unfolding member_role lookup
no_members org = refl

seed_admin_once_example :
    (let o = seed_admin (λ s. s) (λ s. some s) fresh settings in
      (o.0.users ≡ (2, record { email = "root@example.org"; password_hash = "pw" }) ∷ [])
      × Seeded fresh (some 1) o
      × (seed_admin (λ s. s) (λ s. some s) o.0 settings ≡ (o.0, true)))
unfolding find_slug text_eq
seed_admin_once_example =
    seed_admin_once (λ s. s) (λ s. some s) fresh settings settings "pw" refl no_members (λ e. cc)
      (λ e. cc) refl

-- Sixteen letters of two bytes each are a secret that is long enough; one fewer is not.
abbrev vars : String → String → String
vars secret name =
    if name == "DATABASE_URL" then "d" else if name == "JWT_SECRET" then secret else ""

short_refused : load (vars "ééééééééééééééé") ≡ error short_jwt_secret
unfolding load read_config byte_length
short_refused = refl
