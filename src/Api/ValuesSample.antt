-- ===== src/Api/ValuesSample.antt =====
-- A small organization: user 7 edits project 2, whose environment 0 has two versions.
use knobs.Base.{
  ◌≡◌, refl, ℕ, ℕ_eq, String_eq, Bool, true, Option, none, some, [], ◌∷◌, leb, arith, nat_eq_iff,
}
use knobs.Assoc.{made, get, lookup}
use knobs.Authz.{at_least, rank}
use knobs.Store.{Db, ConfigVersion, Environment, find_version, member_role, org_id_for_env}
use knobs.Store.Laws.{IsSound}
use knobs.Api.Access.{granted, authorize_env, authorize_org}
use knobs.Api.Values.{SchemaRules}

abbrev pub within : ℕ → Option ℕ → Bool
within limit none = true
within limit (some n) = leb n limit

-- A schema is the greatest value that "limit" may have.
abbrev pub rules : SchemaRules ℕ ℕ ℕ
rules = record {
  no_fields = 100;
  well_formed = λ s. true;
  compiles = λ s. true;
  valid_values = λ s m. within s (get "limit" m);
  valid_targeting = λ s m. true;
}

abbrev pub first_version : ConfigVersion ℕ ℕ
first_version = record {
  environment_id = 0;
  version = 1;
  schema_version = 1;
  values = made (("limit", 50) ∷ []);
  targeting = made [];
  created_by = some 7;
}

abbrev pub second_version : ConfigVersion ℕ ℕ
second_version = record first_version { version = 2; values = made (("limit", 5) ∷ []) }

abbrev pub prod : Environment
prod = record { project_id = 2; name = "prod"; current_version_id = some 2; delivery_revision = 2 }

-- The schema has been tightened to 10 since the first version was saved.
abbrev pub tables : Db ℕ ℕ ℕ
tables = record {
  members = (1, (7, "editor") ∷ []) ∷ [];
  organizations = (1, record { name = []; slug = [] }) ∷ [];
  users = (7, record { email = "e"; password_hash = "" }) ∷ [];
  projects = (2, record { organization_id = 1; name = "p"; slug = "p" }) ∷ [];
  api_keys = [];
  environments = (0, prod) ∷ [];
  schemas = (2, record { definition = 10; schema_version = 2 }) ∷ [];
  versions = (1, first_version) ∷ (2, second_version) ∷ [];
  audit = [];
  notified = [];
  next_id = 3;
}

pub tables-IsSound : IsSound tables
unfolding lookup find_version
tables-IsSound = record {
  fresh_version = λ k. ground arith;
  fresh_environment = λ k. ground arith;
  is_map = (refl, (refl, tt));
  is_numbered = (refl, (refl, tt));
  points = λ env. ground (arith, nat_eq_iff 0 env);
}

pub access : authorize_env tables 7 0 "editor" ≡ granted prod
unfolding authorize_env org_id_for_env authorize_org member_role at_least rank lookup
access = refl
