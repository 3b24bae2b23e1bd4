-- ===== src/Api/ApiKeysTests.antt =====
-- A key is created, used and revoked.
use knobs.Base.{
  ◌≡◌, refl, ℕ, ℕ_eq, String, String_eq, true, none, some, [], ◌∷◌, length, if◌then◌else◌, nat_eq,
}
use knobs.Base.Text.{Text, codes}
use knobs.Assoc.{lookup, insert}
use knobs.Authz.{at_least, rank}
use knobs.Store.{Db, ApiKey, org_id_for_env, member_role}
use knobs.Store.ApiKeys.{find_hash, touch_api_key}
use knobs.Api.Access.{unauthorized, granted, authorize_env, authorize_org}
use knobs.Api.Values.{refused, replied}
use knobs.Api.ValuesSample.{tables, prod}
use knobs.Api.ApiKeys.{
  bearer, strip_prefix, handle_create_api_key, handle_revoke_api_key, handle_snapshot,
  snapshot_request,
}
use knobs.Api.ApiKeys.Laws.{key_of, header_of, api_key_lifecycle}

abbrev old_key : ApiKey
old_key = record {
  environment_id = 0;
  project_id = 2;
  name = "old";
  hash = "long";
  last_used_at = some 100;
}

abbrev keyed : Db ℕ ℕ ℕ
keyed = record tables { members = (1, (7, "admin") ∷ []) ∷ []; api_keys = (2, old_key) ∷ [] }

-- Two hashes, by the length of the key.
abbrev by_length : Text → String
by_length s = if nat_eq (length s) 9 then "short" else "long"

abbrev no_hash : ℕ → String
no_hash s = "h"

admin_access : authorize_env keyed 7 0 "admin" ≡ granted prod
unfolding authorize_env org_id_for_env authorize_org member_role at_least rank lookup
admin_access = refl

touched_late :
    (touch_api_key keyed 161 2).api_keys ≡ (2, record old_key { last_used_at = some 161 }) ∷ []
unfolding touch_api_key lookup insert
touched_late = refl

touched_early : (touch_api_key keyed 160 2).api_keys ≡ (2, old_key) ∷ []
unfolding touch_api_key lookup insert
touched_early = refl

no_token : bearer (codes "Bearer ") ≡ none
unfolding bearer strip_prefix
no_token = refl

other_scheme : bearer (codes "Basic abc") ≡ none
unfolding bearer strip_prefix
other_scheme = refl

api_key_lifecycle_example :
    (let created =
        handle_create_api_key by_length keyed 7 true (some (codes "abc")) (some 0) (some "ci") in
      let revoked = handle_revoke_api_key created.0 7 true (some 0) (some 3) in
      (created.1 ≡ replied (record { id = 3; name = "ci"; key = key_of (codes "abc") }))
      × (((snapshot_request 100 no_hash by_length created.0 7 true (header_of (codes "abc"))).1
            ≡ (handle_snapshot 100 no_hash created.0 0).1)
          × ((revoked.1 ≡ replied tt)
              × ((revoked.0.api_keys ≡ keyed.api_keys)
                  × (snapshot_request 100 no_hash by_length revoked.0 7 true
                        (header_of (codes "abc"))
                      ≡ (revoked.0, refused unauthorized))))))
unfolding lookup find_hash
api_key_lifecycle_example =
    api_key_lifecycle 100 no_hash by_length keyed 7 7 0 7 true (codes "abc") "ci" prod refl
      admin_access admin_access refl refl
