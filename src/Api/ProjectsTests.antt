-- ===== src/Api/ProjectsTests.antt =====
-- The handlers of projects, environments, the log and the history at the sample.
use knobs.Base.{
  ◌≡◌, refl, ap, ℕ, String, ℕ_eq, String_eq, true, false, some, List, [], ◌∷◌, arith, nat_eq_iff,
}
use knobs.Base.Text.{Text, codes}
use knobs.Assoc.{Assoc, nil_map, made, lookup}
use knobs.Authz.{at_least, rank, valid_role}
use knobs.Store.{
  Db, Project, Environment, member_role, org_id_for_env, find_version, version_by_number,
  create_environment,
}
use knobs.Store.Listings.{VersionMeta}
use knobs.Store.Listings.Laws.{IsFalling, find_meta}
use knobs.Store.Projects.{find_project, find_environment}
use knobs.Api.Access.{authorize_org, authorize_project}
use knobs.Api.Audit.{atoi, parse_audit_limit}
use knobs.Api.Audit.Trail.{Logged, handlers-Logged}
use knobs.Api.Projects.{
  all_slug_chars, matches_slug, handle_create_environment, handle_create_project,
  handle_list_projects, handle_get_project, handle_patch_project,
}
use knobs.Api.Projects.Named.{AreNamed, Run-AreNamed}
use knobs.Api.Projects.Visible.{HasRoles, found_or_not, list_projects-get_project}
use knobs.Api.Reads.{handle_list_versions}
use knobs.Api.Reads.Laws.{Agrees, list_versions-rollback}
use knobs.Api.Values.{replied, handle_put_values, handle_rollback, handle_put_schema}
use knobs.Api.Values.Run.{environment_created, project_created, rolled_back}
use knobs.Api.Values.Grows.{Grows}
use knobs.Store.Laws.{IsSound}
use knobs.Store.Members.{count_owners}
use knobs.Api.Members.{handle_add_member}
use knobs.Api.Members.Owners.{IsOwned, is_owned, added}
use knobs.Api.ApiKeys.{handle_create_api_key}
use knobs.Api.ApiKeys.Homes.{AreKeyed}
use knobs.Api.Requests.{
  of_values, of_keys, of_members, key_created, stay, next, IsConsistent, Requests-IsConsistent,
}
use knobs.Api.Values.Run
use knobs.Api.ValuesSample.{rules, prod, tables, tables-IsSound, access}
use knobs.Delivery.Listener.{is_int64, digits_from}

-- The sample with an owner.
abbrev owned : Db ℕ ℕ ℕ
owned = record tables { members = (1, (7, "owner") ∷ []) ∷ [] }

abbrev qa_made : Db ℕ ℕ ℕ
qa_made = (handle_create_environment owned 7 true (some 2) (some "qa")).0

abbrev shop_made : Db ℕ ℕ ℕ
shop_made =
    (handle_create_project qa_made 7 true
      (some (record { name = "Shop"; slug = "shop-1"; organization_id = some 1 }))).0

slugs_tested : (matches_slug "shop-1" ≡ true) × (matches_slug "Shop" ≡ false)
unfolding matches_slug all_slug_chars
slugs_tested = (refl, refl)

-- A name that the project has already is refused.
prod_taken : (handle_create_environment owned 7 true (some 2) (some "prod")).0 ≡ owned
unfolding handle_create_environment matches_slug all_slug_chars authorize_project authorize_org
    member_role at_least rank lookup knobs.Api.Projects.create_environment_tx
    knobs.Store.Projects.insert_environment find_environment
prod_taken = refl

only_row : {V : Type 0} (k id : ℕ) (v w : V) → lookup id ((k, v) ∷ []) ≡ some w → w ≡ v
unfolding lookup
only_row k id v w h = ground (arith, h)

owned-AreNamed : AreNamed owned.projects owned.environments
unfolding lookup matches_slug all_slug_chars
owned-AreNamed = record {
  slugs = λ id p h.
      ap (λ (q : Project). matches_slug q.slug)
        (only_row 2 id (record { organization_id = 1; name = "p"; slug = "p" }) p h);
  names = λ id e h. ap (λ (q : Environment). matches_slug q.name) (only_row 0 id prod e h);
  slug_once = λ i j p q f g same. ground (arith, f, g, nat_eq_iff 2 i, nat_eq_iff 2 j);
  name_once = λ i j d e f g same. ground (arith, f, g, nat_eq_iff 0 i, nat_eq_iff 0 j);
  parents = λ id e h. ground (arith, h);
}

Run-AreNamed_example : AreNamed shop_made.projects shop_made.environments
Run-AreNamed_example =
    Run-AreNamed rules false owned _
      (Run.next (Run.next (Run.stay owned) (environment_created owned 7 true (some 2) (some "qa")))
        (project_created qa_made 7 true
          (some (record { name = "Shop"; slug = "shop-1"; organization_id = some 1 }))))
      owned-AreNamed

abbrev hashed : Text → String
hashed key = "h"

abbrev unchanged : String → String
unchanged s = s

abbrev keyed : Db ℕ ℕ ℕ
keyed = (handle_create_api_key hashed qa_made 7 true (some (codes "k")) (some 3) (some "ci")).0

abbrev again : Db ℕ ℕ ℕ
again = (handle_rollback keyed 7 true (some 0) (some (some 1))).0

owned-IsOwned : IsOwned owned.members
unfolding lookup is_owned count_owners
owned-IsOwned = record {
  maps = λ org. ground (arith, nat_eq_iff 1 org);
  owned = λ org. ground (arith, nat_eq_iff 1 org);
}

owned-IsSound : IsSound owned
owned-IsSound = record {
  fresh_version = tables-IsSound.fresh_version;
  fresh_environment = tables-IsSound.fresh_environment;
  is_map = tables-IsSound.is_map;
  is_numbered = tables-IsSound.is_numbered;
  points = tables-IsSound.points;
}

owned-AreKeyed : AreKeyed owned.api_keys owned.environments
unfolding lookup
owned-AreKeyed = record {
  hash_once = λ i j v w first second same. ground (arith, first);
  homes = λ id k found. ground (arith, found);
}

-- An environment, a key of it, a rollback of another, and one more member.
Requests-IsConsistent_example :
    (let after =
        (handle_add_member unchanged again 7 true
          (some ("pw", "h"))
          (some 1)
          (some ("new", "viewer"))).0 in
      IsConsistent after × Grows owned after)
Requests-IsConsistent_example =
    Requests-IsConsistent rules (λ s. "s") owned _
      (next
        (next
          (next
            (next (stay owned) (of_values (environment_created owned 7 true (some 2) (some "qa"))))
            (of_keys (key_created hashed qa_made 7 true (some (codes "k")) (some 3) (some "ci"))))
          (of_values (rolled_back keyed 7 true (some 0) (some (some 1)))))
        (of_members
          (added unchanged again 7 true (some ("pw", "h")) (some 1) (some ("new", "viewer")))))
      (record {
        sound = owned-IsSound;
        named = owned-AreNamed;
        owned = owned-IsOwned;
        keyed = owned-AreKeyed;
      })

tables-HasRoles : HasRoles tables
unfolding member_role lookup valid_role rank
tables-HasRoles org user role h =
    let editor : role ≡ "editor" = ground (arith, h) in ap valid_role editor

list_projects-get_project_example :
    (listed : Assoc ℕ Project) × (handle_list_projects tables 7 ≡ replied listed)
    × ((id : ℕ) → handle_get_project tables 7 (some id) ≡ found_or_not (lookup id listed))
unfolding lookup
list_projects-get_project_example = list_projects-get_project tables 7 (refl, tt) tables-HasRoles

limits_clamped :
    (parse_audit_limit (codes "7") ≡ 7)
    × (parse_audit_limit (codes "-3") ≡ 1)
    × (parse_audit_limit (codes "1000") ≡ 500)
    × (parse_audit_limit (codes "ten") ≡ 100)
unfolding parse_audit_limit atoi is_int64 digits_from
limits_clamped = (refl, refl, refl, refl)

handlers-Logged_example :
    Logged owned 7 2 "values.update" 0
      (handle_put_values rules owned 7 true (some 0) (some (made (("limit", 8) ∷ []), nil_map)))
    × Logged owned 7 2 "values.rollback" 0 (handle_rollback owned 7 true (some 0) (some (some 1)))
    × Logged owned 7 2 "schema.update" 2 (handle_put_schema rules owned 7 true (some 2) (some 9))
    × Logged owned 7 2 "environment.create" 3
        (handle_create_environment owned 7 true (some 2) (some "qa"))
    × Logged owned 7 2 "project.rename" 2 (handle_patch_project owned 7 true (some 2) (some "qa"))
unfolding lookup
handlers-Logged_example =
    handlers-Logged rules owned 7 true 0 prod 2 (some (made (("limit", 8) ∷ []), nil_map))
      (some (some 1)) (some 9) (some "qa") refl

list_versions-rollback_example :
    (metas : List VersionMeta) × (handle_list_versions tables 7 (some 0) ≡ replied metas)
    × IsFalling metas
    × ((number : ℕ)
        → Agrees number
            (find_meta number metas)
            (handle_rollback tables 7 true (some 0) (some (some number))).1)
list_versions-rollback_example = list_versions-rollback tables 7 0 2 prod tables-IsSound access refl
