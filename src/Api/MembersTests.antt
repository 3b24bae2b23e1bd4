-- ===== src/Api/MembersTests.antt =====
-- Runs of the handlers of organizations and members on a small table.
use knobs.Base.{
  suc, ◌<◌, ◌+◌, if◌then◌else◌, ◌≡◌, refl, ℕ, ℕ_eq, String, String_eq, true, none, some, [], ◌∷◌,
  arith, nat_eq_iff,
}
use knobs.Base.Text.{Text_eq, codes, text_eq, between}
use knobs.Assoc.{lookup, insert}
use knobs.Authz.{at_least, valid_role, rank}
use knobs.Store.{Db, member_role, record_audit}
use knobs.Store.Members.{
  count_owners, count_owners_for_update, find_slug, put_role, update_member_role,
}
use knobs.Api.Access.{conflict, authorize_org}
use knobs.Api.Values.{refused}
use knobs.Api.Members.{
  update_role_tx, remove_tx, handle_add_member, handle_update_member_role, handle_remove_member,
  handle_create_organization,
}
use knobs.Api.Members.Slug.{slug_loop, trim_right, derive_slug, decimal, numbered}
use knobs.Api.Members.Slug.Laws.{IsSlug}
use knobs.Api.Members.Laws.{role_in}
use knobs.Api.Members.Owners.{IsOwned, is_owned, stay, next, role_changed, removed, Run-IsOwned}
use knobs.Api.Members.Grants.{IsGranted, handlers-IsGranted}
use knobs.Api.Members.Create.{Founds, Taken, create_organization_free}

abbrev acme : Db ℕ ℕ ℕ
acme = record {
  members = (1, (7, "owner") ∷ (8, "viewer") ∷ []) ∷ [];
  organizations = (1, record { name = codes "Acme"; slug = codes "acme" }) ∷ [];
  users =
      (7, record { email = "o"; password_hash = "" })
      ∷ (8, record { email = "v"; password_hash = "" })
      ∷ [];
  projects = [];
  api_keys = [];
  environments = [];
  schemas = [];
  versions = [];
  audit = [];
  notified = [];
  next_id = 9;
}

-- ASCII letters only.
abbrev lower_ascii : ℕ → ℕ
lower_ascii c = if between b'A' b'Z' c then c + 32 else c

abbrev same : String → String
same s = s

acme-IsOwned : IsOwned acme.members
unfolding lookup is_owned count_owners
acme-IsOwned = record {
  maps = λ org. ground (arith, nat_eq_iff 1 org);
  owned = λ org. ground (arith, nat_eq_iff 1 org);
}

last_owner : handle_remove_member acme 7 true (some 1) (some 7) ≡ (acme, refused conflict)
unfolding handle_remove_member authorize_org member_role at_least rank remove_tx
    count_owners_for_update count_owners lookup
last_owner = refl

promoted :
    (handle_update_member_role acme 7 true (some 1) (some 8) (some "owner")).0.members
    ≡ (1, (7, "owner") ∷ (8, "owner") ∷ []) ∷ []
unfolding handle_update_member_role valid_role authorize_org member_role at_least rank
    update_role_tx update_member_role put_role record_audit lookup insert
promoted = refl

slug_of : derive_slug lower_ascii (codes " Ac/me  2! ") ≡ codes "ac-me-2"
unfolding derive_slug slug_loop trim_right
slug_of = refl

abbrev two_owners : Db ℕ ℕ ℕ
two_owners = (handle_update_member_role acme 7 true (some 1) (some 8) (some "owner")).0

Run-IsOwned_example : IsOwned (handle_remove_member two_owners 8 true (some 1) (some 7)).0.members
Run-IsOwned_example =
    Run-IsOwned acme (handle_remove_member two_owners 8 true (some 1) (some 7)).0
      (next (next (stay acme) (role_changed acme 7 true (some 1) (some 8) (some "owner")))
        (removed two_owners 8 true (some 1) (some 7)))
      acme-IsOwned

handlers-IsGranted_example :
    IsGranted 8 acme.members
      (handle_add_member same acme 8 true none (some 1) (some ("x", "owner"))).0.members
    × (IsGranted 8 acme.members
          (handle_update_member_role acme 8 true (some 1) (some 8) (some "owner")).0.members
        × IsGranted 8 acme.members (handle_remove_member acme 8 true (some 1) (some 8)).0.members)
handlers-IsGranted_example =
    handlers-IsGranted acme 8 true (some 1) (some 8) same none (some ("x", "owner")) (some "owner")

taken_first :
    find_slug (numbered (derive_slug lower_ascii (codes "Acme")) 0) acme.organizations ≡ some 1
unfolding find_slug numbered derive_slug slug_loop trim_right text_eq
taken_first = refl

free_second :
    find_slug (numbered (derive_slug lower_ascii (codes "Acme")) 1) acme.organizations ≡ none
unfolding find_slug numbered decimal derive_slug slug_loop trim_right text_eq
free_second = refl

Taken-before : (i : ℕ) → i < 1 → Taken acme (numbered (derive_slug lower_ascii (codes "Acme")) i)
Taken-before ℕ.zero below = (1, taken_first)
Taken-before (suc i) below = absurd (omega (arith, below))

no_ninth : role_in acme.members acme.next_id 8 ≡ none
unfolding lookup
no_ninth = refl

create_organization_free_example :
    IsSlug (numbered (derive_slug lower_ascii (codes "Acme")) 1)
    × Founds acme 8
        (codes "Acme")
        (numbered (derive_slug lower_ascii (codes "Acme")) 1)
        (handle_create_organization lower_ascii acme 8 true (some (codes "Acme")))
create_organization_free_example =
    create_organization_free lower_ascii acme 8 b'A' 1 (codes "cme") (omega arith) Taken-before
      free_second no_ninth
