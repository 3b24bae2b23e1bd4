-- ===== src/Api/Members/Owners.antt =====
-- internal/api/org_handlers.go: no organization is left without an owner.
use knobs.Base.{
  ◌≡◌, refl, ap, ℕ, ◌+◌, ◌≤◌, String, String_eq, ℕ_eq, Bool, true, false, Option, none, some, [],
  ◌∷◌, ◌==◌, leb, nat_eq_iff, arith,
}
use knobs.Base.Text.{Text}
use knobs.Assoc.{Assoc, lookup, insert, delete, lookup-insert, IsMap, insert-IsMap, delete-IsMap}
use knobs.Store.{Db}
use knobs.Store.Members.{roles_of, count_owners}
use knobs.Api.Members.{
  handle_add_member, handle_update_member_role, handle_remove_member, handle_create_organization,
}
use knobs.Api.Members.Laws.{
  Members, with_role, without, handle_update_member_role_lem, handle_remove_member_lem,
}
use knobs.Api.Members.Laws.Add.{handle_add_member_lem}
use knobs.Api.Members.Laws.Create.{handle_create_organization_lem}

abbrev is_owner : Option String → Bool
is_owner none = false
is_owner (some role) = role == "owner"

abbrev one_if : Bool → ℕ
one_if true = 1
one_if false = 0

count_owners-insert :
    (user : ℕ) (role : String) (roles : Assoc ℕ String)
    → count_owners (insert user role roles) + one_if (is_owner (lookup user roles))
      ≡ count_owners roles + one_if (role == "owner")
unfolding count_owners insert lookup
count_owners-insert user role [] = ground arith
count_owners-insert user role ((u, r) ∷ roles) = ground (arith, count_owners-insert user role roles)

count_owners-absent :
    (user : ℕ) (roles : Assoc ℕ String)
    → lookup user roles ≡ none
    → count_owners (delete user roles) ≡ count_owners roles
unfolding count_owners delete lookup
count_owners-absent user [] h = refl
count_owners-absent user ((u, r) ∷ roles) h = ground (arith, count_owners-absent user roles)

count_owners-delete :
    (user : ℕ) (roles : Assoc ℕ String)
    → IsMap roles
    → count_owners (delete user roles) + one_if (is_owner (lookup user roles)) ≡ count_owners roles
unfolding count_owners delete lookup
count_owners-delete user [] map = refl
count_owners-delete user ((u, r) ∷ roles) (fresh, map) = ground (
  arith,
  count_owners-delete user roles map,
  count_owners-absent user roles,
  nat_eq_iff u user,
  fresh,
)

-- Whether a list of members, unless it is empty, has an owner.
unfoldable pub is_owned : Assoc ℕ String → Bool
is_owned [] = true
is_owned (entry ∷ roles) = leb 1 (count_owners (entry ∷ roles))

is_owned_of : (roles : Assoc ℕ String) → 1 ≤ count_owners roles → is_owned roles ≡ true
unfolding is_owned
is_owned_of [] h = refl
is_owned_of (entry ∷ roles) h = ground arith

owners-here :
    (user : ℕ) (role : String) (roles : Assoc ℕ String)
    → is_owned roles ≡ true
    → lookup user roles ≡ some role
    → 1 ≤ count_owners roles
unfolding is_owned lookup
owners-here user role [] h there = ground arith
owners-here user role (entry ∷ roles) h there = ground arith

pub record IsOwned (m : Members) : Type 0 where
  pub maps : (org : ℕ) → IsMap (roles_of (lookup org m))
  pub owned : (org : ℕ) → is_owned (roles_of (lookup org m)) ≡ true

-- A change of one organization keeps the invariant if what it puts there does.
stored-IsOwned :
    (m : Members) (org : ℕ) (roles : Assoc ℕ String)
    → IsOwned m
    → IsMap roles
    → is_owned roles ≡ true
    → IsOwned (insert org roles m)
stored-IsOwned m org roles h map owned = record {
  maps = λ o. ground (arith, lookup-insert org o roles m, nat_eq_iff org o, h.maps o);
  owned = λ o. ground (arith, lookup-insert org o roles m, nat_eq_iff org o, h.owned o);
}

with_role-IsOwned :
    (m : Members) (org user : ℕ) (role : String)
    → IsOwned m
    → 1 ≤ count_owners (insert user role (roles_of (lookup org m)))
    → IsOwned (with_role m org user role)
with_role-IsOwned m org user role h count =
    stored-IsOwned m org (insert user role (roles_of (lookup org m))) h
      (insert-IsMap user role (roles_of (lookup org m)) (h.maps org)) (is_owned_of _ count)

without-IsOwned :
    (m : Members) (org user : ℕ)
    → IsOwned m
    → 1 ≤ count_owners (delete user (roles_of (lookup org m)))
    → IsOwned (without m org user)
without-IsOwned m org user h count =
    stored-IsOwned m org (delete user (roles_of (lookup org m))) h
      (delete-IsMap user (roles_of (lookup org m)) (h.maps org)) (is_owned_of _ count)

-- A request about members, by whatever caller, and however its commit ends.
pub data Step {S V R : Type 0} : Db S V R → Db S V R → Type 0 where
  added :
      (lower : String → String) (db : Db S V R) (caller : ℕ) (commits : Bool)
      (invite : Option (String × String)) (org : Option ℕ) (body : Option (String × String))
      → Step db (handle_add_member lower db caller commits invite org body).0
  role_changed :
      (db : Db S V R) (caller : ℕ) (commits : Bool) (org target : Option ℕ) (body : Option String)
      → Step db (handle_update_member_role db caller commits org target body).0
  removed :
      (db : Db S V R) (caller : ℕ) (commits : Bool) (org target : Option ℕ)
      → Step db (handle_remove_member db caller commits org target).0
  created :
      (to_lower : ℕ → ℕ) (db : Db S V R) (caller : ℕ) (commits : Bool) (body : Option Text)
      → Step db (handle_create_organization to_lower db caller commits body).0

pub data Run {S V R : Type 0} : Db S V R → Db S V R → Type 0 where
  stay : (db : Db S V R) → Run db db
  next : {before during after : Db S V R} → Run before during → Step during after → Run before after

module _ {S V R : Type 0} where
  pub Step-IsOwned :
      (before after : Db S V R) → Step before after → IsOwned before.members → IsOwned after.members
  Step-IsOwned before after (added lower db caller commits invite id body) h =
      handle_add_member_lem IsOwned lower db caller commits invite id body h
        (λ org user own role caller_role enough below absent.
          let roles = roles_of (lookup org db.members) in
          with_role-IsOwned db.members org user role h (
            omega (
              arith,
              count_owners-insert user role roles,
              ap one_if (ap is_owner absent),
              owners-here caller own roles (h.owned org) caller_role,
            )))
  Step-IsOwned before after (role_changed db caller commits id target body) h =
      handle_update_member_role_lem IsOwned db caller commits id target body h
        (λ org user own current role caller_role enough good there free.
          let roles = roles_of (lookup org db.members) in
          with_role-IsOwned db.members org user role h (
            ground (
              arith,
              count_owners-insert user role roles,
              there,
              free,
              owners-here caller own roles (h.owned org) caller_role,
            )))
  Step-IsOwned before after (removed db caller commits id target) h =
      handle_remove_member_lem IsOwned db caller commits id target h
        (λ org user own current caller_role enough there free.
          let roles = roles_of (lookup org db.members) in
          without-IsOwned db.members org user h (
            ground (
              arith,
              count_owners-delete user roles (h.maps org),
              there,
              free,
              owners-here caller own roles (h.owned org) caller_role,
            )))
  Step-IsOwned before after (created to_lower db caller commits body) h =
      handle_create_organization_lem IsOwned to_lower db caller commits body h (λ org absent.
        let roles = roles_of (lookup org db.members) in
        with_role-IsOwned db.members org caller "owner" h
          (ground (arith, count_owners-insert caller "owner" roles, absent)))

  -- From tables in which every organization with members has an owner, whatever requests about
  -- members are made, in whatever order, every organization with members still has one.
  pub Run-IsOwned :
      (before after : Db S V R) → Run before after → IsOwned before.members → IsOwned after.members
  Run-IsOwned before after (stay db) h = h
  Run-IsOwned before after (next run step) h =
      Step-IsOwned _ after step (Run-IsOwned before _ run h)
