-- ===== src/Api/Members/Grants.antt =====
-- internal/api/org_handlers.go: no member is given more than the caller has.
use knobs.Base.{
  ◌≡◌, refl, ◌∙◌, ℕ, String, String_eq, ℕ_eq, Bool, true, Option, none, some, if◌then◌else◌, ◌&&◌,
  nat_eq, nat_eq_iff, Bool-cases, ◌⊎◌, inl, inr, arith,
}
use knobs.Assoc.{lookup, insert, delete, lookup-insert, lookup-delete}
use knobs.Authz.{at_least, valid_role, rank}
use knobs.Store.{Db}
use knobs.Store.Members.{roles_of}
use knobs.Api.Members.{handle_add_member, handle_update_member_role, handle_remove_member}
use knobs.Api.Members.Laws.{
  Members, role_in, with_role, without, handle_update_member_role_lem, handle_remove_member_lem,
}
use knobs.Api.Members.Laws.Add.{handle_add_member_lem}

role_in-with_role :
    (m : Members) (org user : ℕ) (role : String) (o u : ℕ)
    → role_in (with_role m org user role) o u
      ≡ (if nat_eq org o && nat_eq user u then some role else role_in m o u)
role_in-with_role m org user role o u = ground (
  arith,
  lookup-insert org o (insert user role (roles_of (lookup org m))) m,
  lookup-insert user u role (roles_of (lookup org m)),
  nat_eq_iff org o,
)

role_in-without :
    (m : Members) (org user o u : ℕ)
    → role_in (without m org user) o u
      ≡ (if nat_eq org o && nat_eq user u then none else role_in m o u)
role_in-without m org user o u = ground (
  arith,
  lookup-insert org o (delete user (roles_of (lookup org m))) m,
  lookup-delete user u (roles_of (lookup org m)),
  nat_eq_iff org o,
)

-- An owner is at least whatever a role may be.
at_least_owner :
    (own role : String)
    → at_least own "owner" ≡ true
    → valid_role role ≡ true
    → at_least own role ≡ true
unfolding at_least valid_role rank
at_least_owner own role h valid = ground arith

-- Whether a caller with the role `own` may leave a member with the role `new`, or without one.
abbrev pub may_leave : String → Option String → Bool
may_leave own none = at_least own "owner"
may_leave own (some role) = at_least own role

-- Each role is as it was, or the caller is an admin of the organization at least and may leave the
-- role that is there now.
abbrev pub IsGranted : ℕ → Members → Members → Type 0
IsGranted caller before after =
    (org user : ℕ)
    → (role_in after org user ≡ role_in before org user)
      ⊎ ((own : String) × ((role_in before org caller ≡ some own)
            × ((at_least own "admin" ≡ true) × (may_leave own (role_in after org user) ≡ true))))

IsGranted-unchanged : (caller : ℕ) (m : Members) → IsGranted caller m m
IsGranted-unchanged caller m org user = inl refl

-- A change of what one member has.
changed-IsGranted :
    (caller : ℕ) (m after : Members) (org user : ℕ) (own : String) (left : Option String)
    → ((o u : ℕ)
        → role_in after o u ≡ (if nat_eq org o && nat_eq user u then left else role_in m o u))
    → role_in m org caller ≡ some own
    → at_least own "admin" ≡ true
    → may_leave own left ≡ true
    → IsGranted caller m after
changed-IsGranted caller m after org user own left is there enough may o u =
    elim (Bool-cases (nat_eq org o && nat_eq user u)) [
      | inr other ↦ inl (is o u ∙ rw other refl)
      | inl here ↦
          inr
            (own, (ground (arith, nat_eq_iff org o, here, there), (enough, rw (is o u, here) may)))
    ]

admin_of_owner : (own : String) → at_least own "owner" ≡ true → at_least own "admin" ≡ true
unfolding valid_role rank
admin_of_owner own owner = at_least_owner own "admin" owner refl

module _ {S V R : Type 0} where
  -- Whoever adds a member, changes a member's role or removes a member of an organization: each role
  -- in each organization is as it was, or the caller was at least an admin of that organization, and
  -- the role is now at most the caller's, and gone only if the caller was an owner.
  pub handlers-IsGranted :
      (db : Db S V R) (caller : ℕ) (commits : Bool) (org target : Option ℕ)
      (lower : String → String) (invite : Option (String × String))
      (added : Option (String × String)) (role : Option String)
      → IsGranted caller db.members
          (handle_add_member lower db caller commits invite org added).0.members
        × (IsGranted caller db.members
              (handle_update_member_role db caller commits org target role).0.members
            × IsGranted caller db.members
                (handle_remove_member db caller commits org target).0.members)
  handlers-IsGranted db caller commits id target lower invite added role =
      let m = db.members in
      let stay = IsGranted-unchanged caller m in
      (
        handle_add_member_lem (IsGranted caller m) lower db caller commits invite id added stay
            (λ org user own new there enough above absent.
              changed-IsGranted caller m (with_role m org user new) org user own (some new)
                (role_in-with_role m org user new) there enough above),
        (
          handle_update_member_role_lem (IsGranted caller m) db caller commits id target role stay
              (λ org user own current new there owner valid held free.
                changed-IsGranted caller m (with_role m org user new) org user own (some new)
                  (role_in-with_role m org user new) there (admin_of_owner own owner)
                  (at_least_owner own new owner valid)),
          handle_remove_member_lem (IsGranted caller m) db caller commits id target stay
              (λ org user own current there owner held free.
                changed-IsGranted caller m (without m org user) org user own none
                  (role_in-without m org user) there (admin_of_owner own owner) owner),
        ),
      )
