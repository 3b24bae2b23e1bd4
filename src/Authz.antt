-- ===== src/Authz.antt =====
-- internal/authz/authz.go: the ranking of the roles. A role is a string; one that is not known has
-- no rank.
use knobs.Base.{
  ℕ, String, String_eq, Bool, false, Option, none, some, if◌then◌else◌, ◌==◌, leb, is_some,
}

unfoldable pub rank : String → Option ℕ
rank role =
    if role == "viewer"
    then some 0
    else if role == "editor"
    then some 1
    else if role == "admin"
    then some 2
    else if role == "owner"
    then some 3
    else none

unfoldable pub at_least : String → String → Bool
at_least role least = elim (rank role) [
  | none ↦ false
  | some rr ↦ elim (rank least) [ none ↦ false | some mr ↦ leb mr rr ]
]

unfoldable pub valid_role : String → Bool
valid_role role = is_some (rank role)
