-- ===== src/Api/Audit.antt =====
-- internal/api/audit_handlers.go, and the query of internal/store/audit.go that it makes. The log is
-- kept oldest first, in the order of its times.
pub mod Laws
pub mod Trail
use knobs.Base.{
  ℕ, zero, suc, ◌+◌, ◌*◌, ◌-◌, String, String_eq, ℕ_eq, Bool, true, false, Option, none, some, List,
  [], ◌∷◌, if◌then◌else◌, nat_eq, ltb, or_default, take, not,
}
use knobs.Base.Int.{ℤ, pos, negsuc, below}
use knobs.Base.Text.{Text}
use knobs.Store.{Db, AuditEntry}
use knobs.Api.Access.{Status, bad_request, Access, denied, granted, authorize_project}
use knobs.Api.Values.{Reply, refused, replied}
use knobs.Delivery.Listener.{digits_from, is_int64}

abbrev pub default_audit_limit : ℕ
default_audit_limit = 100

abbrev pub max_audit_limit : ℕ
max_audit_limit = 500

abbrev pub min_audit_limit : ℕ
min_audit_limit = 1

abbrev pub negated : ℕ → ℤ
negated zero = pos 0
negated (suc n) = negsuc n

abbrev pub written : Text → ℕ
written s = or_default (digits_from 0 s) 0

-- `strconv.Atoi`, where an int has 64 bits.
unfoldable pub atoi : Text → Option ℤ
unfolding is_int64 digits_from
atoi [] = none
atoi (c ∷ s) =
    if not (is_int64 (c ∷ s))
    then none
    else if nat_eq c b'-'
    then some (negated (written s))
    else if nat_eq c b'+'
    then some (pos (written s))
    else some (pos (written (c ∷ s)))

-- The two comparisons at the end of `parseAuditLimit`.
abbrev pub clamp_limit : ℤ → ℕ
clamp_limit (negsuc n) = min_audit_limit
clamp_limit (pos n) =
    if ltb n min_audit_limit
    then min_audit_limit
    else if ltb max_audit_limit n
    then max_audit_limit
    else n

unfoldable pub parse_audit_limit : Text → ℕ
unfolding atoi
parse_audit_limit [] = default_audit_limit
parse_audit_limit (c ∷ raw) = elim (atoi (c ∷ raw)) [
  | none ↦ default_audit_limit
  | some n ↦ clamp_limit n
]

-- `project_id = $1`, where the column may be NULL.
abbrev pub is_about : ℕ → Option ℕ → Bool
is_about project none = false
is_about project (some p) = nat_eq p project

-- `WHERE project_id = $1 ORDER BY at DESC`, onto entries that are there already
unfoldable pub newest_first : ℕ → List AuditEntry → List AuditEntry → List AuditEntry
newest_first project [] newer = newer
newest_first project (a ∷ log) newer =
    newest_first project log (if is_about project a.project_id then a ∷ newer else newer)

module _ {S V R : Type 0} where
  unfoldable pub list_audit : Db S V R → ℕ → ℕ → List AuditEntry
  unfolding newest_first
  list_audit db project limit = take limit (newest_first project db.audit [])

  unfoldable pub handle_list_audit : Db S V R → ℕ → Option ℕ → Text → Reply (List AuditEntry)
  handle_list_audit db user none raw = refused bad_request
  handle_list_audit db user (some project) raw = elim (authorize_project db user project "viewer") [
    | denied status ↦ refused status
    | granted role ↦ replied (list_audit db project (parse_audit_limit raw))
  ]
