-- ===== src/Api/Audit/Laws.antt =====
-- internal/api/audit_handlers.go and internal/store/audit.go: what is listed of the log.
use knobs.Base.{
  ◌≡◌, ap, ℕ, suc, ◌-◌, ◌≤◌, some, List, [], ◌∷◌, ◌++◌, if◌then◌else◌, nat_eq_iff, take, arith,
}
use knobs.Base.Text.{Text}
use knobs.Store.{Db, AuditEntry}
use knobs.Api.Audit.{parse_audit_limit, is_about, newest_first, list_audit}

pub parse_audit_limit_bounds :
    (raw : Text) → (1 ≤ parse_audit_limit raw) × (parse_audit_limit raw ≤ 500)
unfolding parse_audit_limit
parse_audit_limit_bounds [] = omega arith
parse_audit_limit_bounds (c ∷ raw) = ground arith

newest_first-snoc :
    (project : ℕ) (a : AuditEntry) (log newer : List AuditEntry)
    → newest_first project (log ++ a ∷ []) newer ≡ (
        if is_about project a.project_id
        then a ∷ newest_first project log newer
        else newest_first project log newer)
unfolding newest_first
newest_first-snoc project a [] newer = ground arith
newest_first-snoc project a (b ∷ log) newer =
    newest_first-snoc project a log (if is_about project b.project_id then b ∷ newer else newer)

module _ {S V R : Type 0} where
  -- An entry that is added to the log is listed first, and the others behind it.
  pub list_audit-added :
      (before after : Db S V R) (project : ℕ) (a : AuditEntry) (raw : Text)
      → after.audit ≡ before.audit ++ a ∷ []
      → a.project_id ≡ some project
      → list_audit after project (parse_audit_limit raw)
        ≡ a ∷ list_audit before project (parse_audit_limit raw - 1)
  unfolding list_audit
  list_audit-added before after project a raw added about =
      let limit = parse_audit_limit raw in
      let next : limit ≡ suc (limit - 1) = omega (arith, parse_audit_limit_bounds raw) in
      ground (
        arith,
        ap (λ n. take n (newest_first project after.audit [])) next,
        ap (λ log. newest_first project log []) added,
        newest_first-snoc project a before.audit [],
        ap (is_about project) about,
        nat_eq_iff project project,
      )
