-- ===== src/Api/Values/Transactions.antt =====
-- internal/store/repo.go and internal/api: how a transaction ends, and the row that a grant is of.
use knobs.Base.{
  ◌≡◌, refl, ap, ℕ, suc, String, ◌⊎◌, ℕ_eq, Bool, true, false, Option, none, some, arith, inl, inr,
}
use knobs.Assoc.{lookup}
use knobs.Store.{
  Db, Environment, ConfigVersion, set_current_version, org_id_for_env, record_audit, notify,
}
use knobs.Store.Laws.{repointed}
use knobs.Api.Access.{
  Status, not_found, internal, Access, denied, granted, authorize_env, authorize_org, keep_env,
}
use knobs.Api.Values.{Outcome, failed, done, Reply, refused, replied, with_tx, make_current}

-- `P` holds of what a transaction commits, if it does not fail.
abbrev pub Ends : {D A : Type 0} → (D → A → Type 0) → Outcome D A → Type 0
Ends P (failed status) = Unit
Ends P (done after a) = P after a

-- What a handler returns after a transaction: the old tables with an error, or what was committed.
pub with_tx_lem :
    {D A : Type 0} (Q : D × Reply A → Type 0) (db : D) (commits : Bool) (end : Outcome D A)
    → ((status : Status) → Q (db, refused status))
    → Ends (λ after a. Q (after, replied a)) end
    → Q (with_tx db commits end)
with_tx_lem Q db commits (failed status) before after = before status
with_tx_lem Q db true (done d a) before after = after
with_tx_lem Q db false (done d a) before after = before internal

kept_row :
    (held e : Environment) (access : Access String) → keep_env held access ≡ granted e → held ≡ e
kept_row held e (denied status) h = ground arith
kept_row held e (granted role) h = ground arith

-- The row that is granted is the one that was looked up.
granted_row :
    (held : Option Environment) (org : Option ℕ) (e : Environment) (ask : ℕ → Access String)
    → elim held [
      | none ↦ denied not_found
      | some row ↦ elim org [ none ↦ denied not_found | some o ↦ keep_env row (ask o) ]
    ]
      ≡ granted e
    → held ≡ some e
granted_row none org e ask h = ground arith
granted_row (some row) none e ask h = ground arith
granted_row (some row) (some o) e ask h = ap some (kept_row row e (ask o) h)

pub Access-cases :
    {A : Type 0} (access : Access A)
    → ((status : Status) × (access ≡ denied status)) ⊎ ((a : A) × (access ≡ granted a))
Access-cases (denied status) = inl (status, refl)
Access-cases (granted a) = inr (a, refl)

module _ {S V R : Type 0} where
  pub authorize_env_found :
      (db : Db S V R) (user env : ℕ) (least : String) (e : Environment)
      → authorize_env db user env least ≡ granted e
      → lookup env db.environments ≡ some e
  unfolding authorize_env
  authorize_env_found db user env least e h =
      granted_row (lookup env db.environments) (org_id_for_env db env) e
        (λ org. authorize_org db user org least) h

  -- The tables after `make_current`.
  abbrev pub published : Db S V R → ℕ → ℕ → ℕ → String → ℕ → Environment → Db S V R
  published db user env project action id e =
      notify (record_audit (repointed db env id e) (some project) user action env) env
        (suc e.delivery_revision)

  pub make_current_lem :
      (P : Db S V R → ConfigVersion V R → Type 0)
      → (db : Db S V R) (user env project : ℕ) (action : String) (row : ℕ × ConfigVersion V R)
        (e : Environment)
      → lookup env db.environments ≡ some e
      → P (published db user env project action row.0 e) row.1
      → Ends P (make_current db user env project action row)
  unfolding make_current set_current_version
  make_current_lem P db user env project action row e found p =
      rw (found, make_current, set_current_version) p
