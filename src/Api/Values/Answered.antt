-- ===== src/Api/Values/Answered.antt =====
-- internal/api/values_handlers.go: what has been tested once a save is answered with a version.
use knobs.Base.{◌≡◌, refl, ℕ, ℕ_eq, Bool, true, false, some, inl, inr, arith}
use knobs.Assoc.{GoMap, lookup}
use knobs.Store.{Db, Environment, ConfigVersion}
use knobs.Api.Access.{Status, granted, authorize_env}
use knobs.Api.Values.{
  SchemaRules, Outcome, failed, done, refused, replied, with_tx, put_values_tx, handle_put_values,
}
use knobs.Api.Values.Transactions.{Ends, Access-cases, authorize_env_found}
use knobs.Api.Values.Laws.{schema_of, put_values_tx_lem}

refused-ne-replied : {A B : Type 0} (status : Status) (a : A) → refused status ≡ replied a → B
refused-ne-replied status a h = absurd (cc)

module _ {D A : Type 0} where
  -- A transaction is answered with what it commits.
  with_tx-replied :
      (P : A → Type 0) (db : D) (commits : Bool) (end : Outcome D A) (a : A)
      → Ends (λ after b. P b) end
      → (with_tx db commits end).1 ≡ replied a
      → (commits ≡ true) × P a
  with_tx-replied P db commits (failed status) a p h = refused-ne-replied status a h
  with_tx-replied P db false (done after b) a p h = absurd (cc)
  with_tx-replied P db true (done after b) a p h =
      let same : b ≡ a = ground (arith, h) in (refl, rw⁻¹ same p)

module _ {S V R : Type 0} (rules : SchemaRules S V R) where
  -- Only what an editor sends is answered with a version, only if it passes the current schema, and
  -- only if the transaction commits.
  pub handle_put_values-replied :
      (db : Db S V R) (user env : ℕ) (commits : Bool) (values : GoMap V) (targeting : GoMap R)
      (saved : ConfigVersion V R)
      → (handle_put_values rules db user commits (some env) (some (values, targeting))).1
        ≡ replied saved
      → (e : Environment) × (authorize_env db user env "editor" ≡ granted e)
        × (lookup env db.environments ≡ some e)
        × (commits ≡ true)
        × (rules.valid_values (schema_of rules db e.project_id).definition values ≡ true)
        × (rules.valid_targeting (schema_of rules db e.project_id).definition targeting ≡ true)
  unfolding handle_put_values
  handle_put_values-replied db user env commits values targeting saved =
      elim (Access-cases (authorize_env db user env "editor")) [
        | inl (status, refusal) ↦
            rw (refusal, handle_put_values) (λ h. refused-ne-replied status saved h)
        | inr (e, grant) ↦
            let found = authorize_env_found db user env "editor" e grant in
            rw (grant, handle_put_values)
              (λ h.
                let (committed, (good, right)) =
                  with_tx-replied
                    (λ v.
                      (rules.valid_values (schema_of rules db e.project_id).definition values
                        ≡ true)
                      × (rules.valid_targeting (schema_of rules db e.project_id).definition
                            targeting
                          ≡ true))
                    db commits (put_values_tx rules db user env e.project_id values targeting) saved
                    (put_values_tx_lem rules _ db user env values targeting e found
                      (λ good right. (good, right)))
                    h in
                (e, refl, found, committed, good, right))
      ]
