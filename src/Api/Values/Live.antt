-- ===== src/Api/Values/Live.antt =====
-- internal/api/values_handlers.go and schema_handlers.go: the values served and the schemas, over the
-- runs of the handlers.
use knobs.Base.{◌≡◌, ◌∙◌, ℕ, ℕ_eq, true, false, nat_eq, arith, if◌then◌else◌}
use knobs.Store.{Db, ConfigVersion}
use knobs.Store.Laws.{IsSound}
use knobs.Api.Values.{SchemaRules, Outcome, failed, done, put_values_tx}
use knobs.Api.Values.Transactions.{Ends}
use knobs.Api.Values.Laws.{
  handle_put_values_lem, handle_put_schema_lem, put_schema_tx_lem, handle_get_schema_lem,
}
use knobs.Api.Values.Fits.{
  live_fits, live_fits-put_values, live_fits-put_schema, live_fits-ready, live_fits-settled,
  live_fits-founded, live_fits-renamed,
}
use knobs.Api.Values.Run.{
  Step, saved, schema_changed, environment_created, project_created, project_renamed, schema_read,
  Run, stay, next, Run-IsSound,
}
use knobs.Api.Projects.Laws.{
  handle_create_environment_lem, handle_create_project_lem, handle_patch_project_lem,
}

module _ {S V R : Type 0} where
  module _ (rules : SchemaRules S V R) where
    saved_fits :
        (env : ℕ) (end : Outcome (Db S V R) (ConfigVersion V R)) (db : Db S V R)
        → ((j : ℕ) → live_fits rules db j ≡ true)
        → Ends
            (λ after v.
              (j : ℕ)
              → live_fits rules after j ≡ (if nat_eq env j then true else live_fits rules db j))
            end
        → Ends (λ after v. (j : ℕ) → live_fits rules after j ≡ true) end
    saved_fits env (failed status) db fits h = tt
    saved_fits env (done after v) db fits h = λ j. ground (arith, h j, fits j)

    Step-fits :
        (before after : Db S V R)
        → Step rules false before after
        → IsSound before
        → ((j : ℕ) → live_fits rules before j ≡ true)
        → (j : ℕ) → live_fits rules after j ≡ true
    Step-fits before after (saved db user commits env body) sound fits =
        handle_put_values_lem rules (λ o. (j : ℕ) → live_fits rules o.0 j ≡ true) db user commits
          env body (λ status. fits)
          (λ i e values targeting found.
            saved_fits i (put_values_tx rules db user i e.project_id values targeting) db fits
              (live_fits-put_values rules db user i values targeting e sound found))
    Step-fits before after (schema_changed db user commits project body) sound fits =
        handle_put_schema_lem rules (λ o. (j : ℕ) → live_fits rules o.0 j ≡ true) db user commits
          project body (λ status. fits)
          (λ p d usable.
            put_schema_tx_lem rules (λ after v. (j : ℕ) → live_fits rules after j ≡ true) db user p
              d
              (λ safe j.
                live_fits-put_schema rules _ user p d j safe
                  (live_fits-ready rules db p j ∙ fits j)))
    Step-fits before after (environment_created db user commits project body) sound fits =
        handle_create_environment_lem (λ o. (j : ℕ) → live_fits rules o.0 j ≡ true) db user commits
          project body (λ status. fits)
          (λ p role name grant fine free j. live_fits-settled rules db user p name j (fits j))
    Step-fits before after (project_created db user commits body) sound fits =
        handle_create_project_lem (λ o. (j : ℕ) → live_fits rules o.0 j ≡ true) db user commits body
          (λ status. fits)
          (λ org role name slug grant fine free j.
            live_fits-founded rules db user org name slug j (fits j))
    Step-fits before after (project_renamed db user commits project body) sound fits =
        handle_patch_project_lem (λ o. (j : ℕ) → live_fits rules o.0 j ≡ true) db user commits
          project body (λ status. fits)
          (λ i role name p grant found j. live_fits-renamed rules db user i p name j (fits j))
    Step-fits before after (schema_read db user project) sound fits =
        handle_get_schema_lem rules (λ d. (j : ℕ) → live_fits rules d j ≡ true) db user project fits
          (λ p j. live_fits-ready rules db p j ∙ fits j)

    -- From sound tables in which the values that every environment serves validate against the current
    -- schema of its project: as long as nothing is rolled back, whether values are saved, a schema is
    -- changed or a project or an environment is created, that stays so.
    pub Run-fits :
        (before after : Db S V R)
        → Run rules false before after
        → IsSound before
        → ((j : ℕ) → live_fits rules before j ≡ true)
        → (j : ℕ) → live_fits rules after j ≡ true
    Run-fits before after (stay db) sound fits = fits
    Run-fits before after (next run step) sound fits =
        Step-fits _ after step (Run-IsSound rules false before _ run sound).0
          (Run-fits before _ run sound fits)
