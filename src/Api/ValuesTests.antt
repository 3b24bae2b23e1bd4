-- ===== src/Api/ValuesTests.antt =====
-- The writing handlers at the sample.
use knobs.Base.{◌≡◌, refl, ℕ, ℕ_eq, String_eq, true, false, some, [], ◌∷◌, arith, nat_eq_iff}
use knobs.Assoc.{nil_map, made, lookup}
use knobs.Store.{max_version, find_version, version_by_number, next_version_number}
use knobs.Api.Values.{handle_put_values, handle_rollback}
use knobs.Api.Values.Run.{stay, next, saved}
use knobs.Api.Values.Fits.{live_fits}
use knobs.Api.Values.Live.{Run-fits}
use knobs.Api.Values.Serve.{Serves, rollback-Serves, put_values-Serves}
use knobs.Api.Access.{authorize_env, granted}
use knobs.Api.Access.Laws.{authorize_env_hides}
use knobs.Store.{org_id_for_env, member_role}
use knobs.Authz.{at_least, rank}
use knobs.Base.{String_eq}
use knobs.Api.ValuesSample.{rules, first_version, prod, tables, tables-IsSound, access}

rollback-Serves_example :
    Serves tables 0 (handle_rollback tables 7 true (some 0) (some (some 1))) first_version
    × (live_fits rules (handle_rollback tables 7 true (some 0) (some (some 1))).0 0 ≡ false)
unfolding version_by_number find_version lookup
rollback-Serves_example =
    rollback-Serves rules tables 7 0 1 prod (1, first_version) tables-IsSound access refl

put_values-Serves_example :
    Serves tables 0
      (handle_put_values rules tables 7 true (some 0) (some (made (("limit", 8) ∷ []), nil_map)))
      (record first_version { version = 3; schema_version = 2; values = made (("limit", 8) ∷ []) })
unfolding next_version_number max_version lookup
put_values-Serves_example =
    put_values-Serves rules tables 7 0 prod (made (("limit", 8) ∷ [])) nil_map access refl refl refl

tables_fit : (j : ℕ) → live_fits rules tables j ≡ true
unfolding live_fits lookup
tables_fit j = ground (arith, nat_eq_iff 0 j)

Run-fits_example :
    live_fits rules
      (handle_put_values rules tables 7 true (some 0) (some (made (("limit", 8) ∷ []), nil_map))).0
      0
    ≡ true
Run-fits_example =
    Run-fits rules tables _
      (next (stay tables) (saved tables 7 true (some 0) (some (made (("limit", 8) ∷ []), nil_map))))
      tables-IsSound tables_fit 0

-- User 9 is a stranger, user 7 an editor; environment 5 does not exist.
authorize_env_hides_example :
    (authorize_env tables 9 0 "viewer" ≡ authorize_env tables 9 5 "viewer")
    × (authorize_env tables 7 0 "viewer" ≡ granted prod)
unfolding org_id_for_env member_role at_least rank lookup
authorize_env_hides_example =
    authorize_env_hides tables 9 7 0 5 1 "viewer" "editor" prod refl refl refl refl refl
