-- ===== src/Store/Numbered.antt =====
-- internal/store/versions.go: how the numbers of the versions relate to their rows.
use knobs.Base.{
  ◌≡◌, refl, ℕ, ◌<◌, ℕ_eq, none, some, [], ◌∷◌, if◌then◌else◌, nat_eq, nat_eq_iff, ◌&&◌, or_else,
  arith,
}
use knobs.Assoc.{Assoc, lookup, insert, IsMap}
use knobs.Store.{ConfigVersion, max_version, find_version}

module _ {V R : Type 0} where
  -- No two rows have the same environment and number.
  abbrev pub IsNumbered : Assoc ℕ (ConfigVersion V R) → Type 0
  IsNumbered [] = Unit
  IsNumbered ((id, v) ∷ versions) =
      (find_version v.environment_id v.version versions ≡ none) × IsNumbered versions

  -- No row has a number above the maximum.
  pub find_version_above :
      (env number : ℕ) (versions : Assoc ℕ (ConfigVersion V R))
      → max_version env versions < number
      → find_version env number versions ≡ none
  unfolding find_version max_version
  find_version_above env number [] h = refl
  find_version_above env number ((id, v) ∷ versions) h =
      ground (arith, find_version_above env number versions)

  pub find_version-insert :
      (env number id : ℕ) (v : ConfigVersion V R) (versions : Assoc ℕ (ConfigVersion V R))
      → lookup id versions ≡ none
      → find_version env number (insert id v versions)
        ≡ or_else
            (find_version env number versions)
            (if nat_eq v.environment_id env && nat_eq v.version number then some (id, v) else none)
  unfolding find_version insert lookup
  find_version-insert env number id v [] h = ground arith
  find_version-insert env number id v ((j, w) ∷ versions) h =
      ground (arith, find_version-insert env number id v versions, nat_eq_iff j id)

  pub insert-IsNumbered :
      (id : ℕ) (v : ConfigVersion V R) (versions : Assoc ℕ (ConfigVersion V R))
      → lookup id versions ≡ none
      → find_version v.environment_id v.version versions ≡ none
      → IsNumbered versions
      → IsNumbered (insert id v versions)
  unfolding find_version insert lookup
  insert-IsNumbered id v [] fresh new h = (refl, tt)
  insert-IsNumbered id v ((j, w) ∷ versions) fresh new h = ground (
    arith,
    insert-IsNumbered id v versions,
    find_version-insert w.environment_id w.version id v versions,
    nat_eq_iff j id,
    nat_eq_iff v.environment_id w.environment_id,
    nat_eq_iff v.version w.version,
    nat_eq_iff w.environment_id v.environment_id,
    nat_eq_iff w.version v.version,
  )

  -- A row that is found has the number asked for.
  pub find_version_found :
      (env number : ℕ) (versions : Assoc ℕ (ConfigVersion V R)) (row : ℕ × ConfigVersion V R)
      → find_version env number versions ≡ some row
      → (row.1.environment_id ≡ env) × (row.1.version ≡ number)
  unfolding find_version
  find_version_found env number [] row h = ground arith
  find_version_found env number ((id, v) ∷ versions) row h = ground (
    arith,
    find_version_found env number versions row,
    nat_eq_iff v.environment_id env,
    nat_eq_iff v.version number,
  )

  -- A row that is found is the one that its id leads to.
  pub find_version_stored :
      (env number : ℕ) (versions : Assoc ℕ (ConfigVersion V R)) (row : ℕ × ConfigVersion V R)
      → IsMap versions
      → find_version env number versions ≡ some row
      → lookup row.0 versions ≡ some row.1
  unfolding find_version lookup
  find_version_stored env number [] row m h = ground arith
  find_version_stored env number ((id, v) ∷ versions) row m h =
      ground (arith, find_version_stored env number versions row, nat_eq_iff id row.0)
