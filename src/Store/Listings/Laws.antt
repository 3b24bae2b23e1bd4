-- ===== src/Store/Listings/Laws.antt =====
-- internal/store/versions.go: the listing of an environment's versions.
use knobs.Base.{
  ◌≡◌, refl, ap, sym, ◌∙◌, ℕ, ◌<◌, String_eq, ℕ_eq, Option, none, some, List, [], ◌∷◌,
  if◌then◌else◌, nat_eq, nat_eq_iff, All, arith, Bool-cases, inl, inr,
}
use knobs.Assoc.{Assoc, lookup}
use knobs.Store.{Db, Environment, ConfigVersion, find_version, version_by_number}
use knobs.Store.Laws.{IsSound}
use knobs.Store.Numbered.{IsNumbered}
use knobs.Store.Listings.{VersionMeta, newer, meta_of, metas_of, place, order_by, list_versions}

-- The entry with a number.
unfoldable pub find_meta : ℕ → List VersionMeta → Option VersionMeta
find_meta number [] = none
find_meta number (m ∷ metas) = if nat_eq m.version number then some m else find_meta number metas

-- The numbers fall from entry to entry.
abbrev pub IsFalling : List VersionMeta → Type 0
IsFalling [] = Unit
IsFalling (m ∷ metas) = All (λ (k : VersionMeta). k.version < m.version) metas × IsFalling metas

find_meta-place :
    (number : ℕ) (m : VersionMeta) (metas : List VersionMeta)
    → find_meta number (place newer m metas)
      ≡ (if nat_eq m.version number then some m else find_meta number metas)
unfolding find_meta place
find_meta-place number m [] = refl
find_meta-place number m (k ∷ metas) = ground (arith, find_meta-place number m metas)

find_meta-order_by :
    (number : ℕ) (metas : List VersionMeta)
    → find_meta number (order_by newer metas) ≡ find_meta number metas
unfolding find_meta order_by
find_meta-order_by number [] = refl
find_meta-order_by number (m ∷ metas) =
    ground (arith, find_meta-place number m (order_by newer metas), find_meta-order_by number metas)

All-below :
    (low high : ℕ) (metas : List VersionMeta)
    → low < high
    → All (λ (k : VersionMeta). k.version < low) metas
    → All (λ (k : VersionMeta). k.version < high) metas
All-below low high [] lt h = tt
All-below low high (k ∷ metas) lt h = ground (arith, All-below low high metas lt h.1)

All-place :
    (high : ℕ) (m : VersionMeta) (metas : List VersionMeta)
    → m.version < high
    → All (λ (k : VersionMeta). k.version < high) metas
    → All (λ (k : VersionMeta). k.version < high) (place newer m metas)
unfolding place
All-place high m [] lt h = (lt, tt)
All-place high m (k ∷ metas) lt h = ground (arith, All-place high m metas lt h.1)

place-IsFalling :
    (m : VersionMeta) (metas : List VersionMeta)
    → find_meta m.version metas ≡ none
    → IsFalling metas
    → IsFalling (place newer m metas)
unfolding place find_meta
place-IsFalling m [] free h = (tt, tt)
place-IsFalling m (k ∷ metas) free h = ground (
  arith,
  place-IsFalling m metas,
  All-below k.version m.version metas,
  All-place k.version m metas,
)

module _ {V R : Type 0} where
  -- What a row is listed as.
  abbrev pub listed : ℕ → Option (ℕ × ConfigVersion V R) → Option VersionMeta
  listed current none = none
  listed current (some row) = some (meta_of current row)

  find_meta-metas_of :
      (number env current : ℕ) (versions : Assoc ℕ (ConfigVersion V R))
      → find_meta number (metas_of env current versions)
        ≡ listed current (find_version env number versions)
  unfolding find_meta metas_of find_version
  find_meta-metas_of number env current [] = refl
  find_meta-metas_of number env current ((id, v) ∷ versions) =
      ground (arith, find_meta-metas_of number env current versions)

  metas_of-IsFalling :
      (env current : ℕ) (versions : Assoc ℕ (ConfigVersion V R))
      → IsNumbered versions
      → IsFalling (order_by newer (metas_of env current versions))
  unfolding metas_of order_by
  metas_of-IsFalling env current [] h = tt
  metas_of-IsFalling env current ((id, v) ∷ versions) (free, h) =
      let rest = metas_of-IsFalling env current versions h in
      elim (Bool-cases (nat_eq v.environment_id env)) [
        | inr other ↦ rw (other, metas_of) rest
        | inl own ↦
            rw (own, metas_of)
              (place-IsFalling (meta_of current (id, v))
                (order_by newer (metas_of env current versions))
                (find_meta-order_by v.version (metas_of env current versions)
                  ∙ (find_meta-metas_of v.version env current versions
                      ∙ ap (listed current) (
                          ap (λ j. find_version j v.version versions)
                            (sym ((nat_eq_iff v.environment_id env).0 own))
                          ∙ free)))
                rest)
      ]

module _ {S V R : Type 0} where
  -- The listing of an environment that points at a version: the numbers fall, and each number is
  -- listed as the row that has it.
  pub list_versions_exact :
      (db : Db S V R) (env id : ℕ) (e : Environment)
      → IsSound db
      → lookup env db.environments ≡ some e
      → e.current_version_id ≡ some id
      → (metas : List VersionMeta) × (list_versions db env ≡ some metas)
        × IsFalling metas
        × ((number : ℕ) → find_meta number metas ≡ listed id (version_by_number db env number))
  unfolding list_versions version_by_number
  list_versions_exact db env id e sound found current = (
    order_by newer (metas_of env id db.versions),
    rw (found, list_versions, current) refl,
    metas_of-IsFalling env id db.versions sound.is_numbered,
    λ number.
        find_meta-order_by number (metas_of env id db.versions)
        ∙ find_meta-metas_of number env id db.versions,
  )
