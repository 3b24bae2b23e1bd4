-- ===== src/Store/ApiKeys.antt =====
-- internal/store/apikeys.go: the rows of API keys. Times are in seconds.
use knobs.Base.{
  ℕ, suc, ◌+◌, String, String_eq, ℕ_eq, Bool, true, Option, none, some, [], ◌∷◌, if◌then◌else◌,
  ◌==◌, ltb, nat_eq,
}
use knobs.Assoc.{Assoc, lookup, insert, delete}
use knobs.Store.{Db, ApiKey}

-- `WHERE hash = $1`, over the rows
unfoldable pub find_hash : String → Assoc ℕ ApiKey → Option (ℕ × ApiKey)
find_hash hash [] = none
find_hash hash ((id, k) ∷ keys) = if k.hash == hash then some (id, k) else find_hash hash keys

-- `last_used_at IS NULL OR last_used_at < now() - interval '60 seconds'`
abbrev pub is_stale : ℕ → Option ℕ → Bool
is_stale now none = true
is_stale now (some used) = ltb (used + 60) now

module _ {S V R : Type 0} where
  -- A hash that a row has already is refused.
  unfoldable pub create_api_key : Db S V R → ℕ → ℕ → String → String → Option (Db S V R × ℕ)
  create_api_key db env project name hash = elim (find_hash hash db.api_keys) [
    | some row ↦ none
    | none ↦ some (
      record db {
        api_keys =
            insert db.next_id
              (record {
                environment_id = env;
                project_id = project;
                name = name;
                hash = hash;
                last_used_at = none;
              })
              db.api_keys;
        next_id = suc db.next_id;
      },
      db.next_id,
    )
  ]

  unfoldable pub api_key_by_hash : Db S V R → String → Option (ℕ × ApiKey)
  api_key_by_hash db hash = find_hash hash db.api_keys

  unfoldable pub revoke_api_key : Db S V R → ℕ → ℕ → Option (Db S V R)
  revoke_api_key db id env = elim (lookup id db.api_keys) [
    | none ↦ none
    | some k ↦
        if nat_eq k.environment_id env
        then some (record db { api_keys = delete id db.api_keys })
        else none
  ]

  unfoldable pub touch_api_key : Db S V R → ℕ → ℕ → Db S V R
  touch_api_key db now id = elim (lookup id db.api_keys) [
    | none ↦ db
    | some k ↦
        if is_stale now k.last_used_at
        then record db { api_keys = insert id (record k { last_used_at = some now }) db.api_keys }
        else db
  ]
