-- ===== src/Delivery/Listener.antt =====
-- internal/delivery/listener.go, what pg_notify is given by internal/api/values_handlers.go and
-- versions_handlers.go, and the loader of internal/app/app.go. `print_id` and `parse_id` are
-- uuid.UUID's String and uuid.Parse.
pub mod RoundTrip
pub mod Loop
use knobs.Base.{
  ℕ, suc, ◌+◌, ◌*◌, ◌-◌, ◌/◌, ◌%◌, String, ℕ_eq, Bool, true, false, Option, none, some, List, [],
  ◌∷◌, ◌++◌, if◌then◌else◌, nat_eq, ltb, leb,
}
use knobs.Base.Text.{Text, between}
use knobs.Assoc.{lookup}
use knobs.Delivery.Snapshot.{Snapshot, build_snapshot}
use knobs.Delivery.Hub.{Hub, publish}
use knobs.Store.{Db, current_version, get_or_init_schema, lock_project_schema}

-- `strings.Cut` at the first colon
unfoldable pub cut_colon : Text → Option (Text × Text)
cut_colon [] = none
cut_colon (c ∷ s) = elim (nat_eq c b':') [
  | true ↦ some ([], s)
  | false ↦ elim (cut_colon s) [ none ↦ none | some parts ↦ some (c ∷ parts.0, parts.1) ]
]

-- The number that decimal digits write, behind others that write `acc`.
unfoldable pub digits_from : ℕ → Text → Option ℕ
digits_from acc [] = some acc
digits_from acc (c ∷ s) = elim (between b'0' b'9' c) [
  | true ↦ digits_from (acc * 10 + (c - b'0')) s
  | false ↦ none
]

abbrev pub below : ℕ → Option ℕ → Bool
below limit none = false
below limit (some n) = ltb n limit

-- Digits, at least one, that write a number below the limit.
abbrev pub is_number : ℕ → Text → Bool
is_number limit [] = false
is_number limit (c ∷ s) = below limit (digits_from 0 (c ∷ s))

-- Whether `strconv.ParseInt(s, 10, 64)` succeeds; the limits are 2 ^ 63 and one more.
unfoldable pub is_int64 : Text → Bool
is_int64 [] = false
is_int64 (c ∷ s) =
    if nat_eq c b'-'
    then is_number 9223372036854775809 s
    else if nat_eq c b'+'
    then is_number 9223372036854775808 s
    else is_number 9223372036854775808 (c ∷ s)

unfoldable pub parse_payload : (Text → Option ℕ) → Text → Option ℕ
parse_payload parse_id payload = elim (cut_colon payload) [
  | none ↦ none
  | some parts ↦ if is_int64 parts.1 then parse_id parts.0 else none
]

-- A number in decimal; `n` steps are enough for `n`.
unfoldable pub digits : ℕ → ℕ → Text
digits ℕ.zero n = (b'0' + n) ∷ []
digits (suc steps) n =
    let more = digits steps (n / 10) ++ (b'0' + n % 10) ∷ [] in
    if ltb n 10 then (b'0' + n) ∷ [] else more

-- `fmt.Sprintf("%s:%d", envID, revision)`
unfoldable pub payload : (ℕ → Text) → ℕ → ℕ → Text
payload print_id env revision = print_id env ++ (b':' ∷ digits revision revision)

module _ {S V R : Type 0} (no_fields : S) (schema_hash : S → String) where
  -- `snapshotLoader`
  unfoldable pub load_snapshot : Db S V R → ℕ → Db S V R × Option (Snapshot V R)
  load_snapshot db env = elim (lookup env db.environments) [
    | none ↦ (db, none)
    | some e ↦ elim (current_version db env) [
      | none ↦ (db, none)
      | some cv ↦
          let ready = get_or_init_schema no_fields db e.project_id in
          elim (lock_project_schema ready e.project_id) [
            | none ↦ (db, none)
            | some cs ↦ (
              ready,
              some (
                  build_snapshot cv.version cv.values cv.targeting (schema_hash cs.definition)
                    e.delivery_revision),
            )
          ]
    ]
  ]

  abbrev pub publish_loaded :
      Hub (Snapshot V R)
      → ℕ
      → Db S V R × Option (Snapshot V R)
      → Db S V R × Option (Hub (Snapshot V R))
  publish_loaded hub env (db, none) = (db, some hub)
  publish_loaded hub env (db, some snap) = (db, publish hub env snap)

  -- One turn of the loop of `listenOnce`; the hub is `none` after a panic.
  unfoldable pub on_notification :
      (Text → Option ℕ)
      → Db S V R
      → Hub (Snapshot V R)
      → Text
      → Db S V R × Option (Hub (Snapshot V R))
  on_notification parse_id db hub text = elim (parse_payload parse_id text) [
    | none ↦ (db, some hub)
    | some env ↦ publish_loaded hub env (load_snapshot db env)
  ]
