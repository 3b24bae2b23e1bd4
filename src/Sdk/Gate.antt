-- ===== src/Sdk/Gate.antt =====
-- The revision gate of `applySnapshot`, the drift warning and the listeners.
use native.Mathlib.Decide.{dec_lt}
use mathlib.Core.List.{append-nil}
use knobs.Base.{
  max, ◌⊎◌, ℕ, ◌≤◌, ◌<◌, String, String_eq, ℕ_eq, ◌≡◌, ◌≢◌, List, [], ◌∷◌, ◌++◌, if◌then◌else◌, leb,
  arith, refl, sym, ◌∙◌, Bool, true, false, ◌&&◌, Bool-cases, Option, or_else, le→leb, lt→leb, ◌==◌,
  some, none, inl, inr, ap,
}
use knobs.Assoc.{
  Assoc, GoMap, IsMap, IsGoMap, get, entries, or_made, get-or_made, or_made-IsGoMap, lookup, insert,
  lookup-insert, lookup-delete, lookup-copy_into,
}
use knobs.Delivery.Snapshot.{Snapshot}
use knobs.Sdk.Client.{
  Client, Effect, warned, called, launched, cancelled, Fetched, failed, missing, fetched,
  normalized, check_schema_drift, calls, notify_listeners, apply_snapshot, on_change, unsubscribe,
  close, ready, start_background, set_snapshot,
}

or_else-none : {A : Type 0} (o : Option A) → or_else o none ≡ o
or_else-none none = refl
or_else-none (some a) = refl

never_or_other :
    (once : Bool) (last hash : String)
    → (once && last == hash) ≡ false
    → (once ≡ false) ⊎ (last ≢ hash)
never_or_other false last hash h = inl refl
never_or_other true last hash h = inr (ground (arith, h, String_eq.equal_iff last hash))

module _ {V : Type 0} where
  -- Each listener in turn is called once, with a map that reads like the values.
  abbrev pub Hears : GoMap V → Assoc ℕ ℕ → List (Effect V) → Type 0
  Hears values [] [] = Unit
  Hears values [] (effect ∷ effects) = ⊥
  Hears values ((id, callback) ∷ listeners) [] = ⊥
  Hears values ((id, callback) ∷ listeners) (warned expected actual ∷ effects) = ⊥
  Hears values ((id, callback) ∷ listeners) (launched ∷ effects) = ⊥
  Hears values ((id, callback) ∷ listeners) (cancelled ∷ effects) = ⊥
  Hears values ((id, callback) ∷ listeners) (called which copy ∷ effects) =
      (which ≡ callback)
      × ((k : String) → lookup k copy ≡ get k values)
      × Hears values listeners effects

  calls-Hears :
      (values : GoMap V) (m : Assoc String V) (listeners : Assoc ℕ ℕ)
      → IsMap m
      → ((k : String) → lookup k m ≡ get k values)
      → Hears values listeners (calls listeners m)
  unfolding calls lookup
  calls-Hears values m [] h same = tt
  calls-Hears values m ((id, callback) ∷ listeners) h same = (
    refl,
    λ k. lookup-copy_into k m [] h ∙ (or_else-none (lookup k m) ∙ same k),
    calls-Hears values m listeners h same,
  )

module _ {V R : Type 0} where
  pub check_schema_drift_keeps :
      (c : Client V R) (s : Snapshot V R)
      → ((check_schema_drift c s).current ≡ c.current)
        × ((check_schema_drift c s).listeners ≡ c.listeners)
  unfolding check_schema_drift
  check_schema_drift_keeps c s = ground arith

  -- What the client holds after a live update.
  pub current-apply_snapshot :
      (c : Client V R) (s : Snapshot V R)
      → (apply_snapshot c s).current
        ≡ (if leb s.revision c.current.revision then c.current else normalized s)
  unfolding apply_snapshot notify_listeners
  current-apply_snapshot c s =
      ground (arith, check_schema_drift_keeps (record c { current = normalized s }) (normalized s))

  -- The revision that the client holds is the greatest that it has been given.
  pub revision-apply_snapshot :
      (c : Client V R) (s : Snapshot V R)
      → (apply_snapshot c s).current.revision ≡ max c.current.revision s.revision
  revision-apply_snapshot c s = rw (current-apply_snapshot c s) (ground arith)

  -- What is logged of a snapshot with a hash, and what is remembered then. Nothing, if no hash is
  -- expected, if it is the one expected, or if it is the last one that was warned of; and otherwise one
  -- warning, with both hashes.
  abbrev pub IsWarning : Client V R → Client V R → String → List (Effect V) → Type 0
  IsWarning c after hash effects =
      ((c.expected_schema_hash ≡ "")
          ⊎ (hash ≡ c.expected_schema_hash)
          ⊎ (c.warned_once ≡ true) × (c.last_warned_hash ≡ hash))
        × (effects ≡ [])
        × (after.warned_once ≡ c.warned_once)
        × (after.last_warned_hash ≡ c.last_warned_hash)
      ⊎ ((c.expected_schema_hash ≢ "")
          × (hash ≢ c.expected_schema_hash)
          × ((c.warned_once ≡ false) ⊎ (c.last_warned_hash ≢ hash)))
        × (effects ≡ warned c.expected_schema_hash hash ∷ [])
        × (after.warned_once ≡ true)
        × (after.last_warned_hash ≡ hash)

  check_schema_drift_frame :
      (c : Client V R) (s : Snapshot V R) (heard : List (Effect V))
      → (let after = check_schema_drift c s in
          record after { log = after.log ++ heard } ≡ record c {
            current = after.current;
            log = after.log ++ heard;
            warned_once = after.warned_once;
            last_warned_hash = after.last_warned_hash;
          })
  unfolding check_schema_drift
  check_schema_drift_frame c s heard = ground arith

  quiet :
      (c : Client V R) (s : Snapshot V R)
      → check_schema_drift c s ≡ c
      → (c.expected_schema_hash ≡ "")
        ⊎ (s.schema_hash ≡ c.expected_schema_hash)
        ⊎ (c.warned_once ≡ true) × (c.last_warned_hash ≡ s.schema_hash)
      → (effects : List (Effect V)) × ((check_schema_drift c s).log ≡ c.log ++ effects)
        × IsWarning c (check_schema_drift c s) s.schema_hash effects
  quiet c s same silent = rw same ([], sym (append-nil c.log), inl (silent, refl, refl, refl))

  pub check_schema_drift_warns :
      (c : Client V R) (s : Snapshot V R)
      → (effects : List (Effect V)) × ((check_schema_drift c s).log ≡ c.log ++ effects)
        × IsWarning c (check_schema_drift c s) s.schema_hash effects
  unfolding check_schema_drift
  check_schema_drift_warns c s = elim (Bool-cases (c.expected_schema_hash == "")) [
    | inl unset ↦
        quiet c s (rw (check_schema_drift, unset) refl)
          (inl ((String_eq.equal_iff c.expected_schema_hash "").0 unset))
    | inr set ↦ elim (Bool-cases (s.schema_hash == c.expected_schema_hash)) [
      | inl expected ↦
          quiet c s (rw (check_schema_drift, set, expected) refl)
            (inr (inl ((String_eq.equal_iff s.schema_hash c.expected_schema_hash).0 expected)))
      | inr drifted ↦ elim (Bool-cases (c.warned_once && c.last_warned_hash == s.schema_hash)) [
        | inl known ↦ quiet c s (rw (check_schema_drift, set, drifted, known) refl) (
            inr (
              inr (
                ground (arith, known),
                (String_eq.equal_iff c.last_warned_hash s.schema_hash).0 (ground (arith, known)),
              )))
        | inr new ↦
            rw (check_schema_drift, set, drifted, new)
              (
                warned c.expected_schema_hash s.schema_hash ∷ [],
                refl,
                inr (
                  (
                    ground (arith, set, String_eq.equal_iff c.expected_schema_hash ""),
                    ground
                        (arith, drifted, String_eq.equal_iff s.schema_hash c.expected_schema_hash),
                    never_or_other c.warned_once c.last_warned_hash s.schema_hash new,
                  ),
                  refl,
                  refl,
                  refl,
                ),
              )
      ]
    ]
  ]

  -- A stale or replayed snapshot changes nothing at all. One with a newer revision, whatever its
  -- version and if its values have each key once, becomes what the client holds, its nil maps made
  -- empty. Then a warning is logged, if a hash is expected, the snapshot's is another one, and it is
  -- not the one that was warned of last; and after that each listener in turn is called once, with a
  -- map that reads like the new values. The hash warned of is remembered, and nothing else changes.
  pub apply_snapshot_gate :
      (c : Client V R) (s : Snapshot V R)
      → IsGoMap s.values
      → (let after = apply_snapshot c s in
          (s.revision ≤ c.current.revision) × (after ≡ c)
          ⊎ (c.current.revision < s.revision)
            × (after.current ≡ normalized s)
            × ((warning : List (Effect V)) × (heard : List (Effect V)) × (after.log
                  ≡ c.log ++ warning ++ heard)
                × IsWarning c after s.schema_hash warning
                × Hears s.values c.listeners heard)
            × (after ≡ record c {
              current = after.current;
              log = after.log;
              warned_once = after.warned_once;
              last_warned_hash = after.last_warned_hash;
            }))
  unfolding apply_snapshot notify_listeners
  apply_snapshot_gate c s map = elim (dec_lt c.current.revision s.revision) [
    | yes newer ↦
        let swapped : Client V R = record c { current = normalized s } in
        let drifted = check_schema_drift swapped (normalized s) in
        let heard = calls drifted.listeners (entries (or_made s.values)) in
        let kept = check_schema_drift_keeps swapped (normalized s) in
        let (warning, logged, right) = check_schema_drift_warns swapped (normalized s) in
        rw (lt→leb s.revision c.current.revision newer) (
          inr (
            newer,
            kept.0,
            (
              warning,
              heard,
              ap (λ (l : List (Effect V)). l ++ heard) logged,
              right,
              rw kept.1 (
                  calls-Hears s.values (entries (or_made s.values)) c.listeners
                    (or_made-IsGoMap s.values map) (λ k. get-or_made k s.values)),
            ),
            check_schema_drift_frame swapped (normalized s) heard,
          ))
    | no stale ↦ inl (omega arith, rw (le→leb s.revision c.current.revision (omega arith)))
  ]

  -- The same mismatch is not warned of twice in a row, and two updates that differ in all but the
  -- hash give the same warnings.
  pub check_schema_drift_once :
      (c : Client V R) (s t : Snapshot V R)
      → s.schema_hash ≡ t.schema_hash
      → check_schema_drift (check_schema_drift c s) t ≡ check_schema_drift c s
  unfolding check_schema_drift
  check_schema_drift_once c s t e = ground (
    arith,
    String_eq.equal_iff s.schema_hash t.schema_hash,
    String_eq.equal_iff s.schema_hash s.schema_hash,
  )

  -- Only the last hash is remembered: one that comes back after another is warned of again.
  pub check_schema_drift_again :
      (c : Client V R) (s t : Snapshot V R)
      → c.expected_schema_hash ≢ ""
      → s.schema_hash ≢ c.expected_schema_hash
      → t.schema_hash ≢ c.expected_schema_hash
      → s.schema_hash ≢ t.schema_hash
      → (check_schema_drift (check_schema_drift (check_schema_drift c s) t) s).log
        ≡ ((check_schema_drift c s).log ++ warned c.expected_schema_hash t.schema_hash ∷ [])
          ++ warned c.expected_schema_hash s.schema_hash ∷ []
  unfolding check_schema_drift
  check_schema_drift_again c s t set sx tx st = ground (
    arith,
    String_eq.equal_iff c.expected_schema_hash "",
    String_eq.equal_iff s.schema_hash c.expected_schema_hash,
    String_eq.equal_iff t.schema_hash c.expected_schema_hash,
    String_eq.equal_iff s.schema_hash t.schema_hash,
    String_eq.equal_iff t.schema_hash s.schema_hash,
    String_eq.equal_iff c.last_warned_hash s.schema_hash,
    String_eq.equal_iff c.last_warned_hash t.schema_hash,
  )

  -- A new listener is heard once, the others stay, and unsubscribing takes away that one alone.
  pub on_change-lookup :
      (c : Client V R) (callback j : ℕ)
      → let (c', id) = on_change c callback in
        (lookup j c'.listeners ≡ (if id == j then some callback else lookup j c.listeners))
        × (lookup j (unsubscribe c' id).listeners
            ≡ (if id == j then none else lookup j c.listeners))
  unfolding on_change unsubscribe
  on_change-lookup c callback j = (
    lookup-insert c.next_listener_id j callback c.listeners,
    ground (
      arith,
      lookup-delete c.next_listener_id j (insert c.next_listener_id callback c.listeners),
      lookup-insert c.next_listener_id j callback c.listeners,
    ),
  )

  -- `Close` takes effect once, and `Ready` on a closed client starts no background work.
  pub close_final :
      (c : Client V R) (f : Fetched V R)
      → (close (close c) ≡ close c) × ((ready (close c) f).0.started ≡ c.started)
  unfolding close ready start_background set_snapshot check_schema_drift
  close_final c failed = ground arith
  close_final c missing = ground arith
  close_final c (fetched s) = ground arith
