-- ===== src/Delivery/Delta.antt =====
-- internal/delivery/delta.go: `ComputeDelta` and `ApplyDelta`.
pub mod Order
pub mod Diff
pub mod RoundTrip
use knobs.Base.{
  ℕ, String, Bool, true, false, List, [], ◌∷◌, HasEq, if◌then◌else◌, nat_eq, ◌&&◌, String_eq,
}
use knobs.Assoc.{Assoc, GoMap, nil_map, made, entries, copy_into, delete_all}
use knobs.Delivery.Snapshot.{Snapshot}
use Diff.{diff, FieldDelta}

pub record Delta (V R : Type 0) : Type 0 where
  pub kind : String
  pub version : ℕ
  pub revision : ℕ
  pub from : ℕ
  pub schema_hash : String
  pub values : FieldDelta V
  pub targeting : FieldDelta R

-- `len(m) == 0`
abbrev pub is_empty : {A : Type 0} → List A → Bool
is_empty [] = true
is_empty (x ∷ xs) = false

module _ {V : Type 0} ⦃e : HasEq V⦄ where
  unfoldable pub diff_values : GoMap V → GoMap V → FieldDelta V
  diff_values old new = diff old new

  unfoldable pub diff_targeting : GoMap V → GoMap V → FieldDelta V
  diff_targeting old new = diff old new

module _ {V : Type 0} where
  -- A copy of `base` with the delta's entries stored in it and its removed keys deleted.
  unfoldable pub merged : Assoc String V → FieldDelta V → Assoc String V
  merged base d = delete_all d.remove (copy_into (entries d.set) (copy_into base []))

  unfoldable pub apply_field_delta : GoMap V → FieldDelta V → GoMap V
  apply_field_delta base d = made (merged (entries base) d)

  unfoldable pub apply_targeting_delta : GoMap V → FieldDelta V → GoMap V
  apply_targeting_delta base d =
      if is_empty (entries base) && is_empty (entries d.set)
      then nil_map
      else (let result = merged (entries base) d in
          if is_empty result then nil_map else made result)

module _ {V R : Type 0} where
  unfoldable pub compute_delta :
      ⦃ev : HasEq V⦄ ⦃er : HasEq R⦄ → Snapshot V R → Snapshot V R → Delta V R
  compute_delta old new = record {
    kind = "delta";
    version = new.version;
    revision = new.revision;
    from = old.revision;
    schema_hash = new.schema_hash;
    values = diff_values old.values new.values;
    targeting = diff_targeting old.targeting new.targeting;
  }

  unfoldable pub apply_delta : Snapshot V R → Delta V R → Snapshot V R × Bool
  apply_delta base d =
      if nat_eq d.from base.revision
      then (
        record {
          version = d.version;
          revision = d.revision;
          schema_hash = d.schema_hash;
          values = apply_field_delta base.values d.values;
          targeting = apply_targeting_delta base.targeting d.targeting;
        },
        true,
      )
      else (base, false)
