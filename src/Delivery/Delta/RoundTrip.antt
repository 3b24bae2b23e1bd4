-- ===== src/Delivery/Delta/RoundTrip.antt =====
-- Applying a computed delta gives the new snapshot.
use knobs.Base.{
  String, ◌≡◌, refl, ◌∙◌, true, Option, none, [], ◌∷◌, HasEq, if◌then◌else◌, or_else, contains,
  arith, inl, inr, String_eq, Option-cases, nat_eq_iff,
}
use knobs.Assoc.{
  Assoc, GoMap, nil_map, made, entries, get, IsMap, IsGoMap, lookup, copy_into, lookup-copy_into,
  lookup-delete_all, delete_all-IsMap, copy_into-IsMap,
}
use knobs.Delivery.Delta.Order.{IsSorted}
use knobs.Delivery.Snapshot.{Snapshot, SameSnapshot, IsSnapshot}
use knobs.Delivery.Delta.Diff.{
  FieldDelta, diff, get-diff-set, contains-diff-remove, diff-set-IsMap, diff-remove-IsSorted,
}
use knobs.Delivery.Delta.{
  merged, apply_field_delta, apply_targeting_delta, diff_values, diff_targeting, compute_delta,
  apply_delta, is_empty,
}

module _ {V : Type 0} where
  -- What a delta leaves at a key.
  abbrev pub after : FieldDelta V → String → Option V → Option V
  after d j old = if contains j d.remove then none else or_else (get j d.set) old

  pub lookup-merged :
      (j : String) (base : Assoc String V) (d : FieldDelta V)
      → IsMap base
      → IsGoMap d.set
      → lookup j (merged base d) ≡ after d j (lookup j base)
  unfolding merged lookup
  lookup-merged j base d hb hd = ground (
    arith,
    lookup-delete_all j d.remove (copy_into (entries d.set) (copy_into base [])),
    lookup-copy_into j (entries d.set) (copy_into base []) hd,
    lookup-copy_into j base [] hb,
  )

  pub merged-IsMap : (base : Assoc String V) (d : FieldDelta V) → IsMap (merged base d)
  unfolding merged
  merged-IsMap base d =
      delete_all-IsMap d.remove (copy_into (entries d.set) (copy_into base []))
        (copy_into-IsMap (entries d.set) (copy_into base []) (copy_into-IsMap base [] tt))

  pub get-apply_field_delta :
      (j : String) (base : GoMap V) (d : FieldDelta V)
      → IsGoMap base
      → IsGoMap d.set
      → get j (apply_field_delta base d) ≡ after d j (get j base)
  unfolding apply_field_delta
  get-apply_field_delta j base d hb hd = lookup-merged j (entries base) d hb hd

  -- An empty result and nil read alike.
  get-nil_if_empty :
      (j : String) (m : Assoc String V)
      → get j (if is_empty m then nil_map else made m) ≡ lookup j m
  unfolding lookup
  get-nil_if_empty j [] = refl
  get-nil_if_empty j (e ∷ m) = refl

  lookup-is_empty : (j : String) (m : Assoc String V) → is_empty m ≡ true → lookup j m ≡ none
  unfolding lookup
  lookup-is_empty j [] h = refl
  lookup-is_empty j (e ∷ m) h = cc

  pub get-apply_targeting_delta :
      (j : String) (base : GoMap V) (d : FieldDelta V)
      → IsGoMap base
      → IsGoMap d.set
      → get j (apply_targeting_delta base d) ≡ after d j (get j base)
  unfolding apply_targeting_delta
  get-apply_targeting_delta j base d hb hd = ground (
    arith,
    get-nil_if_empty j (merged (entries base) d),
    lookup-merged j (entries base) d hb hd,
    lookup-is_empty j (entries base),
    lookup-is_empty j (entries d.set),
    lookup-is_empty j [],
  )

module _ {V : Type 0} ⦃e : HasEq V⦄ where
  pub after-diff :
      (j : String) (old new : GoMap V)
      → IsGoMap new
      → after (diff old new) j (get j old) ≡ get j new
  after-diff j old new h = elim (Option-cases (get j new)) [
    | inl gone ↦ ground (arith, get-diff-set j old new h, contains-diff-remove j old new)
    | inr (nv, there) ↦ elim (Option-cases (get j old)) [
      | inl fresh ↦ ground (arith, get-diff-set j old new h, contains-diff-remove j old new)
      | inr (ov, was) ↦
          ground
            (arith, get-diff-set j old new h, contains-diff-remove j old new, e.equal_iff ov nv)
    ]
  ]

module _ {V R : Type 0} ⦃ev : HasEq V⦄ ⦃er : HasEq R⦄ (old new : Snapshot V R) where
  -- Applied to the snapshot that it was computed from, a delta is accepted and gives the new
  -- snapshot: the version, the revision, the hash, and every key of both maps.
  pub apply_delta-compute_delta :
      IsSnapshot old
      → IsSnapshot new
      → (SameSnapshot (apply_delta old (compute_delta old new)).0 new)
        × ((apply_delta old (compute_delta old new)).1 ≡ true)
  unfolding apply_delta compute_delta diff_values diff_targeting
  apply_delta-compute_delta ho hn = rw ((nat_eq_iff old.revision old.revision).1 refl) (
    record {
      version = refl;
      revision = refl;
      schema_hash = refl;
      values = λ j.
          get-apply_field_delta j old.values (diff old.values new.values) ho.values
            (diff-set-IsMap old.values new.values)
          ∙ after-diff j old.values new.values hn.values;
      targeting = λ j.
          get-apply_targeting_delta j old.targeting (diff old.targeting new.targeting) ho.targeting
            (diff-set-IsMap old.targeting new.targeting)
          ∙ after-diff j old.targeting new.targeting hn.targeting;
    },
    refl,
  )

  -- The removed keys of a delta come sorted.
  pub compute_delta-IsSorted :
      IsSorted (compute_delta old new).values.remove
      × IsSorted (compute_delta old new).targeting.remove
  unfolding compute_delta diff_values diff_targeting
  compute_delta-IsSorted =
      (diff-remove-IsSorted old.values new.values, diff-remove-IsSorted old.targeting new.targeting)
