-- ===== src/Delivery/Tests.antt =====
-- The delivery package at two small snapshots.
use knobs.Base.{ℕ_eq, String_eq, ◌≡◌, refl, true, [], ◌∷◌}
use knobs.Assoc.{nil_map, lookup, insert, delete, copy_into, delete_all}
use knobs.Delivery.Snapshot.{SameSnapshot}
use knobs.Delivery.Sample.{before, now, before-IsSnapshot, now-IsSnapshot}
use knobs.Delivery.Delta.Diff.{diff}
use knobs.Delivery.Delta.{
  compute_delta, apply_delta, diff_values, diff_targeting, apply_field_delta, apply_targeting_delta,
  merged,
}
use knobs.Delivery.Delta.RoundTrip.{apply_delta-compute_delta}

compute_delta_runs : (compute_delta before now).values.remove ≡ "beta" ∷ []
unfolding compute_delta diff_values diff lookup
compute_delta_runs = refl

apply_delta_runs : (apply_delta before (compute_delta before now)).0.targeting ≡ nil_map
unfolding apply_delta compute_delta diff_targeting diff_values diff apply_targeting_delta
    apply_field_delta merged lookup copy_into delete_all insert delete
apply_delta_runs = refl

apply_delta-compute_delta_example :
    SameSnapshot (apply_delta before (compute_delta before now)).0 now
    × ((apply_delta before (compute_delta before now)).1 ≡ true)
apply_delta-compute_delta_example =
    apply_delta-compute_delta before now before-IsSnapshot now-IsSnapshot
