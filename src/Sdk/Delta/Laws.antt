-- ===== src/Sdk/Delta/Laws.antt =====
-- The SDK's reading of a delta that the server has computed.
use knobs.Base.{String_eq, ◌∙◌, ap, refl, HasEq}
use knobs.Assoc.{GoMap, made, entries, SameMap, IsGoMap}
use knobs.Delivery.Snapshot.{Snapshot, SameSnapshot, IsSnapshot}
use knobs.Delivery.Delta.Diff.{diff, diff-set-IsMap}
use knobs.Delivery.Delta.{compute_delta, merged, diff_values, diff_targeting}
use knobs.Delivery.Delta
use knobs.Delivery.Delta.RoundTrip.{after, lookup-merged, after-diff, merged-IsMap}
use knobs.Sdk.Delta.{apply_delta}

module _ {V : Type 0} ⦃e : HasEq V⦄ where
  -- One map: the client's copy only has to read like the server's old one.
  merged_same :
      (mine old new : GoMap V)
      → SameMap mine old
      → IsGoMap mine
      → IsGoMap new
      → SameMap (made (merged (entries mine) (diff old new))) new
  merged_same mine old new same hm hn j =
      lookup-merged j (entries mine) (diff old new) hm (diff-set-IsMap old new)
      ∙ ap (after (diff old new) j) (same j)
      ∙ after-diff j old new hn

module _ {V R : Type 0} ⦃ev : HasEq V⦄ ⦃er : HasEq R⦄ (mine old new : Snapshot V R) where
  -- A client whose snapshot reads like the one that the delta was computed from gets the new one.
  pub apply_delta-compute_delta_same :
      SameSnapshot mine old
      → IsSnapshot mine
      → IsSnapshot new
      → SameSnapshot (apply_delta mine (compute_delta old new)) new
  unfolding apply_delta compute_delta diff_values diff_targeting
  apply_delta-compute_delta_same same hm hn = record {
    version = refl;
    revision = refl;
    schema_hash = refl;
    values = merged_same mine.values old.values new.values same.values hm.values hn.values;
    targeting =
        merged_same mine.targeting old.targeting new.targeting same.targeting hm.targeting
          hn.targeting;
  }

module _ {V R : Type 0} where
  pub apply_delta-IsSnapshot :
      (mine : Snapshot V R) (d : Delta.Delta V R) → IsSnapshot (apply_delta mine d)
  unfolding apply_delta
  apply_delta-IsSnapshot mine d = record {
    values = merged-IsMap (entries mine.values) d.values;
    targeting = merged-IsMap (entries mine.targeting) d.targeting;
  }
