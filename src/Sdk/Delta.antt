-- ===== src/Sdk/Delta.antt =====
-- sdk/go/delta.go. The SDK's `Snapshot`, `Delta` and `FieldDelta` have the fields of the server's.
pub mod Laws
use knobs.Base.{String_eq}
use knobs.Assoc.{made, entries}
use knobs.Delivery.Snapshot.{Snapshot}
use knobs.Delivery.Delta.{Delta, merged}

module _ {V R : Type 0} where
  unfoldable pub apply_delta : Snapshot V R → Delta V R → Snapshot V R
  apply_delta current d = record {
    version = d.version;
    revision = d.revision;
    schema_hash = d.schema_hash;
    values = made (merged (entries current.values) d.values);
    targeting = made (merged (entries current.targeting) d.targeting);
  }
