-- ===== src/Delivery/Snapshot.antt =====
-- internal/delivery/snapshot.go. The values of a configuration are of any type `V`, and the rule
-- list of a key of any type `R`: delivery never looks into them except by `reflect.DeepEqual`.
use knobs.Base.{ℕ, String, ◌≡◌, refl, sym, ◌∙◌}
use knobs.Assoc.{GoMap, SameMap, IsGoMap, or_made}

-- Versions and revisions are counters of the database, which count up from 0 and do not wrap.
pub record Snapshot (V R : Type 0) : Type 0 where
  pub version : ℕ
  pub revision : ℕ
  pub schema_hash : String
  pub values : GoMap V
  pub targeting : GoMap R

-- The same snapshot to every reader.
pub record SameSnapshot {V R : Type 0} (s t : Snapshot V R) : Type 0 where
  pub version : s.version ≡ t.version
  pub revision : s.revision ≡ t.revision
  pub schema_hash : s.schema_hash ≡ t.schema_hash
  pub values : SameMap s.values t.values
  pub targeting : SameMap s.targeting t.targeting

-- Both maps have each key once.
pub record IsSnapshot {V R : Type 0} (s : Snapshot V R) : Type 0 where
  pub values : IsGoMap s.values
  pub targeting : IsGoMap s.targeting

module _ {V R : Type 0} where
  pub SameSnapshot-refl : (s : Snapshot V R) → SameSnapshot s s
  SameSnapshot-refl s = record {
    version = refl;
    revision = refl;
    schema_hash = refl;
    values = λ k. refl;
    targeting = λ k. refl;
  }

  pub SameSnapshot-trans :
      {s t u : Snapshot V R} → SameSnapshot s t → SameSnapshot t u → SameSnapshot s u
  SameSnapshot-trans p q = record {
    version = p.version ∙ q.version;
    revision = p.revision ∙ q.revision;
    schema_hash = p.schema_hash ∙ q.schema_hash;
    values = λ k. p.values k ∙ q.values k;
    targeting = λ k. p.targeting k ∙ q.targeting k;
  }

  pub SameSnapshot-sym : {s t : Snapshot V R} → SameSnapshot s t → SameSnapshot t s
  SameSnapshot-sym p = record {
    version = sym p.version;
    revision = sym p.revision;
    schema_hash = sym p.schema_hash;
    values = λ k. sym (p.values k);
    targeting = λ k. sym (p.targeting k);
  }

  -- `current` is given by its fields, and the schema by its hash.
  unfoldable pub build_snapshot : ℕ → GoMap V → GoMap R → String → ℕ → Snapshot V R
  build_snapshot version values targeting schema_hash revision = record {
    version = version;
    revision = revision;
    schema_hash = schema_hash;
    values = or_made values;
    targeting = targeting;
  }
