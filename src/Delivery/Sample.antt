-- ===== src/Delivery/Sample.antt =====
-- Two small snapshots for the tests: a configuration, and one that a rollback put in its place.
use knobs.Base.{ℕ, ℕ_eq, String_eq, refl, [], ◌∷◌, if◌then◌else◌, nat_eq}
use knobs.Assoc.{nil_map, made, lookup}
use knobs.Delivery.Snapshot.{Snapshot, IsSnapshot}

abbrev pub before : Snapshot ℕ ℕ
before = record {
  version = 7;
  revision = 7;
  schema_hash = "h";
  values = made (("retries", 3) ∷ ("timeout", 30) ∷ ("beta", 1) ∷ []);
  targeting = made (("beta", 5) ∷ []);
}

abbrev pub now : Snapshot ℕ ℕ
now = record {
  version = 3;
  revision = 8;
  schema_hash = "h";
  values = made (("timeout", 60) ∷ ("retries", 3) ∷ []);
  targeting = nil_map;
}

pub before-IsSnapshot : IsSnapshot before
unfolding lookup
before-IsSnapshot = record { values = (refl, (refl, (refl, tt))); targeting = (refl, tt) }

pub now-IsSnapshot : IsSnapshot now
unfolding lookup
now-IsSnapshot = record { values = (refl, (refl, tt)); targeting = tt }

abbrev pub nothing : Snapshot ℕ ℕ
nothing = record {
  version = 0;
  revision = 0;
  schema_hash = "";
  values = made [];
  targeting = made [];
}

-- What the server has published under each revision.
abbrev pub history : ℕ → Snapshot ℕ ℕ
history r = if nat_eq r 8 then now else if nat_eq r 7 then before else nothing
