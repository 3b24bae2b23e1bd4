-- ===== src/Sdk/Live.antt =====
-- The live client under every interleaving of its two goroutines: the stream, which applies full
-- frames and deltas, and the poll. A delta frame takes two steps, since `applyDeltaFrame` releases
-- the lock between reading the current snapshot and applying the result.
use mathlib.Core.Path.{subst}
use knobs.Base.{
  ℕ, ◌≤◌, String, String_eq, ap, ◌∙◌, ◌≡◌, refl, sym, Option, none, some, HasEq, leb, arith, nat_eq,
  nat_eq_iff, Bool-cases, inl, inr,
}
use knobs.Assoc.{get, get-or_made, or_made-IsGoMap}
use knobs.Delivery.Snapshot.{Snapshot, SameSnapshot, IsSnapshot, SameSnapshot-trans}
use knobs.Delivery.Delta.{Delta, compute_delta}
use knobs.Sdk.Delta.{apply_delta}
use knobs.Sdk.Delta.Laws.{apply_delta-compute_delta_same, apply_delta-IsSnapshot}
use knobs.Sdk.Client.{
  Client, Fetched, failed, missing, fetched, normalized, apply_snapshot, apply_fetched,
  apply_delta_onto, on_change, unsubscribe, close,
}
use knobs.Sdk.Gate.{current-apply_snapshot, revision-apply_snapshot}

-- The client, and the delta frame that the stream goroutine is at, with the snapshot it has read.
pub record Live (V R : Type 0) : Type 0 where
  pub client : Client V R
  pub pending : Option (Snapshot V R × Delta V R)

module _ {V R : Type 0} where
  pub normalized_same : (s : Snapshot V R) → SameSnapshot (normalized s) s
  normalized_same s = record {
    version = refl;
    revision = refl;
    schema_hash = refl;
    values = λ k. get-or_made k s.values;
    targeting = λ k. get-or_made k s.targeting;
  }

  pub normalized-IsSnapshot : {s : Snapshot V R} → IsSnapshot s → IsSnapshot (normalized s)
  normalized-IsSnapshot {s} h = record {
    values = or_made-IsGoMap s.values h.values;
    targeting = or_made-IsGoMap s.targeting h.targeting;
  }

  current-close : (c : Client V R) → (close c).current ≡ c.current
  unfolding close
  current-close c = ground arith

  apply_fetched-revision-le :
      (c : Client V R) (f : Fetched V R) → c.current.revision ≤ (apply_fetched c f).current.revision
  apply_fetched-revision-le c failed = omega arith
  apply_fetched-revision-le c missing = omega arith
  apply_fetched-revision-le c (fetched s) = omega (arith, revision-apply_snapshot c s)

  apply_delta_onto-revision-le :
      (base : Snapshot V R) (c : Client V R) (f : Fetched V R) (d : Delta V R)
      → c.current.revision ≤ (apply_delta_onto base c f d).current.revision
  unfolding apply_delta_onto
  apply_delta_onto-revision-le base c f d = elim (Bool-cases (nat_eq d.from base.revision)) [
    | inl chained ↦ rw chained (omega (arith, revision-apply_snapshot c (apply_delta base d)))
    | inr broken ↦ rw broken (apply_fetched-revision-le c f)
  ]

-- `history` is what the server has published under each revision, and `hashed` which hashes of the
-- schema it has published a revision with: `handlePutSchema` changes the schema and leaves the
-- revisions of the environments as they are.
module _ {V R : Type 0} ⦃ev : HasEq V⦄ ⦃er : HasEq R⦄ (history : ℕ → Snapshot V R)
    (hashed : ℕ → String → Type 0) where
  -- `s` is what the server has published under the revision of `s`, with one of the hashes.
  pub record IsHonest (s : Snapshot V R) : Type 0 where
    pub same : SameSnapshot s (record (history s.revision) { schema_hash = s.schema_hash })
    pub hash : hashed s.revision s.schema_hash
    pub sound : IsSnapshot s

  abbrev pub IsHonestFetch : Fetched V R → Type 0
  IsHonestFetch failed = Unit
  IsHonestFetch missing = Unit
  IsHonestFetch (fetched s) = IsHonest s

  pub data Step (l : Live V R) : Live V R → Type 0 where
    -- A full frame of the stream.
    full :
        (s : Snapshot V R)
        → l.pending ≡ none
        → IsHonest s
        → Step l (record l { client = apply_snapshot l.client s })
    -- A delta frame, computed by the server between two of its snapshots.
    look :
        (s t : Snapshot V R)
        → l.pending ≡ none
        → IsHonest s
        → IsHonest t
        → Step l (record l { pending = some (l.client.current, compute_delta s t) })
    -- The end of `applyDeltaFrame`; `f` is how the resync ends where one is made.
    finish :
        (base : Snapshot V R) (d : Delta V R) (f : Fetched V R)
        → l.pending ≡ some (base, d)
        → IsHonestFetch f
        → Step l (record { client = apply_delta_onto base l.client f d; pending = none })
    poll :
        (f : Fetched V R)
        → IsHonestFetch f
        → Step l (record l { client = apply_fetched l.client f })
    listen : (callback : ℕ) → Step l (record l { client = (on_change l.client callback).0 })
    unlisten : (id : ℕ) → Step l (record l { client = unsubscribe l.client id })
    stop : Step l (record l { client = close l.client })

  pub data Reach (l : Live V R) : Live V R → Type 0 where
    here : Reach l l
    next : {m n : Live V R} → Reach l m → Step m n → Reach l n

  -- The delta in hand was computed between two honest snapshots, and the snapshot read is honest.
  abbrev pub IsPending : Option (Snapshot V R × Delta V R) → Type 0
  IsPending none = Unit
  IsPending (some (base, d)) =
      IsHonest base
      × ((s : Snapshot V R) × (t : Snapshot V R) × (d ≡ compute_delta s t)
          × IsHonest s
          × IsHonest t)

  pub record IsCoherent (l : Live V R) : Type 0 where
    pub current : IsHonest l.client.current
    pub pending : IsPending l.pending

  normalized-IsHonest : {s : Snapshot V R} → IsHonest s → IsHonest (normalized s)
  normalized-IsHonest {s} h = record {
    same = SameSnapshot-trans (normalized_same s) h.same;
    hash = h.hash;
    sound = normalized-IsSnapshot h.sound;
  }

  apply_snapshot-IsHonest :
      (c : Client V R) (s : Snapshot V R)
      → IsHonest c.current
      → IsHonest s
      → IsHonest (apply_snapshot c s).current
  apply_snapshot-IsHonest c s hc hs =
      rw (current-apply_snapshot c s) (elim (Bool-cases (leb s.revision c.current.revision)) [
        | inl stale ↦ rw stale hc
        | inr newer ↦ rw newer (normalized-IsHonest hs)
      ])

  apply_fetched-IsHonest :
      (c : Client V R) (f : Fetched V R)
      → IsHonest c.current
      → IsHonestFetch f
      → IsHonest (apply_fetched c f).current
  apply_fetched-IsHonest c failed hc hf = hc
  apply_fetched-IsHonest c missing hc hf = hc
  apply_fetched-IsHonest c (fetched s) hc hf = apply_snapshot-IsHonest c s hc hf

  -- Two honest snapshots of one revision read alike, but for the hash.
  honest_same :
      {s t : Snapshot V R}
      → IsHonest s
      → IsHonest t
      → s.revision ≡ t.revision
      → SameSnapshot s (record t { schema_hash = s.schema_hash })
  honest_same {s} {t} hs ht e = record {
    version = hs.same.version ∙ (ap (λ r. (history r).version) e ∙ sym ht.same.version);
    revision = e;
    schema_hash = refl;
    values =
        λ k. hs.same.values k ∙ (ap (λ r. get k (history r).values) e ∙ sym (ht.same.values k));
    targeting = λ k.
        hs.same.targeting k ∙ (ap (λ r. get k (history r).targeting) e ∙ sym (ht.same.targeting k));
  }

  apply_delta-IsHonest :
      (base s t : Snapshot V R)
      → IsHonest base
      → IsHonest s
      → IsHonest t
      → s.revision ≡ base.revision
      → IsHonest (apply_delta base (compute_delta s t))
  unfolding apply_delta compute_delta
  apply_delta-IsHonest base s t hb hs ht e = record {
    same =
        SameSnapshot-trans
          (apply_delta-compute_delta_same base (record s { schema_hash = base.schema_hash }) t
            (honest_same hb hs (sym e)) hb.sound ht.sound)
          ht.same;
    hash = ht.hash;
    sound = apply_delta-IsSnapshot base (compute_delta s t);
  }

  apply_delta_onto-IsHonest :
      (base s t : Snapshot V R) (c : Client V R) (f : Fetched V R)
      → IsHonest base
      → IsHonest s
      → IsHonest t
      → IsHonestFetch f
      → IsHonest c.current
      → IsHonest (apply_delta_onto base c f (compute_delta s t)).current
  unfolding apply_delta_onto compute_delta
  apply_delta_onto-IsHonest base s t c f hb hs ht hf hc =
      elim (Bool-cases (nat_eq s.revision base.revision)) [
        | inl chained ↦ rw chained (
            apply_snapshot-IsHonest c (apply_delta base (compute_delta s t)) hc (
              apply_delta-IsHonest base s t hb hs ht
                ((nat_eq_iff s.revision base.revision).0 chained)))
        | inr broken ↦ rw broken (apply_fetched-IsHonest c f hc hf)
      ]

  finish-IsHonest :
      (base : Snapshot V R) (d : Delta V R) (c : Client V R) (f : Fetched V R)
      → IsPending (some (base, d))
      → IsHonestFetch f
      → IsHonest c.current
      → IsHonest (apply_delta_onto base c f d).current
  finish-IsHonest base d c f (hb, (s, t, e, hs, ht)) hf hc =
      rw e (apply_delta_onto-IsHonest base s t c f hb hs ht hf hc)

  close-IsHonest : (c : Client V R) → IsHonest c.current → IsHonest (close c).current
  close-IsHonest c h = rw (current-close c) h

  -- Each step keeps the client coherent with the server's history.
  pub Step-IsCoherent : {l m : Live V R} → Step l m → IsCoherent l → IsCoherent m
  unfolding on_change unsubscribe
  Step-IsCoherent {l} (full s idle hs) h = record {
    current = apply_snapshot-IsHonest l.client s h.current hs;
    pending = h.pending;
  }
  Step-IsCoherent (look s t idle hs ht) h = record {
    current = h.current;
    pending = (h.current, (s, t, refl, hs, ht));
  }
  Step-IsCoherent {l} (finish base d f at hf) h = record {
    current = finish-IsHonest base d l.client f (subst IsPending at h.pending) hf h.current;
    pending = tt;
  }
  Step-IsCoherent {l} (poll f hf) h = record {
    current = apply_fetched-IsHonest l.client f h.current hf;
    pending = h.pending;
  }
  Step-IsCoherent (listen callback) h = record { current = h.current; pending = h.pending }
  Step-IsCoherent (unlisten id) h = record { current = h.current; pending = h.pending }
  Step-IsCoherent {l} stop h = record {
    current = close-IsHonest l.client h.current;
    pending = h.pending;
  }

  -- No step takes the client to an earlier revision.
  Step-revision-le :
      {l m : Live V R} → Step l m → l.client.current.revision ≤ m.client.current.revision
  unfolding on_change unsubscribe
  Step-revision-le {l} (full s idle hs) = omega (arith, revision-apply_snapshot l.client s)
  Step-revision-le (look s t idle hs ht) = omega arith
  Step-revision-le {l} (finish base d f at hf) = apply_delta_onto-revision-le base l.client f d
  Step-revision-le {l} (poll f hf) = apply_fetched-revision-le l.client f
  Step-revision-le (listen callback) = omega arith
  Step-revision-le (unlisten id) = omega arith
  Step-revision-le {l} stop = rw (current-close l.client) (omega arith)

  -- If every full frame and every fetch carries what the server has published under its revision, with
  -- one of the schema hashes of that revision, if each delta frame was computed between two such
  -- snapshots, and if that was so of the client's own snapshot and of a delta in hand at the start:
  -- then whatever the interleaving of the stream, the poll, callbacks and `Close`, the client holds,
  -- under every key, what the server has published under the revision that the client is at, with one
  -- of that revision's hashes, and its revision never goes down.
  pub Reach-IsCoherent :
      {l m : Live V R}
      → IsCoherent l
      → Reach l m
      → IsCoherent m × (l.client.current.revision ≤ m.client.current.revision)
  Reach-IsCoherent h here = (h, omega arith)
  Reach-IsCoherent h (next r st) =
      let before = Reach-IsCoherent h r in
      (Step-IsCoherent st before.0, omega (arith, before.1, Step-revision-le st))
