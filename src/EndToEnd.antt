-- ===== src/EndToEnd.antt =====
-- The server's stream read by the SDK's client.
pub mod Publish
pub mod Session
pub mod Ready
mod Tests
pub mod Typed
pub mod Notify
mod NotifyTests
mod TypedTests
use mathlib.Core.Path.{subst}
use knobs.Base.{
  ℕ, ◌<◌, sym, Bool, true, false, Option, none, some, List, [], ◌∷◌, HasEq, arith, lt→leb, lt→ltb,
  nat_eq_iff, String_eq,
}
use knobs.Delivery.Snapshot.{
  Snapshot, SameSnapshot, IsSnapshot, SameSnapshot-refl, SameSnapshot-trans,
}
use knobs.Delivery.Delta.{compute_delta}
use knobs.Api.Stream.{Conn, choose_frame, write_frame}
use knobs.Sdk.Client.{Client, failed, apply_snapshot, apply_delta_frame, apply_delta_onto}
use knobs.Sdk.Delta.{apply_delta}
use knobs.Sdk.Delta.Laws.{apply_delta-compute_delta_same, apply_delta-IsSnapshot}
use knobs.Sdk.Gate.{current-apply_snapshot}
use knobs.Sdk.Live.{normalized_same, normalized-IsSnapshot}
use knobs.Sdk.Stream.{receive}

module _ {V R : Type 0} ⦃ev : HasEq V⦄ ⦃er : HasEq R⦄ where
  -- The snapshots pushed on one connection, and the client that reads each frame as it comes. No
  -- resync ever succeeds.
  unfoldable pub push_all : Conn V R → Client V R → List (Snapshot V R) → Client V R
  push_all conn c [] = c
  push_all conn c (s ∷ ss) =
      push_all (write_frame conn s).1 (receive c failed (write_frame conn s).0) ss

  -- The revisions rise, from above `r`.
  abbrev pub Rises : ℕ → List (Snapshot V R) → Type 0
  Rises r [] = Unit
  Rises r (s ∷ ss) = (r < s.revision) × IsSnapshot s × Rises s.revision ss

  abbrev pub last : Snapshot V R → List (Snapshot V R) → Snapshot V R
  last s [] = s
  last s (t ∷ ts) = last t ts

  -- Where deltas are on, the client holds what the connection has sent last, if it has sent any.
  abbrev pub IsBaseline : Bool → Option (Snapshot V R) → Snapshot V R → Type 0
  IsBaseline false last_sent held = Unit
  IsBaseline true none held = Unit
  IsBaseline true (some base) held = SameSnapshot held base

  pub record IsSynced (conn : Conn V R) (c : Client V R) : Type 0 where
    pub sound : IsSnapshot c.current
    pub baseline : IsBaseline conn.deltas_enabled conn.last_sent c.current

  abbrev pub Holds : Client V R → Snapshot V R → Type 0
  Holds c s = SameSnapshot c.current s × IsSnapshot c.current

  swapped_in :
      (c : Client V R) (s t : Snapshot V R)
      → IsSnapshot s
      → c.current.revision < s.revision
      → SameSnapshot s t
      → Holds (apply_snapshot c s) t
  swapped_in c s t h newer same =
      rw (current-apply_snapshot c s, lt→leb s.revision c.current.revision newer)
        (SameSnapshot-trans (normalized_same s) same, normalized-IsSnapshot h)

  chained :
      (c : Client V R) (base s : Snapshot V R)
      → IsSnapshot c.current
      → SameSnapshot c.current base
      → c.current.revision < s.revision
      → IsSnapshot s
      → Holds (apply_delta_frame c failed (compute_delta base s)) s
  unfolding apply_delta_frame apply_delta_onto compute_delta
  chained c base s hc same newer hs =
      rw ((nat_eq_iff base.revision c.current.revision).1 (sym same.revision)) (
        swapped_in c (apply_delta c.current (compute_delta base s)) s
          (apply_delta-IsSnapshot c.current (compute_delta base s)) (unfold apply_delta in newer)
          (apply_delta-compute_delta_same c.current base s same hc hs))

  receive_frame :
      (deltas_enabled : Bool) (last_sent : Option (Snapshot V R)) (c : Client V R)
      (s : Snapshot V R)
      → IsSnapshot c.current
      → IsBaseline deltas_enabled last_sent c.current
      → c.current.revision < s.revision
      → IsSnapshot s
      → Holds
          (receive c failed
            (choose_frame (record { deltas_enabled = deltas_enabled; last_sent = last_sent }) s))
          s
  unfolding choose_frame receive
  receive_frame false last_sent c s hc base newer hs =
      swapped_in c s s hs newer (SameSnapshot-refl s)
  receive_frame true none c s hc base newer hs = swapped_in c s s hs newer (SameSnapshot-refl s)
  receive_frame true (some base) c s hc same newer hs =
      rw (lt→ltb base.revision s.revision (omega (arith, same.revision)))
        (chained c base s hc same newer hs)

  write_frame-IsBaseline :
      (deltas_enabled : Bool) (last_sent : Option (Snapshot V R)) (s held : Snapshot V R)
      → SameSnapshot held s
      → let conn' =
          (write_frame (record { deltas_enabled = deltas_enabled; last_sent = last_sent }) s).1 in
        IsBaseline conn'.deltas_enabled conn'.last_sent held
  unfolding write_frame
  write_frame-IsBaseline false last_sent s held same = tt
  write_frame-IsBaseline true last_sent s held same = same

  pub step-Holds :
      (conn : Conn V R) (c : Client V R) (s : Snapshot V R)
      → IsSynced conn c
      → c.current.revision < s.revision
      → IsSnapshot s
      → Holds (receive c failed (write_frame conn s).0) s
  unfolding write_frame
  step-Holds conn c s sync newer hs =
      receive_frame conn.deltas_enabled conn.last_sent c s sync.sound sync.baseline newer hs

  pub step-IsSynced :
      (conn : Conn V R) (c : Client V R) (s : Snapshot V R)
      → Holds (receive c failed (write_frame conn s).0) s
      → IsSynced (write_frame conn s).1 (receive c failed (write_frame conn s).0)
  step-IsSynced conn c s (same, sound) = record {
    sound = sound;
    baseline = write_frame-IsBaseline conn.deltas_enabled conn.last_sent s _ same;
  }

  -- However the snapshots of a connection are framed, in full or as deltas, a client that starts
  -- in step with it and below the first of them ends with the last, and needs no resync.
  pub push_all-last :
      (ss : List (Snapshot V R)) (conn : Conn V R) (c : Client V R) (s : Snapshot V R)
      → IsSynced conn c
      → Rises c.current.revision (s ∷ ss)
      → SameSnapshot (push_all conn c (s ∷ ss)).current (last s ss)
  unfolding push_all
  push_all-last [] conn c s sync (newer, hs, rest) = (step-Holds conn c s sync newer hs).0
  push_all-last (t ∷ ts) conn c s sync (newer, hs, rest) =
      let held = step-Holds conn c s sync newer hs in
      push_all-last ts (write_frame conn s).1 (receive c failed (write_frame conn s).0) t
        (step-IsSynced conn c s held) (subst (λ r. Rises r (t ∷ ts)) (sym held.0.revision) rest)
