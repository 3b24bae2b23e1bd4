-- ===== src/EndToEnd/Session.antt =====
-- One connection of an SDK, from its request to the end of the stream: internal/api/stream_handler.go
-- read by sdk/go/stream.go.
use knobs.Base.{
  ◌≡◌, refl, ◌∙◌, ℕ, ◌≤◌, String, Bool, true, false, Option, none, some, List, [], ◌∷◌, HasEq,
  arith, ltb,
}
use native.Mathlib.Decide.{dec_lt}
use knobs.Base.Int.{pos}
use knobs.Delivery.Snapshot.{
  Snapshot, SameSnapshot, IsSnapshot, SameSnapshot-trans, SameSnapshot-sym,
}
use knobs.Api.Stream.{
  Load, found, Frame, Conn, Event, client_gone, shutdown, received, tick, ok, Current, reloaded,
  choose_frame, write_frame, serve, initial_snapshot, stream_from, handle_stream,
}
use knobs.Sdk.Client.{Client, Fetched, failed}
use knobs.Sdk.Gate.{current-apply_snapshot}
use knobs.Sdk.Stream.{receive, read_all}
use knobs.EndToEnd.{IsSynced, IsBaseline, Holds, step-Holds, step-IsSynced}

module _ {V R : Type 0} where
  -- The snapshots that are written before the stream ends, whatever their frames.
  abbrev pub delivered : List (Event V R × Bool) → List (Snapshot V R)
  delivered [] = []
  delivered ((client_gone, written) ∷ events) = []
  delivered ((shutdown, written) ∷ events) = []
  delivered ((received none, written) ∷ events) = []
  delivered ((received (some s), true) ∷ events) = s ∷ delivered events
  delivered ((received (some s), false) ∷ events) = []
  delivered ((tick, true) ∷ events) = delivered events
  delivered ((tick, false) ∷ events) = []

  -- With the first one, if there is one.
  abbrev pub sent : Option (Snapshot V R) → Bool → List (Event V R × Bool) → List (Snapshot V R)
  sent none written events = delivered events
  sent (some s) written events = delivered ((received (some s), written) ∷ events)

  -- The revision of the last of them, or else `r`.
  abbrev pub newest : ℕ → List (Snapshot V R) → ℕ
  newest r [] = r
  newest r (s ∷ ss) = newest s.revision ss

  -- The frames, where no resync succeeds.
  abbrev pub unaided : List (Frame V R) → List (Frame V R × Fetched V R)
  unaided [] = []
  unaided (frame ∷ frames) = (frame, failed) ∷ unaided frames

  -- Each is what was published under its revision, and none is older than `r` or the one before.
  abbrev pub Follows : (ℕ → Snapshot V R) → ℕ → List (Snapshot V R) → Type 0
  Follows published r [] = Unit
  Follows published r (s ∷ ss) =
      (r ≤ s.revision)
      × IsSnapshot s
      × SameSnapshot s (published s.revision)
      × Follows published s.revision ss

module _ {V R : Type 0} ⦃ev : HasEq V⦄ ⦃er : HasEq R⦄ (published : ℕ → Snapshot V R) where
  -- A snapshot of the revision that the client holds already goes out in full.
  replayed_frame :
      (deltas_enabled : Bool) (last_sent : Option (Snapshot V R)) (c : Client V R)
      (s : Snapshot V R)
      → IsBaseline deltas_enabled last_sent c.current
      → s.revision ≡ c.current.revision
      → (receive c failed (
          choose_frame
            (record { deltas_enabled = deltas_enabled; last_sent = last_sent })
            s)).current
        ≡ c.current
  unfolding choose_frame receive
  replayed_frame false last_sent c s base same = ground (arith, current-apply_snapshot c s, same)
  replayed_frame true none c s base same = ground (arith, current-apply_snapshot c s, same)
  replayed_frame true (some base) c s held same =
      let late : ltb base.revision s.revision ≡ false = ground (arith, held.revision, same) in
      rw late (ground (arith, current-apply_snapshot c s, same))

  -- The client holds what was published under `r`.
  record IsAt (conn : Conn V R) (c : Client V R) (r : ℕ) : Type 0 where
    pub synced : IsSynced conn c
    pub revision : c.current.revision ≡ r
    pub honest : SameSnapshot c.current (published r)

  caught_up :
      (conn : Conn V R) (c : Client V R) (s : Snapshot V R)
      → SameSnapshot s (published s.revision)
      → Holds (receive c failed (write_frame conn s).0) s
      → IsAt (write_frame conn s).1 (receive c failed (write_frame conn s).0) s.revision
  caught_up conn c s honest holds = record {
    synced = step-IsSynced conn c s holds;
    revision = holds.0.revision;
    honest = SameSnapshot-trans holds.0 honest;
  }

  write_frame-IsAt :
      (conn : Conn V R) (c : Client V R) (r : ℕ) (s : Snapshot V R)
      → IsAt conn c r
      → r ≤ s.revision
      → IsSnapshot s
      → SameSnapshot s (published s.revision)
      → IsAt (write_frame conn s).1 (receive c failed (write_frame conn s).0) s.revision
  unfolding write_frame
  write_frame-IsAt conn c r s h above sound honest = elim (dec_lt c.current.revision s.revision) [
    | yes newer ↦ caught_up conn c s honest (step-Holds conn c s h.synced newer sound)
    | no stale ↦
        let same : s.revision ≡ c.current.revision = omega (arith, h.revision) in
        let kept = replayed_frame conn.deltas_enabled conn.last_sent c s h.synced.baseline same in
        caught_up conn c s honest (
          rw kept (
            SameSnapshot-trans h.honest (SameSnapshot-sym (rw⁻¹ (same ∙ h.revision) honest)),
            h.synced.sound,
          ))
  ]

  serve-read_all :
      (conn : Conn V R) (c : Client V R) (r : ℕ) (events : List (Event V R × Bool))
      → IsAt conn c r
      → Follows published r (delivered events)
      → SameSnapshot
          (read_all c (unaided (serve conn events))).current
          (published (newest r (delivered events)))
  unfolding serve read_all receive
  serve-read_all conn c r [] h follows = h.honest
  serve-read_all conn c r ((client_gone, written) ∷ events) h follows = h.honest
  serve-read_all conn c r ((shutdown, written) ∷ events) h follows = h.honest
  serve-read_all conn c r ((received none, written) ∷ events) h follows = h.honest
  serve-read_all conn c r ((received (some s), false) ∷ events) h follows = h.honest
  serve-read_all conn c r ((tick, false) ∷ events) h follows = h.honest
  serve-read_all conn c r ((tick, true) ∷ events) h follows =
      serve-read_all conn c r events h follows
  serve-read_all conn c r ((received (some s), true) ∷ events) h (above, sound, honest, follows) =
      serve-read_all (write_frame conn s).1 (receive c failed (write_frame conn s).0) s.revision
        events (write_frame-IsAt conn c r s h above sound honest) follows

  stream_from-read_all :
      (conn : Conn V R) (c : Client V R) (r : ℕ) (first : Option (Snapshot V R)) (written : Bool)
      (events : List (Event V R × Bool))
      → IsAt conn c r
      → Follows published r (sent first written events)
      → SameSnapshot
          (read_all c (unaided (stream_from conn first written events))).current
          (published (newest r (sent first written events)))
  unfolding stream_from serve
  stream_from-read_all conn c r none written events h follows =
      serve-read_all conn c r events h follows
  stream_from-read_all conn c r (some s) written events h follows =
      serve-read_all conn c r ((received (some s), written) ∷ events) h follows

  nothing_sent : (deltas_enabled : Bool) (held : Snapshot V R) → IsBaseline deltas_enabled none held
  nothing_sent false held = tt
  nothing_sent true held = tt

  -- An SDK that holds what was published under its revision asks for a stream from there, with deltas
  -- or without. If each snapshot that is sent, the first one included, is what was published under
  -- its revision and none is older than the one before, the SDK's included, then whatever is sent
  -- twice, whenever a heartbeat, a failing write, a shutdown or the client's leaving comes, and
  -- however the loads go: the answer is a stream, and at its end the SDK holds the last snapshot that
  -- was written, or its own if none was, without a resync.
  pub handle_stream-read_all :
      (c : Client V R) (env first : ℕ) (deltas written : Bool) (again : Load ℕ)
      (cv : Load (Current V R)) (schema : Load String) (events : List (Event V R × Bool))
      → IsSnapshot c.current
      → SameSnapshot c.current (published c.current.revision)
      → (let s = initial_snapshot (pos c.current.revision) (reloaded first again) cv schema in
          let o =
            handle_stream
              (some env)
              true
              deltas
              (pos c.current.revision)
              (found first)
              again
              cv
              schema
              written
              events in
          Follows published c.current.revision (sent s written events)
          → (o.0 ≡ ok)
            × SameSnapshot
                (read_all c (unaided o.1)).current
                (published (newest c.current.revision (sent s written events))))
  unfolding handle_stream
  handle_stream-read_all c env first deltas written again cv schema events sound honest follows = (
    refl,
    stream_from-read_all (record { deltas_enabled = deltas; last_sent = none }) c c.current.revision
        (initial_snapshot (pos c.current.revision) (reloaded first again) cv schema) written events
        (record {
          synced = record { sound = sound; baseline = nothing_sent deltas c.current };
          revision = refl;
          honest = honest;
        })
        follows,
  )
