-- ===== src/Sdk/Stream/Backoff.antt =====
-- sdk/go/knobs.go: the delays of the reconnecting loop.
use knobs.Base.{ℕ, ◌≤◌, Bool, true, false, List, [], ◌∷◌, if◌then◌else◌, All, arith}
use knobs.Sdk.Client.{Client, Fetched}
use knobs.Api.Stream.{Frame}
use knobs.Sdk.Stream.{
  initial_reconnect_delay, max_reconnect_delay, next_delay, got_frame, run_stream, read_all,
}

abbrev pub IsDelay : ℕ → Type 0
IsDelay n = (initial_reconnect_delay ≤ n) × (n ≤ max_reconnect_delay)

next_delay-IsDelay : (delay : ℕ) → IsDelay delay → IsDelay (next_delay delay)
unfolding next_delay
next_delay-IsDelay delay h = (ground (arith, h.0, h.1), ground (arith, h.0, h.1))

waited-IsDelay :
    (got : Bool) (delay : ℕ)
    → IsDelay delay
    → IsDelay (if got then initial_reconnect_delay else delay)
waited-IsDelay true delay h = (omega arith, omega arith)
waited-IsDelay false delay h = h

module _ {V R : Type 0} where
  -- From a delay between half a second and five seconds, every delay of the reconnecting loop is
  -- between them, whatever its connections deliver.
  pub run_stream-IsDelay :
      (c : Client V R) (delay : ℕ) (connections : List (List (Frame V R × Fetched V R)))
      → IsDelay delay
      → All IsDelay (run_stream c delay connections).1
  unfolding run_stream
  run_stream-IsDelay c delay [] h = tt
  run_stream-IsDelay c delay (frames ∷ connections) h =
      let waited = waited-IsDelay (got_frame frames) delay h in
      (
        waited,
        run_stream-IsDelay (read_all c frames)
            (next_delay (if got_frame frames then initial_reconnect_delay else delay)) connections
            (next_delay-IsDelay (if got_frame frames then initial_reconnect_delay else delay)
              waited),
      )
