-- ===== src/Sdk/Stream.antt =====
-- sdk/go/stream.go and the stream loop of sdk/go/knobs.go: the dispatch of a frame on its type, and
-- the reconnecting loop with its backoff.
pub mod Backoff
use knobs.Base.{ℕ, ◌*◌, Bool, true, false, List, [], ◌∷◌, if◌then◌else◌, ltb, ◌||◌}
use knobs.Api.Stream.{Frame, bare, full, delta, heartbeat}
use knobs.Sdk.Client.{Client, Fetched, apply_snapshot, apply_delta_frame}

-- The delays in milliseconds.
abbrev pub initial_reconnect_delay : ℕ
initial_reconnect_delay = 500

abbrev pub max_reconnect_delay : ℕ
max_reconnect_delay = 5000

-- `delay *= 2`, capped.
unfoldable pub next_delay : ℕ → ℕ
next_delay delay = if ltb max_reconnect_delay (delay * 2) then max_reconnect_delay else delay * 2

module _ {V R : Type 0} where
  -- `onSnapshot` or `onDelta` on one event; `f` is how a resync ends, where the frame causes one.
  unfoldable pub receive : Client V R → Fetched V R → Frame V R → Client V R
  receive c f (bare s) = apply_snapshot c s
  receive c f (full s) = apply_snapshot c s
  receive c f (delta d) = apply_delta_frame c f d
  receive c f heartbeat = c

  -- The callbacks set `gotFrame`; a comment calls none.
  abbrev pub is_frame : Frame V R → Bool
  is_frame heartbeat = false
  is_frame _ = true

  -- One connection: its frames, each with how a resync would end.
  unfoldable pub read_all : Client V R → List (Frame V R × Fetched V R) → Client V R
  read_all c [] = c
  read_all c ((frame, f) ∷ frames) = read_all (receive c f frame) frames

  pub got_frame : List (Frame V R × Fetched V R) → Bool
  got_frame [] = false
  got_frame ((frame, f) ∷ frames) = is_frame frame || got_frame frames

  -- `runStream` over the connections that are made until the context ends: the client, and the
  -- delays waited after each.
  unfoldable pub run_stream :
      Client V R → ℕ → List (List (Frame V R × Fetched V R)) → Client V R × List ℕ
  unfolding got_frame next_delay
  run_stream c delay [] = (c, [])
  run_stream c delay (frames ∷ connections) =
      let wait = if got_frame frames then initial_reconnect_delay else delay in
      let (c', waits) = run_stream (read_all c frames) (next_delay wait) connections in
      (c', wait ∷ waits)
