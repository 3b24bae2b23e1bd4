-- ===== src/Api/Stream.antt =====
-- internal/api/stream_handler.go: the SSE stream. A load from the database ends in one of three
-- ways; a select case that fires is an event, with whether the write that it causes succeeds.
use knobs.Base.{
  ℕ, String, Bool, true, false, Option, none, some, List, [], ◌∷◌, HasEq, if◌then◌else◌, ltb, not,
}
use knobs.Base.Int.{ℤ, below}
use knobs.Assoc.{GoMap}
use knobs.Delivery.Snapshot.{Snapshot, build_snapshot}
use knobs.Delivery.Delta.{Delta, compute_delta}

-- How a query ends: a row, `store.ErrNotFound`, or another error.
pub data Load (A : Type 0) : Type 0 where
  found : A → Load A
  not_found : Load A
  load_error : Load A

-- What goes over the wire: a bare snapshot, one marked `"type":"snapshot"`, a delta, a comment.
pub data Frame (V R : Type 0) : Type 0 where
  bare : Snapshot V R → Frame V R
  full : Snapshot V R → Frame V R
  delta : Delta V R → Frame V R
  heartbeat : Frame V R

-- `lastSent` and `haveBaseline` in one.
pub record Conn (V R : Type 0) : Type 0 where
  pub deltas_enabled : Bool
  pub last_sent : Option (Snapshot V R)

pub data Event (V R : Type 0) : Type 0 where
  client_gone : Event V R
  shutdown : Event V R
  received : Option (Snapshot V R) → Event V R
  tick : Event V R

pub data Status : Type 0 where
  ok unauthorized unsupported missing internal : Status

-- What the handler reads of a config version.
pub record Current (V R : Type 0) : Type 0 where
  pub version : ℕ
  pub values : GoMap V
  pub targeting : GoMap R

-- The revision is read again after subscribing; where that fails, the first read stands.
abbrev pub reloaded : ℕ → Load ℕ → ℕ
reloaded first (found revision) = revision
reloaded first _ = first

module _ {V R : Type 0} ⦃ev : HasEq V⦄ ⦃er : HasEq R⦄ where
  -- The frame that `writeFrame` chooses.
  unfoldable pub choose_frame : Conn V R → Snapshot V R → Frame V R
  choose_frame conn s = if not conn.deltas_enabled then bare s else elim conn.last_sent [
    | none ↦ full s
    | some base ↦ if ltb base.revision s.revision then delta (compute_delta base s) else full s
  ]

  -- `writeFrame`, when the write succeeds.
  unfoldable pub write_frame : Conn V R → Snapshot V R → Frame V R × Conn V R
  write_frame conn s = (
    choose_frame conn s,
    if conn.deltas_enabled then record conn { last_sent = some s } else conn,
  )

  -- The `for`/`select` loop: the frames that it writes until it returns.
  unfoldable pub serve : Conn V R → List (Event V R × Bool) → List (Frame V R)
  serve conn [] = []
  serve conn ((client_gone, written) ∷ events) = []
  serve conn ((shutdown, written) ∷ events) = []
  serve conn ((received none, written) ∷ events) = []
  serve conn ((received (some s), written) ∷ events) =
      let rest = serve (write_frame conn s).1 events in
      if written then (write_frame conn s).0 ∷ rest else []
  serve conn ((tick, written) ∷ events) =
      let rest = serve conn events in if written then heartbeat ∷ rest else []

  -- The snapshot sent at first, if one is: `none` where the client is up to date, where nothing is
  -- set yet, and where a load fails.
  unfoldable pub initial_snapshot : ℤ → ℕ → Load (Current V R) → Load String → Option (Snapshot V R)
  initial_snapshot since revision (found cv) (found hash) =
      if below since revision
      then some (build_snapshot cv.version cv.values cv.targeting hash revision)
      else none
  initial_snapshot since revision (found cv) schema = none
  initial_snapshot since revision cv schema = none

  -- The part behind `Subscribe`. `written` is whether the first frame, if any, is written.
  unfoldable pub stream_from :
      Conn V R → Option (Snapshot V R) → Bool → List (Event V R × Bool) → List (Frame V R)
  stream_from conn none written events = serve conn events
  stream_from conn (some s) written events =
      let rest = serve (write_frame conn s).1 events in
      if written then (write_frame conn s).0 ∷ rest else []

  -- The key's environment, whether the connection can flush, `deltas=1`, `since`; then what the
  -- loads find: the environment's revision twice, the current version, the schema's hash.
  unfoldable pub handle_stream :
      Option ℕ
      → Bool
      → Bool
      → ℤ
      → Load ℕ
      → Load ℕ
      → Load (Current V R)
      → Load String
      → Bool
      → List (Event V R × Bool)
      → Status × List (Frame V R)
  handle_stream none flush deltas since env again cv schema written events = (unauthorized, [])
  handle_stream (some id) false deltas since env again cv schema written events = (unsupported, [])
  handle_stream (some id) true deltas since not_found again cv schema written events = (missing, [])
  handle_stream (some id) true deltas since load_error again cv schema written events =
      (internal, [])
  handle_stream (some id) true deltas since (found first) again cv schema written events = (
    ok,
    stream_from (record { deltas_enabled = deltas; last_sent = none })
        (initial_snapshot since (reloaded first again) cv schema) written events,
  )
