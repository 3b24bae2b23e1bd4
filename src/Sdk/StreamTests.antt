-- ===== src/Sdk/StreamTests.antt =====
-- The stream of a client: lines, events and delays.
use knobs.Base.{◌≡◌, refl, ℕ, String_eq, true, false, none, some, [], ◌∷◌, ◌++◌, arith, All}
use knobs.Base.Text.{codes, has}
use knobs.Delivery.Sample.{before, now}
use knobs.Api.Stream.{bare, heartbeat}
use knobs.Sdk.Client.{Client, failed}
use knobs.Sdk.Stream.{initial_reconnect_delay, run_stream}
use knobs.Sdk.Stream.Backoff.{IsDelay, run_stream-IsDelay}
use knobs.Sdk.Sse.{
  lf, cr, longest_line, closed, read_response, scan_lines, drop_cr, events, classify, after_prefix,
  trim_space, join_lines,
}
use knobs.Sdk.Sse.RoundTrip.{wire_all, read_response-wire_all}

abbrev fresh_client : Client ℕ ℕ
fresh_client = record {
  expected_schema_hash = "";
  current = before;
  listeners = [];
  next_listener_id = 0;
  warned_once = false;
  last_warned_hash = "";
  closed = false;
  started = true;
  log = [];
}

-- An event of two data lines, with a line that is no part of it, and the rest of a broken one.
folded :
    read_response 20 (
      codes "event: x"
      ++ (lf ∷ (codes "data:{" ++ (cr ∷ lf ∷ (codes "data: }" ++ (lf ∷ lf ∷ codes "data: {"))))))
    ≡ ((codes "{" ++ (lf ∷ codes "}")) ∷ [], closed)
unfolding read_response scan_lines drop_cr events classify after_prefix trim_space join_lines
folded = refl

read_response-wire_all_example :
    read_response longest_line (wire_all (none ∷ some (codes "{}") ∷ none ∷ []))
    ≡ (codes "{}" ∷ [], closed)
unfolding has
read_response-wire_all_example =
    read_response-wire_all longest_line (none ∷ some (codes "{}") ∷ none ∷ []) (omega arith)
      (tt, ((refl, (refl, omega arith)), (tt, tt)))

-- Two idle connections, one with a heartbeat and a frame, and one more.
run_stream-IsDelay_example :
    All IsDelay
      (run_stream fresh_client initial_reconnect_delay
        ([] ∷ [] ∷ ((heartbeat, failed) ∷ (bare now, failed) ∷ []) ∷ [] ∷ [])).1
run_stream-IsDelay_example =
    run_stream-IsDelay fresh_client initial_reconnect_delay
      ([] ∷ [] ∷ ((heartbeat, failed) ∷ (bare now, failed) ∷ []) ∷ [] ∷ [])
      (omega arith, omega arith)
