-- ===== src/EndToEnd/Tests.antt =====
-- A connection with deltas pushes two snapshots to a client.
use knobs.Base.{
  Option, none, ◌≢◌, ℕ, String, ◌≡◌, some, refl, String_eq, ℕ_eq, Bool, true, false, List, [], ◌∷◌,
  arith,
}
use knobs.Delivery.Snapshot.{SameSnapshot, SameSnapshot-refl}
use knobs.Delivery.Sample.{before, now, nothing, history, before-IsSnapshot, now-IsSnapshot}
use knobs.Base.Int.{pos}
use knobs.Api.Stream.{
  Event, received, tick, found, Status, ok, Frame, handle_stream, initial_snapshot,
}
use knobs.Sdk.Client.{Client, empty_snapshot}
use knobs.Assoc.{get, lookup}
use knobs.Store.{version_by_number, find_version}
use knobs.Delivery.Snapshot.{build_snapshot}
use knobs.Api.Values.{replied, handle_rollback}
use knobs.Api.Values.Grows.{revision_at}
use knobs.Store.{Db, current_version}
use knobs.Store.ApiKeys.{find_hash}
use knobs.Base.Text.{codes}
use knobs.Sdk.Client.{ready}
use knobs.Sdk.Http.{Request, Response, Options, fetch_snapshot, fetched_of}
use knobs.Api.ApiKeys.{handle_snapshot, snapshot_request}
use knobs.EndToEnd.Ready.{respond, Starts, readable, fetch_snapshot-ready}
use knobs.Delivery.Snapshot.{Snapshot}
use knobs.Api.ValuesSample.{
  second_version, rules, first_version, prod, tables, tables-IsSound, access,
}
use knobs.Sdk.Client.{apply_snapshot, get_value}
use knobs.EndToEnd.Publish.{rollback-get_value}
use knobs.Sdk.Stream.{read_all}
use knobs.EndToEnd.Session.{unaided, handle_stream-read_all}

abbrev client : Client ℕ ℕ
client = record {
  expected_schema_hash = "";
  current = empty_snapshot;
  listeners = [];
  next_listener_id = 0;
  warned_once = false;
  last_warned_hash = "";
  closed = false;
  started = true;
  log = [];
}

-- The first snapshot comes again, with a heartbeat before it; the next one follows, and the last
-- write fails.
abbrev traffic : List (Event ℕ ℕ × Bool)
traffic =
    (tick, true)
    ∷ (received (some before), true)
    ∷ (received (some now), true)
    ∷ (received (some now), false)
    ∷ []

abbrev streamed : Status × List (Frame ℕ ℕ)
streamed =
    handle_stream (some 0) true true (pos 0) (found 6) (found 7)
      (found (record { version = 7; values = before.values; targeting = before.targeting }))
      (found "h") true traffic

handle_stream-read_all_example :
    (streamed.0 ≡ ok) × SameSnapshot (read_all client (unaided streamed.1)).current now
unfolding initial_snapshot build_snapshot
handle_stream-read_all_example =
    handle_stream-read_all history client 0 6 true true (found 7)
      (found (record { version = 7; values = before.values; targeting = before.targeting }))
      (found "h") traffic (record { values = tt; targeting = tt }) (SameSnapshot-refl nothing)
      (
        omega arith,
        before-IsSnapshot,
        SameSnapshot-refl before,
        (
          omega arith,
          before-IsSnapshot,
          SameSnapshot-refl before,
          (omega arith, now-IsSnapshot, SameSnapshot-refl now, tt),
        ),
      )

abbrev one_hash : ℕ → String
one_hash s = "h"

-- The client reads the old limit again.
rollback-get_value_example :
    (let after = (handle_rollback tables 7 true (some 0) (some (some 1))).0 in
      (s : Snapshot ℕ ℕ) × ((handle_snapshot 100 one_hash after 0).1 ≡ replied s)
      × (get_value (apply_snapshot client s) "limit" ≡ some 50)
      × (get "limit" (apply_snapshot client s).current.targeting ≡ none))
unfolding version_by_number find_version lookup revision_at
rollback-get_value_example =
    rollback-get_value rules one_hash tables 7 0 1 prod (1, first_version) client "limit"
      tables-IsSound access refl (omega arith)

-- Key "k" is of the environment of the sample.
abbrev keyed : Db ℕ ℕ ℕ
keyed = record tables {
  api_keys =
      (
        9,
        record { environment_id = 0; project_id = 2; name = "ci"; hash = "h"; last_used_at = none },
      )
      ∷ [];
}

abbrev served : Snapshot ℕ ℕ
served = build_snapshot 2 second_version.values second_version.targeting "s" 2

-- The server's answer to whatever is asked with the request's key.
abbrev transport : Request → Option Response
transport request = some (
    respond (λ s. codes "{}") (λ status. []) (λ code. codes "200 OK")
      (snapshot_request 100 (λ schema. "s") (λ key. "h") keyed 5 true request.authorization).1)

abbrev options : Options
options = record { endpoint = codes "http://h/"; api_key = codes "k" }

served_once :
    (s : Snapshot ℕ ℕ)
    → readable (λ key. "h") 100 (λ schema. "s") keyed (codes "k") ≡ some (some s)
    → some served ≡ some s
unfolding find_hash lookup current_version
served_once s h = ground (arith, h)

given : options.api_key ≢ []
given = ground arith

fetch_snapshot-ready_example : Starts client (some (some served)) (
    ready client (
      fetched_of
        (fetch_snapshot (λ text. text) (λ text. none) (λ text. some served) transport options 0)))
unfolding find_hash lookup current_version
fetch_snapshot-ready_example =
    fetch_snapshot-ready (λ s. codes "{}") (λ text. some served) (λ status. [])
      (λ code. codes "200 OK") (λ text. text) (λ text. none) (λ key. "h") 100 (λ schema. "s") keyed
      5 true client options transport served_once given refl
