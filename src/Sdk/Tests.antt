-- ===== src/Sdk/Tests.antt =====
-- The client at a small history.
use knobs.Base.{
  ℕ, ℕ_eq, String, String_eq, List, ◌≡◌, ◌≤◌, ◌<◌, ◌⊎◌, refl, true, false, none, [], ◌∷◌, ◌++◌,
}
use knobs.Assoc.{lookup, copy_into, insert}
use knobs.Delivery.Snapshot.{SameSnapshot-refl}
use knobs.Delivery.Sample.{before, now, history, before-IsSnapshot, now-IsSnapshot}
use knobs.Delivery.Delta.{compute_delta}
use knobs.Sdk.Client.{
  Client, Effect, warned, called, failed, fetched, normalized, apply_snapshot, check_schema_drift,
  calls, notify_listeners, apply_delta_onto, apply_fetched,
}
use knobs.Sdk.Gate.{IsWarning, Hears, apply_snapshot_gate}
use knobs.Sdk.Live.{Live, IsHonest, IsCoherent, Step, Reach, Reach-IsCoherent}

-- A client with one listener, built against another schema.
abbrev client : Client ℕ ℕ
client = record {
  expected_schema_hash = "g";
  current = before;
  listeners = (0, 40) ∷ [];
  next_listener_id = 1;
  warned_once = false;
  last_warned_hash = "";
  closed = false;
  started = true;
  log = [];
}

-- The rollback is applied, with a warning and a call.
apply_snapshot_runs :
    (apply_snapshot client now).log
    ≡ warned "g" "h" ∷ called 40 (("timeout", 60) ∷ ("retries", 3) ∷ []) ∷ []
unfolding apply_snapshot check_schema_drift notify_listeners calls copy_into insert
apply_snapshot_runs = refl

apply_snapshot_stale :
    apply_snapshot (record client { current = now }) before ≡ record client { current = now }
unfolding apply_snapshot
apply_snapshot_stale = refl

apply_snapshot_gate_example :
    (let after = apply_snapshot client now in
      (8 ≤ 7) × (after ≡ client)
      ⊎ (7 < 8)
        × (after.current ≡ normalized now)
        × ((warning : List (Effect ℕ)) × (heard : List (Effect ℕ)) × (after.log
              ≡ [] ++ warning ++ heard)
            × IsWarning client after "h" warning
            × Hears now.values ((0, 40) ∷ []) heard)
        × (after ≡ record client {
          current = after.current;
          log = after.log;
          warned_once = after.warned_once;
          last_warned_hash = after.last_warned_hash;
        }))
unfolding lookup
apply_snapshot_gate_example = apply_snapshot_gate client now (refl, (refl, tt))

abbrev OneHash : ℕ → String → Type 0
OneHash revision h = h ≡ "h"

before-IsHonest : IsHonest history OneHash before
before-IsHonest = record { same = SameSnapshot-refl before; hash = refl; sound = before-IsSnapshot }

now-IsHonest : IsHonest history OneHash now
now-IsHonest = record { same = SameSnapshot-refl now; hash = refl; sound = now-IsSnapshot }

abbrev start : Live ℕ ℕ
start = record { client = client; pending = none }

start-IsCoherent : IsCoherent history OneHash start
start-IsCoherent = record { current = before-IsHonest; pending = tt }

-- The poll brings revision 8 while the stream goroutine is at the delta from 7 to 8.
abbrev raced : Live ℕ ℕ
raced = record {
  client =
      apply_delta_onto before (apply_fetched client (fetched now)) failed
        (compute_delta before now);
  pending = none;
}

start-Reach : Reach history OneHash start raced
start-Reach =
    Reach.next
      (Reach.next (Reach.next Reach.here (Step.look before now refl before-IsHonest now-IsHonest))
        (Step.poll (fetched now) now-IsHonest))
      (Step.finish before (compute_delta before now) failed refl tt)

Reach-IsCoherent_example : IsCoherent history OneHash raced × (7 ≤ raced.client.current.revision)
Reach-IsCoherent_example = Reach-IsCoherent history OneHash start-IsCoherent start-Reach
