-- ===== src/Delivery/ListenerTests.antt =====
-- The listener's loop over three rounds: no connection, a session with two notifications, and a round
-- that finds the context cancelled.
use knobs.Base.{
  ◌≡◌, refl, ℕ, zero, suc, ◌<◌, String, ℕ_eq, String_eq, true, false, Option, some, [], ◌∷◌, arith,
}
use knobs.Base.Text.{Text, codes}
use knobs.Delivery.Hub.Run.{subscribed, new_hub, new_hub-IsSafe}
use knobs.Delivery.Listener.Loop.{
  Session, heard, no_connection, Round, is_cancelled, running, HasReturned, run_listener,
  run_listener-returns,
}
use knobs.Api.ValuesSample.{tables}

abbrev two_notifications : Session ℕ ℕ ℕ
two_notifications = heard (
    record { others = subscribed 0 ∷ []; tables = tables; payload = codes "env:2" }
    ∷ record { others = []; tables = tables; payload = codes "nonsense" }
    ∷ [])

abbrev rounds : ℕ → Round ℕ ℕ ℕ
rounds zero = record {
  done_before = false;
  session = no_connection;
  done_after = false;
  done_waiting = false;
}
rounds (suc n) = record {
  done_before = false;
  session = two_notifications;
  done_after = false;
  done_waiting = true;
}

abbrev no_fields : ℕ
no_fields = 100

abbrev hash : ℕ → String
hash s = "hash"

abbrev parse_id : Text → Option ℕ
parse_id t = some 0

alive : (j : ℕ) → j < 1 → is_cancelled (rounds j) ≡ false
alive zero h = refl
alive (suc j) h = absurd (omega arith)

run_listener-returns_example :
    HasReturned no_fields hash parse_id (run_listener no_fields hash parse_id rounds 2 0 new_hub)
    × (run_listener no_fields hash parse_id rounds 1 0 new_hub ≡ running)
run_listener-returns_example =
    run_listener-returns no_fields hash parse_id rounds 1 new_hub new_hub-IsSafe alive refl
