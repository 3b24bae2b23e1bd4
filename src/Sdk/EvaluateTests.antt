-- ===== src/Sdk/EvaluateTests.antt =====
-- The reads of a client at targeted values.
use knobs.Base.{
  ℕ, String_eq, some, [], ◌∷◌, ◌≡◌, List, if◌then◌else◌, true, false, is_some, not, ◌&&◌,
  or_default,
}
use knobs.Assoc.{made, lookup, get}
use knobs.Value.{Value, str, null}
use knobs.Targeting.{Rule}
use knobs.Targeting.Tests.{fixed, hash, rules, user}
use knobs.Targeting.Eval as Server
use knobs.Sdk.Eval as Client
use knobs.Sdk.Eval.Same.{resolve_all_same}
use knobs.Sdk.Client.{Client}
use knobs.Sdk.Evaluate.{get_for, evaluate_all, no_rules, get_for-evaluate_all}

abbrev client : Client (Value ℕ) (List (Rule ℕ))
client = record {
  expected_schema_hash = "";
  current = record {
    version = 1;
    revision = 1;
    schema_hash = "";
    values = made (("theme", str "old") ∷ []);
    targeting = made (("theme", rules) ∷ ("color", []) ∷ []);
  };
  listeners = [];
  next_listener_id = 0;
  warned_once = false;
  last_warned_hash = "";
  closed = false;
  started = true;
  log = [];
}

get_for-evaluate_all_example : lookup "color" (evaluate_all fixed hash client user) ≡ (
    if not (is_some (get "color" client.current.values))
      && (is_some (get "color" client.current.targeting)
          && no_rules fixed hash (or_default (get "color" client.current.targeting) []))
    then some null
    else get_for fixed hash client "color" user)
get_for-evaluate_all_example = get_for-evaluate_all fixed hash client "color" user

resolve_all_same_example :
    (Client.resolve fixed hash "theme" (str "old") rules user
      ≡ Server.resolve fixed hash "theme" (str "old") rules user)
    × (Client.resolve_all fixed hash client.current.values client.current.targeting user
        ≡ Server.resolve_all fixed hash client.current.values client.current.targeting user)
resolve_all_same_example =
    resolve_all_same fixed hash "theme" (str "old") rules client.current.values
      client.current.targeting user
