-- ===== src/Delivery/Hub/Run.antt =====
-- internal/delivery/hub.go: subscribing, publishing, cancelling and reading in any order.
use knobs.Base.{◌≡◌, refl, ℕ, ℕ_eq, true, Option, none, some, List, [], ◌∷◌, if◌then◌else◌, is_some}
use knobs.Assoc.{lookup}
use knobs.Delivery.Hub.{Hub, publish, subscribe, cancel, take_oldest}
use knobs.Delivery.Hub.Safe.{fits, offered}
use knobs.Delivery.Hub.Reach.{
  IsSafe, subscribers, subscribe-IsSafe, publish-IsSafe, take_oldest-IsSafe,
}
use knobs.Delivery.Hub.Close.{cancel-IsSafe}

-- One operation: `Subscribe`, `Publish`, a call of a closure, or a receive.
pub data Event (A : Type 0) : Type 0 where
  subscribed : ℕ → Event A
  published : ℕ → A → Event A
  cancelled : ℕ → Event A
  taken : ℕ → Event A

module _ {A : Type 0} where
  unfoldable pub new_hub : Hub A
  new_hub = record { subs = []; next = 0; channels = []; cancels = [] }

  unfoldable pub step : Hub A → Event A → Option (Hub A)
  step h (subscribed env) = some (subscribe h env)
  step h (published env snap) = publish h env snap
  step h (cancelled number) = cancel h number
  step h (taken ch) = some (take_oldest h ch)

  -- The last event stands first.
  unfoldable pub run : List (Event A) → Option (Hub A)
  run [] = some new_hub
  run (event ∷ events) = elim (run events) [ none ↦ none | some h ↦ step h event ]

  pub new_hub-IsSafe : IsSafe new_hub
  unfolding new_hub lookup
  new_hub-IsSafe = record {
    lead = λ env id. refl;
    own = λ env id. refl;
    ready = λ n. refl;
    fit = λ n. refl;
    fresh_channel = λ k. refl;
    fresh_cancel = λ k. refl;
    maps = λ env. tt;
  }

  pub step-IsSafe :
      (h : Hub A) (event : Event A)
      → IsSafe h
      → (after : Hub A) × ((step h event ≡ some after) × IsSafe after)
  unfolding step
  step-IsSafe h (subscribed env) safe = (subscribe h env, (refl, subscribe-IsSafe h env safe))
  step-IsSafe h (published env snap) safe =
      let sent = publish-IsSafe h env snap safe in (sent.0, (sent.1.0, sent.1.1.0))
  step-IsSafe h (cancelled number) safe = cancel-IsSafe h number safe
  step-IsSafe h (taken ch) safe = (take_oldest h ch, (refl, take_oldest-IsSafe h ch safe))

  -- Nothing panics, whatever is done to a new hub.
  pub run-IsSafe : (events : List (Event A)) → (h : Hub A) × ((run events ≡ some h) × IsSafe h)
  unfolding run
  run-IsSafe [] = (new_hub, (refl, new_hub-IsSafe))
  run-IsSafe (event ∷ events) =
      let before = run-IsSafe events in
      let next = step-IsSafe before.0 event before.1.1 in
      (next.0, (rw (before.1.0, run) next.1.0, next.1.1))

  -- After any events on a new hub, none of which panics, publishing does not panic either: the
  -- channel of every subscriber of the environment gets the snapshot as its newest, behind what it
  -- held, less the oldest where it was full; no other channel changes; and none holds more than
  -- four.
  pub publish_delivers :
      (events : List (Event A)) (env : ℕ) (snap : A)
      → (h : Hub A) × ((after : Hub A) × ((run events ≡ some h)
            × ((publish h env snap ≡ some after)
                × (((id : ℕ)
                      → lookup id after.channels ≡ (
                          if is_some (lookup id (subscribers h env))
                          then offered snap (lookup id h.channels)
                          else lookup id h.channels))
                    × ((id : ℕ) → fits (lookup id after.channels) ≡ true)))))
  publish_delivers events env snap =
      let before = run-IsSafe events in
      let sent = publish-IsSafe before.0 env snap before.1.1 in
      (before.0, (sent.0, (before.1.0, (sent.1.0, (sent.1.1.1, sent.1.1.0.fit)))))
