-- ===== src/Delivery/Listener/Loop.antt =====
-- internal/delivery/listener.go: `Run` and `listenOnce`. What the connection, the context and the
-- other goroutines do comes in as data, round by round; the delays are left out.
use knobs.Base.{
  ◌≡◌, refl, ap, ◌∙◌, ℕ, zero, suc, ◌+◌, ◌<◌, ◌≤◌, String, Bool, true, false, Option, none, some,
  List, [], ◌∷◌, ◌||◌, Bool-cases, Option-cases, inl, inr, arith,
}
use knobs.Base.Text.{Text}
use knobs.Store.{Db}
use knobs.Delivery.Snapshot.{Snapshot}
use knobs.Delivery.Hub.{Hub}
use knobs.Delivery.Hub.Reach.{IsSafe, publish-IsSafe}
use knobs.Delivery.Hub.Run.{Event, step, step-IsSafe}
use knobs.Delivery.Listener.{parse_payload, load_snapshot, publish_loaded, on_notification}

-- A notification: what others have done to the hub before it, the tables when it is handled, and its
-- payload.
pub record Heard (S V R : Type 0) : Type 0 where
  pub others : List (Event (Snapshot V R))
  pub tables : Db S V R
  pub payload : Text

-- How `listenOnce` goes: it cannot connect, LISTEN fails, or notifications arrive until an error.
pub data Session (S V R : Type 0) : Type 0 where
  no_connection no_listen : Session S V R
  heard : List (Heard S V R) → Session S V R

-- A round of the loop, with whether the context is cancelled when it begins, when `listenOnce` has
-- returned, and during the delay.
pub record Round (S V R : Type 0) : Type 0 where
  pub done_before : Bool
  pub session : Session S V R
  pub done_after : Bool
  pub done_waiting : Bool

-- `running` is what some rounds have not sufficed for.
pub data Ended (A : Type 0) : Type 0 where
  returned : Hub A → Ended A
  panicked running : Ended A

abbrev pub is_cancelled : {S V R : Type 0} → Round S V R → Bool
is_cancelled r = r.done_before || r.done_after || r.done_waiting

unfoldable pub steps : {A : Type 0} → Hub A → List (Event A) → Option (Hub A)
steps hub [] = some hub
steps hub (event ∷ events) = elim (step hub event) [ none ↦ none | some h ↦ steps h events ]

module _ {S V R : Type 0} (no_fields : S) (schema_hash : S → String)
    (parse_id : Text → Option ℕ) where
  unfoldable pub hear : Hub (Snapshot V R) → Heard S V R → Option (Hub (Snapshot V R))
  hear hub n = elim (steps hub n.others) [
    | none ↦ none
    | some h ↦ (on_notification no_fields schema_hash parse_id n.tables h n.payload).1
  ]

  unfoldable pub pump : Hub (Snapshot V R) → List (Heard S V R) → Option (Hub (Snapshot V R))
  pump hub [] = some hub
  pump hub (n ∷ notifications) = elim (hear hub n) [ none ↦ none | some h ↦ pump h notifications ]

  unfoldable pub listen_once : Hub (Snapshot V R) → Session S V R → Option (Hub (Snapshot V R))
  listen_once hub Session.no_connection = some hub
  listen_once hub Session.no_listen = some hub
  listen_once hub (heard notifications) = pump hub notifications

  -- The rounds from `i` on, of which so many are run.
  unfoldable pub run_listener :
      (ℕ → Round S V R) → ℕ → ℕ → Hub (Snapshot V R) → Ended (Snapshot V R)
  run_listener rounds zero i hub = running
  run_listener rounds (suc left) i hub = elim (rounds i).done_before [
    | true ↦ returned hub
    | false ↦ elim (listen_once hub (rounds i).session) [
      | none ↦ panicked
      | some h ↦ elim ((rounds i).done_after || (rounds i).done_waiting) [
        | true ↦ returned h
        | false ↦ run_listener rounds left (suc i) h
      ]
    ]
  ]

  -- A hub that there is, and safe.
  abbrev IsFine : Option (Hub (Snapshot V R)) → Type 0
  IsFine o = (h : Hub (Snapshot V R)) × (o ≡ some h) × IsSafe h

  steps-IsFine :
      (hub : Hub (Snapshot V R)) (events : List (Event (Snapshot V R)))
      → IsSafe hub
      → IsFine (steps hub events)
  unfolding steps
  steps-IsFine hub [] safe = (hub, refl, safe)
  steps-IsFine hub (event ∷ events) safe =
      let (h, (same, kept)) = step-IsSafe hub event safe in
      rw (same, steps) (steps-IsFine h events kept)

  loaded-IsFine :
      (hub : Hub (Snapshot V R)) (env : ℕ) (loaded : Db S V R × Option (Snapshot V R))
      → IsSafe hub
      → IsFine (publish_loaded no_fields schema_hash hub env loaded).1
  loaded-IsFine hub env (db, none) safe = (hub, refl, safe)
  loaded-IsFine hub env (db, some snap) safe =
      let sent = publish-IsSafe hub env snap safe in (sent.0, sent.1.0, sent.1.1.0)

  notified-IsFine :
      (db : Db S V R) (hub : Hub (Snapshot V R)) (text : Text)
      → IsSafe hub
      → IsFine (on_notification no_fields schema_hash parse_id db hub text).1
  unfolding on_notification
  notified-IsFine db hub text safe = elim (Option-cases (parse_payload parse_id text)) [
    | inl bad ↦ rw (bad, on_notification) (hub, refl, safe)
    | inr (env, parsed) ↦
        rw (parsed, on_notification)
          (loaded-IsFine hub env (load_snapshot no_fields schema_hash db env) safe)
  ]

  hear-IsFine : (hub : Hub (Snapshot V R)) (n : Heard S V R) → IsSafe hub → IsFine (hear hub n)
  unfolding hear
  hear-IsFine hub n safe =
      let (h, same, kept) = steps-IsFine hub n.others safe in
      rw (same, hear) (notified-IsFine n.tables h n.payload kept)

  pump-IsFine :
      (hub : Hub (Snapshot V R)) (notifications : List (Heard S V R))
      → IsSafe hub
      → IsFine (pump hub notifications)
  unfolding pump
  pump-IsFine hub [] safe = (hub, refl, safe)
  pump-IsFine hub (n ∷ notifications) safe =
      let (h, same, kept) = hear-IsFine hub n safe in
      rw (same, pump) (pump-IsFine h notifications kept)

  listen_once-IsFine :
      (hub : Hub (Snapshot V R)) (session : Session S V R)
      → IsSafe hub
      → IsFine (listen_once hub session)
  unfolding listen_once
  listen_once-IsFine hub Session.no_connection safe = (hub, refl, safe)
  listen_once-IsFine hub Session.no_listen safe = (hub, refl, safe)
  listen_once-IsFine hub (heard notifications) safe = pump-IsFine hub notifications safe

  -- The loop has returned with a hub that is safe.
  abbrev pub HasReturned : Ended (Snapshot V R) → Type 0
  HasReturned o = (h : Hub (Snapshot V R)) × (o ≡ returned h) × IsSafe h

  -- Rounds that find the context alive lead to the next one.
  run_listener-on :
      (rounds : ℕ → Round S V R) (i : ℕ) (hub : Hub (Snapshot V R))
      → IsSafe hub
      → is_cancelled (rounds i) ≡ false
      → (h : Hub (Snapshot V R)) × ((left : ℕ)
          → run_listener rounds (suc left) i hub ≡ run_listener rounds left (suc i) h)
        × IsSafe h
  unfolding run_listener
  run_listener-on rounds i hub safe alive =
      let (h, same, kept) = listen_once-IsFine hub (rounds i).session safe in
      (h, λ left. ground (arith, alive, same), kept)

  -- A round that finds it cancelled is the last.
  run_listener-last :
      (rounds : ℕ → Round S V R) (left i : ℕ) (hub : Hub (Snapshot V R))
      → IsSafe hub
      → is_cancelled (rounds i) ≡ true
      → HasReturned (run_listener rounds (suc left) i hub)
  unfolding run_listener
  run_listener-last rounds left i hub safe cancelled =
      let (h, same, kept) = listen_once-IsFine hub (rounds i).session safe in
      elim (Bool-cases (rounds i).done_before) [
        | inl early ↦ rw (early, run_listener) (hub, refl, safe)
        | inr late ↦ (h, ground (arith, late, cancelled, same), kept)
      ]

  run_listener-from :
      (rounds : ℕ → Round S V R) (k i : ℕ) (hub : Hub (Snapshot V R))
      → IsSafe hub
      → ((j : ℕ) → j < i + k → i ≤ j → is_cancelled (rounds j) ≡ false)
      → is_cancelled (rounds (i + k)) ≡ true
      → HasReturned (run_listener rounds (suc k) i hub) × (run_listener rounds k i hub ≡ running)
  unfolding run_listener
  run_listener-from rounds zero i hub safe alive cancelled = (
    run_listener-last rounds 0 i hub safe
        (ap (λ j. is_cancelled (rounds j)) (omega arith) ∙ cancelled),
    refl,
  )
  run_listener-from rounds (suc k) i hub safe alive cancelled =
      let here = alive i (omega arith) (omega arith) in
      let (h, same, kept) = run_listener-on rounds i hub safe here in
      let ((g, ended, fine), before) =
        run_listener-from rounds k (suc i) h kept
          (λ j below above. alive j (omega arith) (omega arith))
          (ap (λ j. is_cancelled (rounds j)) (omega arith) ∙ cancelled) in
      ((g, same (suc k) ∙ ended, fine), same k ∙ before)

  -- Whatever is notified, however connections fail and whatever others do to a hub on which nothing
  -- has panicked: the loop returns in the first round in which the context is found cancelled, with
  -- nothing panicked, and in no round before.
  pub run_listener-returns :
      (rounds : ℕ → Round S V R) (k : ℕ) (hub : Hub (Snapshot V R))
      → IsSafe hub
      → ((j : ℕ) → j < k → is_cancelled (rounds j) ≡ false)
      → is_cancelled (rounds k) ≡ true
      → HasReturned (run_listener rounds (suc k) 0 hub) × (run_listener rounds k 0 hub ≡ running)
  run_listener-returns rounds k hub safe alive cancelled =
      run_listener-from rounds k 0 hub safe (λ j below above. alive j (omega arith))
        (ap (λ j. is_cancelled (rounds j)) (omega arith) ∙ cancelled)
