-- ===== src/Delivery/HubTests.antt =====
-- The hub with two subscribers, one of which has left.
use knobs.Base.{◌≡◌, refl, ℕ, ℕ_eq, true, Option, some, List, [], ◌∷◌, if◌then◌else◌, is_some}
use knobs.Assoc.{lookup, insert, delete}
use knobs.Delivery.Hub.{Hub, publish, publish_each, offer, subscribe, cancel, cancel_once}
use knobs.Delivery.Hub.Safe.{fits, offered}
use knobs.Delivery.Hub.Reach.{subscribers}
use knobs.Delivery.Hub.Run.{
  Event, subscribed, published, cancelled, new_hub, run, step, publish_delivers,
}

-- Subscriber 0 falls behind by five snapshots; subscriber 1 leaves, twice.
abbrev traffic : List (Event ℕ)
traffic =
    published 8 15
    ∷ published 8 14
    ∷ cancelled 1
    ∷ cancelled 1
    ∷ published 8 13
    ∷ published 8 12
    ∷ published 8 11
    ∷ subscribed 8
    ∷ subscribed 8
    ∷ []

abbrev queue_of : Option (Hub ℕ) → ℕ → Option (List ℕ)
queue_of h id = elim h [
  | Option.none ↦ Option.none
  | Option.some g ↦ elim (lookup id g.channels) [
    | Option.none ↦ Option.none
    | Option.some c ↦ some c.queue
  ]
]

oldest_dropped : queue_of (run traffic) 0 ≡ some (12 ∷ 13 ∷ 14 ∷ 15 ∷ [])
unfolding run new_hub publish publish_each offer subscribe cancel cancel_once lookup insert delete
    step
oldest_dropped = refl

left_behind : queue_of (run traffic) 1 ≡ some (11 ∷ 12 ∷ 13 ∷ [])
unfolding run new_hub publish publish_each offer subscribe cancel cancel_once lookup insert delete
    step
left_behind = refl

publish_delivers_example :
    (h : Hub ℕ) × ((after : Hub ℕ) × ((run traffic ≡ some h)
        × ((publish h 8 16 ≡ some after)
            × (((id : ℕ)
                  → lookup id after.channels ≡ (
                      if is_some (lookup id (subscribers h 8))
                      then offered 16 (lookup id h.channels)
                      else lookup id h.channels))
                × ((id : ℕ) → fits (lookup id after.channels) ≡ true)))))
publish_delivers_example = publish_delivers traffic 8 16
