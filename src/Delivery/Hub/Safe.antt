-- ===== src/Delivery/Hub/Safe.antt =====
-- internal/delivery/hub.go: publishing never panics, and brings the newest snapshot to every
-- subscriber.
use knobs.Base.{
  ◌≡◌, refl, ℕ, ◌≤◌, ◌<◌, ℕ_eq, Bool, true, false, Option, none, some, List, [], ◌∷◌, ◌++◌, ltb,
  leb, not, ◌&&◌, nat_eq, nat_eq_iff, is_some, length, length-append, if◌then◌else◌, arith,
  Option-cases, inl, inr,
}
use knobs.Assoc.{Assoc, lookup, insert, lookup-insert, IsMap}
use knobs.Delivery.Hub.{Channel, subscriber_buffer, tail, offer, offer_at, publish_each}

module _ {A : Type 0} where
  abbrev pub is_open : Option (Channel A) → Bool
  is_open none = false
  is_open (some c) = not c.closed

  abbrev pub fits : Option (Channel A) → Bool
  fits none = true
  fits (some c) = leb (length c.queue) subscriber_buffer

  -- What a full channel drops.
  abbrev pub room : List A → List A
  room queue = if ltb (length queue) subscriber_buffer then queue else tail queue

  -- A channel that has been offered a snapshot.
  abbrev pub offered : A → Option (Channel A) → Option (Channel A)
  offered snap none = none
  offered snap (some c) = some (record c { queue = room c.queue ++ snap ∷ [] })

  pub length-tail : (queue : List A) → length (tail queue) ≤ length queue
  length-tail [] = omega arith
  length-tail (s ∷ queue) = omega arith

  length-room : (queue : List A) → length queue ≤ 4 → length (room queue) < 4
  length-room [] h = omega arith
  length-room (s ∷ queue) h = ground arith

  offer_open :
      (c : Channel A) (snap : A)
      → c.closed ≡ false
      → length c.queue ≤ 4
      → offer c snap ≡ some (record c { queue = room c.queue ++ snap ∷ [] })
  unfolding offer
  offer_open c snap opened fit = ground (arith, length-room c.queue fit)

  offer_at_open :
      (held : Option (Channel A)) (snap : A)
      → is_open held ≡ true
      → fits held ≡ true
      → offer_at held snap ≡ offered snap held
  offer_at_open none snap opened fit = ground arith
  offer_at_open (some c) snap opened fit = offer_open c snap (ground arith) (ground arith)

  -- Whether the entry of a subscriber, if there is one, leads to its own channel, which is open.
  abbrev pub leads : ℕ → Option ℕ → Assoc ℕ (Channel A) → Bool
  leads id none channels = true
  leads id (some ch) channels = nat_eq ch id && is_open (lookup id channels)

  abbrev pub pushed : A → Channel A → Channel A
  pushed snap c = record c { queue = room c.queue ++ snap ∷ [] }

  pub fit_pushed :
      (c : Channel A) (snap : A) → length c.queue ≤ 4 → length (pushed snap c).queue ≤ 4
  fit_pushed c snap fit =
      ground (arith, length-room c.queue fit, length-append (room c.queue) (snap ∷ []))

  leads_on :
      (j id : ℕ) (held : Option ℕ) (channels : Assoc ℕ (Channel A)) (c : Channel A) (snap : A)
      → leads j held channels ≡ true
      → lookup id channels ≡ some c
      → leads j held (insert id (pushed snap c) channels) ≡ true
  leads_on j id none channels c snap lead here = refl
  leads_on j id (some ch) channels c snap lead here =
      ground (arith, lookup-insert id j (pushed snap c) channels, nat_eq_iff id j, here, lead)

  fits_on :
      (j id : ℕ) (channels : Assoc ℕ (Channel A)) (c : Channel A) (snap : A)
      → ((i : ℕ) → fits (lookup i channels) ≡ true)
      → lookup id channels ≡ some c
      → fits (lookup j (insert id (pushed snap c) channels)) ≡ true
  fits_on j id channels c snap fit here = ground (
    arith,
    lookup-insert id j (pushed snap c) channels,
    fit j,
    fit_pushed c snap (ground (arith, fit id, here)),
  )

  -- Every subscriber's channel is offered the snapshot once, and no other one is touched.
  pub publish_each_lem :
      (m : Assoc ℕ ℕ) (snap : A) (channels : Assoc ℕ (Channel A))
      → IsMap m
      → ((id : ℕ) → leads id (lookup id m) channels ≡ true)
      → ((id : ℕ) → fits (lookup id channels) ≡ true)
      → (after : Assoc ℕ (Channel A)) × ((publish_each m snap channels ≡ some after)
          × ((id : ℕ)
              → lookup id after ≡ (
                  if is_some (lookup id m)
                  then offered snap (lookup id channels)
                  else lookup id channels)))
  unfolding publish_each lookup
  publish_each_lem [] snap channels map lead fit = (channels, (refl, λ id. refl))
  publish_each_lem ((id, ch) ∷ m) snap channels (fresh, map) lead fit =
      elim (Option-cases (lookup id channels)) [
        | inl absent ↦ ground (arith, lead id, nat_eq_iff id id, absent)
        | inr (c, here) ↦
            let same : ch ≡ id = ground (arith, lead id, nat_eq_iff id id, nat_eq_iff ch id) in
            let sent : offer_at (lookup ch channels) snap ≡ some (pushed snap c) =
              rw (same, here)
                (offer_at_open (some c) snap (ground (arith, lead id, nat_eq_iff id id, here))
                  (ground (arith, fit id, here))) in
            let rest =
              publish_each_lem m snap (insert ch (pushed snap c) channels) map
                (λ j. rw same (
                  leads_on j id (lookup j m) channels c snap
                    (ground (arith, lead j, fresh, nat_eq_iff id j)) here))
                (λ j. rw same (fits_on j id channels c snap fit here)) in
            (
              rest.0,
              (
                rw (sent, publish_each) rest.1.0,
                λ j. ground (
                  arith,
                  rest.1.1 j,
                  lookup-insert ch j (pushed snap c) channels,
                  same,
                  fresh,
                  here,
                  nat_eq_iff id j,
                  nat_eq_iff ch j,
                ),
              ),
            )
      ]
