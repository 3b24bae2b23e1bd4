-- ===== src/Delivery/Hub/Close.antt =====
-- internal/delivery/hub.go: a call of the closure that `Subscribe` returns.
use knobs.Base.{
  ◌≡◌, refl, ◌∙◌, ap, ℕ, ◌+◌, ℕ_eq, true, false, Option, none, some, [], ◌∷◌, nat_eq, nat_eq_iff,
  if◌then◌else◌, arith, Option-cases, Bool-cases, inl, inr,
}
use knobs.Assoc.{Assoc, lookup, insert, delete, lookup-insert, lookup-delete, delete-IsMap}
use knobs.Delivery.Hub.{Hub, Channel, Cancel, subscribers_of, cancel, cancel_once, stored, removed}
use knobs.Delivery.Hub.Reach.{IsSafe, subscribers, armed, new_cancel}
use knobs.Delivery.Hub.Safe.{leads}

stored_lem :
    (env env2 : ℕ) (m : Assoc ℕ ℕ) (subs : Assoc ℕ (Assoc ℕ ℕ))
    → subscribers_of (lookup env2 (stored env m subs))
      ≡ (if nat_eq env env2 then m else subscribers_of (lookup env2 subs))
stored_lem env env2 [] subs = ground (arith, lookup-delete env env2 subs)
stored_lem env env2 (entry ∷ m) subs = ground (arith, lookup-insert env env2 (entry ∷ m) subs)

removed_lem :
    (env env2 id : ℕ) (held : Option (Assoc ℕ ℕ)) (subs : Assoc ℕ (Assoc ℕ ℕ))
    → lookup env subs ≡ held
    → subscribers_of (lookup env2 (removed env id held subs)) ≡ (
        if nat_eq env env2
        then delete id (subscribers_of held)
        else subscribers_of (lookup env2 subs))
unfolding delete
removed_lem env env2 id none subs h = ground (arith, h, nat_eq_iff env env2)
removed_lem env env2 id (some m) subs h = stored_lem env env2 (delete id m) subs

subscribers_removed :
    (env env2 id : ℕ) (subs : Assoc ℕ (Assoc ℕ ℕ))
    → subscribers_of (lookup env2 (removed env id (lookup env subs) subs)) ≡ (
        if nat_eq env env2
        then delete id (subscribers_of (lookup env subs))
        else subscribers_of (lookup env2 subs))
subscribers_removed env env2 id subs = removed_lem env env2 id (lookup env subs) subs refl

module _ {A : Type 0} where
  -- The state after the first call of a closure, and that it is safe.
  abbrev closing : Hub A → ℕ → Cancel → Channel A → Hub A
  closing h number k c = record h {
    subs = removed k.env k.id (lookup k.env h.subs) h.subs;
    channels = insert k.ch (record c { closed = true }) h.channels;
    cancels = insert number (record k { spent = true }) h.cancels;
  }

  leads_closed :
      (id n : ℕ) (held : Option ℕ) (channels : Assoc ℕ (Channel A)) (c : Channel A)
      → nat_eq n id ≡ false
      → leads id held channels ≡ true
      → leads id held (insert n c channels) ≡ true
  leads_closed id n none channels c other h = refl
  leads_closed id n (some ch) channels c other h =
      ground (arith, lookup-insert n id c channels, nat_eq_iff n id, other, h)

  armed_closed :
      (j n : ℕ) (k : Option Cancel) (channels : Assoc ℕ (Channel A)) (c : Channel A)
      → nat_eq n j ≡ false
      → armed j k channels ≡ true
      → armed j k (insert n c channels) ≡ true
  armed_closed j n none channels c other h = refl
  armed_closed j n (some k) channels c other h =
      ground (arith, lookup-insert n j c channels, other, h)

  closing_held :
      (h : Hub A) (n env env2 id : ℕ) (c : Channel A)
      → IsSafe h
      → lookup n h.cancels ≡ some (new_cancel env n)
      → lookup id (subscribers (closing h n (new_cancel env n) c) env2)
        ≡ (if nat_eq n id then none else lookup id (subscribers h env2))
  closing_held h n env env2 id c safe found = ground (
    arith,
    subscribers_removed env env2 n h.subs,
    lookup-delete n id (subscribers h env),
    safe.own env2 id,
    nat_eq_iff n id,
    nat_eq_iff env env2,
    nat_eq_iff env2 env,
    found,
  )

  closing-leads :
      (h : Hub A) (n env env2 id : ℕ) (c : Channel A)
      → IsSafe h
      → lookup n h.cancels ≡ some (new_cancel env n)
      → leads id
          (lookup id (subscribers (closing h n (new_cancel env n) c) env2))
          (insert n (record c { closed = true }) h.channels)
        ≡ true
  closing-leads h n env env2 id c safe found = elim (Bool-cases (nat_eq n id)) [
    | inl same ↦ rw (closing_held h n env env2 id c safe found, same) refl
    | inr other ↦
        rw (closing_held h n env env2 id c safe found, other)
          (leads_closed id n (lookup id (subscribers h env2)) h.channels
            (record c { closed = true }) other (safe.lead env2 id))
  ]

  closing-IsSafe :
      (h : Hub A) (n env : ℕ) (c : Channel A)
      → IsSafe h
      → lookup n h.cancels ≡ some (new_cancel env n)
      → lookup n h.channels ≡ some c
      → IsSafe (closing h n (new_cancel env n) c)
  closing-IsSafe h n env c safe found here = record {
    lead = λ env2 id. closing-leads h n env env2 id c safe found;
    own = λ env2 id. ground (
      arith,
      subscribers_removed env env2 n h.subs,
      lookup-delete n id (subscribers h env),
      lookup-insert n id (record (new_cancel env n) { spent = true }) h.cancels,
      safe.own env2 id,
      safe.own env id,
      nat_eq_iff n id,
      nat_eq_iff env env2,
      found,
    );
    ready = λ j. ground (
      arith,
      lookup-insert n j (record (new_cancel env n) { spent = true }) h.cancels,
      nat_eq_iff n n,
      nat_eq_iff n j,
      safe.ready j,
      armed_closed j n (lookup j h.cancels) h.channels (record c { closed = true }),
    );
    fit = λ j. ground (
      arith,
      lookup-insert n j (record c { closed = true }) h.channels,
      safe.fit j,
      safe.fit n,
      here,
    );
    fresh_channel = λ k. ground (
      arith,
      lookup-insert n (h.next + k) (record c { closed = true }) h.channels,
      nat_eq_iff n (h.next + k),
      safe.fresh_channel k,
      here,
    );
    fresh_cancel = λ k. ground (
      arith,
      lookup-insert n (h.next + k) (record (new_cancel env n) { spent = true }) h.cancels,
      nat_eq_iff n (h.next + k),
      safe.fresh_cancel k,
      found,
    );
    maps = λ env2. ground (
      arith,
      subscribers_removed env env2 n h.subs,
      delete-IsMap n (subscribers h env) (safe.maps env),
      safe.maps env2,
    );
  }

  -- A call of a closure never panics: the first closes its channel, a later one does nothing.
  pub cancel-IsSafe :
      (h : Hub A) (n : ℕ) → IsSafe h → (after : Hub A) × ((cancel h n ≡ some after) × IsSafe after)
  unfolding cancel cancel_once
  cancel-IsSafe h n safe = elim (Option-cases (lookup n h.cancels)) [
    | inl absent ↦ (h, (rw (absent, cancel) refl, safe))
    | inr (k, found) ↦ elim (Bool-cases k.spent) [
      | inl spent ↦ (h, (rw (found, cancel, spent) refl, safe))
      | inr fresh ↦ elim (Option-cases (lookup n h.channels)) [
        | inl absent ↦ ground (arith, safe.ready n, found, fresh, absent)
        | inr (c, here) ↦
            let same : k ≡ new_cancel k.env n =
              ground (arith, safe.ready n, found, fresh, nat_eq_iff k.id n, nat_eq_iff k.ch n) in
            let opened : c.closed ≡ false = ground (arith, safe.ready n, found, fresh, here) in
            (
              closing h n (new_cancel k.env n) c,
              (
                rw (found ∙ ap some same, cancel, cancel_once, here, opened) refl,
                closing-IsSafe h n k.env c safe (found ∙ ap some same) here,
              ),
            )
      ]
    ]
  ]
