-- ===== src/Delivery/Hub/Reach.antt =====
-- internal/delivery/hub.go: what the hub keeps to, and that subscribing, publishing and reading
-- keep it.
use knobs.Base.{
  ◌≡◌, refl, sym, ◌∙◌, ap, ℕ, suc, ◌+◌, ℕ_eq, Bool, true, false, Option, none, some, [], not, ◌&&◌,
  ◌||◌, nat_eq, nat_eq_iff, is_some, if◌then◌else◌, arith, Option-cases, inl, inr,
}
use knobs.Assoc.{Assoc, lookup, insert, lookup-insert, IsMap, insert-IsMap}
use knobs.Delivery.Hub.{Hub, Channel, Cancel, subscribers_of, tail, publish, subscribe, take_oldest}
use knobs.Delivery.Hub.Safe.{
  is_open, fits, offered, leads, publish_each_lem, fit_pushed, length-tail,
}

suc_shift : (n k : ℕ) → suc n + k ≡ n + suc k
suc_shift n k = omega arith

zero_shift : (n : ℕ) → n + 0 ≡ n
zero_shift n = omega arith

-- Whether the closure that a subscriber was given is for its environment and has not been called.
abbrev pub mine : ℕ → Option ℕ → Option Cancel → Bool
mine env none k = true
mine env (some ch) none = false
mine env (some ch) (some k) = nat_eq k.env env && not k.spent

abbrev pub new_cancel : ℕ → ℕ → Cancel
new_cancel env n = record { env = env; id = n; ch = n; spent = false }

module _ {A : Type 0} where
  -- Whether the channel of a closure that has not been called is open.
  abbrev pub armed : ℕ → Option Cancel → Assoc ℕ (Channel A) → Bool
  armed n none channels = true
  armed n (some k) channels =
      nat_eq k.id n && (nat_eq k.ch n && (k.spent || is_open (lookup n channels)))

  abbrev pub subscribers : Hub A → ℕ → Assoc ℕ ℕ
  subscribers h env = subscribers_of (lookup env h.subs)

  pub record IsSafe (h : Hub A) : Type 0 where
    pub lead : (env id : ℕ) → leads id (lookup id (subscribers h env)) h.channels ≡ true
    pub own : (env id : ℕ) → mine env (lookup id (subscribers h env)) (lookup id h.cancels) ≡ true
    pub ready : (n : ℕ) → armed n (lookup n h.cancels) h.channels ≡ true
    pub fit : (n : ℕ) → fits (lookup n h.channels) ≡ true
    pub fresh_channel : (k : ℕ) → lookup (h.next + k) h.channels ≡ none
    pub fresh_cancel : (k : ℕ) → lookup (h.next + k) h.cancels ≡ none
    pub maps : (env : ℕ) → IsMap (subscribers h env)

  leads_same :
      (id : ℕ) (held : Option ℕ) (before after : Assoc ℕ (Channel A))
      → is_open (lookup id after) ≡ is_open (lookup id before)
      → leads id held before ≡ true
      → leads id held after ≡ true
  leads_same id none before after same h = refl
  leads_same id (some ch) before after same h = rw same h

  armed_same :
      (n : ℕ) (k : Option Cancel) (before after : Assoc ℕ (Channel A))
      → is_open (lookup n after) ≡ is_open (lookup n before)
      → armed n k before ≡ true
      → armed n k after ≡ true
  armed_same n none before after same h = refl
  armed_same n (some k) before after same h = rw same h

  -- The channels may change as long as none is closed or made, and none gets too long.
  recharged-IsSafe :
      (h : Hub A) (channels : Assoc ℕ (Channel A))
      → IsSafe h
      → ((n : ℕ) → is_open (lookup n channels) ≡ is_open (lookup n h.channels))
      → ((n : ℕ) → is_some (lookup n channels) ≡ is_some (lookup n h.channels))
      → ((n : ℕ) → fits (lookup n channels) ≡ true)
      → IsSafe (record h { channels = channels })
  recharged-IsSafe h channels safe same there fit = record {
    lead = λ env id.
        leads_same id (lookup id (subscribers h env)) h.channels channels (same id)
          (safe.lead env id);
    own = safe.own;
    ready = λ n. armed_same n (lookup n h.cancels) h.channels channels (same n) (safe.ready n);
    fit = fit;
    fresh_channel = λ k. ground (arith, there (h.next + k), safe.fresh_channel k);
    fresh_cancel = safe.fresh_cancel;
    maps = safe.maps;
  }

  fits-offered :
      (sub : Option ℕ) (before after : Option (Channel A)) (snap : A)
      → fits before ≡ true
      → after ≡ (if is_some sub then offered snap before else before)
      → fits after ≡ true
  fits-offered none before after snap fit h = rw h fit
  fits-offered (some ch) none after snap fit h = rw h refl
  fits-offered (some ch) (some c) after snap fit h =
      rw h (ground (arith, fit_pushed c snap (ground (arith, fit))))

  -- Publishing does not panic: each subscriber's channel is offered the snapshot, and no other one.
  pub publish-IsSafe :
      (h : Hub A) (env : ℕ) (snap : A)
      → IsSafe h
      → (after : Hub A) × ((publish h env snap ≡ some after)
          × (IsSafe after
              × ((id : ℕ)
                  → lookup id after.channels ≡ (
                      if is_some (lookup id (subscribers h env))
                      then offered snap (lookup id h.channels)
                      else lookup id h.channels))))
  unfolding publish
  publish-IsSafe h env snap safe =
      let each =
        publish_each_lem (subscribers h env) snap h.channels (safe.maps env) (safe.lead env)
          safe.fit in
      (
        record h { channels = each.0 },
        (
          rw (each.1.0, publish) refl,
          (
            recharged-IsSafe h each.0 safe (λ n. ground (arith, each.1.1 n))
                (λ n. ground (arith, each.1.1 n))
                (λ n.
                  fits-offered (lookup n (subscribers h env)) (lookup n h.channels)
                    (lookup n each.0) snap (safe.fit n) (each.1.1 n)),
            each.1.1,
          ),
        ),
      )

  pub take_oldest-IsSafe : (h : Hub A) (ch : ℕ) → IsSafe h → IsSafe (take_oldest h ch)
  unfolding take_oldest
  take_oldest-IsSafe h ch safe = elim (Option-cases (lookup ch h.channels)) [
    | inl absent ↦ rw (absent, take_oldest) safe
    | inr (c, here) ↦
        let shorter : Channel A = record c { queue = tail c.queue } in
        rw (here, take_oldest)
          (recharged-IsSafe h (insert ch shorter h.channels) safe
            (λ n. ground (arith, lookup-insert ch n shorter h.channels, nat_eq_iff ch n, here))
            (λ n. ground (arith, lookup-insert ch n shorter h.channels, nat_eq_iff ch n, here))
            (λ n. ground (
              arith,
              lookup-insert ch n shorter h.channels,
              nat_eq_iff ch n,
              here,
              safe.fit ch,
              safe.fit n,
              length-tail c.queue,
            )))
  ]

  abbrev empty_channel : Channel A
  empty_channel = record { queue = []; closed = false }

  leads_new :
      (id n : ℕ) (held : Option ℕ) (channels : Assoc ℕ (Channel A))
      → lookup n channels ≡ none
      → leads id held channels ≡ true
      → leads id held (insert n empty_channel channels) ≡ true
  leads_new id n none channels fresh h = refl
  leads_new id n (some ch) channels fresh h =
      ground (arith, lookup-insert n id empty_channel channels, nat_eq_iff n id, fresh, h)

  armed_new :
      (j n : ℕ) (k : Option Cancel) (channels : Assoc ℕ (Channel A))
      → lookup n channels ≡ none
      → armed j k channels ≡ true
      → armed j k (insert n empty_channel channels) ≡ true
  armed_new j n none channels fresh h = refl
  armed_new j n (some k) channels fresh h =
      ground (arith, lookup-insert n j empty_channel channels, nat_eq_iff n j, fresh, h)

  here_none : (h : Hub A) → IsSafe h → lookup h.next h.channels ≡ none
  here_none h safe = ap (λ n. lookup n h.channels) (sym (zero_shift h.next)) ∙ safe.fresh_channel 0

  none_yet_of : (h : Hub A) → IsSafe h → lookup h.next h.cancels ≡ none
  none_yet_of h safe = ap (λ n. lookup n h.cancels) (sym (zero_shift h.next)) ∙ safe.fresh_cancel 0

  pub subscribe-IsSafe : (h : Hub A) (env : ℕ) → IsSafe h → IsSafe (subscribe h env)
  unfolding subscribe
  subscribe-IsSafe h env safe =
      let here = here_none h safe in
      let none_yet = none_yet_of h safe in
      record {
        lead = λ env2 id. ground (
          arith,
          lookup-insert env env2 (insert h.next h.next (subscribers h env)) h.subs,
          lookup-insert h.next id h.next (subscribers h env),
          leads_new id h.next (lookup id (subscribers h env2)) h.channels here (safe.lead env2 id),
          leads_new id h.next (lookup id (subscribers h env)) h.channels here (safe.lead env id),
          lookup-insert h.next id empty_channel h.channels,
          nat_eq_iff h.next id,
          nat_eq_iff h.next h.next,
        );
        own = λ env2 id. ground (
          arith,
          lookup-insert env env2 (insert h.next h.next (subscribers h env)) h.subs,
          lookup-insert h.next id h.next (subscribers h env),
          lookup-insert h.next id (new_cancel env h.next) h.cancels,
          safe.own env2 id,
          safe.own env id,
          none_yet,
          nat_eq_iff h.next id,
          nat_eq_iff env env2,
        );
        ready = λ n. ground (
          arith,
          lookup-insert h.next n (new_cancel env h.next) h.cancels,
          armed_new n h.next (lookup n h.cancels) h.channels here (safe.ready n),
          lookup-insert h.next n empty_channel h.channels,
          nat_eq_iff h.next n,
        );
        fit = λ n. ground (arith, lookup-insert h.next n empty_channel h.channels, safe.fit n);
        fresh_channel = λ k. ground (
          arith,
          lookup-insert h.next (suc h.next + k) empty_channel h.channels,
          nat_eq_iff h.next (suc h.next + k),
          ap (λ n. lookup n h.channels) (suc_shift h.next k),
          safe.fresh_channel (suc k),
        );
        fresh_cancel = λ k. ground (
          arith,
          lookup-insert h.next (suc h.next + k) (new_cancel env h.next) h.cancels,
          nat_eq_iff h.next (suc h.next + k),
          ap (λ n. lookup n h.cancels) (suc_shift h.next k),
          safe.fresh_cancel (suc k),
        );
        maps = λ env2. ground (
          arith,
          lookup-insert env env2 (insert h.next h.next (subscribers h env)) h.subs,
          insert-IsMap h.next h.next (subscribers h env) (safe.maps env),
          safe.maps env2,
        );
      }
