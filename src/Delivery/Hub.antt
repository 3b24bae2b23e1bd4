-- ===== src/Delivery/Hub.antt =====
-- internal/delivery/hub.go: the fan-out to the subscribers of an environment. A channel is known by
-- a number, and so is the closure that `Subscribe` returns, whose captured variables and `sync.Once`
-- are a row of `cancels`. What panics is `none`. Every operation holds the mutex for its whole run,
-- but for the reader's receive, which is a step of its own.
pub mod Safe
pub mod Reach
pub mod Close
pub mod Run
use knobs.Base.{
  ℕ, suc, ℕ_eq, Bool, true, false, Option, none, some, List, [], ◌∷◌, ◌++◌, ltb, length,
  if◌then◌else◌,
}
use knobs.Assoc.{Assoc, lookup, insert, delete}

abbrev pub subscriber_buffer : ℕ
subscriber_buffer = 4

-- A buffered channel of snapshots of type `A`.
pub record Channel (A : Type 0) : Type 0 where
  pub queue : List A
  pub closed : Bool

pub record Cancel : Type 0 where
  pub env : ℕ
  pub id : ℕ
  pub ch : ℕ
  pub spent : Bool

pub record Hub (A : Type 0) : Type 0 where
  pub subs : Assoc ℕ (Assoc ℕ ℕ)
  pub next : ℕ
  pub channels : Assoc ℕ (Channel A)
  pub cancels : Assoc ℕ Cancel

-- The subscribers of an environment; a missing one reads as a nil map.
abbrev pub subscribers_of : Option (Assoc ℕ ℕ) → Assoc ℕ ℕ
subscribers_of none = []
subscribers_of (some m) = m

-- `delete(m, id)`, and the whole map if it is empty then.
abbrev pub stored : ℕ → Assoc ℕ ℕ → Assoc ℕ (Assoc ℕ ℕ) → Assoc ℕ (Assoc ℕ ℕ)
stored env [] subs = delete env subs
stored env (entry ∷ m) subs = insert env (entry ∷ m) subs

abbrev pub removed : ℕ → ℕ → Option (Assoc ℕ ℕ) → Assoc ℕ (Assoc ℕ ℕ) → Assoc ℕ (Assoc ℕ ℕ)
removed env id none subs = subs
removed env id (some m) subs = stored env (delete id m) subs

module _ {A : Type 0} where
  -- `case ch <- snap`, else `case <-ch`, then `case ch <- snap` again. A send on a closed channel
  -- panics.
  abbrev pub tail : List A → List A
  tail [] = []
  tail (s ∷ queue) = queue

  unfoldable pub offer : Channel A → A → Option (Channel A)
  offer c snap =
      if c.closed
      then none
      else if ltb (length c.queue) subscriber_buffer
      then some (record c { queue = c.queue ++ snap ∷ [] })
      else if ltb (length (tail c.queue)) subscriber_buffer
      then some (record c { queue = tail c.queue ++ snap ∷ [] })
      else some (record c { queue = tail c.queue })

  abbrev pub offer_at : Option (Channel A) → A → Option (Channel A)
  offer_at none snap = none
  offer_at (some c) snap = offer c snap

  -- `for _, ch := range h.subs[envID]`
  unfoldable pub publish_each : Assoc ℕ ℕ → A → Assoc ℕ (Channel A) → Option (Assoc ℕ (Channel A))
  publish_each [] snap channels = some channels
  publish_each ((id, ch) ∷ m) snap channels = elim (offer_at (lookup ch channels) snap) [
    | none ↦ none
    | some c ↦ publish_each m snap (insert ch c channels)
  ]

  unfoldable pub publish : Hub A → ℕ → A → Option (Hub A)
  publish h env snap = elim (publish_each (subscribers_of (lookup env h.subs)) snap h.channels) [
    | none ↦ none
    | some channels ↦ some (record h { channels = channels })
  ]

  -- The new channel's number is `next`, which no other channel has.
  unfoldable pub subscribe : Hub A → ℕ → Hub A
  subscribe h env = record {
    subs = insert env (insert h.next h.next (subscribers_of (lookup env h.subs))) h.subs;
    next = suc h.next;
    channels = insert h.next (record { queue = []; closed = false }) h.channels;
    cancels =
        insert h.next (record { env = env; id = h.next; ch = h.next; spent = false }) h.cancels;
  }

  -- The first call of a `cancel`. A close of a closed channel panics.
  unfoldable pub cancel_once : Hub A → ℕ → Cancel → Option (Hub A)
  cancel_once h number k = elim (lookup k.ch h.channels) [
    | none ↦ none
    | some c ↦
        if c.closed
        then none
        else some (record h {
          subs = removed k.env k.id (lookup k.env h.subs) h.subs;
          channels = insert k.ch (record c { closed = true }) h.channels;
          cancels = insert number (record k { spent = true }) h.cancels;
        })
  ]

  -- A call of the closure with a number; one that does not exist cannot be called.
  unfoldable pub cancel : Hub A → ℕ → Option (Hub A)
  cancel h number = elim (lookup number h.cancels) [
    | none ↦ some h
    | some k ↦ if k.spent then some h else cancel_once h number k
  ]

  -- A reader takes the oldest snapshot; an empty channel blocks it, which is no step.
  unfoldable pub take_oldest : Hub A → ℕ → Hub A
  take_oldest h ch = elim (lookup ch h.channels) [
    | none ↦ h
    | some c ↦ record h { channels = insert ch (record c { queue = tail c.queue }) h.channels }
  ]
