-- ===== src/Sdk/Client.antt =====
-- sdk/go/knobs.go: the client. What the client does to the outside (a warning, a call of a
-- listener, the start and the cancellation of the background work) is appended to `log`. A
-- listener is known by a number that stands for the callback.
use knobs.Base.{
  ℕ, suc, String, String_eq, ℕ_eq, Bool, true, false, Option, List, [], ◌∷◌, ◌++◌, if◌then◌else◌,
  ◌==◌, ◌&&◌, ◌||◌, leb, nat_eq,
}
use knobs.Assoc.{Assoc, GoMap, made, entries, or_made, insert, delete, copy_into, get}
use knobs.Delivery.Snapshot.{Snapshot}
use knobs.Delivery.Delta.{Delta}
use knobs.Sdk.Delta.{apply_delta}

pub data Effect (V : Type 0) : Type 0 where
  warned : String → String → Effect V
  called : ℕ → Assoc String V → Effect V
  launched : Effect V
  cancelled : Effect V

pub record Client (V R : Type 0) : Type 0 where
  pub expected_schema_hash : String
  pub current : Snapshot V R
  pub listeners : Assoc ℕ ℕ
  pub next_listener_id : ℕ
  pub warned_once : Bool
  pub last_warned_hash : String
  pub closed : Bool
  pub started : Bool
  pub log : List (Effect V)

-- How `fetchSnapshot` ends: an error, a 404, or a snapshot.
pub data Fetched (V R : Type 0) : Type 0 where
  failed : Fetched V R
  missing : Fetched V R
  fetched : Snapshot V R → Fetched V R

module _ {V : Type 0} where
  -- Each listener is called with its own copy of the values.
  unfoldable pub calls : Assoc ℕ ℕ → Assoc String V → List (Effect V)
  calls [] values = []
  calls ((id, callback) ∷ listeners) values =
      called callback (copy_into values []) ∷ calls listeners values

module _ {V R : Type 0} where
  abbrev pub empty_snapshot : Snapshot V R
  empty_snapshot = record {
    version = 0;
    revision = 0;
    schema_hash = "";
    values = made [];
    targeting = made [];
  }

  -- `New`, with the options that the model reads.
  unfoldable pub new : String → Client V R
  new expected = record {
    expected_schema_hash = expected;
    current = empty_snapshot;
    listeners = [];
    next_listener_id = 0;
    warned_once = false;
    last_warned_hash = "";
    closed = false;
    started = false;
    log = [];
  }

  -- The nil maps of a snapshot are replaced by empty ones.
  abbrev pub normalized : Snapshot V R → Snapshot V R
  normalized s = record s { values = or_made s.values; targeting = or_made s.targeting }

  unfoldable pub set_snapshot : Client V R → Snapshot V R → Client V R
  set_snapshot c s = record c { current = normalized s }

  unfoldable pub check_schema_drift : Client V R → Snapshot V R → Client V R
  check_schema_drift c s =
      if c.expected_schema_hash == ""
      then c
      else if s.schema_hash == c.expected_schema_hash
      then c
      else if c.warned_once && c.last_warned_hash == s.schema_hash
      then c
      else record c {
        warned_once = true;
        last_warned_hash = s.schema_hash;
        log = c.log ++ warned c.expected_schema_hash s.schema_hash ∷ [];
      }

  unfoldable pub notify_listeners : Client V R → GoMap V → Client V R
  unfolding calls
  notify_listeners c values = record c { log = c.log ++ calls c.listeners (entries values) }

  unfoldable pub apply_snapshot : Client V R → Snapshot V R → Client V R
  apply_snapshot c s =
      if leb s.revision c.current.revision
      then c
      else notify_listeners
          (check_schema_drift (record c { current = normalized s }) (normalized s))
          (or_made s.values)

  -- The part of `applyDeltaFrame` behind a failed chain: a resync that has ended in `f`.
  abbrev pub apply_fetched : Client V R → Fetched V R → Client V R
  apply_fetched c failed = c
  apply_fetched c missing = c
  apply_fetched c (fetched s) = apply_snapshot c s

  -- `base` is what the client held when the frame was looked at. The lock is released in between,
  -- so `c`, to which the result is applied, may already be a later state.
  unfoldable pub apply_delta_onto : Snapshot V R → Client V R → Fetched V R → Delta V R → Client V R
  apply_delta_onto base c f d =
      if nat_eq d.from base.revision
      then apply_snapshot c (apply_delta base d)
      else apply_fetched c f

  unfoldable pub apply_delta_frame : Client V R → Fetched V R → Delta V R → Client V R
  apply_delta_frame c f d = apply_delta_onto c.current c f d

  unfoldable pub start_background : Client V R → Client V R
  start_background c =
      if c.closed || c.started then c else record c { started = true; log = c.log ++ launched ∷ [] }

  -- `true` is an error.
  unfoldable pub ready : Client V R → Fetched V R → Client V R × Bool
  ready c failed = (c, true)
  ready c missing = (start_background (set_snapshot c empty_snapshot), false)
  ready c (fetched s) = (start_background (check_schema_drift (set_snapshot c s) s), false)

  unfoldable pub on_change : Client V R → ℕ → Client V R × ℕ
  on_change c callback = (
    record c {
      listeners = insert c.next_listener_id callback c.listeners;
      next_listener_id = suc c.next_listener_id;
    },
    c.next_listener_id,
  )

  unfoldable pub unsubscribe : Client V R → ℕ → Client V R
  unsubscribe c id = record c { listeners = delete id c.listeners }

  unfoldable pub close : Client V R → Client V R
  close c =
      if c.closed
      then c
      else if c.started
      then record c { closed = true; log = c.log ++ cancelled ∷ [] }
      else record c { closed = true }

  -- `Get` and `GetAll`
  unfoldable pub get_value : Client V R → String → Option V
  get_value c k = get k c.current.values

  unfoldable pub get_all : Client V R → Assoc String V
  get_all c = copy_into (entries c.current.values) []
