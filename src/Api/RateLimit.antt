-- ===== src/Api/RateLimit.antt =====
-- internal/api/ratelimit.go: the sliding window of failed logins. A time is a number of ticks; that
-- a hit is after `now - window` is written without the subtraction.
pub mod Window
use knobs.Base.{
  ℕ, ◌+◌, String, String_eq, Bool, true, false, Option, none, some, List, [], ◌∷◌, ◌++◌, ltb, leb,
  length, if◌then◌else◌,
}
use knobs.Assoc.{Assoc, lookup, insert}

pub record Limiter : Type 0 where
  pub max_attempts : ℕ
  pub window : ℕ
  pub hits : Assoc String (List ℕ)

unfoldable pub new_login_limiter : ℕ → ℕ → Limiter
new_login_limiter max_attempts window = record {
  max_attempts = max_attempts;
  window = window;
  hits = [];
}

-- The hits under a key; a missing one reads as nil.
abbrev pub hits_of : Option (List ℕ) → List ℕ
hits_of none = []
hits_of (some times) = times

-- The loop of `pruneLocked`.
unfoldable pub prune : ℕ → ℕ → List ℕ → List ℕ
prune window now [] = []
prune window now (h ∷ times) =
    let rest = prune window now times in if ltb now (h + window) then h ∷ rest else rest

unfoldable pub prune_locked : Limiter → String → ℕ → List ℕ
prune_locked l key now = prune l.window now (hits_of (lookup key l.hits))

unfoldable pub allow : Limiter → String → ℕ → Limiter × Bool
allow l key now =
    let kept = prune_locked l key now in
    if leb l.max_attempts (length kept)
    then (record l { hits = insert key kept l.hits }, false)
    else (record l { hits = insert key (kept ++ now ∷ []) l.hits }, true)

unfoldable pub under_limit : Limiter → String → ℕ → Limiter × Bool
under_limit l key now =
    let kept = prune_locked l key now in
    (record l { hits = insert key kept l.hits }, ltb (length kept) l.max_attempts)
