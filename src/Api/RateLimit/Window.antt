-- ===== src/Api/RateLimit/Window.antt =====
-- internal/api/ratelimit.go: the bound over any sequence of calls.
use knobs.Base.{
  ◌≡◌, refl, ◌∙◌, ap, ℕ, suc, ◌+◌, ◌≤◌, ◌<◌, Bool-cases, inl, inr, String, String_eq, Bool, none,
  List, [], ◌∷◌, ◌++◌, ltb, length, length-append, ◌&&◌, ◌==◌, if◌then◌else◌, arith, eq_iff,
}
use knobs.Assoc.{lookup, insert, lookup-insert}
use knobs.Api.RateLimit.{
  Limiter, new_login_limiter, hits_of, prune, prune_locked, allow, under_limit,
}

prune-append :
    (w now : ℕ) (xs ys : List ℕ) → prune w now (xs ++ ys) ≡ prune w now xs ++ prune w now ys
unfolding prune
prune-append w now [] ys = refl
prune-append w now (x ∷ xs) ys = ground (arith, prune-append w now xs ys)

-- To prune twice, at two moments, is to prune at the later one.
prune-prune :
    (w now later : ℕ) (xs : List ℕ)
    → now ≤ later
    → prune w later (prune w now xs) ≡ prune w later xs
unfolding prune
prune-prune w now later [] h = refl
prune-prune w now later (x ∷ xs) h = ground (arith, prune-prune w now later xs h)

pub length-prune : (w now : ℕ) (xs : List ℕ) → length (prune w now xs) ≤ length xs
unfolding prune
length-prune w now [] = omega arith
length-prune w now (x ∷ xs) = ground (arith, length-prune w now xs)

-- A call: whether it is `allow`, its key and its time.
pub record Call : Type 0 where
  pub records : Bool
  pub key : String
  pub time : ℕ

unfoldable pub call : Limiter → Call → Limiter × Bool
call l c = if c.records then allow l c.key c.time else under_limit l c.key c.time

-- The state after some calls, the last of which stands first, and the times at which `allow` has
-- let a key through.
unfoldable pub after : Limiter → List Call → Limiter
after l [] = l
after l (c ∷ calls) = (call (after l calls) c).0

unfoldable pub allowed : String → Limiter → List Call → List ℕ
allowed key l [] = []
allowed key l (c ∷ calls) =
    let earlier = allowed key l calls in
    if c.records && (c.key == key) && (call (after l calls) c).1
    then earlier ++ c.time ∷ []
    else earlier

-- The clock has not run backwards, and now shows `now`.
abbrev pub IsClock : ℕ → List Call → Type 0
IsClock now [] = Unit
IsClock now (c ∷ calls) = (c.time ≤ now) × IsClock c.time calls

IsClock-later :
    (now later : ℕ) (calls : List Call) → now ≤ later → IsClock now calls → IsClock later calls
IsClock-later now later [] h clock = tt
IsClock-later now later (c ∷ calls) h clock = ground arith

append_nil : (xs : List ℕ) → xs ++ [] ≡ xs
append_nil [] = refl
append_nil (x ∷ xs) = ap (x ∷◌) (append_nil xs)

-- What a key holds after another list has been stored under the key of a call.
hits-stored :
    (l : Limiter) (stored key : String) (now : ℕ) (more : List ℕ)
    → hits_of (lookup key (insert stored (prune_locked l stored now ++ more) l.hits)) ≡ (
        if stored == key
        then prune l.window now (hits_of (lookup key l.hits)) ++ more
        else hits_of (lookup key l.hits))
unfolding prune_locked
hits-stored l stored key now more = ground (
  arith,
  lookup-insert stored key (prune l.window now (hits_of (lookup stored l.hits)) ++ more) l.hits,
  eq_iff stored key,
)

hits-call :
    (l : Limiter) (c : Call) (key : String)
    → hits_of (lookup key (call l c).0.hits) ≡ (
        if c.key == key
        then prune l.window c.time (hits_of (lookup key l.hits))
          ++ (if c.records && (call l c).1 then c.time ∷ [] else [])
        else hits_of (lookup key l.hits))
unfolding call allow under_limit
hits-call l c key = ground (
  arith,
  hits-stored l c.key key c.time [],
  hits-stored l c.key key c.time (c.time ∷ []),
  append_nil (prune_locked l c.key c.time),
  append_nil (prune l.window c.time (hits_of (lookup key l.hits))),
)

window-call : (l : Limiter) (c : Call) → (call l c).0.window ≡ l.window
unfolding call allow under_limit
window-call l c = ground arith

max-call : (l : Limiter) (c : Call) → (call l c).0.max_attempts ≡ l.max_attempts
unfolding call allow under_limit
max-call l c = ground arith

window-after : (l : Limiter) (calls : List Call) → (after l calls).window ≡ l.window
unfolding after
window-after l [] = refl
window-after l (c ∷ calls) = window-call (after l calls) c ∙ window-after l calls

max-after : (l : Limiter) (calls : List Call) → (after l calls).max_attempts ≡ l.max_attempts
unfolding after
max-after l [] = refl
max-after l (c ∷ calls) = max-call (after l calls) c ∙ max-after l calls

-- What is kept under a key is, as far as it is in the window still, what was let through.
hits-after :
    (l : Limiter) (key : String) (calls : List Call) (now : ℕ)
    → lookup key l.hits ≡ none
    → IsClock now calls
    → prune l.window now (hits_of (lookup key (after l calls).hits))
      ≡ prune l.window now (allowed key l calls)
unfolding after allowed
hits-after l key [] now fresh clock = rw fresh refl
hits-after l key (c ∷ calls) now fresh (past, clock) = ground (
  arith,
  hits-call (after l calls) c key,
  window-after l calls,
  hits-after l key calls now fresh (IsClock-later c.time now calls past clock),
  prune-prune l.window c.time now (hits_of (lookup key (after l calls).hits)) past,
  prune-append l.window now (prune l.window c.time (hits_of (lookup key (after l calls).hits)))
      (c.time ∷ []),
  append_nil (prune l.window c.time (hits_of (lookup key (after l calls).hits))),
  prune-append l.window now (allowed key l calls) (c.time ∷ []),
)

length-hits-call :
    (l : Limiter) (c : Call)
    → ((key : String) → length (hits_of (lookup key l.hits)) ≤ l.max_attempts)
    → (key : String) → length (hits_of (lookup key (call l c).0.hits)) ≤ l.max_attempts
unfolding call allow under_limit prune_locked
length-hits-call l c bound key =
    let kept = prune l.window c.time (hits_of (lookup c.key l.hits)) in
    ground (
      arith,
      lookup-insert c.key key kept l.hits,
      lookup-insert c.key key (kept ++ c.time ∷ []) l.hits,
      length-append kept (c.time ∷ []),
      length-prune l.window c.time (hits_of (lookup c.key l.hits)),
      bound key,
      bound c.key,
    )

length-hits-after :
    (l : Limiter) (calls : List Call)
    → ((key : String) → length (hits_of (lookup key l.hits)) ≤ l.max_attempts)
    → (key : String) → length (hits_of (lookup key (after l calls).hits)) ≤ l.max_attempts
unfolding after
length-hits-after l [] bound key = bound key
length-hits-after l (c ∷ calls) bound key = ground (
  arith,
  length-hits-call (after l calls) c
      (λ k. ground (arith, length-hits-after l calls bound k, max-after l calls)) key,
  max-after l calls,
)

-- However `allow` and `underLimit` are called, as long as the clock does not run backwards, no more
-- than the maximum of attempts under a key has been let through within the window that ends now.
pub allowed_bound :
    (max_attempts window : ℕ) (calls : List Call) (key : String) (now : ℕ)
    → IsClock now calls
    → length (prune window now (allowed key (new_login_limiter max_attempts window) calls))
      ≤ max_attempts
unfolding new_login_limiter lookup
allowed_bound max_attempts window calls key now clock =
    let l = new_login_limiter max_attempts window in
    ground (
      arith,
      hits-after l key calls now refl clock,
      length-prune window now (hits_of (lookup key (after l calls).hits)),
      length-hits-after l calls (λ k. omega arith) key,
    )

-- The times among some that are less than a window before `now`: those `t` with `now - t < window`.
abbrev pub IsWithin : ℕ → ℕ → ℕ → Type 0
IsWithin window now time = now < time + window

-- How many of them there are.
pub data Counts (window now : ℕ) : List ℕ → ℕ → Type 0 where
  nothing : Counts window now [] 0
  counted :
      {time n : ℕ} {times : List ℕ}
      → IsWithin window now time
      → Counts window now times n
      → Counts window now (time ∷ times) (suc n)
  passed :
      {time n : ℕ} {times : List ℕ}
      → ¬ IsWithin window now time
      → Counts window now times n
      → Counts window now (time ∷ times) n

Counts-prune :
    (window now : ℕ) (times : List ℕ) → Counts window now times (length (prune window now times))
unfolding prune
Counts-prune window now [] = nothing
Counts-prune window now (time ∷ times) = elim (Bool-cases (ltb now (time + window))) [
  | inl within ↦ rw within (counted (ground (arith, within)) (Counts-prune window now times))
  | inr over ↦ rw over (passed (ground (arith, over)) (Counts-prune window now times))
]

-- However `allow` and `underLimit` of a new limiter have been called, if the clock does not run
-- backwards: both now answer whether fewer than the maximum of attempts under the key have been let
-- through less than a window ago, so that no attempt is refused too early or let through too often, and
-- a look by `underLimit` counts for nothing.
pub allow_exact :
    (max_attempts window : ℕ) (calls : List Call) (key : String) (now : ℕ)
    → IsClock now calls
    → (let l = new_login_limiter max_attempts window in
        (n : ℕ) × Counts window now (allowed key l calls) n
        × ((allow (after l calls) key now).1 ≡ ltb n max_attempts)
        × ((under_limit (after l calls) key now).1 ≡ ltb n max_attempts))
unfolding new_login_limiter lookup allow under_limit prune_locked
allow_exact max_attempts window calls key now clock =
    let l = new_login_limiter max_attempts window in
    let same = hits-after l key calls now refl clock in
    (
      length (prune window now (allowed key l calls)),
      Counts-prune window now (allowed key l calls),
      ground (arith, same, window-after l calls, max-after l calls),
      ground (arith, same, window-after l calls, max-after l calls),
    )
