-- ===== src/Api/RateLimitTests.antt =====
-- The limiter at two attempts in ten ticks.
use knobs.Base.{◌≡◌, refl, ℕ, ltb, String_eq, true, false, List, [], ◌∷◌, arith}
use knobs.Assoc.{lookup, insert}
use knobs.Api.RateLimit.{new_login_limiter, prune, prune_locked, allow, under_limit}
use knobs.Api.RateLimit.Window.{Call, call, after, allowed, Counts, allow_exact}

-- Three attempts, the last of them refused, and a look in between.
abbrev attempts : List Call
attempts =
    record { records = true; key = "a"; time = 6 }
    ∷ record { records = false; key = "a"; time = 5 }
    ∷ record { records = true; key = "a"; time = 4 }
    ∷ record { records = true; key = "a"; time = 1 }
    ∷ []

allowed_runs : allowed "a" (new_login_limiter 2 10) attempts ≡ 1 ∷ 4 ∷ []
unfolding allowed after call allow under_limit prune_locked prune new_login_limiter lookup insert
allowed_runs = refl

-- The window has moved past the first attempt, of the two that were let through.
allow_exact_example :
    (n : ℕ) × Counts 10 12 (allowed "a" (new_login_limiter 2 10) attempts) n
    × ((allow (after (new_login_limiter 2 10) attempts) "a" 12).1 ≡ ltb n 2)
    × ((under_limit (after (new_login_limiter 2 10) attempts) "a" 12).1 ≡ ltb n 2)
allow_exact_example =
    allow_exact 2 10 attempts "a" 12 (omega arith, (omega arith, (omega arith, (omega arith, tt))))
