-- ===== src/Api/Login/Guesses.antt =====
-- internal/api/auth_handlers.go and ratelimit.go: how many passwords can be tried.
use knobs.Base.{
  ◌≡◌, refl, ◌∙◌, ap, ℕ, ◌≤◌, String, String_eq, Bool, true, false, Option, none, some, List, [],
  ◌∷◌, ◌++◌, ◌&&◌, ◌==◌, length, if◌then◌else◌, eq_iff, arith, Bool-cases, inl, inr, Option-cases,
}
use knobs.Assoc.{lookup, lookup-insert}
use knobs.Store.{Db, User}
use knobs.Api.Access.{unauthorized}
use knobs.Api.Login.{
  LoginRequest, Server, client_ip, host_of, request_key, find_user, hash_of, check_login,
  handle_login, admit, start_session,
}
use knobs.Api.RateLimit.{
  Limiter, new_login_limiter, hits_of, prune, prune_locked, allow, under_limit,
}
use knobs.Api.RateLimit.Window.{Call, call, after, allowed, IsClock, length-prune, allowed_bound}
use knobs.Api.Values.{Reply, refused, replied}

-- Whether a request was answered as one with the wrong password.
abbrev pub is_wrong : {A : Type 0} → Reply A → Bool
is_wrong (refused unauthorized) = true
is_wrong (refused status) = false
is_wrong (replied a) = false

-- Right after `underLimit` has let a key through, so does `allow`.
allow-under_limit :
    (l : Limiter) (key : String) (arrived checked : ℕ)
    → (under_limit l key arrived).1 ≡ true
    → (allow (under_limit l key arrived).0 key checked).1 ≡ true
unfolding allow under_limit prune_locked
allow-under_limit l key arrived checked h =
    let kept = prune l.window arrived (hits_of (lookup key l.hits)) in
    ground (
      arith,
      h,
      lookup-insert key key kept l.hits,
      eq_iff key key,
      length-prune l.window checked kept,
    )

-- A request and the tables when it is answered.
pub record Attempt (S V R : Type 0) : Type 0 where
  pub tables : Db S V R
  pub request : LoginRequest

module _ (server : Server) where
  first_look : LoginRequest → Call
  first_look r = record { records = false; key = request_key server r; time = r.arrived }

  counted : LoginRequest → Call
  counted r = record { records = true; key = request_key server r; time = r.checked }

  request_key-direct :
      (r : LoginRequest)
      → server.trust_proxy ≡ false
      → request_key server r ≡ host_of server.split_host r.origin.remote_addr
  unfolding request_key client_ip
  request_key-direct r direct = ground (arith, direct)

  start_session_right : (now : ℕ) (row : ℕ × User) → is_wrong (start_session server now row) ≡ false
  unfolding start_session
  start_session_right now row = ground arith

  admit-allow :
      (l : Limiter) (key : String) (r : LoginRequest) (row : Option (ℕ × User)) (ok : Bool)
      → (admit server l key r row ok).0
        ≡ (if is_wrong (admit server l key r row ok).1 then (allow l key r.checked).0 else l)
  unfolding admit
  admit-allow l key r none ok = refl
  admit-allow l key r (some row) false = refl
  admit-allow l key r (some row) true = rw (start_session_right r.issued row) refl

  module _ {S V R : Type 0} where
    abbrev pub wrong_at : Limiter → Attempt S V R → Bool
    wrong_at l x = is_wrong (handle_login server x.tables l x.request).1

    -- The limiter after some requests, the last of which stands first, and the times at which
    -- passwords that come from a host have been found wrong.
    unfoldable pub logins : Limiter → List (Attempt S V R) → Limiter
    logins l [] = l
    logins l (x ∷ xs) = (handle_login server x.tables (logins l xs) x.request).0

    unfoldable pub failures : String → Limiter → List (Attempt S V R) → List ℕ
    failures host l [] = []
    failures host l (x ∷ xs) =
        let earlier = failures host l xs in
        if (host_of server.split_host x.request.origin.remote_addr == host)
          && wrong_at (logins l xs) x
        then earlier ++ x.request.checked ∷ []
        else earlier

    -- Each check ends after its request has arrived, and before the next request arrives.
    abbrev pub IsOrdered : ℕ → List (Attempt S V R) → Type 0
    IsOrdered now [] = Unit
    IsOrdered now (x ∷ xs) =
        (x.request.checked ≤ now)
        × (x.request.arrived ≤ x.request.checked)
        × IsOrdered x.request.arrived xs

    calls_of : Limiter → List (Attempt S V R) → List Call
    calls_of l [] = []
    calls_of l (x ∷ xs) =
        let rest = first_look x.request ∷ calls_of l xs in
        if wrong_at (logins l xs) x then counted x.request ∷ rest else rest

    check_login-allow :
        (db : Db S V R) (l : Limiter) (r : LoginRequest)
        → (check_login server db l r).0 ≡ (
            if is_wrong (check_login server db l r).1
            then (allow l (request_key server r) r.checked).0
            else l)
    unfolding check_login request_key
    check_login-allow db l r = elim (Option-cases r.body) [
      | inl bad ↦ rw (bad, check_login) refl
      | inr (body, decoded) ↦
          rw (decoded, check_login)
            (admit-allow l (request_key server r) r (find_user server db body.0)
              (server.check (hash_of server.dummy_hash (find_user server db body.0)) body.1))
    ]

    -- What the limiter is left with: a wrong password has been let through and is counted.
    handle_login-calls :
        (l : Limiter) (x : Attempt S V R)
        → (let first = call l (first_look x.request) in
            let second = call first.0 (counted x.request) in
            ((handle_login server x.tables l x.request).0
              ≡ (if wrong_at l x then second.0 else first.0))
            × (wrong_at l x ≡ true → second.1 ≡ true))
    unfolding handle_login call first_look counted
    handle_login-calls l x =
        let key = request_key server x.request in
        elim (Bool-cases (under_limit l key x.request.arrived).1) [
          | inr over ↦ rw (handle_login, over) (refl, λ wrong. cc)
          | inl under ↦
              rw (handle_login, under)
                (
                  check_login-allow x.tables (under_limit l key x.request.arrived).0 x.request,
                  λ wrong. allow-under_limit l key x.request.arrived x.request.checked under,
                )
        ]

    logins-after : (l : Limiter) (xs : List (Attempt S V R)) → logins l xs ≡ after l (calls_of l xs)
    unfolding logins calls_of after
    logins-after l [] = refl
    logins-after l (x ∷ xs) =
        let same = logins-after l xs in
        elim (Bool-cases (wrong_at (logins l xs) x)) [
          | inl wrong ↦
              rw (wrong, calls_of, after)
                ((handle_login-calls (logins l xs) x).0
                  ∙ rw wrong (
                      ap (λ m. (call (call m (first_look x.request)).0 (counted x.request)).0)
                        same))
          | inr right ↦
              rw (right, calls_of, after)
                ((handle_login-calls (logins l xs) x).0
                  ∙ rw right (ap (λ m. (call m (first_look x.request)).0) same))
        ]

    calls_of-IsClock :
        (l : Limiter) (now : ℕ) (xs : List (Attempt S V R))
        → IsOrdered now xs
        → IsClock now (calls_of l xs)
    unfolding calls_of first_look counted
    calls_of-IsClock l now [] h = tt
    calls_of-IsClock l now (x ∷ xs) h = ground (arith, calls_of-IsClock l x.request.arrived xs)

    failures-allowed :
        (host : String) (l : Limiter) (xs : List (Attempt S V R))
        → server.trust_proxy ≡ false
        → failures host l xs ≡ allowed host l (calls_of l xs)
    unfolding failures allowed calls_of first_look counted after
    failures-allowed host l [] direct = refl
    failures-allowed host l (x ∷ xs) direct =
        let ih = failures-allowed host l xs direct in
        let key = request_key-direct x.request direct in
        elim (Bool-cases (wrong_at (logins l xs) x)) [
          | inr right ↦ rw (right, calls_of, allowed) (ground (arith, ih, right))
          | inl wrong ↦
              let through : (call (call (after l (calls_of l xs)) (first_look x.request)).0
                    (counted x.request)).1
                  ≡ true =
                rw (← logins-after l xs) ((handle_login-calls (logins l xs) x).1 wrong) in
              rw (wrong, calls_of, allowed) (ground (arith, ih, wrong, through, key))
        ]

    -- Wherever else the requests come from and whatever headers they carry: if the proxy is not
    -- trusted and requests are answered one after the other, no more passwords from a host are found
    -- wrong within the window that ends now than the limiter's maximum.
    pub failures_bound :
        (max_attempts window : ℕ) (xs : List (Attempt S V R)) (host : String) (now : ℕ)
        → server.trust_proxy ≡ false
        → IsOrdered now xs
        → length (prune window now (failures host (new_login_limiter max_attempts window) xs))
          ≤ max_attempts
    failures_bound max_attempts window xs host now direct order =
        let l = new_login_limiter max_attempts window in
        rw (failures-allowed host l xs direct) (
          allowed_bound max_attempts window (calls_of l xs) host now
            (calls_of-IsClock l now xs order))
