-- ===== src/Api/Login/Session.antt =====
-- internal/api/auth_handlers.go and middleware.go: what a login gives, and what it gives away.
use knobs.Base.{
  ◌≡◌, refl, ap, sym, ◌∙◌, ℕ, ◌+◌, String, String_eq, ℕ_eq, Bool, true, false, Option, none, some,
  ltb, if◌then◌else◌, arith, Bool-cases, Option-cases, inl, inr,
}
use knobs.Auth.{ReadsBack, session_ttl, issue, set_cookie, verify-issue}
use knobs.Store.{Db, User}
use knobs.Api.Access.{unauthorized, denied, granted}
use knobs.Api.Login.{
  LoginRequest, LoggedIn, Server, request_key, find_user, hash_of, admit, start_session,
  check_login, handle_login, require_user, client_ip,
}
use knobs.Api.RateLimit.{Limiter, under_limit}
use knobs.Api.Values.{replied}

module _ (server : Server) where
  start_session-require_user :
      (now later : ℕ) (row : ℕ × User) (a : LoggedIn)
      → ReadsBack server.jwt
      → ((user : ℕ) → server.parse_id (server.print_id user) ≡ some user)
      → start_session server now row ≡ replied a
      → (a.id ≡ row.0)
        × (require_user server later (some a.cookie.value)
            ≡ (if ltb later (now + session_ttl) then granted row.0 else denied unauthorized))
  unfolding start_session require_user set_cookie
  start_session-require_user now later row a back ids h =
      elim (Option-cases
        (issue server.jwt server.print_id server.parse_id server.authenticator now row.0)) [
          | inl failed ↦ ground (arith, failed, h)
          | inr (token, issued) ↦ ground (
            arith,
            issued,
            h,
            verify-issue server.jwt server.print_id server.parse_id server.authenticator now later
                row.0 token back (ids row.0) issued,
          )
        ]

  -- An answer is given to a user whose password is right.
  admit-replied :
      (l : Limiter) (key : String) (r : LoginRequest) (row : Option (ℕ × User)) (ok : Bool)
      (a : LoggedIn)
      → (admit server l key r row ok).1 ≡ replied a
      → (u : ℕ × User) × (row ≡ some u)
        × (ok ≡ true)
        × (start_session server r.issued u ≡ replied a)
  unfolding admit
  admit-replied l key r none ok a h = ground arith
  admit-replied l key r (some u) false a h = ground arith
  admit-replied l key r (some u) true a h = (u, refl, refl, h)

  module _ {S V R : Type 0} where
    handle_login-replied :
        (db : Db S V R) (l : Limiter) (r : LoginRequest) (email password : String) (a : LoggedIn)
        → r.body ≡ some (email, password)
        → (handle_login server db l r).1 ≡ replied a
        → (let row = find_user server db email in
            (admit server
              (under_limit l (request_key server r) r.arrived).0
              (request_key server r)
              r
              row
              (server.check (hash_of server.dummy_hash row) password)).1
            ≡ replied a)
    unfolding handle_login check_login
    handle_login-replied db l r email password a body h =
        elim (Bool-cases (under_limit l (request_key server r) r.arrived).1) [
          | inr over ↦ ground (arith, over, h)
          | inl under ↦ ground (arith, under, body, h)
        ]

    -- If a login is answered with a session, its user is in the tables under the address given and
    -- the password is right for the user's hash; for seven days its cookie passes requireUser as that
    -- user, and never after. It is assumed that the library of tokens reads back what it has signed
    -- until that expires, and ids as they are printed.
    pub login_session :
        (db : Db S V R) (l : Limiter) (r : LoginRequest) (email password : String) (a : LoggedIn)
        (later : ℕ)
        → ReadsBack server.jwt
        → ((user : ℕ) → server.parse_id (server.print_id user) ≡ some user)
        → r.body ≡ some (email, password)
        → (handle_login server db l r).1 ≡ replied a
        → (u : User) × (find_user server db email ≡ some (a.id, u))
          × (server.check u.password_hash password ≡ true)
          × (require_user server later (some a.cookie.value)
              ≡ (if ltb later (r.issued + session_ttl) then granted a.id else denied unauthorized))
    login_session db l r email password a later back ids body h =
        let row = find_user server db email in
        let ok = server.check (hash_of server.dummy_hash row) password in
        let (u, found, right, started) =
          admit-replied (under_limit l (request_key server r) r.arrived).0 (request_key server r) r
            row ok a (handle_login-replied db l r email password a body h) in
        let session = start_session-require_user r.issued later u a back ids started in
        (
          u.1,
          found ∙ ap (λ (id : ℕ). some (id, u.1)) (sym session.0),
          ap (λ o. server.check (hash_of server.dummy_hash o) password) (sym found) ∙ right,
          session.1
              ∙ ap
                  (λ (id : ℕ).
                    if ltb later (r.issued + session_ttl) then granted id else denied unauthorized)
                  (sym session.0),
        )

    -- Of two logins from the same origin at the same times, one with a password that is wrong for its
    -- user and one with an address that nobody has leave the same limiter behind and are answered
    -- alike.
    pub login_hides :
        (db : Db S V R) (l : Limiter) (known unknown : LoginRequest)
        (email other password guess : String) (row : ℕ × User)
        → known.origin ≡ unknown.origin
        → known.arrived ≡ unknown.arrived
        → known.checked ≡ unknown.checked
        → known.body ≡ some (email, password)
        → unknown.body ≡ some (other, guess)
        → find_user server db email ≡ some row
        → server.check row.1.password_hash password ≡ false
        → find_user server db other ≡ none
        → handle_login server db l known ≡ handle_login server db l unknown
    unfolding handle_login check_login admit request_key
    login_hides db l known unknown email other password guess row origin arrived checked body there
          found wrong absent =
        let key : request_key server known ≡ request_key server unknown =
          ap (client_ip server.split_host server.trust_proxy) origin in
        elim (Bool-cases (under_limit l (request_key server unknown) unknown.arrived).1) [
          | inr over ↦ ground (arith, over, key, arrived)
          | inl under ↦
              ground (arith, under, key, arrived, checked, body, there, found, wrong, absent)
        ]
