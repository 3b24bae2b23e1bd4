-- ===== src/Api/LoginTests.antt =====
-- Logins of one user, with a library of tokens that keeps the claims of one.
use knobs.Base.{
  ◌≡◌, refl, ◌≤◌, ℕ, ◌+◌, ℕ_eq, String, String_eq, Bool, true, false, none, some, List, [], ◌∷◌,
  ◌==◌, ◌&&◌, ltb, nat_eq_iff, length, if◌then◌else◌, arith,
}
use knobs.Base.Text.{Text_eq, text_eq_iff, text_eq}
use knobs.Assoc.{lookup, insert}
use knobs.Auth.{Jwt, Claims, ReadsBack, session_ttl, issue, set_cookie}
use knobs.Store.{Db, User}
use knobs.Store.Members.{find_email, user_by_email}
use knobs.Api.Access.{granted}
use knobs.Api.Login.{
  LoginRequest, LoggedIn, Server, find_user, handle_login, check_login, admit, start_session,
  request_key, client_ip, first_hop, before_comma, trim_front, trim_back, require_user,
}
use knobs.Api.Login.Guesses.{Attempt, failures, logins, failures_bound}
use knobs.Api.Login.Session.{login_session, login_hides}
use knobs.Api.RateLimit.{new_login_limiter, prune, prune_locked, allow, under_limit}
use knobs.Api.ValuesSample.{tables}

-- Only these claims are signed, as one token.
abbrev own_claims : Claims
own_claims = record { subject = 7 ∷ []; expires_at = 100 + session_ttl; issued_at = 100 }

abbrev is_own : Claims → Bool
is_own c =
    (c.subject == own_claims.subject)
    && (c.expires_at == own_claims.expires_at)
    && (c.issued_at == own_claims.issued_at)

abbrev one_token : Jwt
one_token = record {
  sign = λ secret c. if is_own c then some "token" else none;
  is_hmac = λ token. some true;
  checked = λ secret now token. if ltb now own_claims.expires_at then some own_claims else none;
}

is_own_iff : (c : Claims) → is_own c ≡ true → c ≡ own_claims
is_own_iff c h = ground (
  arith,
  h,
  text_eq_iff c.subject own_claims.subject,
  nat_eq_iff c.expires_at own_claims.expires_at,
  nat_eq_iff c.issued_at own_claims.issued_at,
)

signed :
    (c : Claims) (token : String)
    → (if is_own c then some "token" else none) ≡ some token
    → is_own c ≡ true
signed c token h = ground (arith, h)

one_token-ReadsBack : ReadsBack one_token
one_token-ReadsBack secret token c h = rw (is_own_iff c (signed c token h)) (refl, λ now. refl)

-- Passwords are their own hashes, and addresses their own hosts.
abbrev server : Server
server = record {
  jwt = one_token;
  print_id = λ user. user ∷ [];
  parse_id = λ t. elim t [ [] ↦ none | user ∷ more ↦ some user ];
  split_host = λ address. some address;
  lower = λ s. s;
  check = λ hash password. hash == password;
  dummy_hash = "dummy";
  authenticator = record { secret = "secret"; cookie_secure = true };
  trust_proxy = false;
}

abbrev login_as : String → String → LoginRequest
login_as email password = record {
  origin = record { forwarded = "10.0.0.1, 10.0.0.2"; remote_addr = "h" };
  body = some (email, password);
  arrived = 5;
  checked = 6;
  issued = 100;
}

abbrev with_password : Db ℕ ℕ ℕ
with_password = record tables { users = (7, record { email = "e"; password_hash = "pw" }) ∷ [] }

-- With a trusted proxy the key is the first hop, without the space.
first_hop_taken :
    client_ip
      (λ address. some address)
      true
      (record { forwarded = " 10.0.0.1 , x"; remote_addr = "h" })
    ≡ "10.0.0.1"
unfolding client_ip first_hop before_comma trim_front trim_back
first_hop_taken = refl

-- Two wrong passwords, and a third request that is turned away.
abbrev attempts : List (Attempt ℕ ℕ ℕ)
attempts =
    record {
      tables = with_password;
      request = record (login_as "e" "c") { arrived = 9; checked = 9 };
    }
    ∷ record {
      tables = with_password;
      request = record (login_as "e" "b") { arrived = 7; checked = 8 };
    }
    ∷ record { tables = with_password; request = login_as "x" "a" }
    ∷ []

failures_run : failures server "h" (new_login_limiter 2 10) attempts ≡ 6 ∷ 8 ∷ []
unfolding failures logins handle_login check_login admit find_user user_by_email find_email
    request_key client_ip first_hop before_comma trim_front trim_back allow under_limit prune_locked
    prune new_login_limiter lookup insert start_session issue set_cookie
failures_run = refl

failures_bound_example :
    length (prune 10 9 (failures server "h" (new_login_limiter 2 10) attempts)) ≤ 2
failures_bound_example = failures_bound server 2 10 attempts "h" 9 refl (omega arith)

abbrev session : LoggedIn
session = record { id = 7; email = "e"; cookie = set_cookie (Server.authenticator server) "token" }

login_session_example :
    (u : User) × (find_user server with_password "e" ≡ some (7, u))
    × ((u.password_hash == "pw") ≡ true)
    × (require_user server 200 (some "token") ≡ granted 7)
unfolding handle_login check_login admit find_user user_by_email find_email request_key client_ip
    first_hop before_comma trim_front trim_back under_limit prune_locked prune new_login_limiter
    lookup insert start_session issue set_cookie text_eq
login_session_example =
    login_session server with_password (new_login_limiter 2 10) (login_as "e" "pw") "e" "pw" session
      200 one_token-ReadsBack (λ user. refl) refl refl

login_hides_example :
    handle_login server with_password (new_login_limiter 2 10) (login_as "e" "wrong")
    ≡ handle_login server with_password (new_login_limiter 2 10) (login_as "nobody" "wrong")
unfolding find_user user_by_email find_email lookup
login_hides_example =
    login_hides server with_password (new_login_limiter 2 10) (login_as "e" "wrong")
      (login_as "nobody" "wrong") "e" "nobody" "wrong" "wrong"
      (7, record { email = "e"; password_hash = "pw" }) refl refl refl refl refl refl refl refl
