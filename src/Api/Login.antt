-- ===== src/Api/Login.antt =====
-- internal/api/auth_handlers.go, middleware.go, and `clientIP` of ratelimit.go. `split_host` is the
-- host part that net.SplitHostPort finds, if it succeeds. A body that does not decode is `none`.
-- NewRouter always sets the limiter.
pub mod Guesses
pub mod Session
use knobs.Base.{
  ℕ, ◌+◌, String, String_eq, ℕ_eq, Bool, true, false, Option, none, some, List, [], ◌∷◌,
  if◌then◌else◌, not, ◌&&◌, ◌||◌, ◌==◌, nat_eq, is_some, or_default,
}
use Prim.Native.Char.{code}
use knobs.Base.Text.{Text, between}
use knobs.Assoc.{lookup}
use knobs.Auth.{Jwt, Authenticator, Cookie, issue, verify, set_cookie, clear_cookie}
use knobs.Store.{Db, User}
use knobs.Store.Members.{user_by_email}
use knobs.Api.Access.{
  Status, bad_request, unauthorized, too_many_requests, internal, Access, denied, granted,
}
use knobs.Api.RateLimit.{Limiter, allow, under_limit}
use knobs.Api.Values.{Reply, refused, replied}

-- `unicode.IsSpace`
abbrev pub is_space : ℕ → Bool
is_space c =
    between 9 13 c
    || nat_eq c 32
    || nat_eq c 0x85
    || nat_eq c 0xa0
    || nat_eq c 0x1680
    || between 0x2000 0x200a c
    || nat_eq c 0x2028
    || nat_eq c 0x2029
    || nat_eq c 0x202f
    || nat_eq c 0x205f
    || nat_eq c 0x3000

-- `strings.SplitN(s, ",", 2)[0]`
unfoldable pub before_comma : String → String
before_comma String.[] = ""
before_comma (String.◌∷◌ c s) =
    let rest = String.◌∷◌ c (before_comma s) in if nat_eq (code c) b',' then "" else rest

unfoldable pub trim_front : String → String
trim_front String.[] = ""
trim_front (String.◌∷◌ c s) =
    let rest = trim_front s in if is_space (code c) then rest else String.◌∷◌ c s

unfoldable pub trim_back : String → String
trim_back String.[] = ""
trim_back (String.◌∷◌ c s) =
    let rest = trim_back s in if rest == "" && is_space (code c) then "" else String.◌∷◌ c rest

-- Where a request comes from: the header X-Forwarded-For, empty if it is missing, and the address.
pub record Origin : Type 0 where
  pub forwarded : String
  pub remote_addr : String

abbrev pub host_of : (String → Option String) → String → String
host_of split_host address = or_default (split_host address) address

-- The first hop that the header names; an empty one is none.
unfoldable pub first_hop : String → String
unfolding before_comma trim_front trim_back
first_hop forwarded = trim_back (trim_front (before_comma forwarded))

unfoldable pub client_ip : (String → Option String) → Bool → Origin → String
unfolding first_hop
client_ip split_host trust_proxy r =
    if trust_proxy && not (r.forwarded == "") && not (first_hop r.forwarded == "")
    then first_hop r.forwarded
    else host_of split_host r.remote_addr

-- What `handleLogin` answers, with the cookie that it sets.
pub record LoggedIn : Type 0 where
  pub id : ℕ
  pub email : String
  pub cookie : Cookie

-- A request, with the body's address and password, and the moments of the first look at the limiter,
-- of the end of the check, and of the session's start in seconds.
pub record LoginRequest : Type 0 where
  pub origin : Origin
  pub body : Option (String × String)
  pub arrived : ℕ
  pub checked : ℕ
  pub issued : ℕ

-- What the server is given: the library of tokens, the printing and the reading of ids, net's
-- SplitHostPort, the database's lower(), bcrypt's comparison of a hash and a password, and the hash
-- of the dummy.
pub record Server : Type 0 where
  pub jwt : Jwt
  pub print_id : ℕ → Text
  pub parse_id : Text → Option ℕ
  pub split_host : String → Option String
  pub lower : String → String
  pub check : String → String → Bool
  pub dummy_hash : String
  pub authenticator : Authenticator
  pub trust_proxy : Bool

-- The hash that a password is checked against.
abbrev pub hash_of : String → Option (ℕ × User) → String
hash_of dummy none = dummy
hash_of dummy (some row) = row.1.password_hash

module _ (server : Server) where
  unfoldable pub request_key : LoginRequest → String
  request_key r = client_ip server.split_host server.trust_proxy r.origin

  -- The end of `handleLogin` for a user whose password is right.
  unfoldable pub start_session : ℕ → ℕ × User → Reply LoggedIn
  start_session now row =
      elim (issue server.jwt server.print_id server.parse_id server.authenticator now row.0) [
        | none ↦ refused internal
        | some token ↦ replied (record {
          id = row.0;
          email = row.1.email;
          cookie = set_cookie server.authenticator token;
        })
      ]

  -- The part of `handleLogin` behind the check: the limiter counts a failure.
  unfoldable pub admit :
      Limiter → String → LoginRequest → Option (ℕ × User) → Bool → Limiter × Reply LoggedIn
  admit l key r none ok = ((allow l key r.checked).0, refused unauthorized)
  admit l key r (some row) false = ((allow l key r.checked).0, refused unauthorized)
  admit l key r (some row) true = (l, start_session r.issued row)

  -- `requireUser`, for the value of the session's cookie, if there is one.
  unfoldable pub require_user : ℕ → Option String → Access ℕ
  require_user now none = denied unauthorized
  require_user now (some token) =
      elim (verify server.jwt server.print_id server.parse_id server.authenticator now token) [
        | none ↦ denied unauthorized
        | some user ↦ granted user
      ]

  module _ {S V R : Type 0} where
    unfoldable pub find_user : Db S V R → String → Option (ℕ × User)
    find_user db email = elim (user_by_email server.lower db email) [
      | none ↦ none
      | some id ↦ elim (lookup id db.users) [ none ↦ none | some u ↦ some (id, u) ]
    ]

    unfoldable pub check_login : Db S V R → Limiter → LoginRequest → Limiter × Reply LoggedIn
    check_login db l r = elim r.body [
      | none ↦ (l, refused bad_request)
      | some body ↦
          let row = find_user db body.0 in
          admit l (request_key r) r row (server.check (hash_of server.dummy_hash row) body.1)
    ]

    unfoldable pub handle_login : Db S V R → Limiter → LoginRequest → Limiter × Reply LoggedIn
    handle_login db l r =
        let first = under_limit l (request_key r) r.arrived in
        if not first.1 then (first.0, refused too_many_requests) else check_login db first.0 r

unfoldable pub handle_logout : Authenticator → Cookie
handle_logout a = clear_cookie a
