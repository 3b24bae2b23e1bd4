-- ===== src/Auth.antt =====
-- internal/auth/auth.go: session tokens and their cookie. `Jwt` is the third-party library; times
-- are in seconds.
use knobs.Base.{
  ◌≡◌, refl, ℕ, ◌+◌, String, Bool, true, false, Option, none, some, if◌then◌else◌, ltb, Bool-cases,
  inl, inr,
}
use knobs.Base.Int.{ℤ, pos, negsuc}
use knobs.Base.Text.{Text}

-- `jwt.RegisteredClaims`, of which these are used.
pub record Claims : Type 0 where
  pub subject : Text
  pub expires_at : ℕ
  pub issued_at : ℕ

-- `sign` is `SignedString` by HS256 with a secret. `is_hmac` is whether the header of a token that
-- can be read names an HMAC method. `checked` are the claims of a token whose signature is right
-- for a secret and which has not expired at a moment.
pub record Jwt : Type 0 where
  pub sign : String → Claims → Option String
  pub is_hmac : String → Option Bool
  pub checked : String → ℕ → String → Option Claims

-- What a signed token is read as: its own claims, until it expires.
abbrev pub ReadsBack : Jwt → Type 0
ReadsBack jwt =
    (secret token : String) (claims : Claims)
    → jwt.sign secret claims ≡ some token
    → (jwt.is_hmac token ≡ some true)
      × ((now : ℕ)
          → jwt.checked secret now token
            ≡ (if ltb now claims.expires_at then some claims else none))

pub record Authenticator : Type 0 where
  pub secret : String
  pub cookie_secure : Bool

pub record Cookie : Type 0 where
  pub name : String
  pub value : String
  pub path : String
  pub http_only : Bool
  pub secure : Bool
  pub is_lax : Bool
  pub max_age : ℤ

abbrev pub cookie_name : String
cookie_name = "knobs_session"

-- Seven days.
abbrev pub session_ttl : ℕ
session_ttl = 604800

unfoldable pub set_cookie : Authenticator → String → Cookie
set_cookie a token = record {
  name = cookie_name;
  value = token;
  path = "/";
  http_only = true;
  secure = a.cookie_secure;
  is_lax = true;
  max_age = pos session_ttl;
}

unfoldable pub clear_cookie : Authenticator → Cookie
clear_cookie a = record {
  name = cookie_name;
  value = "";
  path = "/";
  http_only = true;
  secure = a.cookie_secure;
  is_lax = true;
  max_age = negsuc 0;
}

-- `print_id` and `parse_id` are uuid.UUID's String and uuid.Parse.
module _ (jwt : Jwt) (print_id : ℕ → Text) (parse_id : Text → Option ℕ) where
  unfoldable pub issue : Authenticator → ℕ → ℕ → Option String
  issue a now user =
      jwt.sign a.secret
        (record { subject = print_id user; expires_at = now + session_ttl; issued_at = now })

  unfoldable pub verify : Authenticator → ℕ → String → Option ℕ
  verify a now token = elim (jwt.is_hmac token) [
    | none ↦ none
    | some false ↦ none
    | some true ↦ elim (jwt.checked a.secret now token) [
      | none ↦ none
      | some claims ↦ parse_id claims.subject
    ]
  ]

  -- A token names its user for seven days, and no one from then on.
  pub verify-issue :
      (a : Authenticator) (now later user : ℕ) (token : String)
      → ReadsBack jwt
      → parse_id (print_id user) ≡ some user
      → issue a now user ≡ some token
      → verify a later token ≡ (if ltb later (now + session_ttl) then some user else none)
  unfolding issue verify
  verify-issue a now later user token back ids issued =
      let read =
        back a.secret token
          (record { subject = print_id user; expires_at = now + session_ttl; issued_at = now })
          issued in
      elim (Bool-cases (ltb later (now + session_ttl))) [
        | inl valid ↦ rw (valid, verify, read.0, read.1 later, valid) ids
        | inr expired ↦ rw (expired, verify, read.0, read.1 later, expired) refl
      ]
