-- ===== src/Jwt.antt =====
-- The session tokens of unyport/backend/auth/jwt.go. Signing and parsing are those of the JWT
-- library, `Tokens`; the clock is an argument, in seconds.
pub mod Sessions
use unyport.Common.{
  ℕ, ◌+◌, ◌-◌, ◌*◌, String, Bool, true, false, Option, none, some, ◌⊎◌, inl, inr, ◌==◌, ltb, nat_eq,
  if◌then◌else◌,
}
use Prim.Native.String.{len}
use unyport.Crypto.{Claims, Tokens}
use unyport.Http.{Request, Cookie, session, delete_now}

abbrev pub cookie_name : String
cookie_name = "unyport_auth"

abbrev pub jwt_issuer : String
jwt_issuer = "unyport"

abbrev hour : ℕ
hour = 3600

pub record JwtService : Type 0 where
  pub key : String
  pub ttl : ℕ
  pub secure_cookie : Bool

pub data JwtError : Type 0 where
  secret_missing secret_not_base64 secret_too_short : JwtError
  token_rejected user_id_missing cookie_missing : JwtError

abbrev with_key : ℕ → Bool → Option String → JwtService ⊎ JwtError
with_key ttl secure none = inr secret_not_base64
with_key ttl secure (some key) =
    if ltb (len key) 32
    then inr secret_too_short
    else inl
        (record { key = key; ttl = if nat_eq ttl 0 then hour else ttl; secure_cookie = secure })

-- NewJWTServiceWithOpts; `decode` is base64.StdEncoding.DecodeString. A negative `ttl` is read
-- as 0.
unfoldable pub new_jwt_service_with_opts :
    (String → Option String) → String → ℕ → Bool → JwtService ⊎ JwtError
new_jwt_service_with_opts decode b64secret ttl secure =
    if b64secret == "" then inr secret_missing else with_key ttl secure (decode b64secret)

-- NewJWTService
unfoldable pub new_jwt_service : (String → Option String) → String → JwtService ⊎ JwtError
unfolding new_jwt_service_with_opts
new_jwt_service decode b64secret = new_jwt_service_with_opts decode b64secret hour false

-- The claims of a token that is issued now.
unfoldable pub issued_claims : JwtService → ℕ → String → String → Claims
issued_claims j now user_id role = record {
  user_id = user_id;
  role = role;
  expires_at = now + j.ttl;
  issued_at = now;
  not_before = now - 5;
  issuer = jwt_issuer;
  subject = user_id;
}

module _ (t : Tokens) (j : JwtService) where
  -- Issue
  unfoldable pub issue : ℕ → String → String → Option String
  unfolding issued_claims
  issue now user_id role = t.sign j.key (issued_claims j now user_id role)

  abbrev with_user_id : Option Claims → Claims ⊎ JwtError
  with_user_id none = inr token_rejected
  with_user_id (some c) = if c.user_id == "" then inr user_id_missing else inl c

  -- Parse
  unfoldable pub parse : ℕ → String → Claims ⊎ JwtError
  parse now raw = with_user_id (t.parse j.key jwt_issuer now raw)

  abbrev auth_cookie : ℕ → String → Cookie
  auth_cookie now token = record {
    name = cookie_name;
    value = token;
    path = "/";
    max_age = session;
    expires = some (now + j.ttl);
    http_only = true;
    secure = j.secure_cookie;
    same_site_lax = true;
  }

  abbrev cookie_of : ℕ → Option String → Option Cookie
  cookie_of now none = none
  cookie_of now (some token) = some (auth_cookie now token)

  -- SetCookie: the cookie that is set, or nothing where signing fails.
  unfoldable pub set_cookie : ℕ → String → String → Option Cookie
  unfolding issue
  set_cookie now user_id role = cookie_of now (issue now user_id role)

  abbrev parse_cookie : ℕ → Option String → Claims ⊎ JwtError
  parse_cookie now none = inr cookie_missing
  parse_cookie now (some value) = parse now value

  -- FromRequest
  unfoldable pub from_request : ℕ → Request → Claims ⊎ JwtError
  unfolding parse
  from_request now r = parse_cookie now (r.cookie cookie_name)

-- ClearCookie
unfoldable pub clear_cookie : JwtService → Cookie
clear_cookie j = record {
  name = cookie_name;
  value = "";
  path = "/";
  max_age = delete_now;
  expires = some 0;
  http_only = true;
  secure = j.secure_cookie;
  same_site_lax = true;
}
