-- ===== src/Middleware/Csrf.antt =====
-- unyport/backend/middleware/csrf.go: the signed cookie, its token, and the check of the origin.
-- Bytes are numbers. Base64, HMAC-SHA256 and net/url are interfaces; a random nonce is an
-- argument, `none` where the random source fails.
pub mod Tokens
pub mod Protection
use unyport.Common.{
  ℕ, String, Bool, true, false, not, ◌&&◌, ◌||◌, Option, none, some, List, [], ◌∷◌, ◌==◌, ◌≡◌, ◌≢◌,
  nat_eq, if◌then◌else◌, any, length, ◌≤◌,
}
use Prim.Native.String.{◌++◌}
use unyport.Common.Text.{trim_space, to_lower, cut, all_codes}
use unyport.Http.{Request, Context, Response, Cookie, seconds, Payload, object, str, json_object}
use unyport.Middleware.{Verdict, reply, next}

-- base64.RawURLEncoding, whose alphabet is A-Z a-z 0-9 - _.
pub record RawUrlBase64 : Type 0 where
  pub encode : List ℕ → String
  pub decode : String → Option (List ℕ)
  pub decode-encode : (bytes : List ℕ) → decode (encode bytes) ≡ some bytes
  pub encode_no_dot : (bytes : List ℕ) → all_codes (λ c. not (nat_eq c b'.')) (encode bytes) ≡ true
  pub trim_space-encode : (bytes : List ℕ) → trim_space (encode bytes) ≡ encode bytes
  pub encode_empty : (bytes : List ℕ) → encode bytes ≡ "" → bytes ≡ []

-- hmac.New(sha256.New, key): 32 bytes.
pub record HmacSha256 : Type 0 where
  pub mac : List ℕ → String → List ℕ
  pub length-mac : (key : List ℕ) (message : String) → length (mac key message) ≡ 32

pub record Url : Type 0 where
  pub scheme : String
  pub host : String

-- url.Parse
abbrev pub UrlParser : Type 0
UrlParser = String → Option Url

abbrev pub csrf_cookie_name : String
csrf_cookie_name = "unyport_csrf_token"

abbrev pub csrf_header_name : String
csrf_header_name = "X-CSRF-Token"

abbrev csrf_max_age : ℕ
csrf_max_age = 3600

pub record CsrfManager : Type 0 where
  pub secret : List ℕ
  pub secure : Bool

abbrev pub bypass_paths : List String
bypass_paths =
    "/api/login" ∷ "/api/oauth/login" ∷ "/api/oauth/callback" ∷ "/api/session" ∷ "/api/logout"
    ∷ "/sse/system" ∷ []

-- _, skip := bypassPaths[r.URL.Path]
unfoldable pub is_bypassed : Request → Bool
is_bypassed r = any (λ p. p == r.path) bypass_paths

-- CSRFBypass
unfoldable pub csrf_bypass : Request → Context → Context
csrf_bypass r ctx = if is_bypassed r then record ctx { csrf_skip = true } else ctx

-- isSafeMethod
unfoldable pub is_safe_method : String → Bool
is_safe_method m = m == "GET" || m == "HEAD" || m == "OPTIONS" || m == "TRACE"

-- subtle.ConstantTimeCompare of two byte slices
unfoldable pub same_bytes : List ℕ → List ℕ → Bool
same_bytes [] [] = true
same_bytes (a ∷ xs) (b ∷ ys) = nat_eq a b && same_bytes xs ys
same_bytes _ _ = false

-- the token in the header of a request
unfoldable pub request_token : Request → String
request_token r =
    let token = trim_space (r.header csrf_header_name) in
    if token == "" then trim_space (r.header "X-XSRF-Token") else token

module _ (b64 : RawUrlBase64) (h : HmacSha256) (m : CsrfManager) where
  -- sign
  unfoldable pub sign : String → List ℕ
  sign token = h.mac m.secret token

  abbrev check_signature : String → Option (List ℕ) → Option String
  check_signature token none = none
  check_signature token (some sig) =
      if nat_eq (length sig) (length (sign token)) && same_bytes sig (sign token)
      then some token
      else none

  abbrev check_nonce : String → String → Option (List ℕ) → Option String
  check_nonce token raw_sig none = none
  check_nonce token raw_sig (some nonce) =
      if nat_eq (length nonce) 32 then check_signature token (b64.decode raw_sig) else none

  abbrev check_parts : Option (String × String) → Option String
  check_parts none = none
  check_parts (some (token, raw_sig)) =
      if token == "" || raw_sig == "" then none else check_nonce token raw_sig (b64.decode token)

  -- parseCookie
  unfoldable pub parse_cookie : String → Option String
  unfolding sign same_bytes
  parse_cookie value = check_parts (cut b'.' value)

  abbrev token_of : Option (List ℕ) → Option (String × String)
  token_of none = none
  token_of (some nonce) =
      let token = b64.encode nonce in some (token, token ++ ("." ++ b64.encode (sign token)))

  -- newToken: the token and the value of its cookie.
  unfoldable pub new_token : Option (List ℕ) → Option (String × String)
  unfolding sign
  new_token nonce = token_of nonce

  abbrev check_token : Request → Option String → String
  check_token r none = "invalid_cookie"
  check_token r (some cookie_token) =
      if request_token r == ""
      then "missing_token"
      else if cookie_token == request_token r
      then ""
      else "token_mismatch"

  abbrev check_cookie : Request → Option String → String
  check_cookie r none = "missing_cookie"
  check_cookie r (some value) =
      if value == "" then "missing_cookie" else check_token r (parse_cookie value)

  -- validateRequest: the reason of the refusal, or the empty text.
  unfoldable pub validate_request : Request → String
  unfolding request_token
  validate_request r = check_cookie r (r.cookie csrf_cookie_name)

  abbrev csrf_cookie : String → Cookie
  csrf_cookie value = record {
    name = csrf_cookie_name;
    value = value;
    path = "/";
    max_age = seconds csrf_max_age;
    expires = none;
    http_only = true;
    secure = m.secure;
    same_site_lax = true;
  }

  abbrev parse_sent : Option String → Option String
  parse_sent none = none
  parse_sent (some value) = parse_cookie value

  abbrev fresh_token : Option (String × String) → Option (String × List Cookie)
  fresh_token none = none
  fresh_token (some (token, value)) = some (token, csrf_cookie value ∷ [])

  abbrev keep_token : Option (List ℕ) → Option String → Option (String × List Cookie)
  keep_token random (some token) = some (token, [])
  keep_token random none = fresh_token (new_token random)

  -- ensureToken: the token and the cookies that are set.
  unfoldable pub ensure_token : Option (List ℕ) → Request → Option (String × List Cookie)
  unfolding new_token
  ensure_token random r = keep_token random (parse_sent (r.cookie csrf_cookie_name))

abbrev pub csrf_error : String → ℕ → Response
csrf_error error_code status = record {
  status = status;
  headers = ("Content-Type", "application/json") ∷ [];
  cookies = [];
  body = object (("error", str error_code) ∷ []);
}

abbrev pub origin_of : Url → String
origin_of u = u.scheme ++ ("://" ++ u.host)

abbrev pub is_complete : Url → Bool
is_complete u = not (u.scheme == "") && not (u.host == "")

abbrev pub add_origin : Option Url → List String → List String
add_origin none rest = rest
add_origin (some u) rest = if is_complete u then origin_of u ∷ rest else rest

-- originSet
unfoldable pub origin_set : UrlParser → List String → List String
origin_set parse [] = []
origin_set parse (raw ∷ rest) = add_origin (parse raw) (origin_set parse rest)

-- requestScheme
unfoldable pub request_scheme : Request → Bool → String
request_scheme r https =
    if https || r.tls
    then "https"
    else if to_lower (trim_space (r.header "X-Forwarded-Proto")) == "https"
    then "https"
    else "http"

abbrev origin_allowed : Request → List String → Bool → Option Url → Bool
origin_allowed r trusted https none = false
origin_allowed r trusted https (some u) =
    is_complete u
    && (any (λ o. o == origin_of u) trusted
        || (u.scheme == request_scheme r https && u.host == r.host))

-- validOrigin
unfoldable pub valid_origin : UrlParser → Request → List String → Bool → Bool
unfolding is_safe_method request_scheme
valid_origin parse r trusted https =
    is_safe_method r.method
    || r.header "Origin" == ""
    || origin_allowed r trusted https (parse (r.header "Origin"))

module _ (b64 : RawUrlBase64) (h : HmacSha256) (parse : UrlParser) where
  -- CSRFProtect around a handler; `m` and `trusted` are what its set-up has built.
  unfoldable pub csrf_protect : CsrfManager → List String → Bool → Request → Context → Verdict
  csrf_protect m trusted https r ctx =
      if not (valid_origin parse r trusted https)
      then reply (csrf_error "csrf_origin_forbidden" 403)
      else if is_safe_method r.method || ctx.csrf_skip
      then next ctx
      else if validate_request b64 h m r == ""
      then next ctx
      else reply (csrf_error "csrf_invalid" 403)

  -- The two middlewares as server.go composes them.
  unfoldable pub csrf_chain : CsrfManager → List String → Bool → Request → Context → Verdict
  csrf_chain m trusted https r ctx = csrf_protect m trusted https r (csrf_bypass r ctx)

  abbrev token_reply : Option (String × List Cookie) → Response
  token_reply none = csrf_error "csrf_unavailable" 500
  token_reply (some (token, cookies)) = record {
    status = 200;
    headers = ("Content-Type", "application/json") ∷ [];
    cookies = cookies;
    body = object (("csrf_token", str token) ∷ []);
  }

  -- CSRFTokenHandler; the manager is there once CSRFProtect has been set up.
  unfoldable pub csrf_token_handler : Option CsrfManager → Option (List ℕ) → Request → Response
  unfolding ensure_token
  csrf_token_handler none random r = csrf_error "csrf_unavailable" 500
  csrf_token_handler (some m) random r = token_reply (ensure_token b64 h m random r)
