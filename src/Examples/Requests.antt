-- ===== src/Examples/Requests.antt =====
-- The theorems on tokens against forgery, on origins and on the rate limit at concrete inputs.
use Prim.Native.String.{◌++◌}
use unyport.Common.{
  ◌≡◌, ◌≢◌, ◌≤◌, ◌*◌, ◌+◌, refl, ap, arith, inl, ◌⊎◌, String, true, none, some, List, [], ◌∷◌, ◌==◌,
  if◌then◌else◌,
}
use unyport.Common.Dict.{lookup}
use unyport.Common.Text.{trim_space, cut, first_code}
use unyport.Http.{Request}
use unyport.Middleware.{next, reply}
use unyport.Middleware.Csrf.{
  csrf_cookie_name, csrf_header_name, new_token, parse_cookie, sign, csrf_chain, csrf_bypass,
  csrf_error, valid_origin, csrf_protect, is_safe_method, is_bypassed, request_token,
  validate_request, origin_set, Url, same_bytes, request_scheme,
}
use unyport.Middleware.Csrf.Protection.{CarriesToken, csrf_chain_sound, csrf_chain-new_token}
use unyport.Middleware.RateLimit.{LoginRateLimiter, new_login_rate_limiter}
use unyport.Middleware.RateLimit.Windows.{Event, attempt_at, janitor_at, passed}
use unyport.Middleware.RateLimit.Limits.{passed-le-max_attempts}
use unyport.Middleware.RateLimit.Bursts.{burst, passed-burst}
use unyport.Server.Origins.{normalize_trusted_origins, configured_origin_refused}
use unyport.Examples.Encoding.{unary_base64, encode, decode_from, unary}
use unyport.Examples.Fixtures.{
  request, ada_context, zeros, zero_mac, manager, two_urls, two_urls_bare,
}

abbrev token : String
token = "bbbbbbbbbbbbbbbbbbbbbbbbbbbbbbbb"

abbrev value : String
value = token ++ ("." ++ token)

-- A form of the own site, with the token and its cookie.
abbrev own : Request
own = record (request "POST" "/api/profile") {
  header = λ name.
      if name == csrf_header_name then token else if name == "Origin" then "https://a.io" else "";
  cookie = λ name. if name == csrf_cookie_name then some value else none;
}

-- The same form, sent by another site.
abbrev foreign : Request
foreign = record own { header = λ name. if name == "Origin" then "https://b.io" else "" }

abbrev elsewhere : Url
elsewhere = record { scheme = "https"; host = "b.io" }

csrf_chain_sound_example :
    (valid_origin two_urls own [] true ≡ true)
    × ((is_bypassed own ≡ true) ⊎ CarriesToken unary_base64 zero_mac manager own)
    × (ada_context.user_id ≡ ada_context.user_id)
    × (ada_context.user_role ≡ ada_context.user_role)
unfolding csrf_chain csrf_protect valid_origin is_safe_method validate_request request_token
    csrf_bypass is_bypassed request_scheme parse_cookie sign same_bytes cut decode_from trim_space
csrf_chain_sound_example =
    csrf_chain_sound unary_base64 zero_mac two_urls manager [] true own ada_context ada_context refl
      refl refl

origin_there : ◌≢◌ {A = String} "https://b.io" ""
origin_there h = omega (arith, ap first_code h)

other_host : ◌≢◌ {A = String} "b.io" "a.io"
other_host h = omega (arith, ap first_code h)

csrf_chain-new_token_example :
    csrf_chain unary_base64 zero_mac two_urls manager [] true own ada_context
    ≡ next (csrf_bypass own ada_context)
unfolding new_token sign encode unary valid_origin is_safe_method request_scheme
csrf_chain-new_token_example =
    csrf_chain-new_token unary_base64 zero_mac two_urls manager [] true own ada_context zeros token
      value refl refl refl refl refl

configured_origin_refused_example :
    csrf_chain unary_base64 zero_mac two_urls manager
      (origin_set two_urls (normalize_trusted_origins two_urls ("https://b.io" ∷ [])))
      true
      foreign
      ada_context
    ≡ reply (csrf_error "csrf_origin_forbidden" 403)
unfolding is_safe_method
configured_origin_refused_example =
    configured_origin_refused unary_base64 zero_mac two_urls manager ("https://b.io" ∷ []) true
      foreign ada_context elsewhere two_urls_bare refl origin_there refl other_host

abbrev limiter : LoginRateLimiter
limiter = new_login_rate_limiter 2

-- Three attempts of one address with one of another and a tick of the janitor between them.
abbrev trace : List Event
trace =
    attempt_at 100 "10.0.0.9"
    ∷ attempt_at 110 "10.0.0.8"
    ∷ attempt_at 120 "10.0.0.9"
    ∷ janitor_at 130
    ∷ attempt_at 140 "10.0.0.9"
    ∷ []

passed-le-max_attempts_example : passed "10.0.0.9" limiter trace ≤ limiter.max_attempts
unfolding new_login_rate_limiter lookup
passed-le-max_attempts_example = passed-le-max_attempts "10.0.0.9" 100 limiter trace (inl refl) (
  (omega arith, omega arith),
  (
    (omega arith, omega arith),
    ((omega arith, omega arith), ((omega arith, omega arith), ((omega arith, omega arith), tt))),
  ),
)

passed-burst_example :
    passed "10.0.0.9" (new_login_rate_limiter (4 + 1)) (burst "10.0.0.9" 4) ≡ 2 * (4 + 1)
passed-burst_example = passed-burst "10.0.0.9" 4
