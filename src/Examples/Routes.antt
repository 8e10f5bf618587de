-- ===== src/Examples/Routes.antt =====
-- The theorems on the routes at concrete inputs.
use Prim.Native.String.{◌++◌}
use unyport.Common.{◌≡◌, refl, ◌⊎◌, String, true, false, none, some, [], ◌∷◌, ◌==◌, if◌then◌else◌}
use unyport.Common.Dict.{lookup}
use unyport.Common.Text.{trim_space, to_lower, cut, split}
use unyport.Http.{Request}
use unyport.Jwt.{cookie_name, from_request}
use unyport.Users.{role, normalize_email}
use unyport.Users.Store.{find}
use unyport.Middleware.Access.{auth, admin_mw}
use unyport.Middleware.RateLimit.{new_login_rate_limiter}
use unyport.Middleware.Csrf.{
  csrf_cookie_name, csrf_header_name, parse_cookie, sign, csrf_chain, csrf_bypass, valid_origin,
  csrf_protect, is_safe_method, is_bypassed, request_token, validate_request, same_bytes,
  request_scheme,
}
use unyport.Middleware.Csrf.Protection.{CarriesToken}
use unyport.Server.Routes.{
  Target, app_page, matches, pattern_segments, same_segments, branding_update, handle, admin_users,
  best_route, routes, takes, guard_verdict, mux, wants_slash, directory_routes,
}
use unyport.Server.Routes.Guards.{is_exempt}
use unyport.Server.Routes.Exempt.{slashed}
use unyport.Server.Routes.Admission.{Admitted, handle-Admitted, handle-csrf_chain}
use unyport.Examples.Encoding.{unary_base64, decode_from}
use unyport.Examples.Fixtures.{
  one_token, service, store, net, request, ada_context, start, zero_mac, manager, two_urls,
}

abbrev admin_target : Target
admin_target = record { clean = true; segments = "api" ∷ "admin" ∷ "users" ∷ [] }

abbrev update_target : Target
update_target = record { clean = true; segments = "api" ∷ "branding" ∷ "update" ∷ [] }

abbrev listing : Request
listing = request "GET" "/api/admin/users"

handle-Admitted_example : Admitted one_token service store 1200 listing admin_users ada_context
unfolding handle mux guard_verdict best_route routes directory_routes takes matches pattern_segments
    same_segments split wants_slash slashed csrf_chain csrf_protect valid_origin csrf_bypass
    is_bypassed is_safe_method admin_mw auth from_request find lookup role normalize_email to_lower
    trim_space
handle-Admitted_example =
    handle-Admitted one_token service store net 1200 listing unary_base64 zero_mac two_urls manager
      [] true admin_target (λ d. false) (new_login_rate_limiter 2) start ada_context admin_users
      refl

abbrev token : String
token = "bbbbbbbbbbbbbbbbbbbbbbbbbbbbbbbb"

-- A change of the branding by ada, with the token and its cookie.
abbrev change : Request
change = record (request "PATCH" "/api/branding/update") {
  header = λ name.
      if name == csrf_header_name then token else if name == "Origin" then "https://a.io" else "";
  cookie = λ name.
      if name == csrf_cookie_name
      then some (token ++ ("." ++ token))
      else if name == cookie_name
      then some "token"
      else none;
}

handle-csrf_chain_example :
    (valid_origin two_urls change [] true ≡ true)
    × ((is_exempt branding_update ≡ true)
        ⊎ (branding_update ≡ app_page)
        ⊎ CarriesToken unary_base64 zero_mac manager change)
unfolding handle mux guard_verdict best_route routes directory_routes takes matches pattern_segments
    same_segments split wants_slash slashed csrf_chain csrf_protect valid_origin csrf_bypass
    is_bypassed is_safe_method validate_request request_token request_scheme parse_cookie sign
    same_bytes cut decode_from admin_mw auth from_request find lookup role normalize_email to_lower
    trim_space
handle-csrf_chain_example =
    handle-csrf_chain one_token service store net 1200 change unary_base64 zero_mac two_urls manager
      [] true update_target (λ d. false) (new_login_rate_limiter 2) start ada_context
      branding_update refl refl refl refl
