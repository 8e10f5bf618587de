-- ===== src/Middleware/Access.antt =====
-- unyport/backend/middleware/auth.go: who may pass to a protected handler.
pub mod Laws
use unyport.Common.{
  ℕ, String, Bool, true, false, not, ◌&&◌, ◌||◌, List, [], ◌∷◌, ◌⊎◌, inl, inr, ◌==◌, any,
  if◌then◌else◌,
}
use unyport.Common.Text.{to_lower, has_prefix, contains}
use unyport.Crypto.{Claims, Tokens}
use unyport.Http.{
  Request, Context, Response, Cookie, Payload, empty, object, str, json_error, found_redirect,
}
use unyport.Jwt.{JwtService, JwtError, from_request, clear_cookie}
use unyport.Users.{User, role}
use unyport.Users.Store.{Store, Result, ok, err, find}
use unyport.Middleware.{Verdict, reply, next}

-- isSSERequest
unfoldable pub is_sse_request : Request → Bool
is_sse_request r = has_prefix r.path "/sse/"

-- isHTMLRequest
unfoldable pub is_html_request : Request → Bool
is_html_request r =
    let accept = to_lower (r.header "Accept") in
    if not (r.method == "GET")
    then false
    else contains accept "text/html"
      || (not (contains accept "application/json")
          && not (to_lower (r.header "X-Requested-With") == "xmlhttprequest"))

abbrev no_content : Response
no_content = record { status = 204; headers = []; cookies = []; body = empty }

-- The answer to a request that is not authenticated.
unfoldable pub refusal : Request → Response
unfolding is_sse_request is_html_request
refusal r =
    if is_sse_request r
    then no_content
    else if is_html_request r
    then found_redirect "/"
    else json_error "unauthorized" 401

abbrev with_cookie : Cookie → Response → Response
with_cookie c r = record r { cookies = c ∷ r.cookies }

-- The request of a user that the store still has, or of one that it has no longer.
abbrev admit : JwtService → Request → Context → Result User → Verdict
admit j r ctx (ok u) = next (record ctx { user_id = u.email; user_role = role u })
admit j r ctx (err e) = reply (with_cookie (clear_cookie j) (refusal r))

abbrev auth_claims : JwtService → Store → Request → Context → Claims ⊎ JwtError → Verdict
auth_claims j s r ctx (inr e) = reply (refusal r)
auth_claims j s r ctx (inl c) = admit j r ctx (find s c.user_id)

-- Auth
unfoldable pub auth : Tokens → JwtService → Store → ℕ → Request → Context → Verdict
unfolding refusal
auth t j s now r ctx = auth_claims j s r ctx (from_request t j now r)

-- RequireRole
unfoldable pub require_role : List String → Context → Verdict
require_role allowed ctx =
    if any (λ x. x == ctx.user_role) allowed then next ctx else reply (json_error "forbidden" 403)

-- `then_require` runs RequireRole behind Auth, as adminMW and writeMW of server/routes.go do.
abbrev pub then_require : List String → Verdict → Verdict
then_require allowed (reply r) = reply r
then_require allowed (next ctx) = require_role allowed ctx

abbrev pub admin_only : List String
admin_only = "admin" ∷ []

abbrev pub writers : List String
writers = "admin" ∷ "operator" ∷ []

-- adminMW
unfoldable pub admin_mw : Tokens → JwtService → Store → ℕ → Request → Context → Verdict
unfolding auth require_role
admin_mw t j s now r ctx = then_require admin_only (auth t j s now r ctx)

-- writeMW
unfoldable pub write_mw : Tokens → JwtService → Store → ℕ → Request → Context → Verdict
unfolding auth require_role
write_mw t j s now r ctx = then_require writers (auth t j s now r ctx)
