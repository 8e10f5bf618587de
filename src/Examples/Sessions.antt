-- ===== src/Examples/Sessions.antt =====
-- The theorems on sessions and handlers at concrete inputs.
use unyport.Common.{◌≡◌, refl, arith, String, true, false, none, some, [], ◌∷◌}
use unyport.Common.Dict.{lookup}
use unyport.Common.Text.{trim_space, to_lower}
use unyport.Http.{Body, Cookie, Request, Response, Context}
use unyport.Jwt.{JwtService, set_cookie, from_request}
use unyport.Users.{User, role, normalize_email}
use unyport.Users.Store.{find, ok, saved}
use unyport.Middleware.{next}
use unyport.Middleware.Access.{auth, admin_mw}
use unyport.Middleware.Access.Laws.{IsAuthenticated, auth-IsAuthenticated}
use unyport.Handlers.Sessions.{Credentials, login, unauthorized}
use unyport.Handlers.Sessions.Laws.{
  IsGranted, login-IsGranted, login_uniform, with_cookie, auth-login,
}
use unyport.Handlers.Admin.{NewRole, admin_user_by_email}
use unyport.Handlers.Admin.Laws.{IsAdmin, admin_user_by_email-admin_mw}
use unyport.Examples.Fixtures.{
  dollar, one_token, service, store, ada, ada_context, start, net, request, ada_named,
}
use unyport.Examples.Accounts.{store-IsWellformed}

abbrev seen : Request
seen = request "GET" "/api/profile"

auth-IsAuthenticated_example : IsAuthenticated one_token service store 1200 seen ada_context
unfolding auth from_request find lookup role normalize_email to_lower trim_space
auth-IsAuthenticated_example =
    auth-IsAuthenticated one_token service store 1200 seen start ada_context refl

abbrev secret : String
secret = "0123456789abcdef0123456789abcdef"

abbrev made : JwtService
made = record { key = secret; ttl = 60; secure_cookie = true }

abbrev right : Body Credentials
right = record {
  size = 60;
  documents = some (record { email = " Ada@x.io"; password = "lovelace1" }) ∷ [];
}

abbrev wrong : Body Credentials
wrong = record {
  size = 60;
  documents = some (record { email = "ada@x.io"; password = "lovelace2" }) ∷ [];
}

abbrev posted : Request
posted = request "POST" "/api/login"

abbrev reply_of : Body Credentials → Response
reply_of body = (login dollar one_token service net none store 1000 posted body).0

login-IsGranted_example : IsGranted dollar one_token service store 1000 right (reply_of right)
unfolding login find set_cookie lookup role normalize_email to_lower trim_space
    unyport.Http.decode_json
login-IsGranted_example =
    login-IsGranted dollar one_token service net none store 1000 posted right refl

mismatch : (u : User) → find store "ada@x.io" ≡ ok u → dollar.matches u.password "lovelace2" ≡ false
unfolding find lookup normalize_email to_lower trim_space
mismatch u h = let stored : u.password ≡ "$lovelace1" = ground (arith, h) in rw stored refl

login_uniform_example :
    login dollar one_token service net none store 1000 posted wrong ≡ (unauthorized, none)
unfolding find lookup normalize_email to_lower trim_space unyport.Http.decode_json
login_uniform_example =
    login_uniform dollar one_token service net none store 1000 posted wrong
      (record { email = "ada@x.io"; password = "lovelace2" }) refl refl mismatch

auth-login_example :
    (k : Cookie) × ((reply_of right).cookies ≡ k ∷ [])
    × (auth one_token service store 1200 (with_cookie k (request "GET" "/api/profile")) start
        ≡ next (record start { user_id = ada.email; user_role = role ada }))
unfolding login find set_cookie lookup role normalize_email to_lower trim_space
    unyport.Http.decode_json
auth-login_example =
    auth-login dollar one_token service net none store store 1000 1200 posted
      (request "GET" "/api/profile") right (record { email = " Ada@x.io"; password = "lovelace1" })
      ada ada start refl refl refl ada_named (omega arith) (omega arith) refl

abbrev removal : Request
removal = request "DELETE" "/api/admin/users/bob@x.io"

abbrev no_body : Body NewRole
no_body = record { size = 0; documents = [] }

admin_user_by_email-admin_mw_example :
    IsAdmin (admin_user_by_email (λ e. "") saved store ada_context removal no_body).1 "ada@x.io"
unfolding admin_mw auth from_request find lookup role normalize_email to_lower trim_space
admin_user_by_email-admin_mw_example =
    admin_user_by_email-admin_mw one_token service store 1200 removal start ada_context (λ e. "")
      saved no_body store-IsWellformed refl
