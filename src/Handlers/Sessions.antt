-- ===== src/Handlers/Sessions.antt =====
-- Login, Logout and Session of unyport/backend/auth/handlers.go.
pub mod Laws
use unyport.Common.{
  ℕ, String, Bool, true, false, not, ◌&&◌, ◌||◌, Option, none, some, List, [], ◌∷◌, ◌⊎◌, inl, inr,
  ◌==◌, if◌then◌else◌,
}
use unyport.Common.Dict.{Dict}
use unyport.Common.Text.{trim_space, to_lower}
use unyport.Crypto.{Bcrypt, Claims, Tokens}
use unyport.Http.{
  Request, Context, Response, Cookie, Net, Body, decode_json, Atom, str, bool, json_object, json_ok,
  http_error,
}
use unyport.Jwt.{JwtService, JwtError, set_cookie, clear_cookie, from_request}
use unyport.Users.{User, role, effective_display_name, effective_avatar, uses_default_credentials}
use unyport.Users.Store.{Store, Result, ok, err, find}
use unyport.Handlers.{Mailer, Mail, client_ip, send_login_notification}

pub record Credentials : Type 0 where
  pub email : String
  pub password : String

abbrev pub unauthorized : Response
unauthorized = http_error "unauthorized" 401

abbrev pub method_not_allowed : Response
method_not_allowed = http_error "method not allowed" 405

abbrev pub with_cookies : List Cookie → Response → Response
with_cookies cs r = record r { cookies = cs }

module _ (b : Bcrypt) (t : Tokens) (j : JwtService) (n : Net) (m : Option Mailer) (s : Store)
    (now : ℕ) (r : Request) where
  abbrev welcome : User → Option Cookie → Response × Option Mail
  welcome u none = (http_error "internal error" 500, none)
  welcome u (some c) = (
    with_cookies (c ∷ []) (
        json_object (
          ("ok", bool true)
          ∷ ("email", str u.email)
          ∷ ("role", str (role u))
          ∷ ("default_credentials", bool (uses_default_credentials b u))
          ∷ [])),
    send_login_notification m (record {
      to = u.email;
      username = effective_display_name u;
      ip = client_ip n r;
      time = now;
    }),
  )

  abbrev check_password : String → Result User → Response × Option Mail
  -- the comparison with dummyBcryptHash is made for its time only
  check_password password (err e) = (unauthorized, none)
  check_password password (ok u) =
      if b.matches u.password password
      then welcome u (set_cookie t j now u.email (role u))
      else (unauthorized, none)

  abbrev login_with : Option Credentials → Response × Option Mail
  login_with none = (http_error "bad request" 400, none)
  login_with (some c) =
      let email = trim_space (to_lower c.email) in
      if email == "" || c.password == ""
      then (unauthorized, none)
      else check_password c.password (find s email)

  -- Login
  unfoldable pub login : Body Credentials → Response × Option Mail
  login body =
      if not (r.method == "POST") then (method_not_allowed, none) else login_with (decode_json body)

-- Logout
unfoldable pub logout : JwtService → Request → Response
logout j r =
    if not (r.method == "POST")
    then method_not_allowed
    else with_cookies (clear_cookie j ∷ []) json_ok

abbrev no_session : Response
no_session = json_object (("ok", bool false) ∷ [])

module _ (b : Bcrypt) (t : Tokens) (j : JwtService) (s : Store) where
  abbrev session_of : Result User → Response
  session_of (err e) = no_session
  session_of (ok u) = json_object (
      ("ok", bool true)
      ∷ ("email", str u.email)
      ∷ ("role", str (role u))
      ∷ ("display_name", str (effective_display_name u))
      ∷ ("avatar", str (effective_avatar u))
      ∷ ("ssh_key", str u.ssh_key)
      ∷ ("photo_url", str u.photo_url)
      ∷ ("default_credentials", bool (uses_default_credentials b u))
      ∷ [])

  abbrev session_claims : Claims ⊎ JwtError → Response
  session_claims (inr e) = no_session
  session_claims (inl c) = session_of (find s c.user_id)

  -- Session
  unfoldable pub session : ℕ → Request → Response
  session now r =
      if not (r.method == "GET")
      then method_not_allowed
      else session_claims (from_request t j now r)
