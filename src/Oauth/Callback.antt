-- ===== src/Oauth/Callback.antt =====
-- CallbackHandler of unyport/backend/auth/oauth.go: the provider has sent the browser back.
pub mod Accounts
pub mod Logins
use unyport.Common.{
  ℕ, String, Bool, true, false, not, ◌&&◌, ◌||◌, Option, none, some, List, [], ◌∷◌, ◌++◌, ◌==◌, any,
  leb, if◌then◌else◌,
}
use unyport.Common.Dict.{Dict, lookup, member}
use unyport.Common.Text.{trim_space, to_lower, trim_prefix, contains, cut}
use unyport.Crypto.{Bcrypt, Tokens}
use unyport.Http.{
  Request, Response, Cookie, seconds, delete_now, Net, json_object, bool, http_error,
  found_redirect,
}
use unyport.Jwt.{JwtService, set_cookie}
use unyport.Users.{User, role, effective_display_name}
use unyport.Users.Store.{Store, Disk, Result, ok, err, find, add}
use unyport.Handlers.{Mailer, Mail, client_ip, send_login_notification}
use unyport.Handlers.Sessions.{method_not_allowed, with_cookies}
use unyport.Oauth.{
  Api, OauthConfig, OauthService, email_allowed, fetch_email, state_cookie_name, cleared_state,
}

-- What a callback leaves: the reply, the mail, and the store.
pub record Outcome : Type 0 where
  pub response : Response
  pub mail : Option Mail
  pub store : Store

abbrev refused : Store → Response → Outcome
refused s response = record { response = response; mail = none; store = s }

-- A refusal behind the state check also clears the state.
abbrev rejected : OauthService → Store → String → ℕ → Outcome
rejected o s message status =
    refused s (with_cookies (cleared_state o ∷ []) (http_error message status))

abbrev new_viewer : ℕ → String → User
new_viewer now email = record {
  id = email;
  email = email;
  password = "";
  roles = "viewer" ∷ [];
  display_name = "";
  avatar = "";
  photo_url = "";
  ssh_key = "";
  two_fa = false;
  created_at = now;
}

abbrev same_state : Option String → String → Bool
same_state none state = false
same_state (some sent) state = not (state == "") && sent == state

module _ (b : Bcrypt) (t : Tokens) (j : JwtService) (n : Net) (m : Option Mailer) (now salt : ℕ)
    (disk : Disk) (api : Api) (o : OauthService) (query : String → String) (r : Request) where
  abbrev start_session : Store → User → Option Cookie → Outcome
  start_session s u none = rejected o s "token failed" 500
  start_session s u (some c) = record {
    response = with_cookies (cleared_state o ∷ c ∷ []) (found_redirect "/");
    mail = send_login_notification m (record {
      to = u.email;
      username = effective_display_name u;
      ip = client_ip n r;
      time = now;
    });
    store = s;
  }

  abbrev open_session : Store → String → Result User → Outcome
  open_session s email (err e) = rejected o s "user failed" 401
  open_session s email (ok u) = start_session s u (set_cookie t j now email (role u))

  -- The login of a user that is added now, if the service creates accounts; an error of Add is
  -- dropped.
  abbrev sign_up : Store → String → Bool → Outcome
  sign_up s email false = rejected o s "user failed" 401
  sign_up s email true =
      let s' : Store = (add b salt disk s (new_viewer now email)).1 in
      open_session s' email (find s' email)

  abbrev sign_in : Store → String → Result User → Outcome
  sign_in s email (ok u) = open_session s email (ok u)
  sign_in s email (err e) = sign_up s email o.auto_create

  abbrev with_email : Store → Option String → Outcome
  with_email s none = rejected o s "email introuvable" 401
  with_email s (some raw) =
      let email = to_lower (trim_space raw) in
      if raw == ""
      then rejected o s "email introuvable" 401
      else if not (email_allowed o email)
      then rejected o s "email non autorisé" 401
      else sign_in s email (find s email)

  abbrev with_token : Store → OauthConfig → Option String → Outcome
  with_token s conf none = rejected o s "exchange failed" 401
  with_token s conf (some token) = with_email s (fetch_email api (query "provider") conf token)

  abbrev with_provider : Store → Option OauthConfig → Outcome
  with_provider s none = refused s (http_error "requête invalide" 400)
  with_provider s (some conf) =
      if query "code" == ""
      then refused s (http_error "requête invalide" 400)
      else if same_state (r.cookie state_cookie_name) (query "state")
      then with_token s conf (api.exchange conf (query "code"))
      else refused s (http_error "state invalide" 401)

  -- CallbackHandler
  unfoldable pub callback : Store → Outcome
  unfolding email_allowed fetch_email
  callback s =
      if not (r.method == "GET")
      then refused s method_not_allowed
      else with_provider s (lookup (query "provider") o.providers)
