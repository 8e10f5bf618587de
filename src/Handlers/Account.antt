-- ===== src/Handlers/Account.antt =====
-- Profile, UpdateProfile and UpdatePassword of unyport/backend/auth/handlers.go: the handlers of
-- the user's own account. The context is the one that the middleware Auth has filled.
use unyport.Common.{
  ℕ, String, Bool, true, false, not, Option, none, some, [], ◌∷◌, ◌==◌, if◌then◌else◌,
}
use unyport.Common.Text.{trim_space, to_lower}
use unyport.Crypto.{Bcrypt, Tokens}
use unyport.Http.{
  Request, Context, Response, Cookie, Body, decode_json, str, bool, json_object, json_ok,
  json_error,
}
use unyport.Jwt.{JwtService, set_cookie}
use unyport.Users.{User, role, effective_display_name, effective_avatar, uses_default_credentials}
use unyport.Users.Store.{
  Error, Store, Disk, Profile, Result, ok, err, find, update_profile, update_password,
}
use unyport.Handlers.{error_text}
use unyport.Handlers.Sessions.{method_not_allowed, with_cookies}

module _ (b : Bcrypt) (format_date : ℕ → String) where
  abbrev profile_of : Result User → Response
  profile_of (err e) = json_error "user not found" 404
  profile_of (ok u) = json_object (
      ("email", str u.email)
      ∷ ("role", str (role u))
      ∷ ("display_name", str (effective_display_name u))
      ∷ ("avatar", str (effective_avatar u))
      ∷ ("ssh_key", str u.ssh_key)
      ∷ ("photo_url", str u.photo_url)
      ∷ ("created_at", str (format_date u.created_at))
      ∷ ("default_credentials", bool (uses_default_credentials b u))
      ∷ [])

  -- Profile
  unfoldable pub profile : Store → Context → Response
  profile s ctx =
      if ctx.user_id == "" then json_error "unauthorized" 401 else profile_of (find s ctx.user_id)

-- The fields of the form, trimmed.
abbrev trimmed : Profile → Profile
trimmed p = record {
  email = trim_space (to_lower p.email);
  display_name = trim_space p.display_name;
  avatar = trim_space p.avatar;
  photo_url = trim_space p.photo_url;
  ssh_key = trim_space p.ssh_key;
}

module _ (outside : Error → String) (b : Bcrypt) (t : Tokens) (j : JwtService) (now : ℕ)
    (disk : Disk) (s : Store) (r : Request) (ctx : Context) where
  abbrev updated : User → Response
  updated u = json_object (
      ("ok", bool true)
      ∷ ("email", str u.email)
      ∷ ("display_name", str (effective_display_name u))
      ∷ ("avatar", str (effective_avatar u))
      ∷ ("ssh_key", str u.ssh_key)
      ∷ ("photo_url", str u.photo_url)
      ∷ ("default_credentials", bool (uses_default_credentials b u))
      ∷ [])

  abbrev reissued : User → Option Cookie → Response
  reissued u none = json_error "internal error" 500
  reissued u (some c) = with_cookies (c ∷ []) (updated u)

  abbrev report_update : Result (User × Bool) × Store → Response × Store
  report_update (err e, s') = (json_error (error_text outside e) 400, s')
  report_update (ok (u, false), s') = (updated u, s')
  report_update (ok (u, true), s') = (reissued u (set_cookie t j now u.email (role u)), s')

  abbrev update_with : Option Profile → Response × Store
  update_with none = (json_error "bad request" 400, s)
  update_with (some p) = report_update (update_profile disk s ctx.user_id (trimmed p))

  -- UpdateProfile
  unfoldable pub update_own_profile : Body Profile → Response × Store
  update_own_profile body =
      if not (r.method == "PATCH")
      then (method_not_allowed, s)
      else if ctx.user_id == ""
      then (json_error "unauthorized" 401, s)
      else update_with (decode_json body)

pub record PasswordChange : Type 0 where
  pub old_password : String
  pub new_password : String

module _ (outside : Error → String) (b : Bcrypt) (salt : ℕ) (disk : Disk) (s : Store) (r : Request)
    (ctx : Context) where
  abbrev report_password : Result (Unit {0}) × Store → Response × Store
  report_password (ok _, s') = (json_ok, s')
  report_password (err e, s') = (json_error (error_text outside e) 400, s')

  abbrev password_with : Option PasswordChange → Response × Store
  password_with none = (json_error "bad request" 400, s)
  password_with (some c) =
      report_password (update_password b salt disk s ctx.user_id c.old_password c.new_password)

  -- UpdatePassword
  unfoldable pub update_own_password : Body PasswordChange → Response × Store
  update_own_password body =
      if not (r.method == "POST")
      then (method_not_allowed, s)
      else if ctx.user_id == ""
      then (json_error "unauthorized" 401, s)
      else password_with (decode_json body)
