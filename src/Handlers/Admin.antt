-- ===== src/Handlers/Admin.antt =====
-- AdminUsers and AdminUserByEmail of unyport/backend/auth/handlers.go.
pub mod Laws
use unyport.Common.{
  ℕ, String, Bool, true, false, not, ◌&&◌, ◌||◌, Option, none, some, List, [], ◌∷◌, map, ◌==◌,
  if◌then◌else◌,
}
use unyport.Common.Dict.{Dict}
use unyport.Common.Text.{trim_space, to_lower, trim_prefix}
use unyport.Crypto.{Bcrypt}
use unyport.Http.{
  Request, Context, Response, Body, decode_json, Atom, str, bool, object, objects, json_type,
  json_ok, json_error,
}
use unyport.Users.{User, valid_role, role, effective_display_name, effective_avatar}
use unyport.Users.Store.{Error, Store, Disk, Result, ok, err, list, add, delete_user, set_role}
use unyport.Handlers.{error_text}
use unyport.Handlers.Sessions.{method_not_allowed}

pub record NewUser : Type 0 where
  pub email : String
  pub password : String
  pub role : String

pub record NewRole : Type 0 where
  pub role : String

module _ (format_date : ℕ → String) where
  abbrev user_view : User → Dict Atom
  user_view u =
      ("email", str u.email)
      ∷ ("display_name", str (effective_display_name u))
      ∷ ("role", str (role u))
      ∷ ("avatar", str (effective_avatar u))
      ∷ ("created_at", str (format_date u.created_at))
      ∷ []

  -- adminListUsers
  unfoldable pub admin_list_users : Store → Response
  admin_list_users s = record {
    status = 200;
    headers = json_type;
    cookies = [];
    body = objects (map user_view (list s));
  }

module _ (outside : Error → String) (b : Bcrypt) (salt now : ℕ) (disk : Disk) (s : Store) where
  abbrev created : Response
  created = record {
    status = 201;
    headers = json_type;
    cookies = [];
    body = object (("ok", bool true) ∷ []);
  }

  abbrev report_created : Result (Unit {0}) × Store → Response × Store
  report_created (ok _, s') = (created, s')
  report_created (err e, s') = (json_error (error_text outside e) 409, s')

  abbrev new_user : String → String → String → User
  new_user email password role = record {
    id = email;
    email = email;
    password = password;
    roles = (if valid_role role then role else "viewer") ∷ [];
    display_name = "";
    avatar = "";
    photo_url = "";
    ssh_key = "";
    two_fa = false;
    created_at = now;
  }

  abbrev create_with : Option NewUser → Response × Store
  create_with none = (json_error "bad request" 400, s)
  create_with (some body) =
      let email = trim_space (to_lower body.email) in
      let role = trim_space (to_lower body.role) in
      if email == "" || body.password == ""
      then (json_error "email et mot de passe requis" 400, s)
      else report_created (add b salt disk s (new_user email body.password role))

  -- adminCreateUser
  unfoldable pub admin_create_user : Body NewUser → Response × Store
  admin_create_user body = create_with (decode_json body)

  -- AdminUsers
  unfoldable pub admin_users : (ℕ → String) → Request → Body NewUser → Response × Store
  unfolding admin_create_user
  admin_users format_date r body =
      if r.method == "GET"
      then (admin_list_users format_date s, s)
      else if r.method == "POST"
      then admin_create_user body
      else (method_not_allowed, s)

module _ (outside : Error → String) (disk : Disk) (s : Store) (ctx : Context) where
  abbrev report : ℕ → Result (Unit {0}) × Store → Response × Store
  report status (ok _, s') = (json_ok, s')
  report status (err e, s') = (json_error (error_text outside e) status, s')

  abbrev change_role : String → Option NewRole → Response × Store
  change_role email none = (json_error "bad request" 400, s)
  change_role email (some body) =
      let role = trim_space (to_lower body.role) in
      if email == ctx.user_id && not (role == "admin")
      then (json_error "impossible de se rétrograder soi-même" 400, s)
      else report 400 (set_role disk s email role)

  abbrev remove : String → Response × Store
  remove email =
      if email == ctx.user_id
      then (json_error "impossible de supprimer son propre compte" 400, s)
      else report 404 (delete_user disk s email)

  -- AdminUserByEmail
  unfoldable pub admin_user_by_email : Request → Body NewRole → Response × Store
  admin_user_by_email r body =
      let email = trim_space (to_lower (trim_prefix r.path "/api/admin/users/")) in
      if email == ""
      then (json_error "email manquant" 400, s)
      else if r.method == "DELETE"
      then remove email
      else if r.method == "PATCH"
      then change_role email (decode_json body)
      else (method_not_allowed, s)
