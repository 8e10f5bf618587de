-- ===== src/Handlers.antt =====
-- unyport/backend/auth/handlers.go: what the handlers share.
pub mod Sessions
pub mod Account
pub mod Admin
use unyport.Common.{
  ℕ, String, Bool, true, false, not, ◌&&◌, Option, none, some, ◌==◌, if◌then◌else◌,
}
use unyport.Common.Text.{trim_space, cut}
use unyport.Http.{Request, Net}
use unyport.Users.Store.{
  Error, user_not_found, email_required, user_already_exists, password_too_short, hash_failed,
  email_invalid, email_already_exists, avatar_too_long, photo_too_large, photo_bad_scheme,
  wrong_password, invalid_role, save_failed, file_unreadable, file_malformed,
}

-- err.Error() of an error of the store. The texts of the file system and of bcrypt are given.
unfoldable pub error_text : (Error → String) → Error → String
error_text outside user_not_found = "user not found"
error_text outside email_required = "email required"
error_text outside user_already_exists = "user already exists"
error_text outside password_too_short = "mot de passe trop court (8 caractères minimum)"
error_text outside email_invalid = "email invalid"
error_text outside email_already_exists = "email already exists"
error_text outside avatar_too_long = "avatar: 2 caractères maximum"
error_text outside photo_too_large = "photo: taille maximale 2 Mo"
error_text outside photo_bad_scheme = "photo: URL https ou data URI image requis"
error_text outside wrong_password = "mot de passe actuel incorrect"
error_text outside invalid_role = "rôle invalide (admin|operator|viewer)"
error_text outside e = outside e

abbrev before_comma : String → Option (String × String) → String
before_comma fwd none = fwd
before_comma fwd (some (before, after)) = before

abbrev or_remote : String → Option String → String
or_remote remote none = remote
or_remote remote (some ip) = ip

-- clientIP
unfoldable pub client_ip : Net → Request → String
client_ip n r =
    let fwd = trim_space (r.header "X-Forwarded-For") in
    let real = trim_space (r.header "X-Real-IP") in
    if not (fwd == "")
    then trim_space (before_comma fwd (cut b',' fwd))
    else if not (real == "")
    then real
    else or_remote r.remote_addr (n.split_host r.remote_addr)

-- The settings of unyport/backend/auth/mailer.go.
pub record Mailer : Type 0 where
  pub enabled : Bool
  pub from : String

pub record Mail : Type 0 where
  pub to : String
  pub username : String
  pub ip : String
  pub time : ℕ

-- (*Mailer).Enabled; `none` is a nil mailer.
unfoldable pub mailer_enabled : Option Mailer → Bool
mailer_enabled none = false
mailer_enabled (some m) = m.enabled && not (m.from == "")

-- SendLoginNotification: the mail that is handed to sendmail, if one is.
unfoldable pub send_login_notification : Option Mailer → Mail → Option Mail
unfolding mailer_enabled
send_login_notification m mail =
    if not (mailer_enabled m) then none else if trim_space mail.to == "" then none else some mail
