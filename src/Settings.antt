-- ===== src/Settings.antt =====
-- unyport/backend/config/settings.go: the settings and their defaults. The YAML library is a
-- parameter.
pub mod Laws
use unyport.Common.{
  String, Bool, true, false, not, Option, none, some, List, [], ◌==◌, if◌then◌else◌,
}
use unyport.Common.Integers.{ℤ, pos, at_most}

pub record SecretSettings : Type 0 where
  pub csrf_secret : String
  pub jwt_secret : String

pub record PathSettings : Type 0 where
  pub users_file : String
  pub log_dir : String
  pub lbu_overlay : String
  pub lbu_commit_log : String

pub record DisplaySettings : Type 0 where
  pub cpu : Bool
  pub memory : Bool
  pub disk : Bool
  pub network : Bool
  pub xen_status : Bool
  pub lbu_status : Bool

pub record LbuSettings : Type 0 where
  pub enabled : Bool
  pub check_dir : String
  pub status_cmd : String
  pub auto_detect : Bool

pub record OauthSettings : Type 0 where
  pub enabled : Bool
  pub allowed_domains : List String
  pub auto_create : Bool

pub record HardeningSettings : Type 0 where
  pub rate_limit_login : ℤ
  pub rate_limit_api : ℤ
  pub session_timeout_mins : ℤ
  pub https : Bool
  pub trusted_origins : List String

pub record MailSettings : Type 0 where
  pub enabled : Bool
  pub host : String
  pub port : ℤ
  pub username : String
  pub password : String
  pub from : String
  pub sendmail_path : String

pub record Http3Settings : Type 0 where
  pub enabled : Bool
  pub cert_file : String
  pub key_file : String
  pub port : ℤ
  pub redirect_http : Bool

pub record Settings : Type 0 where
  pub theme : String
  pub security : SecretSettings
  pub paths : PathSettings
  pub display : DisplaySettings
  pub lbu : LbuSettings
  pub oauth : OauthSettings
  pub security2 : HardeningSettings
  pub mail : MailSettings
  pub http3 : Http3Settings

abbrev pub text_or : String → String → String
text_or s fallback = if s == "" then fallback else s

abbrev pub int_or : ℤ → ℤ → ℤ
int_or i fallback = if at_most i 0 then fallback else i

-- The defaults that LoadSettings fills in.
unfoldable pub with_defaults : Settings → Settings
with_defaults s = record s {
  theme = text_or s.theme "dark";
  paths = record s.paths {
    users_file = text_or s.paths.users_file "settings/users.json";
    log_dir = text_or s.paths.log_dir "logs";
  };
  display = record s.display {
    lbu_status = if not s.display.lbu_status then true else s.display.lbu_status;
  };
  lbu = record s.lbu {
    check_dir = text_or s.lbu.check_dir "/media/usbdisk";
    status_cmd = text_or s.lbu.status_cmd "lbu status";
  };
  security2 = record s.security2 {
    rate_limit_login = int_or s.security2.rate_limit_login (pos 5);
    session_timeout_mins = int_or s.security2.session_timeout_mins (pos 60);
  };
  http3 = record s.http3 { port = int_or s.http3.port (pos 8443) };
}

-- What the file gives: an error, a text that does not parse, or its fields.
pub data Reading : Type 0 where
  unreadable malformed : Reading
  parsed : Settings → Reading

-- LoadSettings; none is an error
unfoldable pub load_settings : Reading → Option Settings
unfolding with_defaults
load_settings unreadable = none
load_settings malformed = none
load_settings (parsed s) = some (with_defaults s)
