-- ===== src/Oauth.antt =====
-- unyport/backend/auth/oauth.go: login with an account at GitHub or GitLab. The package oauth2 and
-- the providers' answers are parameters, the record `Api`.
pub mod Emails
pub mod Callback
use unyport.Common.{
  ℕ, String, Bool, true, false, not, ◌&&◌, ◌||◌, Option, none, some, List, [], ◌∷◌, ◌++◌, ◌==◌, any,
  leb, if◌then◌else◌,
}
use unyport.Common.Dict.{Dict, lookup, member}
use unyport.Common.Text.{trim_space, to_lower, trim_prefix, contains, cut}
use unyport.Crypto.{Bcrypt, Tokens}
use unyport.Http.{
  Request, Response, Cookie, seconds, delete_now, Net, json_object, bool, http_error,
  found_redirect,
}
use unyport.Jwt.{JwtService, set_cookie}
use unyport.Users.{User, role, effective_display_name}
use unyport.Users.Store.{Store, Disk, Result, ok, err, find, add}
use unyport.Handlers.{Mailer, Mail, client_ip, send_login_notification}
use unyport.Handlers.Sessions.{method_not_allowed, with_cookies}

-- The fields of an oauth2.Config; the endpoint goes with the provider's name.
pub record OauthConfig : Type 0 where
  pub client_id : String
  pub client_secret : String
  pub redirect_url : String
  pub scopes : List String

pub record RemoteEmail : Type 0 where
  pub email : String
  pub primary : Bool
  pub verified : Bool

-- A provider's reply: its status, and its body if that decodes.
pub record Reply (A : Type 0) : Type 0 where
  pub status : ℕ
  pub decoded : Option A

-- `exchange` and the two requests give `none` where the call fails.
pub record Api : Type 0 where
  pub auth_code_url : OauthConfig → String → String
  pub exchange : OauthConfig → String → Option String
  pub github_emails : OauthConfig → String → Option (Reply (List RemoteEmail))
  pub gitlab_email : OauthConfig → String → Option (Reply String)

pub record OauthSettings : Type 0 where
  pub enabled : Bool
  pub auto_create : Bool
  pub allowed_domains : List String

pub record OauthService : Type 0 where
  pub providers : Dict OauthConfig
  pub secure : Bool
  pub enabled : Bool
  pub allowed_domains : List String
  pub auto_create : Bool

-- m[k] of a map of texts: the empty text where the key is missing.
abbrev value_at : Option String → String
value_at none = ""
value_at (some v) = v

abbrev value_configured : String → Bool
value_configured value = not (
    value == ""
    || contains value "abcdef"
    || contains value "supersecret"
    || contains value "mon-domaine.com")

-- oauthProviderConfigured
unfoldable pub oauth_provider_configured : Dict String → Bool
oauth_provider_configured conf =
    value_configured (trim_space (value_at (lookup "client_id" conf)))
    && value_configured (trim_space (value_at (lookup "client_secret" conf)))
    && value_configured (trim_space (value_at (lookup "redirect_url" conf)))

abbrev provider_of : String → String → Option (Dict String) → Dict OauthConfig
provider_of name scope none = []
provider_of name scope (some conf) =
    if oauth_provider_configured conf
    then (
      name,
      record {
        client_id = value_at (lookup "client_id" conf);
        client_secret = value_at (lookup "client_secret" conf);
        redirect_url = value_at (lookup "redirect_url" conf);
        scopes = scope ∷ [];
      },
    )
      ∷ []
    else []

abbrev no_settings : OauthSettings
no_settings = record { enabled = false; auto_create = false; allowed_domains = [] }

abbrev settings_or_none : Option OauthSettings → OauthSettings
settings_or_none none = no_settings
settings_or_none (some s) = s

-- The allowed domains, trimmed and lowered, without the empty ones.
unfoldable pub normal_domains : List String → List String
normal_domains [] = []
normal_domains (d ∷ ds) =
    let domain = to_lower (trim_space (trim_prefix d "@")) in
    let rest = normal_domains ds in if domain == "" then rest else domain ∷ rest

abbrev configured_providers : Bool → Dict (Dict String) → Dict OauthConfig
configured_providers false cfg = []
configured_providers true cfg =
    provider_of "github" "user:email" (lookup "github" cfg)
    ++ provider_of "gitlab" "read_user" (lookup "gitlab" cfg)

-- NewOAuthService
unfoldable pub new_oauth_service : Dict (Dict String) → Option OauthSettings → Bool → OauthService
unfolding normal_domains oauth_provider_configured
new_oauth_service cfg given secure =
    let settings = settings_or_none given in
    record {
      providers = configured_providers settings.enabled cfg;
      secure = secure;
      enabled = settings.enabled;
      allowed_domains = normal_domains settings.allowed_domains;
      auto_create = settings.auto_create;
    }

-- providerEnabled
unfoldable pub provider_enabled : OauthService → String → Bool
provider_enabled o provider = if not o.enabled then false else member provider o.providers

abbrev domain_allowed : List String → Option (String × String) → Bool
domain_allowed allowed none = false
domain_allowed allowed (some (local, domain)) = any (λ d. d == domain) allowed

abbrev is_empty : List String → Bool
is_empty [] = true
is_empty (d ∷ ds) = false

-- emailAllowed
unfoldable pub email_allowed : OauthService → String → Bool
email_allowed o email =
    if is_empty o.allowed_domains
    then true
    else domain_allowed o.allowed_domains (cut b'@' (to_lower (trim_space email)))

-- The first address that is primary and verified.
unfoldable pub primary_email : List RemoteEmail → Option String
primary_email [] = none
primary_email (e ∷ es) = if e.primary && e.verified then some e.email else primary_email es

abbrev accepted : {A : Type 0} → Option (Reply A) → Option A
accepted none = none
accepted (some r) = if leb 200 r.status && leb r.status 299 then r.decoded else none

abbrev primary_of : Option (List RemoteEmail) → Option String
primary_of none = none
primary_of (some es) = primary_email es

-- fetchEmail
unfoldable pub fetch_email : Api → String → OauthConfig → String → Option String
unfolding primary_email
fetch_email api provider conf token =
    if provider == "github"
    then primary_of (accepted (api.github_emails conf token))
    else if provider == "gitlab"
    then accepted (api.gitlab_email conf token)
    else none

abbrev pub state_cookie_name : String
state_cookie_name = "unyport_oauth_state"

abbrev state_cookie : OauthService → String → Cookie
state_cookie o value = record {
  name = state_cookie_name;
  value = value;
  path = "/api/oauth/callback";
  max_age = seconds 300;
  expires = none;
  http_only = true;
  secure = o.secure;
  same_site_lax = true;
}

abbrev pub cleared_state : OauthService → Cookie
cleared_state o = record (state_cookie o "") { max_age = delete_now; expires = some 0 }

-- ProvidersHandler
unfoldable pub providers_handler : OauthService → Request → Response
unfolding provider_enabled
providers_handler o r =
    if not (r.method == "GET")
    then method_not_allowed
    else json_object (
        ("github", bool (provider_enabled o "github"))
        ∷ ("gitlab", bool (provider_enabled o "gitlab"))
        ∷ [])

abbrev start_login : Api → OauthService → OauthConfig → Option String → Response
start_login api o conf none = http_error "state failed" 500
start_login api o conf (some state) =
    with_cookies (state_cookie o state ∷ []) (found_redirect (api.auth_code_url conf state))

abbrev login_provider : Api → OauthService → Option String → String → Option OauthConfig → Response
login_provider api o random provider none = http_error "provider inconnu" 400
login_provider api o random provider (some conf) =
    if provider_enabled o provider
    then start_login api o conf random
    else http_error "provider inconnu" 400

-- LoginHandler; `query` reads a parameter of the query, `random` is what randomState gives.
unfoldable pub login_handler :
    Api → OauthService → Option String → (String → String) → Request → Response
unfolding provider_enabled
login_handler api o random query r =
    if not (r.method == "GET")
    then method_not_allowed
    else login_provider api o random (query "provider") (lookup (query "provider") o.providers)
