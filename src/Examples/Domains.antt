-- ===== src/Examples/Domains.antt =====
-- The theorems on logins through a provider and on Xen domains at concrete inputs.
use unyport.Common.{◌≡◌, refl, String, true, false, none, some, [], ◌∷◌, ◌==◌, if◌then◌else◌, All}
use unyport.Common.Dict.{lookup}
use unyport.Common.Text.{trim_space, to_lower, cut, all_codes, first_code}
use unyport.Http.{Request}
use unyport.Jwt.{set_cookie}
use unyport.Users.{role, normalize_email}
use unyport.Users.Store.{saved, find}
use unyport.Oauth.{
  Api, OauthConfig, OauthService, OauthSettings, email_allowed, fetch_email, primary_email,
  state_cookie_name,
}
use unyport.Oauth.Callback.{Outcome, callback}
use unyport.Oauth.Callback.Logins.{IsLoggedIn, callback-IsLoggedIn}
use unyport.Oauth.Callback.Accounts.{AddsViewers, callback-AddsViewers}
use unyport.Xen.{valid_domain, valid_host, is_control_domain}
use unyport.Xen.Client.{Client, command}
use unyport.Xen.Handler.{ActionRequest, run_action, domain_action_handler, create_handler}
use unyport.Xen.Commands.{migrating_live}
use unyport.Xen.Guards.{
  IsCleared, IsCreation, domain_action_handler-IsCleared, create_handler-IsCreation,
}
use unyport.Xen.Options.{IsAllowed-no_option, run_action-control}
use unyport.Examples.Fixtures.{dollar, one_token, service, store, ada_context, net, request}

abbrev conf : OauthConfig
conf = record {
  client_id = "id";
  client_secret = "s3";
  redirect_url = "https://a.io/cb";
  scopes = [];
}

abbrev oauth : OauthService
oauth = record {
  providers = ("github", conf) ∷ [];
  secure = true;
  enabled = true;
  allowed_domains = "x.io" ∷ [];
  auto_create = true;
}

-- GitHub knows ada by a second, verified address.
abbrev api : Api
api = record {
  auth_code_url = λ c state. state;
  exchange = λ c code. some "access";
  github_emails = λ c token. some (record {
    status = 200;
    decoded = some (
        record { email = "old@z.io"; primary = false; verified = true }
        ∷ record { email = "Ada@x.io"; primary = true; verified = true }
        ∷ []);
  });
  gitlab_email = λ c token. none;
}

abbrev query : String → String
query name =
    if name == "provider"
    then "github"
    else if name == "code"
    then "c0de"
    else if name == "state"
    then "st4te"
    else ""

abbrev returning : Request
returning = record (request "GET" "/api/oauth/callback") {
  cookie = λ name. if name == state_cookie_name then some "st4te" else none;
}

abbrev outcome : Outcome
outcome = callback dollar one_token service net none 1000 7 saved api oauth query returning store

callback-IsLoggedIn_example : IsLoggedIn one_token service 1000 api oauth query returning outcome
unfolding callback email_allowed fetch_email primary_email cut find lookup set_cookie role
    normalize_email to_lower trim_space
callback-IsLoggedIn_example =
    callback-IsLoggedIn dollar one_token service net none 1000 7 saved api oauth query returning
      store refl

callback-AddsViewers_example : AddsViewers oauth store outcome.store
callback-AddsViewers_example =
    callback-AddsViewers dollar one_token service net none 1000 7 saved api oauth query returning
      store

abbrev settings : OauthSettings
settings = record { enabled = true; auto_create = false; allowed_domains = " " ∷ "@X.io" ∷ [] }

abbrev client : Client
client = record { bin = ""; runner = λ c. record { output = ""; late = false; failure = none } }

abbrev migration : ActionRequest
migration = record {
  action = " Migrate";
  config_path = "/etc/xen/web.cfg";
  target_host = "node2";
  live = true;
  dry_run = false;
}

abbrev acting : Request
acting = request "POST" "/api/xen/domains/web1/actions"

domain_action_handler-IsCleared_example :
    IsCleared client ada_context true acting
      (some migration)
      (domain_action_handler client ada_context true acting (some migration)).commands
domain_action_handler-IsCleared_example =
    domain_action_handler-IsCleared client ada_context acting true (some migration)

create_handler-IsCreation_example :
    IsCreation client ada_context acting true
      (some migration)
      (create_handler client ada_context true acting (some migration)).commands
create_handler-IsCreation_example =
    create_handler-IsCreation client ada_context acting true (some migration)

IsAllowed-no_option_example :
    All (λ a. first_code a ≡ b'-' → a ≡ "-l") ("migrate" ∷ "-l" ∷ "web1" ∷ "node2" ∷ [])
unfolding valid_domain valid_host all_codes
IsAllowed-no_option_example =
    IsAllowed-no_option "admin" ("migrate" ∷ "-l" ∷ "web1" ∷ "node2" ∷ [])
      (migrating_live "web1" "node2" refl refl refl)

run_action-control_example :
    (run_action client ada_context "DOMAIN-0" "migrate" migration).commands
    ≡ command client ("migrate" ∷ "-l" ∷ "DOMAIN-0" ∷ "node2" ∷ []) ∷ []
unfolding valid_host valid_domain is_control_domain all_codes trim_space to_lower
run_action-control_example =
    run_action-control client ada_context "DOMAIN-0" migration refl "migrate" refl refl refl
