-- ===== src/Oauth/Emails.antt =====
-- Which addresses a provider's answer and the configured domains let in.
use unyport.Common.{
  ◌≡◌, ◌≢◌, refl, ◌⊎◌, inl, inr, ℕ, ◌≤◌, String, Bool, true, false, not, ◌&&◌, ◌||◌, Option, none,
  some, List, [], ◌∷◌, ◌==◌, eq_iff, arith, any, Bool-cases, Option-cases, if◌then◌else◌,
}
use unyport.Common.Text.{trim_space, to_lower, trim_prefix, cut}
use unyport.Common.Dict.{Dict}
use unyport.Oauth.{
  Api, OauthConfig, OauthSettings, RemoteEmail, Reply, normal_domains, new_oauth_service,
  email_allowed, primary_email, fetch_email, is_empty,
}

-- The address is in the list, as a primary and verified one.
pub record IsPrimary (address : String) (es : List RemoteEmail) : Type 0 where
  pub before : List RemoteEmail
  pub entry : RemoteEmail
  pub after : List RemoteEmail
  pub found : es ≡ unyport.Common.◌++◌ before (entry ∷ after)
  pub address_of : entry.email ≡ address
  pub primary : entry.primary ≡ true
  pub verified : entry.verified ≡ true

primary_email-IsPrimary :
    (es : List RemoteEmail) (address : String)
    → primary_email es ≡ some address
    → IsPrimary address es
unfolding primary_email
primary_email-IsPrimary [] address h = absurd (ground arith)
primary_email-IsPrimary (e ∷ es) address h = elim (Bool-cases (e.primary && e.verified)) [
  | inl chosen ↦ record {
    before = [];
    entry = e;
    after = es;
    found = refl;
    address_of = ground (arith, chosen);
    primary = ground (arith, chosen);
    verified = ground (arith, chosen);
  }
  | inr skipped ↦
      let i = primary_email-IsPrimary es address (rw skipped at h) in
      record {
        before = e ∷ i.before;
        entry = i.entry;
        after = i.after;
        found = ground (arith, i.found);
        address_of = i.address_of;
        primary = i.primary;
        verified = i.verified;
      }
]

-- What GitHub has said of an address that fetchEmail takes from it.
pub record IsVouched (api : Api) (conf : OauthConfig) (token address : String) : Type 0 where
  pub answer : Reply (List RemoteEmail)
  pub emails : List RemoteEmail
  pub answered : api.github_emails conf token ≡ some answer
  pub success : (200 ≤ answer.status) × (answer.status ≤ 299)
  pub decoded : answer.decoded ≡ some emails
  pub chosen : IsPrimary address emails

-- The address that fetchEmail takes from GitHub is one that a successful answer lists as primary
-- and verified.
pub fetch_email-IsVouched :
    (api : Api) (conf : OauthConfig) (token address : String)
    → fetch_email api "github" conf token ≡ some address
    → IsVouched api conf token address
unfolding fetch_email
fetch_email-IsVouched api conf token address h =
    elim (Option-cases (api.github_emails conf token)) [
      | inl failed ↦ absurd (ground (arith, failed))
      | inr (answer, answered) ↦ elim (Option-cases answer.decoded) [
        | inl bad ↦ absurd (ground (arith, answered, bad))
        | inr (es, decoded) ↦ record {
          answer = answer;
          emails = es;
          answered = answered;
          success = ground (arith, answered, decoded);
          decoded = decoded;
          chosen = primary_email-IsPrimary es address (ground (arith, answered, decoded));
        }
      ]
    ]

-- Some entry of the configured list is this domain, once trimmed and lowered.
unfoldable pub names_domain : String → String → Bool
names_domain domain d = to_lower (trim_space (trim_prefix d "@")) == domain

any-normal_domains :
    (domain : String) (ds : List String)
    → any (λ d. d == domain) (normal_domains ds)
      ≡ not (domain == "") && any (names_domain domain) ds
unfolding normal_domains names_domain
any-normal_domains domain [] = ground arith
any-normal_domains domain (d ∷ ds) =
    let own = to_lower (trim_space (trim_prefix d "@")) in
    ground (arith, any-normal_domains domain ds, eq_iff own "", eq_iff own domain, eq_iff domain "")

-- Some entry of the configured list is not blank.
unfoldable pub restricts : List String → Bool
unfolding names_domain
restricts ds = any (λ d. not (names_domain "" d)) ds

restricts-normal_domains : (ds : List String) → restricts ds ≡ true → normal_domains ds ≢ []
unfolding restricts normal_domains
restricts-normal_domains [] h = absurd (ground arith)
restricts-normal_domains (d ∷ ds) h = ground (arith, restricts-normal_domains ds)

-- With a list of domains that is not blank, an address is let in if and only if what follows its
-- first @ is not empty and is one of the listed domains, once these are trimmed and lowered and
-- have lost a leading @.
pub email_allowed-new_oauth_service :
    (cfg : Dict (Dict String)) (settings : OauthSettings) (secure : Bool)
    (email local domain : String)
    → restricts settings.allowed_domains ≡ true
    → cut b'@' (to_lower (trim_space email)) ≡ some (local, domain)
    → email_allowed (new_oauth_service cfg (some settings) secure) email
      ≡ not (domain == "") && any (names_domain domain) settings.allowed_domains
unfolding email_allowed new_oauth_service
email_allowed-new_oauth_service cfg settings secure email local domain h parts = rw parts (
    by_list (normal_domains settings.allowed_domains)
      (restricts-normal_domains settings.allowed_domains h)
      (any-normal_domains domain settings.allowed_domains))
  where
    by_list :
        {b : Bool} (ds : List String)
        → ds ≢ []
        → any (λ d. d == domain) ds ≡ b
        → (if is_empty ds then true else any (λ d. d == domain) ds) ≡ b
    by_list [] filled h = absurd (filled refl)
    by_list (d ∷ ds) filled h = h
