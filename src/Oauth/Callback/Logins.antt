-- ===== src/Oauth/Callback/Logins.antt =====
-- What CallbackHandler has checked when it logs a user in.
use unyport.Common.{
  ℕ, ◌≡◌, ◌≢◌, refl, inl, inr, String, Bool, true, false, Option, none, some, [], ◌∷◌, ◌==◌, eq_iff,
  arith, Bool-cases, Option-cases,
}
use unyport.Common.Dict.{lookup}
use unyport.Common.Text.{trim_space, to_lower}
use unyport.Crypto.{Bcrypt, Tokens}
use unyport.Http.{Request, Cookie, Net}
use unyport.Jwt.{JwtService, set_cookie}
use unyport.Users.{User, role}
use unyport.Users.Store.{Store, Disk, Result, ok, err, find, add}
use unyport.Handlers.{Mailer}
use unyport.Oauth.{
  Api, OauthConfig, OauthService, email_allowed, fetch_email, state_cookie_name, cleared_state,
}
use unyport.Oauth.Callback.{
  Outcome, callback, new_viewer, open_session, start_session, sign_up, sign_in, with_email,
  same_state,
}
use unyport.Oauth.Callback.Accounts.{start_session-store}

-- A login through a provider: what it has checked, and the cookies that it sets.
pub record IsLoggedIn (t : Tokens) (j : JwtService) (now : ℕ) (api : Api) (o : OauthService)
    (query : String → String) (r : Request) (out : Outcome) : Type 0 where
  pub conf : OauthConfig
  pub token : String
  pub raw : String
  pub user : User
  pub cookie : Cookie
  pub configured : lookup (query "provider") o.providers ≡ some conf
  pub has_state : query "state" ≢ ""
  pub same_state : r.cookie state_cookie_name ≡ some (query "state")
  pub exchanged : api.exchange conf (query "code") ≡ some token
  pub fetched : fetch_email api (query "provider") conf token ≡ some raw
  pub allowed : email_allowed o (to_lower (trim_space raw)) ≡ true
  pub known : find out.store (to_lower (trim_space raw)) ≡ ok user
  pub signed : set_cookie t j now (to_lower (trim_space raw)) (role user) ≡ some cookie
  pub sent : out.response.cookies ≡ cleared_state o ∷ cookie ∷ []

same_state_sound :
    (sent : Option String) (state : String)
    → same_state sent state ≡ true
    → (state ≢ "") × (sent ≡ some state)
same_state_sound none state h = absurd (ground arith)
same_state_sound (some v) state h = ground (arith, eq_iff state "", eq_iff v state)

module _ (b : Bcrypt) (t : Tokens) (j : JwtService) (n : Net) (m : Option Mailer) (now salt : ℕ)
    (disk : Disk) (api : Api) (o : OauthService) (query : String → String) (r : Request) where
  start_session-sent :
      (s : Store) (u : User) (c : Option Cookie)
      → (start_session b t j n m now salt disk api o query r s u c).response.status ≡ 302
      → (k : Cookie) × (c ≡ some k)
        × ((start_session b t j n m now salt disk api o query r s u c).response.cookies
            ≡ cleared_state o ∷ k ∷ [])
  start_session-sent s u none h = absurd (ground arith)
  start_session-sent s u (some k) h = (k, refl, refl)

  -- The part of a login that follows the exchange of the code.
  record IsSignedIn (raw : Option String) (out : Outcome) : Type 0 where
    pub address : String
    pub user : User
    pub cookie : Cookie
    pub fetched : raw ≡ some address
    pub allowed : email_allowed o (to_lower (trim_space address)) ≡ true
    pub known : find out.store (to_lower (trim_space address)) ≡ ok user
    pub signed : set_cookie t j now (to_lower (trim_space address)) (role user) ≡ some cookie
    pub sent : out.response.cookies ≡ cleared_state o ∷ cookie ∷ []

  open_session-IsSignedIn :
      (s : Store) (raw : String) (found : Result User)
      → email_allowed o (to_lower (trim_space raw)) ≡ true
      → find s (to_lower (trim_space raw)) ≡ found
      → (open_session b t j n m now salt disk api o query r s
          (to_lower (trim_space raw))
          found).response.status
        ≡ 302
      → IsSignedIn
          (some raw)
          (open_session b t j n m now salt disk api o query r s (to_lower (trim_space raw)) found)
  open_session-IsSignedIn s raw (err e) allowed known h = absurd (ground arith)
  open_session-IsSignedIn s raw (ok u) allowed known h =
      let made = set_cookie t j now (to_lower (trim_space raw)) (role u) in
      let (k, signed, sent) = start_session-sent s u made h in
      record {
        address = raw;
        user = u;
        cookie = k;
        fetched = refl;
        allowed = allowed;
        known = rw (start_session-store b t j n m now salt disk api o query r s u made) known;
        signed = signed;
        sent = sent;
      }

  with_email-IsSignedIn :
      (s : Store) (raw : Option String)
      → (with_email b t j n m now salt disk api o query r s raw).response.status ≡ 302
      → IsSignedIn raw (with_email b t j n m now salt disk api o query r s raw)
  with_email-IsSignedIn s none h = absurd (ground arith)
  with_email-IsSignedIn s (some raw) h =
      let email = to_lower (trim_space raw) in
      elim (Bool-cases (raw == "")) [
        | inl empty ↦ absurd (ground (arith, empty))
        | inr given ↦ elim (Bool-cases (email_allowed o email)) [
          | inr foreign ↦ absurd (ground (arith, given, foreign))
          | inl allowed ↦
              rw (given, allowed) (by_user allowed (find s email) refl (rw (given, allowed) at h))
        ]
      ]
    where
      by_user :
          email_allowed o (to_lower (trim_space raw)) ≡ true
          → (found : Result User) → find s (to_lower (trim_space raw)) ≡ found
          → (sign_in b t j n m now salt disk api o query r s
              (to_lower (trim_space raw))
              found).response.status
            ≡ 302
          → IsSignedIn
              (some raw)
              (sign_in b t j n m now salt disk api o query r s (to_lower (trim_space raw)) found)
      by_user allowed (ok u) known done = open_session-IsSignedIn s raw (ok u) allowed known done
      by_user allowed (err e) known done = by_flag o.auto_create done
        where
          by_flag :
              (may : Bool)
              → (sign_up b t j n m now salt disk api o query r s
                  (to_lower (trim_space raw))
                  may).response.status
                ≡ 302
              → IsSignedIn
                  (some raw)
                  (sign_up b t j n m now salt disk api o query r s (to_lower (trim_space raw)) may)
          by_flag false d = absurd (ground arith)
          by_flag true d =
              let s' : Store = (add b salt disk s (new_viewer now (to_lower (trim_space raw)))).1 in
              open_session-IsSignedIn s' raw (find s' (to_lower (trim_space raw))) allowed refl d

  -- A callback redirects only after a login: its state is not empty and is that of the state
  -- cookie, the provider is configured, the code was exchanged, the provider gave the address,
  -- that address is allowed once trimmed and lowered, and the store has its user. It then clears
  -- the state and sets the session of that user, with the role in the store.
  pub callback-IsLoggedIn :
      (s : Store)
      → (callback b t j n m now salt disk api o query r s).response.status ≡ 302
      → IsLoggedIn t j now api o query r (callback b t j n m now salt disk api o query r s)
  unfolding callback
  callback-IsLoggedIn s h = elim (Bool-cases (r.method == "GET")) [
    | inr other ↦ absurd (ground (arith, other))
    | inl get ↦ elim (Option-cases (lookup (query "provider") o.providers)) [
      | inl gone ↦ absurd (ground (arith, get, gone))
      | inr (conf, configured) ↦ elim (Bool-cases (query "code" == "")) [
        | inl empty ↦ absurd (ground (arith, get, configured, empty))
        | inr given ↦ elim (Bool-cases (same_state (r.cookie state_cookie_name) (query "state"))) [
          | inr other ↦ absurd (ground (arith, get, configured, given, other))
          | inl same ↦ elim (Option-cases (api.exchange conf (query "code"))) [
            | inl failed ↦ absurd (ground (arith, get, configured, given, same, failed))
            | inr (token, exchanged) ↦
                let i =
                  with_email-IsSignedIn s (fetch_email api (query "provider") conf token)
                    (rw (get, configured, given, same, exchanged) at h) in
                let (has_state, sent) =
                  same_state_sound (r.cookie state_cookie_name) (query "state") same in
                rw (get, configured, given, same, exchanged)
                  (record {
                    conf = conf;
                    token = token;
                    raw = i.address;
                    user = i.user;
                    cookie = i.cookie;
                    configured = configured;
                    has_state = has_state;
                    same_state = sent;
                    exchanged = exchanged;
                    fetched = i.fetched;
                    allowed = i.allowed;
                    known = i.known;
                    signed = i.signed;
                    sent = i.sent;
                  })
          ]
        ]
      ]
    ]
  ]
