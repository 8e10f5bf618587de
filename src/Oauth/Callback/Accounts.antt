-- ===== src/Oauth/Callback/Accounts.antt =====
-- What CallbackHandler can do to the store.
use unyport.Common.{
  ℕ, ◌≡◌, refl, ◌⊎◌, inl, inr, String, Bool, true, false, not, ◌&&◌, Option, none, some, [], ◌∷◌,
  ◌==◌, eq_iff, arith, Bool-cases,
}
use unyport.Common.Dict.{lookup}
use unyport.Common.Text.{trim_space, to_lower}
use unyport.Crypto.{Bcrypt, Tokens}
use unyport.Http.{Request, Cookie, Net}
use unyport.Jwt.{JwtService, set_cookie}
use unyport.Users.{User, role, normalize_email}
use unyport.Users.Store.{Store, Disk, Result, Error, ok, err, find, add}
use unyport.Users.Store.Additions.{find-add_open}
use unyport.Handlers.{Mailer}
use unyport.Oauth.{Api, OauthConfig, OauthService, email_allowed, fetch_email, state_cookie_name}
use unyport.Oauth.Callback.{
  Outcome, callback, new_viewer, open_session, start_session, sign_up, sign_in, with_email,
  with_token, with_provider, same_state,
}

-- Nobody who was in the store has changed, and who is new is a viewer that the service may add.
pub record AddsViewers (o : OauthService) (s s' : Store) : Type 0 where
  pub kept : (k : String) (u : User) → find s k ≡ ok u → find s' k ≡ ok u
  pub fresh :
      (k : String) (u : User)
      → find s' k ≡ ok u
      → (find s k ≡ ok u) ⊎ ((role u ≡ "viewer") × (o.auto_create ≡ true))

AddsViewers-refl : (o : OauthService) (s : Store) → AddsViewers o s s
AddsViewers-refl o s = record { kept = λ k u h. h; fresh = λ k u h. inl h }

viewer_role : (u : User) → u.roles ≡ "viewer" ∷ [] → role u ≡ "viewer"
unfolding role to_lower trim_space
viewer_role u h = rw h refl

find-same :
    (s : Store) (email k : String) (e : Error)
    → find s email ≡ err e
    → normalize_email email ≡ normalize_email k
    → find s k ≡ err e
unfolding find
find-same s email k e unknown h = rw⁻¹ h unknown

add-AddsViewers :
    (b : Bcrypt) (salt now : ℕ) (disk : Disk) (o : OauthService) (s : Store) (email : String)
    (e : Error)
    → find s email ≡ err e
    → o.auto_create ≡ true
    → AddsViewers o s (add b salt disk s (new_viewer now email)).1
add-AddsViewers b salt now disk o s email e unknown may = record {
  kept = λ k u h. ground (
    arith,
    find-add_open b salt disk s (new_viewer now email) e refl unknown k,
    find-same s email k e unknown,
    eq_iff (normalize_email email) (normalize_email k),
  );
  fresh = λ k u h.
      elim (Bool-cases
        (normalize_email email == normalize_email k && not (normalize_email email == ""))) [
          | inl new ↦ inr (
            ground (
              arith,
              find-add_open b salt disk s (new_viewer now email) e refl unknown k,
              new,
              viewer_role u,
            ),
            may,
          )
          | inr old ↦ inl (
              ground
                (arith, find-add_open b salt disk s (new_viewer now email) e refl unknown k, old))
        ];
}

module _ (b : Bcrypt) (t : Tokens) (j : JwtService) (n : Net) (m : Option Mailer) (now salt : ℕ)
    (disk : Disk) (api : Api) (o : OauthService) (query : String → String) (r : Request) where
  abbrev run : Store → Outcome
  run = callback b t j n m now salt disk api o query r

  pub start_session-store :
      (s : Store) (u : User) (c : Option Cookie)
      → (start_session b t j n m now salt disk api o query r s u c).store ≡ s
  start_session-store s u none = refl
  start_session-store s u (some k) = refl

  open_session-store :
      (s : Store) (email : String) (found : Result User)
      → (open_session b t j n m now salt disk api o query r s email found).store ≡ s
  open_session-store s email (err e) = refl
  open_session-store s email (ok u) = start_session-store s u (set_cookie t j now email (role u))

  sign_up-AddsViewers :
      (s : Store) (email : String) (e : Error) (may : Bool)
      → find s email ≡ err e
      → o.auto_create ≡ may
      → AddsViewers o s (sign_up b t j n m now salt disk api o query r s email may).store
  sign_up-AddsViewers s email e false known may = AddsViewers-refl o s
  sign_up-AddsViewers s email e true known may =
      let s' : Store = (add b salt disk s (new_viewer now email)).1 in
      rw (open_session-store s' email (find s' email))
        (add-AddsViewers b salt now disk o s email e known may)

  sign_in-AddsViewers :
      (s : Store) (email : String) (found : Result User)
      → find s email ≡ found
      → AddsViewers o s (sign_in b t j n m now salt disk api o query r s email found).store
  sign_in-AddsViewers s email (ok u) known =
      rw (open_session-store s email (ok u)) (AddsViewers-refl o s)
  sign_in-AddsViewers s email (err e) known = sign_up-AddsViewers s email e o.auto_create known refl

  with_email-AddsViewers :
      (s : Store) (raw : Option String)
      → AddsViewers o s (with_email b t j n m now salt disk api o query r s raw).store
  with_email-AddsViewers s none = AddsViewers-refl o s
  with_email-AddsViewers s (some raw) =
      let email = to_lower (trim_space raw) in
      elim (Bool-cases (raw == "")) [
        | inl empty ↦ rw empty (AddsViewers-refl o s)
        | inr given ↦ elim (Bool-cases (email_allowed o email)) [
          | inr foreign ↦ rw (given, foreign) (AddsViewers-refl o s)
          | inl allowed ↦ rw (given, allowed) (sign_in-AddsViewers s email (find s email) refl)
        ]
      ]

  with_token-AddsViewers :
      (s : Store) (conf : OauthConfig) (token : Option String)
      → AddsViewers o s (with_token b t j n m now salt disk api o query r s conf token).store
  with_token-AddsViewers s conf none = AddsViewers-refl o s
  with_token-AddsViewers s conf (some token) =
      with_email-AddsViewers s (fetch_email api (query "provider") conf token)

  with_provider-AddsViewers :
      (s : Store) (conf : Option OauthConfig)
      → AddsViewers o s (with_provider b t j n m now salt disk api o query r s conf).store
  with_provider-AddsViewers s none = AddsViewers-refl o s
  with_provider-AddsViewers s (some conf) = elim (Bool-cases (query "code" == "")) [
    | inl empty ↦ rw empty (AddsViewers-refl o s)
    | inr given ↦ elim (Bool-cases (same_state (r.cookie state_cookie_name) (query "state"))) [
      | inr other ↦ rw (given, other) (AddsViewers-refl o s)
      | inl same ↦
          rw (given, same) (with_token-AddsViewers s conf (api.exchange conf (query "code")))
    ]
  ]

  -- Whatever a callback answers and whatever the disk does, it changes no user of the store, and
  -- it adds a user only if the service creates accounts, as a viewer.
  pub callback-AddsViewers : (s : Store) → AddsViewers o s (run s).store
  unfolding callback
  callback-AddsViewers s = elim (Bool-cases (r.method == "GET")) [
    | inr other ↦ rw other (AddsViewers-refl o s)
    | inl get ↦ rw get (with_provider-AddsViewers s (lookup (query "provider") o.providers))
  ]
