-- ===== src/Handlers/Sessions/Laws.antt =====
-- What a login takes and what it gives, for Login and Session of
-- unyport/backend/auth/handlers.go.
use unyport.Common.{
  ℕ, ◌+◌, ◌≤◌, ◌<◌, ◌≡◌, ◌≢◌, refl, sym, inl, inr, String, true, false, ◌||◌, Option, none, some,
  [], ◌∷◌, ◌==◌, eq_iff, arith, Bool-cases, Option-cases, if◌then◌else◌,
}
use unyport.Common.Text.{trim_space, to_lower}
use unyport.Crypto.{Bcrypt, Tokens}
use unyport.Http.{Request, Context, Response, Cookie, Net, Body, decode_json}
use unyport.Jwt.{JwtService, set_cookie, issued_claims, cookie_name}
use unyport.Users.{User, role}
use unyport.Users.Roles.{normalize_email_idem, normalize_email-trim_space}
use unyport.Users.Store.{Store, Result, ok, err, find}
use unyport.Middleware.{next}
use unyport.Middleware.Access.{auth}
use unyport.Middleware.Access.Laws.{auth-set_cookie}
use unyport.Handlers.{Mailer}
use unyport.Handlers.Sessions.{Credentials, login, check_password, welcome, unauthorized}

-- What a login that was granted has checked, and the cookie that it sets.
pub record IsGranted (b : Bcrypt) (t : Tokens) (j : JwtService) (s : Store) (now : ℕ)
    (body : Body Credentials) (out : Response) : Type 0 where
  pub given : Credentials
  pub user : User
  pub cookie : Cookie
  pub decoded : decode_json body ≡ some given
  pub has_password : given.password ≢ ""
  pub known : find s given.email ≡ ok user
  pub password_matches : b.matches user.password given.password ≡ true
  pub signed : set_cookie t j now user.email (role user) ≡ some cookie
  pub sent : out.cookies ≡ cookie ∷ []

find-trim_space : (s : Store) (e : String) → find s (trim_space (to_lower e)) ≡ find s e
unfolding find
find-trim_space s e = rw (normalize_email-trim_space e, normalize_email_idem e) refl

module _ (b : Bcrypt) (t : Tokens) (j : JwtService) (n : Net) (m : Option Mailer) (s : Store)
    (now : ℕ) (r : Request) where
  welcome-IsGranted :
      (body : Body Credentials) (c : Credentials) (u : User) (o : Option Cookie)
      → decode_json body ≡ some c
      → c.password ≢ ""
      → find s c.email ≡ ok u
      → b.matches u.password c.password ≡ true
      → set_cookie t j now u.email (role u) ≡ o
      → (welcome b t j n m s now r u o).0.status ≡ 200
      → IsGranted b t j s now body (welcome b t j n m s now r u o).0
  welcome-IsGranted body c u none decoded given known right signed h = absurd (ground arith)
  welcome-IsGranted body c u (some k) decoded given known right signed h = record {
    given = c;
    user = u;
    cookie = k;
    decoded = decoded;
    has_password = given;
    known = known;
    password_matches = right;
    signed = signed;
    sent = refl;
  }

  check_password-IsGranted :
      (body : Body Credentials) (c : Credentials) (found : Result User)
      → decode_json body ≡ some c
      → c.password ≢ ""
      → find s c.email ≡ found
      → (check_password b t j n m s now r c.password found).0.status ≡ 200
      → IsGranted b t j s now body (check_password b t j n m s now r c.password found).0
  check_password-IsGranted body c (err e) decoded given known h = absurd (ground arith)
  check_password-IsGranted body c (ok u) decoded given known h =
      elim (Bool-cases (b.matches u.password c.password)) [
        | inr wrong ↦ absurd (ground (arith, wrong))
        | inl right ↦ rw right (
            welcome-IsGranted body c u (set_cookie t j now u.email (role u)) decoded given known
              right refl (rw right at h))
      ]

  -- Login answers 200 only to a user of the store who gives a non-empty password that matches
  -- the stored hash, and it then sets exactly one cookie: the session of that user, with the
  -- role in the store.
  pub login-IsGranted :
      (body : Body Credentials)
      → (login b t j n m s now r body).0.status ≡ 200
      → IsGranted b t j s now body (login b t j n m s now r body).0
  unfolding login
  login-IsGranted body h = elim (Bool-cases (r.method == "POST")) [
    | inr other ↦ absurd (ground (arith, other))
    | inl post ↦ elim (Option-cases (decode_json body)) [
      | inl bad ↦ absurd (ground (arith, post, bad))
      | inr (c, decoded) ↦
          elim (Bool-cases (trim_space (to_lower c.email) == "" || c.password == "")) [
            | inl empty ↦ absurd (ground (arith, post, decoded, empty))
            | inr given ↦
                rw (post, decoded, given)
                  (check_password-IsGranted body c (find s (trim_space (to_lower c.email))) decoded
                    (ground (arith, given, eq_iff c.password "")) (sym (find-trim_space s c.email))
                    (rw (post, decoded, given) at h))
          ]
    ]
  ]

  -- A POST with credentials that are not those of a user tells nothing about the store: an
  -- unknown address and a wrong password, with or without an empty field, all get the same
  -- answer, no cookie and no mail.
  pub login_uniform :
      (body : Body Credentials) (c : Credentials)
      → r.method ≡ "POST"
      → decode_json body ≡ some c
      → ((u : User) → find s c.email ≡ ok u → b.matches u.password c.password ≡ false)
      → login b t j n m s now r body ≡ (unauthorized, none)
  unfolding login
  login_uniform body c post decoded wrong =
      rw ((eq_iff r.method "POST").1 post, decoded, find-trim_space s c.email)
        (by_user (find s c.email) refl)
    where
      by_user :
          (found : Result User)
          → find s c.email ≡ found
          → (if trim_space (to_lower c.email) == "" || c.password == ""
              then (unauthorized, none)
              else check_password b t j n m s now r c.password found)
            ≡ (unauthorized, none)
      by_user (err e) known = ground arith
      by_user (ok u) known = ground (arith, wrong u known)

cookie_named :
    (t : Tokens) (j : JwtService) (now : ℕ) (user_id role : String) (k : Cookie)
    → set_cookie t j now user_id role ≡ some k
    → k.name ≡ cookie_name
unfolding set_cookie
cookie_named t j now user_id role k h =
    elim (Option-cases (t.sign j.key (issued_claims j now user_id role))) [
      | inl failed ↦ absurd (ground (arith, failed, h))
      | inr (token, signed) ↦ ground (arith, signed, h)
    ]

-- A request with the cookie added to it.
abbrev pub with_cookie : Cookie → Request → Request
with_cookie k r = record r {
  cookie = λ name. if name == k.name then some k.value else r.cookie name;
}

-- A login that answers 200 to the credentials of a user with a non-empty address sets exactly one
-- cookie, and any request with this cookie added passes Auth as that user until the session ends,
-- with the role that the store has then, as long as the store, whatever has been done to it, still
-- has the user.
pub auth-login :
    (b : Bcrypt) (t : Tokens) (j : JwtService) (n : Net) (m : Option Mailer) (s later_s : Store)
    (now later : ℕ) (form r : Request) (body : Body Credentials) (c : Credentials) (v u : User)
    (ctx : Context)
    → (login b t j n m s now form body).0.status ≡ 200
    → decode_json body ≡ some c
    → find s c.email ≡ ok v
    → v.email ≢ ""
    → now ≤ later
    → later < now + j.ttl
    → find later_s v.email ≡ ok u
    → (k : Cookie) × ((login b t j n m s now form body).0.cookies ≡ k ∷ [])
      × (auth t j later_s later (with_cookie k r) ctx
          ≡ next (record ctx { user_id = u.email; user_role = role u }))
auth-login b t j n m s later_s now later form r body c v u ctx granted read known named from to
      there =
    let a = login-IsGranted b t j n m s now form body granted in
    let same : a.given ≡ c = cc (a.decoded, read) in
    let user : a.user ≡ v = cc (a.known, known, same) in
    let signed : set_cookie t j now v.email (role v) ≡ some a.cookie = cc (a.signed, user) in
    (
      a.cookie,
      a.sent,
      auth-set_cookie t j later_s now later v.email (role v) u a.cookie (with_cookie a.cookie r) ctx
          signed named (rw (cookie_named t j now v.email (role v) a.cookie signed) refl) from to
          there,
    )
