-- ===== src/Middleware/Access/Laws.antt =====
-- What a protected handler may rely on.
use unyport.Common.{
  ℕ, ◌<◌, ◌≤◌, ◌+◌, ap, ◌∙◌, some, ◌≡◌, ◌≢◌, refl, String, true, List, ◌⊎◌, inl, inr, ◌==◌, eq_iff,
  arith, any, Option-cases,
}
use unyport.Common.Dict.{lookup}
use unyport.Crypto.{Claims, Tokens}
use unyport.Http.{Request, Context, Cookie}
use unyport.Jwt.{JwtService, JwtError, from_request, set_cookie, cookie_name, issued_claims}
use unyport.Jwt.Sessions.{from_request_sound, from_request-set_cookie}
use unyport.Users.{User, valid_role, role, normalize_email}
use unyport.Users.Roles.{role_valid}
use unyport.Users.Store.{Store, Result, ok, err, find}
use unyport.Users.Store.Wellformed.{IsWellformed}
use unyport.Middleware.{Verdict, reply, next}
use unyport.Middleware.Access.{
  auth, auth_claims, admit, require_role, admin_mw, write_mw, admin_only, writers, then_require,
}

-- A request that Auth lets through: its token holds now, the store has its user now, and the
-- context has that user's address and the role that the store gives now.
pub record IsAuthenticated (t : Tokens) (j : JwtService) (s : Store) (now : ℕ) (r : Request)
    (ctx : Context) : Type 0 where
  pub claims : Claims
  pub user : User
  pub recognised : from_request t j now r ≡ inl claims
  pub live : now < claims.expires_at
  pub known : find s claims.user_id ≡ ok user
  pub id : ctx.user_id ≡ user.email
  pub current_role : ctx.user_role ≡ role user
  pub valid : valid_role ctx.user_role ≡ true

module _ (t : Tokens) (j : JwtService) (s : Store) (now : ℕ) (r : Request) (ctx : Context) where
  admit-IsAuthenticated :
      (out : Context) (c : Claims) (found : Result User)
      → from_request t j now r ≡ inl c
      → find s c.user_id ≡ found
      → admit j r ctx found ≡ next out
      → IsAuthenticated t j s now r out
  admit-IsAuthenticated out c (ok u) seen known h = record {
    claims = c;
    user = u;
    recognised = seen;
    live = (from_request_sound t j now r c seen).2;
    known = known;
    id = ground arith;
    current_role = ground arith;
    valid = ground (arith, role_valid u);
  }
  admit-IsAuthenticated out c (err e) seen known h = cc

  auth_claims-IsAuthenticated :
      (out : Context) (c : Claims ⊎ JwtError)
      → from_request t j now r ≡ c
      → auth_claims j s r ctx c ≡ next out
      → IsAuthenticated t j s now r out
  auth_claims-IsAuthenticated out (inl c) seen h =
      admit-IsAuthenticated out c (find s c.user_id) seen refl h
  auth_claims-IsAuthenticated out (inr e) seen h = cc

  -- Auth passes a request on only if it is authenticated: its token is recognised and has not
  -- expired, the store has its user now, and the context gets that user's address and the role in
  -- the store, which is one of the three; the role in the token plays no part.
  pub auth-IsAuthenticated :
      (out : Context) → auth t j s now r ctx ≡ next out → IsAuthenticated t j s now r out
  unfolding auth
  auth-IsAuthenticated out h = auth_claims-IsAuthenticated out (from_request t j now r) refl h

  -- Auth passes on every request with a recognised token whose user the store has, with that
  -- user's address and role.
  pub auth_complete :
      (c : Claims) (u : User)
      → from_request t j now r ≡ inl c
      → find s c.user_id ≡ ok u
      → auth t j s now r ctx ≡ next (record ctx { user_id = u.email; user_role = role u })
  unfolding auth
  auth_complete c u seen known = rw (seen, auth_claims, known) refl

  require_role-listed :
      (allowed : List String) (v : Verdict) (out : Context)
      → then_require allowed v ≡ next out
      → (v ≡ next out) × (any (λ x. x == out.user_role) allowed ≡ true)
  unfolding require_role
  require_role-listed allowed (reply a) out h = absurd (cc)
  require_role-listed allowed (next c) out h = ground arith

  -- The handlers behind adminMW run only for an authenticated user whose role in the store is
  -- "admin".
  pub admin_mw_sound :
      (out : Context)
      → admin_mw t j s now r ctx ≡ next out
      → IsAuthenticated t j s now r out × (out.user_role ≡ "admin")
  unfolding admin_mw
  admin_mw_sound out h =
      let (passed, listed) = require_role-listed admin_only (auth t j s now r ctx) out h in
      (auth-IsAuthenticated out passed, ground (arith, eq_iff "admin" out.user_role))

  -- The handlers behind writeMW run only for an authenticated user whose role in the store is
  -- "admin" or "operator".
  pub write_mw_sound :
      (out : Context)
      → write_mw t j s now r ctx ≡ next out
      → IsAuthenticated t j s now r out × ((out.user_role ≡ "admin") ⊎ (out.user_role ≡ "operator"))
  unfolding write_mw
  write_mw_sound out h =
      let (passed, listed) = require_role-listed writers (auth t j s now r ctx) out h in
      (
        auth-IsAuthenticated out passed,
        ground (arith, eq_iff "admin" out.user_role, eq_iff "operator" out.user_role),
      )

  -- In a well-formed store the address in the context is the key under which the store has the
  -- user.
  pub IsAuthenticated-lookup :
      (out : Context)
      → IsWellformed s.users
      → (a : IsAuthenticated t j s now r out)
      → (lookup out.user_id s.users ≡ some a.user) × (normalize_email out.user_id ≡ out.user_id)
  unfolding find
  IsAuthenticated-lookup out wf a =
      let key = normalize_email a.claims.user_id in
      elim (Option-cases (lookup key s.users)) [
        | inl gone ↦ absurd (ground (arith, gone, a.known))
        | inr (v, found) ↦
            let st = wf.stored key v found in
            let same : v ≡ a.user = ground (arith, found, a.known) in
            let id : out.user_id ≡ key = cc (a.id, st.own_key, same) in
            (rw id (found ∙ ap some same), rw id st.normal)
      ]

-- A user who logs in passes Auth until the session expires, as long as the store has the user:
-- with the cookie of SetCookie, at any time before the expiry, whatever the store has become.
pub auth-set_cookie :
    (t : Tokens) (j : JwtService) (s : Store) (now later : ℕ) (user_id login_role : String)
    (u : User) (c : Cookie) (r : Request) (ctx : Context)
    → set_cookie t j now user_id login_role ≡ some c
    → user_id ≢ ""
    → r.cookie cookie_name ≡ some c.value
    → now ≤ later
    → later < now + j.ttl
    → find s user_id ≡ ok u
    → auth t j s later r ctx ≡ next (record ctx { user_id = u.email; user_role = role u })
auth-set_cookie t j s now later user_id login_role u c r ctx h named sent from to known =
    auth_complete t j s later r ctx (issued_claims j now user_id login_role) u
      (from_request-set_cookie t j now later user_id login_role c r h named sent from to)
      (unfold issued_claims in known)
