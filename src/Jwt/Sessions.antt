-- ===== src/Jwt/Sessions.antt =====
-- A session lasts from its issue to its expiry, and its cookie cannot be read by scripts.
use unyport.Common.{
  ℕ, ◌+◌, ◌≤◌, ◌<◌, ◌≡◌, ◌≢◌, refl, String, Bool, Option, some, inl, inr, eq_iff, arith,
  Option-cases,
}
use Prim.Native.String.{len}
use unyport.Crypto.{Claims, Tokens}
use unyport.Http.{Request, Cookie}
use unyport.Jwt.{
  JwtService, cookie_name, jwt_issuer, issued_claims, set_cookie, from_request,
  new_jwt_service_with_opts,
}

module _ (t : Tokens) (j : JwtService) where
  -- From its issue until its expiry, a session for a non-empty user name is recognised: a request
  -- that carries the cookie of SetCookie gives the claims of the login.
  pub from_request-set_cookie :
      (now later : ℕ) (user_id role : String) (c : Cookie) (r : Request)
      → set_cookie t j now user_id role ≡ some c
      → user_id ≢ ""
      → r.cookie cookie_name ≡ some c.value
      → now ≤ later
      → later < now + j.ttl
      → from_request t j later r ≡ inl (issued_claims j now user_id role)
  unfolding set_cookie from_request
  from_request-set_cookie now later user_id role c r h named sent from to =
      elim (Option-cases (t.sign j.key (issued_claims j now user_id role))) [
        | inl failed ↦ absurd (ground (arith, failed))
        | inr (token, signed) ↦
            let known =
              t.parse-sign j.key jwt_issuer later (issued_claims j now user_id role) token signed
                refl (omega arith) to in
            ground (arith, signed, known, eq_iff user_id "")
      ]

  -- A request is recognised only by claims of this issuer that hold now and name a user.
  pub from_request_sound :
      (now : ℕ) (r : Request) (c : Claims)
      → from_request t j now r ≡ inl c
      → (c.issuer ≡ jwt_issuer) × (c.not_before ≤ now) × (now < c.expires_at) × (c.user_id ≢ "")
  unfolding from_request
  from_request_sound now r c h = elim (Option-cases (r.cookie cookie_name)) [
    | inl missing ↦ absurd (ground (arith, missing))
    | inr (raw, sent) ↦ elim (Option-cases (t.parse j.key jwt_issuer now raw)) [
      | inl refused ↦ absurd (ground (arith, sent, refused))
      | inr (d, known) ↦
          ground (
            arith,
            sent,
            known,
            t.parse_sound j.key jwt_issuer now raw d known,
            eq_iff d.user_id "",
          )
    ]
  ]

-- A service is made only from a base64 secret that decodes to 32 bytes or more; its time to live
-- is not zero, and its cookies are secure as asked.
pub new_jwt_service_with_opts_sound :
    (decode : String → Option String) (b64secret : String) (ttl : ℕ) (secure : Bool)
    (j : JwtService)
    → new_jwt_service_with_opts decode b64secret ttl secure ≡ inl j
    → (decode b64secret ≡ some j.key) × (32 ≤ len j.key) × (0 < j.ttl) × (j.secure_cookie ≡ secure)
unfolding new_jwt_service_with_opts
new_jwt_service_with_opts_sound decode b64secret ttl secure j h =
    elim (Option-cases (decode b64secret)) [
      | inl bad ↦ absurd (ground (arith, bad))
      | inr (key, fine) ↦ ground (arith, fine)
    ]
