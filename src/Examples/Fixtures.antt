-- ===== src/Examples/Fixtures.antt =====
-- Concrete users, requests and stand-ins for the outside code.
use Prim.Native.String.{len}
use unyport.Common.{
  ℕ, ◌≡◌, ◌≢◌, refl, ap, arith, Bool-cases, String, Bool, true, false, ◌&&◌, Option, none, some,
  List, [], ◌∷◌, ◌==◌, eq_iff, ◌⊎◌, inl, inr, nat_eq, leb, ltb, if◌then◌else◌,
}
use unyport.Common.Text.{first_code}
use unyport.Crypto.{Bcrypt, Tokens, Claims}
use unyport.Http.{Request, Context, Net, empty_context}
use unyport.Jwt.{JwtService, cookie_name, jwt_issuer}
use unyport.Users.{User}
use unyport.Users.Store.{Store}
use unyport.Middleware.Csrf.{HmacSha256, CsrfManager, UrlParser, Url}
use unyport.Server.Origins.{HostsHaveNoScheme}

-- A hash is the password behind a dollar sign.
abbrev pub dollar_generate : ℕ → String → Option String
dollar_generate salt p = if ltb 72 (len p) then none else some (Prim.Native.String.◌∷◌ "$" p)

pub dollar_matches :
    (salt : ℕ) (p h : String)
    → dollar_generate salt p ≡ some h
    → (h == Prim.Native.String.◌∷◌ "$" p) ≡ true
dollar_matches salt p h e = ground (arith, e, eq_iff h (Prim.Native.String.◌∷◌ "$" p))

pub dollar_empty : (p : String) → ("" == Prim.Native.String.◌∷◌ "$" p) ≡ false
dollar_empty p =
    let hash : String = Prim.Native.String.◌∷◌ "$" p in
    elim (Bool-cases ("" == hash)) [
      | inl same ↦ absurd (omega (arith, ap first_code ((eq_iff "" hash).0 same)))
      | inr other ↦ other
    ]

abbrev pub dollar : Bcrypt
dollar = record {
  generate = dollar_generate;
  matches = λ h p. h == Prim.Native.String.◌∷◌ "$" p;
  matches-generate = dollar_matches;
  matches_empty = dollar_empty;
}

-- The claims of the one token of `one_token`: a login at 1000 of ada for an hour.
abbrev pub ada_claims : Claims
ada_claims = record {
  user_id = "ada@x.io";
  role = "admin";
  expires_at = 4600;
  issued_at = 1000;
  not_before = 995;
  issuer = jwt_issuer;
  subject = "ada@x.io";
}

abbrev pub is_ada : Claims → Bool
is_ada c =
    c.user_id == "ada@x.io"
    && c.role == "admin"
    && nat_eq c.expires_at 4600
    && nat_eq c.issued_at 1000
    && nat_eq c.not_before 995
    && c.issuer == jwt_issuer
    && c.subject == "ada@x.io"

is_ada_sound : (c : Claims) → is_ada c ≡ true → c ≡ ada_claims
is_ada_sound c h = ground (
  arith,
  eq_iff c.user_id "ada@x.io",
  eq_iff c.role "admin",
  eq_iff c.issuer jwt_issuer,
  eq_iff c.subject "ada@x.io",
)

abbrev pub one_sign : String → Claims → Option String
one_sign key c = if is_ada c then some "token" else none

abbrev pub one_parse : String → String → ℕ → String → Option Claims
one_parse key iss now t =
    if t == "token" && iss == jwt_issuer && leb 995 now && ltb now 4600
    then some ada_claims
    else none

pub one_parse-sign :
    (key iss : String) (now : ℕ) (c : Claims) (t : String)
    → one_sign key c ≡ some t
    → c.issuer ≡ iss
    → unyport.Common.◌≤◌ c.not_before now
    → unyport.Common.◌<◌ now c.expires_at
    → one_parse key iss now t ≡ some c
one_parse-sign key iss now c t h same from to =
    ground (arith, h, is_ada_sound c, eq_iff t "token", eq_iff iss jwt_issuer)

pub one_parse_sound :
    (key iss : String) (now : ℕ) (t : String) (c : Claims)
    → one_parse key iss now t ≡ some c
    → (c.issuer ≡ iss)
      × (unyport.Common.◌≤◌ c.not_before now)
      × (unyport.Common.◌<◌ now c.expires_at)
one_parse_sound key iss now t c h = ground (arith, h, eq_iff iss jwt_issuer)

abbrev pub one_token : Tokens
one_token = record {
  sign = one_sign;
  parse = one_parse;
  parse-sign = one_parse-sign;
  parse_sound = one_parse_sound;
}

abbrev pub service : JwtService
service = record { key = "key"; ttl = 3600; secure_cookie = true }

abbrev pub user : String → String → String → User
user email password role = record {
  id = email;
  email = email;
  password = password;
  roles = role ∷ [];
  display_name = "";
  avatar = "";
  photo_url = "";
  ssh_key = "";
  two_fa = false;
  created_at = 0;
}

abbrev pub ada : User
ada = user "ada@x.io" "$lovelace1" "admin"

abbrev pub bob : User
bob = user "bob@x.io" "$builder22" "viewer"

abbrev pub store : Store
store = record { users = ("ada@x.io", ada) ∷ ("bob@x.io", bob) ∷ []; file = none }

pub ada_named : ◌≢◌ {A = String} "ada@x.io" ""
ada_named h = omega (arith, ap first_code h)

-- A request without headers, with the cookie of ada's session.
abbrev pub request : String → String → Request
request method path = record {
  method = method;
  path = path;
  host = "a.io";
  remote_addr = "10.0.0.9";
  tls = true;
  header = λ name. "";
  cookie = λ name. if name == cookie_name then some "token" else none;
}

abbrev pub ada_context : Context
ada_context = record { user_id = "ada@x.io"; user_role = "admin"; csrf_skip = false }

abbrev pub start : Context
start = empty_context

abbrev pub net : Net
net = record { parse_ip = λ s. some s; split_host = λ s. none }

abbrev pub zeros : List ℕ
zeros =
    0 ∷ 0 ∷ 0 ∷ 0 ∷ 0 ∷ 0 ∷ 0 ∷ 0 ∷ 0 ∷ 0 ∷ 0 ∷ 0 ∷ 0 ∷ 0 ∷ 0 ∷ 0 ∷ 0 ∷ 0 ∷ 0 ∷ 0 ∷ 0 ∷ 0 ∷ 0 ∷ 0
    ∷ 0 ∷ 0 ∷ 0 ∷ 0 ∷ 0 ∷ 0 ∷ 0 ∷ 0 ∷ []

abbrev pub zero_mac : HmacSha256
zero_mac = record { mac = λ key message. zeros; length-mac = λ key message. refl }

abbrev pub manager : CsrfManager
manager = record { secret = zeros; secure = true }

-- It knows two addresses; any other text has neither scheme nor host.
abbrev pub two_urls : UrlParser
two_urls raw =
    if raw == "https://a.io"
    then some (record { scheme = "https"; host = "a.io" })
    else if raw == "https://b.io"
    then some (record { scheme = "https"; host = "b.io" })
    else some (record { scheme = ""; host = "" })

two_urls-host :
    (raw : String) (u : Url)
    → two_urls raw ≡ some u
    → (u.host ≡ "a.io") ⊎ (u.host ≡ "b.io") ⊎ (u.host ≡ "")
two_urls-host raw u h = ground (arith, h)

pub two_urls_bare : HostsHaveNoScheme two_urls
two_urls_bare raw u v h named again = elim (two_urls-host raw u h) [
  | inl a ↦ ground (arith, rw a at again)
  | inr (inl b) ↦ ground (arith, rw b at again)
  | inr (inr empty) ↦ absurd (named empty)
]
