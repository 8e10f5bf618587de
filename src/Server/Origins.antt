-- ===== src/Server/Origins.antt =====
-- The trusted origins on their way from the settings to CSRFProtect.
use unyport.Common.{
  ◌≡◌, ◌≢◌, refl, inl, inr, String, Bool, false, Option, none, some, List, [], ◌∷◌, ◌==◌, eq_iff,
  arith, any, if◌then◌else◌, Bool-cases, Option-cases,
}
use unyport.Common.Text.{trim_space}
use unyport.Http.{Request, Context}
use unyport.Middleware.{reply}
use unyport.Middleware.Csrf.Protection.{csrf_chain_foreign}
use unyport.Middleware.Csrf.{
  RawUrlBase64, HmacSha256, CsrfManager, csrf_chain, csrf_error, UrlParser, Url, origin_set,
  add_origin, is_safe_method,
}

-- The host of a text that parses as a URL with a host, or the text itself.
abbrev host_of : String → Option Url → String
host_of origin none = origin
host_of origin (some u) = if u.host == "" then origin else u.host

-- The loop of normalizeTrustedOrigins; `seen` holds the hosts that are already there.
normalize_loop : UrlParser → List String → List String → List String
normalize_loop parse seen [] = []
normalize_loop parse seen (raw ∷ rest) =
    let origin = trim_space raw in
    let host = host_of origin (parse origin) in
    let skipped = normalize_loop parse seen rest in
    let added = host ∷ normalize_loop parse (host ∷ seen) rest in
    if origin == "" then skipped else if any (λ h. h == host) seen then skipped else added

-- normalizeTrustedOrigins
unfoldable pub normalize_trusted_origins : UrlParser → List String → List String
unfolding normalize_loop
normalize_trusted_origins parse origins = normalize_loop parse [] origins

-- url.Parse finds a host only behind "//", which no host contains: the host of a URL, read as a
-- URL, has no host of its own.
abbrev pub HostsHaveNoScheme : UrlParser → Type 0
HostsHaveNoScheme parse =
    (raw : String) (u v : Url)
    → parse raw ≡ some u
    → u.host ≢ ""
    → parse u.host ≡ some v
    → v.host ≡ ""

-- A text that originSet skips.
abbrev IsSkipped : UrlParser → String → Type 0
IsSkipped parse raw = (rest : List String) → add_origin (parse raw) rest ≡ rest

module _ (parse : UrlParser) (bare : HostsHaveNoScheme parse) where
  host_of-IsSkipped : (origin : String) → IsSkipped parse (host_of origin (parse origin))
  host_of-IsSkipped origin rest = elim (Option-cases (parse origin)) [
    | inl broken ↦ rw (broken, broken) refl
    | inr (u, parsed) ↦ elim (Bool-cases (u.host == "")) [
      | inl none_there ↦ ground (arith, parsed, none_there)
      | inr there ↦ elim (Option-cases (parse u.host)) [
        | inl broken ↦ ground (arith, parsed, there, broken)
        | inr (v, again) ↦
            let hostless = bare origin u v parsed (ground (arith, there, eq_iff u.host "")) again in
            ground (arith, parsed, there, again, hostless, eq_iff v.host "")
      ]
    ]
  ]

  origin_set-normalize_loop :
      (seen origins : List String) → origin_set parse (normalize_loop parse seen origins) ≡ []
  unfolding origin_set normalize_loop
  origin_set-normalize_loop seen [] = refl
  origin_set-normalize_loop seen (raw ∷ rest) =
      let origin = trim_space raw in
      let host = host_of origin (parse origin) in
      ground (
        arith,
        origin_set-normalize_loop seen rest,
        origin_set-normalize_loop (host ∷ seen) rest,
        host_of-IsSkipped origin (origin_set parse (normalize_loop parse (host ∷ seen) rest)),
      )

  -- Where no host has a scheme of its own, CSRFProtect trusts nothing, whatever the settings
  -- trust: its set of origins is empty, since the server hands it hosts and it keeps only texts
  -- with a scheme.
  pub origin_set-normalize_trusted_origins :
      (origins : List String) → origin_set parse (normalize_trusted_origins parse origins) ≡ []
  unfolding normalize_trusted_origins
  origin_set-normalize_trusted_origins origins = origin_set-normalize_loop [] origins

-- Where no host has a scheme of its own, an unsafe request whose Origin is a URL of another host
-- than the request's own gets 403, whatever origins the settings trust.
pub configured_origin_refused :
    (b64 : RawUrlBase64) (h : HmacSha256) (parse : UrlParser) (m : CsrfManager)
    (origins : List String) (https : Bool) (r : Request) (ctx : Context) (u : Url)
    → HostsHaveNoScheme parse
    → is_safe_method r.method ≡ false
    → r.header "Origin" ≢ ""
    → parse (r.header "Origin") ≡ some u
    → u.host ≢ r.host
    → csrf_chain b64 h parse m
        (origin_set parse (normalize_trusted_origins parse origins))
        https
        r
        ctx
      ≡ reply (csrf_error "csrf_origin_forbidden" 403)
configured_origin_refused b64 h parse m origins https r ctx u bare unsafe named parsed other =
    rw (origin_set-normalize_trusted_origins parse bare origins)
      (csrf_chain_foreign b64 h parse m [] https r ctx u unsafe named parsed refl other)
