-- ===== src/Server/Routes.antt =====
-- unyport/backend/server/routes.go: which handler serves a path and what stands before it.
-- The assets are those of a build; a path that the mux would clean is redirected by it. What the mux
-- reads of the escaped path is a parameter.
pub mod Guards
pub mod Exempt
pub mod Admission
use Prim.Native.String.{len, ◌++◌}
use unyport.Common.{
  ℕ, String, Bool, true, false, not, ◌&&◌, ◌||◌, Option, none, some, List, [], ◌∷◌, ◌==◌, ltb, any,
  if◌then◌else◌,
}
use mathlib.Core.List
use unyport.Common.Text.{split}
use unyport.Crypto.{Tokens}
use unyport.Http.{Request, Context, Response, Net, http_error}
use unyport.Jwt.{JwtService}
use unyport.Users.Store.{Store}
use unyport.Middleware.{Verdict, reply, next}
use unyport.Middleware.Access.{auth, admin_mw, write_mw}
use unyport.Middleware.RateLimit.{LoginRateLimiter, limit}
use unyport.Middleware.Csrf.{RawUrlBase64, HmacSha256, UrlParser, CsrfManager, csrf_chain}

-- The handlers that setupRoutes registers.
pub data Endpoint : Type 0 where
  csrf_token public_version login logout session branding : Endpoint
  oauth_providers oauth_login oauth_callback : Endpoint
  assets app_page : Endpoint
  stream system versions reboots bios modules gpus packages services security logs logs_tail :
      Endpoint
  xen_info xen_domains xen_create xen_action : Endpoint
  profile profile_read profile_write password : Endpoint
  branding_update branding_reset admin_users admin_user : Endpoint

-- What stands before a handler.
pub data Guard : Type 0 where
  unguarded limited authenticated writing administering : Guard

pub record Route : Type 0 where
  pub pattern : String
  pub guard : Guard
  pub endpoint : Endpoint

abbrev route : String → Guard → Endpoint → Route
route p g e = record { pattern = p; guard = g; endpoint = e }

abbrev public_routes : List Route
public_routes =
    route "/api/csrf" unguarded csrf_token
    ∷ route "/api/public/version" unguarded public_version
    ∷ route "/api/login" limited login
    ∷ route "/api/logout" unguarded logout
    ∷ route "/api/session" unguarded session
    ∷ route "/api/branding" unguarded branding
    ∷ route "/api/oauth/providers" unguarded oauth_providers
    ∷ route "/api/oauth/login" unguarded oauth_login
    ∷ route "/api/oauth/callback" unguarded oauth_callback
    ∷ []

abbrev asset_directories : List String
asset_directories =
    "css" ∷ "app" ∷ "media" ∷ "assets" ∷ "static" ∷ "vendor" ∷ "webfonts" ∷ "fonts" ∷ []

-- A directory that the build does not have is left out.
unfoldable pub directory_routes : (String → Bool) → List String → List Route
directory_routes has_dir [] = []
directory_routes has_dir (d ∷ ds) =
    let rest = directory_routes has_dir ds in
    if has_dir d then route ("/" ++ (d ++ "/")) unguarded assets ∷ rest else rest

abbrev file_routes : List Route
file_routes =
    route "/favicon.ico" unguarded assets
    ∷ route "/robots.txt" unguarded assets
    ∷ route "/sitemap.xml" unguarded assets
    ∷ route "/manifest.json" unguarded assets
    ∷ route "/sw.js" unguarded assets
    ∷ route "/" unguarded app_page
    ∷ []

abbrev protected_routes : List Route
protected_routes =
    route "/sse/system" authenticated stream
    ∷ route "/api/system" authenticated system
    ∷ route "/api/versions" authenticated versions
    ∷ route "/api/reboots" authenticated reboots
    ∷ route "/api/bios" authenticated bios
    ∷ route "/api/modules" authenticated modules
    ∷ route "/api/gpus" authenticated gpus
    ∷ route "/api/packages" authenticated packages
    ∷ route "/api/services" authenticated services
    ∷ route "/api/security" authenticated security
    ∷ route "/api/logs" authenticated logs
    ∷ route "/api/logs/tail" authenticated logs_tail
    ∷ route "/api/xen/info" authenticated xen_info
    ∷ route "/api/xen/domains" authenticated xen_domains
    ∷ route "/api/xen/domains/create" administering xen_create
    ∷ route "/api/xen/domains/" writing xen_action
    ∷ route "/api/profile" authenticated profile
    ∷ route "/api/profile/password" writing password
    ∷ route "/api/branding/update" administering branding_update
    ∷ route "/api/branding/reset" administering branding_reset
    ∷ route "/api/admin/users" administering admin_users
    ∷ route "/api/admin/users/" administering admin_user
    ∷ []

-- The routes that setupRoutes registers.
unfoldable pub routes : (String → Bool) → List Route
unfolding directory_routes
routes has_dir = List.◌++◌ public_routes (
    List.◌++◌ (directory_routes has_dir asset_directories) (List.◌++◌ file_routes protected_routes))

-- What http.ServeMux reads of a URL: whether the escaped path is clean already, and the segments
-- of the escaped path, each unescaped for itself, with an empty one behind a slash at the end. The
-- path "/api%2Flogin" has one segment, "api/login".
pub record Target : Type 0 where
  pub clean : Bool
  pub segments : List String

abbrev behind_first : List String → List String
behind_first [] = []
behind_first (s ∷ ss) = ss

-- The segments of a pattern; a pattern that ends in a slash has an empty one at the end.
unfoldable pub pattern_segments : String → List String
pattern_segments pattern = behind_first (split b'/' pattern)

abbrev pub ends_here : String → List String → Bool
ends_here p [] = p == ""
ends_here p (q ∷ qs) = false

-- A pattern that ends in a slash takes every path below it, segment by segment.
unfoldable pub matches : List String → List String → Bool
matches [] [] = true
matches [] (s ∷ ss) = false
matches (p ∷ ps) [] = false
matches (p ∷ ps) (s ∷ ss) = let rest = matches ps ss in ends_here p ps || (p == s && rest)

unfoldable pub takes : String → List String → Bool
unfolding matches pattern_segments
takes pattern segments = matches (pattern_segments pattern) segments

abbrev longer : Route → Option Route → Option Route
longer r none = some r
longer r (some q) = if ltb (len r.pattern) (len q.pattern) then some q else some r

-- The longest pattern that takes the path.
unfoldable pub best_route : List String → List Route → Option Route
unfolding takes
best_route segments [] = none
best_route segments (r ∷ rs) =
    let rest = best_route segments rs in if takes r.pattern segments then longer r rest else rest

unfoldable pub same_segments : List String → List String → Bool
same_segments [] [] = true
same_segments [] (t ∷ ts) = false
same_segments (s ∷ ss) [] = false
same_segments (s ∷ ss) (t ∷ ts) = s == t && same_segments ss ts

-- A path that is no pattern, but is one with a slash behind it, is redirected there.
unfoldable pub wants_slash : List String → List Route → Bool
unfolding same_segments pattern_segments
wants_slash segments rs =
    not (any (λ q. same_segments (pattern_segments q.pattern) segments) rs)
    && any (λ q. same_segments (pattern_segments q.pattern) (List.◌++◌ segments ("" ∷ []))) rs

-- What becomes of a request: an answer on the way, a redirect of the mux, no route, or a handler.
pub data Dispatch : Type 0 where
  answered : Response → Dispatch
  redirected unrouted : Dispatch
  reached : Endpoint → Context → Dispatch

-- The closure at /api/profile.
unfoldable pub profile_switch : Request → Context → Dispatch
profile_switch r ctx =
    if r.method == "GET"
    then reached profile_read ctx
    else if r.method == "PATCH"
    then if ctx.user_role == "viewer"
      then answered (http_error "forbidden" 403)
      else reached profile_write ctx
    else answered (http_error "method not allowed" 405)

abbrev arrive : Request → Endpoint → Context → Dispatch
arrive r profile ctx = profile_switch r ctx
arrive r e ctx = reached e ctx

abbrev through : Request → Endpoint → Verdict → Dispatch
through r e (reply a) = answered a
through r e (next ctx) = arrive r e ctx

module _ (t : Tokens) (j : JwtService) (s : Store) (n : Net) (now : ℕ) (r : Request) where
  -- The guard of a route, and the limiter after it.
  unfoldable pub guard_verdict : LoginRateLimiter → Context → Guard → Verdict × LoginRateLimiter
  guard_verdict l ctx unguarded = (next ctx, l)
  guard_verdict l ctx limited = limit n l now r ctx
  guard_verdict l ctx authenticated = (auth t j s now r ctx, l)
  guard_verdict l ctx writing = (write_mw t j s now r ctx, l)
  guard_verdict l ctx administering = (admin_mw t j s now r ctx, l)

  abbrev pass_route : LoginRateLimiter → Context → Option Route → Dispatch × LoginRateLimiter
  pass_route l ctx none = (unrouted, l)
  pass_route l ctx (some q) =
      let (v, l') = guard_verdict l ctx q.guard in (through r q.endpoint v, l')

  -- The mux; it does not clean the path of a CONNECT.
  unfoldable pub mux :
      Target → (String → Bool) → LoginRateLimiter → Context → Dispatch × LoginRateLimiter
  unfolding guard_verdict best_route routes profile_switch wants_slash
  mux target has_dir l ctx =
      if (r.method == "CONNECT" || target.clean)
        && not (wants_slash target.segments (routes has_dir))
      then pass_route l ctx (best_route target.segments (routes has_dir))
      else (redirected, l)

  abbrev after_csrf :
      Target → (String → Bool) → LoginRateLimiter → Verdict → Dispatch × LoginRateLimiter
  after_csrf target has_dir l (reply a) = (answered a, l)
  after_csrf target has_dir l (next ctx) = mux target has_dir l ctx

  -- The chain that New of server.go builds: CSRFBypass, CSRFProtect and the mux; Secure sets
  -- headers and passes every request on.
  unfoldable pub handle :
      RawUrlBase64
      → HmacSha256
      → UrlParser
      → CsrfManager
      → List String
      → Bool
      → Target
      → (String → Bool)
      → LoginRateLimiter
      → Context
      → Dispatch × LoginRateLimiter
  unfolding mux
  handle b64 h parse m trusted https target has_dir l ctx =
      after_csrf target has_dir l (csrf_chain b64 h parse m trusted https r ctx)
