-- ===== src/Server/Routes/Exempt.antt =====
-- Where the mux sends the paths that CSRFBypass names. CSRFBypass reads the decoded path, the mux
-- the segments of the escaped one.
use unyport.Common.{
  ◌≡◌, refl, ◌⊎◌, inl, inr, String, Bool, true, false, not, ◌&&◌, ◌||◌, ◌==◌, eq_iff, none, some,
  List, [], ◌∷◌, ◌++◌, arith, All, All-any, All-append, Bool-cases,
}
use Prim.Native.String
use text.Mathlib.TextLemmas.{append_assoc}
use unyport.Common.Text.{strip_prefix, has_prefix, split}
use unyport.Common.Text.Laws.{has_prefix-append, strip_prefix-append}
use unyport.Http.{Request}
use unyport.Middleware.Csrf.{is_bypassed, bypass_paths}
use unyport.Server.Routes.Guards.{is_exempt, is_page, All-best_route, All-imp}
use unyport.Server.Routes.{
  unguarded, Endpoint, assets, app_page, Route, route, public_routes, asset_directories,
  directory_routes, file_routes, protected_routes, routes, takes, matches, ends_here,
  pattern_segments, best_route,
}

-- The decoded path of segments: url.URL unescapes the whole path as it does its parts.
unfoldable pub slashed : List String → String
slashed [] = ""
slashed (s ∷ ss) = String.◌++◌ (String.◌++◌ "/" s) (slashed ss)

-- A path that begins with the segments of a pattern.
unfoldable below : List String → String → Bool
below [] path = path == ""
below (p ∷ ps) path =
    (ends_here p ps && has_prefix path "/")
    || elim (strip_prefix path (String.◌++◌ "/" p)) [ none ↦ false | some rest ↦ below ps rest ]

has_prefix-slashed : (s t : String) → has_prefix (String.◌++◌ (String.◌++◌ "/" s) t) "/" ≡ true
has_prefix-slashed s t = rw (append_assoc "/" s t) (has_prefix-append "/" (String.◌++◌ s t))

-- What the mux takes segment by segment has a decoded path that begins with the pattern.
matches-below :
    (ps segments : List String) → matches ps segments ≡ true → below ps (slashed segments) ≡ true
unfolding matches below slashed
matches-below [] [] h = refl
matches-below [] (s ∷ ss) h = absurd (ground (arith, h))
matches-below (p ∷ ps) [] h = absurd (ground (arith, h))
matches-below (p ∷ ps) (s ∷ ss) h = elim (Bool-cases (ends_here p ps)) [
  | inl last ↦ rw (last, has_prefix-slashed s (slashed ss)) refl
  | inr more ↦
      let same : p ≡ s = ground (arith, h, more, eq_iff p s) in
      let rest : matches ps ss ≡ true = ground (arith, h, more) in
      rw (more, same, strip_prefix-append (String.◌++◌ "/" s) (slashed ss))
        (matches-below ps ss rest)
]

-- A handler that needs no token: an exempt one, or the page of the front end.
abbrev pub is_harmless : Endpoint → Bool
is_harmless e = is_exempt e || is_page e

pub is_harmless-cases :
    (e : Endpoint) → is_harmless e ≡ true → (is_exempt e ≡ true) ⊎ (e ≡ app_page)
is_harmless-cases app_page h = inr refl
is_harmless-cases e h = inl h

abbrev Safe : String → Route → Type 0
Safe path q = below (pattern_segments q.pattern) path ≡ true → is_harmless q.endpoint ≡ true

abbrev safe : String → Route → Bool
safe path q = not (below (pattern_segments q.pattern) path) || is_harmless q.endpoint

abbrev every : (Route → Bool) → List Route → Bool
every f [] = true
every f (r ∷ rs) = f r && every f rs

abbrev directory : String → Route
directory d = route (String.◌++◌ "/" (String.◌++◌ d "/")) unguarded assets

abbrev every_directory : String → List String → Bool
every_directory path [] = true
every_directory path (d ∷ ds) = safe path (directory d) && every_directory path ds

All-every : (path : String) (rs : List Route) → every (safe path) rs ≡ true → All (Safe path) rs
All-every path [] h = tt
All-every path (r ∷ rs) h = ((λ b. ground (arith, h, b)), All-every path rs (ground (arith, h)))

All-directories :
    (path : String) (has_dir : String → Bool) (ds : List String)
    → every_directory path ds ≡ true
    → All (Safe path) (directory_routes has_dir ds)
unfolding directory_routes
All-directories path has_dir [] h = tt
All-directories path has_dir (d ∷ ds) h = elim (Bool-cases (has_dir d)) [
  | inl there ↦
      rw there ((λ b. ground (arith, h, b)), All-directories path has_dir ds (ground (arith, h)))
  | inr gone ↦ rw gone (All-directories path has_dir ds (ground (arith, h)))
]

abbrev IsSafe : String → Type 0
IsSafe path =
    (every (safe path) public_routes ≡ true)
    × (every_directory path asset_directories ≡ true)
    × (every (safe path) (file_routes ++ protected_routes) ≡ true)

All-IsSafe : All IsSafe bypass_paths
unfolding below pattern_segments split strip_prefix has_prefix
All-IsSafe = (
  (refl, refl, refl),
  (
    (refl, refl, refl),
    ((refl, refl, refl), ((refl, refl, refl), ((refl, refl, refl), ((refl, refl, refl), tt)))),
  ),
)

routes-Safe :
    (path : String) (has_dir : String → Bool) → IsSafe path → All (Safe path) (routes has_dir)
unfolding routes
routes-Safe path has_dir (one, two, three) =
    All-append (Safe path) public_routes _ (All-every path public_routes one) (
      All-append (Safe path) (directory_routes has_dir asset_directories) _
        (All-directories path has_dir asset_directories two)
        (All-every path (file_routes ++ protected_routes) three))

-- On a path that CSRFBypass names, the mux serves a handler that needs no token.
pub is_bypassed-is_harmless :
    (has_dir : String → Bool) (segments : List String) (r : Request) (q : Route)
    → r.path ≡ slashed segments
    → is_bypassed r ≡ true
    → best_route segments (routes has_dir) ≡ some q
    → is_harmless q.endpoint ≡ true
unfolding is_bypassed takes
is_bypassed-is_harmless has_dir segments r q written skipped best =
    All-best_route (λ x. is_harmless x.endpoint ≡ true) segments (routes has_dir) q
      (All-imp (Safe r.path) _ (routes has_dir) at_segments
        (routes-Safe r.path has_dir (All-any IsSafe r.path bypass_paths All-IsSafe skipped)))
      best
  where
    at_segments :
        (x : Route)
        → Safe r.path x
        → takes x.pattern segments ≡ true
        → is_harmless x.endpoint ≡ true
    at_segments x s taken =
        s (rw written (matches-below (pattern_segments x.pattern) segments taken))
