-- ===== src/Server/Routes/Guards.antt =====
-- The guard of every route suffices for its handler.
use unyport.Common.{
  ℕ, ◌≡◌, refl, sym, ◌⊎◌, inl, inr, String, Bool, true, false, not, ◌&&◌, ◌||◌, Option, none, some,
  List, [], ◌∷◌, ◌++◌, ◌==◌, eq_iff, arith, any, All, All-append, Bool-cases, Option-cases,
  if◌then◌else◌,
}
use Prim.Native.String
use unyport.Server.Routes.{
  Endpoint, csrf_token, public_version, login, logout, session, branding, oauth_providers,
  oauth_login, oauth_callback, assets, app_page, stream, xen_create, xen_action, profile_write,
  password, branding_update, branding_reset, admin_users, admin_user, Guard, unguarded, limited,
  writing, administering, Route, public_routes, asset_directories, directory_routes, file_routes,
  protected_routes, routes, takes, longer, best_route,
}

-- Handlers for anybody.
abbrev pub is_public : Endpoint → Bool
is_public csrf_token = true
is_public public_version = true
is_public login = true
is_public logout = true
is_public session = true
is_public branding = true
is_public oauth_providers = true
is_public oauth_login = true
is_public oauth_callback = true
is_public assets = true
is_public app_page = true
is_public _ = false

-- Handlers for administrators.
abbrev pub for_admins : Endpoint → Bool
for_admins xen_create = true
for_admins branding_update = true
for_admins branding_reset = true
for_admins admin_users = true
for_admins admin_user = true
for_admins _ = false

-- Handlers for administrators and operators.
abbrev pub for_writers : Endpoint → Bool
for_writers xen_action = true
for_writers password = true
for_writers profile_write = true
for_writers _ = false

-- Handlers that CSRFBypass exempts from the token.
abbrev pub is_exempt : Endpoint → Bool
is_exempt login = true
is_exempt logout = true
is_exempt session = true
is_exempt oauth_login = true
is_exempt oauth_callback = true
is_exempt stream = true
is_exempt _ = false

abbrev pub signs_in : Guard → Bool
signs_in unguarded = false
signs_in limited = false
signs_in _ = true

abbrev pub admins_only : Guard → Bool
admins_only administering = true
admins_only _ = false

abbrev pub writers_only : Guard → Bool
writers_only administering = true
writers_only writing = true
writers_only _ = false

-- The page of the front end, which only reads files of the build.
abbrev pub is_page : Endpoint → Bool
is_page app_page = true
is_page _ = false

-- The guard suffices for the handler.
abbrev pub Suffices : Route → Type 0
Suffices q =
    (is_public q.endpoint ≡ false → signs_in q.guard ≡ true)
    × (for_admins q.endpoint ≡ true → admins_only q.guard ≡ true)
    × (for_writers q.endpoint ≡ true → writers_only q.guard ≡ true)

pub All-best_route :
    (P : Route → Type 0) (path : List String) (rs : List Route) (q : Route)
    → All (λ x. takes x.pattern path ≡ true → P x) rs
    → best_route path rs ≡ some q
    → P q
unfolding best_route
All-best_route P path [] q h e = absurd (ground (arith, e))
All-best_route P path (r ∷ rs) q (p, h) e = elim (Bool-cases (takes r.pattern path)) [
  | inr other ↦ All-best_route P path rs q h (rw other at e)
  | inl taken ↦
      by_rest (p taken) (λ x below. All-best_route P path rs x h below) (best_route path rs) refl
        (rw taken at e)
]
  where
    by_rest :
        P r
        → ((x : Route) → best_route path rs ≡ some x → P x)
        → (o : Option Route) → best_route path rs ≡ o
        → longer r o ≡ some q
        → P q
    by_rest p ih none none_below f = let e' : q ≡ r = ground (arith, f) in rw e' p
    by_rest p ih (some x) below f =
        elim (Bool-cases (unyport.Common.ltb (String.len r.pattern) (String.len x.pattern))) [
          | inl shorter ↦ ih q (ground (arith, below, f, shorter))
          | inr long ↦ let e' : q ≡ r = ground (arith, f, long) in rw e' p
        ]

pub All-imp :
    (P Q : Route → Type 0) (rs : List Route) → ((x : Route) → P x → Q x) → All P rs → All Q rs
All-imp P Q [] f h = tt
All-imp P Q (r ∷ rs) f (p, h) = (f r p, All-imp P Q rs f h)

directory_routes-Suffices :
    (has_dir : String → Bool) (ds : List String) → All Suffices (directory_routes has_dir ds)
unfolding directory_routes
directory_routes-Suffices has_dir [] = tt
directory_routes-Suffices has_dir (d ∷ ds) = elim (Bool-cases (has_dir d)) [
  | inl there ↦ rw there (
    ((λ h. ground (arith, h)), (λ h. ground (arith, h)), (λ h. ground (arith, h))),
    directory_routes-Suffices has_dir ds,
  )
  | inr gone ↦ rw gone (directory_routes-Suffices has_dir ds)
]

public-Suffices : All Suffices public_routes
public-Suffices = ground arith

file-Suffices : All Suffices file_routes
file-Suffices = ground arith

protected-Suffices : All Suffices protected_routes
protected-Suffices = ground arith

pub routes-Suffices : (has_dir : String → Bool) → All Suffices (routes has_dir)
unfolding routes
routes-Suffices has_dir = All-append Suffices public_routes _ public-Suffices (
    All-append Suffices (directory_routes has_dir asset_directories) _
      (directory_routes-Suffices has_dir asset_directories)
      (All-append Suffices file_routes protected_routes file-Suffices protected-Suffices))
