-- ===== src/Server/Routes/Admission.antt =====
-- Who reaches which handler, through the whole chain of the server.
use unyport.Common.{
  ℕ, ◌≡◌, refl, sym, ap, ◌⊎◌, inl, inr, String, Bool, true, false, not, ◌&&◌, ◌||◌, Option, none,
  some, List, ◌==◌, eq_iff, arith, Bool-cases,
}
use unyport.Crypto.{Tokens}
use unyport.Http.{Request, Context, Net}
use unyport.Jwt.{JwtService}
use unyport.Users.{valid_role}
use unyport.Users.Store.{Store}
use unyport.Middleware.{Verdict, reply, next}
use unyport.Middleware.Access.Laws.{
  IsAuthenticated, auth-IsAuthenticated, admin_mw_sound, write_mw_sound,
}
use unyport.Middleware.RateLimit.{LoginRateLimiter}
use unyport.Middleware.Csrf.{
  RawUrlBase64, HmacSha256, UrlParser, CsrfManager, csrf_chain, is_safe_method, valid_origin,
  is_bypassed,
}
use unyport.Middleware.Csrf.Protection.{CarriesToken, csrf_chain_sound}
use unyport.Server.Routes.Guards.{
  is_public, for_admins, for_writers, is_exempt, signs_in, admins_only, writers_only, Suffices,
  All-best_route, All-imp, routes-Suffices,
}
use unyport.Server.Routes.Exempt.{slashed, is_harmless, is_harmless-cases, is_bypassed-is_harmless}
use unyport.Server.Routes.{
  Endpoint, profile, app_page, Target, Guard, unguarded, limited, authenticated, writing,
  administering, Route, route, routes, best_route, wants_slash, reached, profile_switch, arrive,
  through, guard_verdict, pass_route, mux, after_csrf, handle,
}

valid_role-operator :
    (x : String) → valid_role x ≡ true → (x == "viewer") ≡ false → (x ≡ "admin") ⊎ (x ≡ "operator")
unfolding valid_role
valid_role-operator x v other = ground (arith, eq_iff x "admin", eq_iff x "operator")

-- What the caller of a handler is.
pub record Admitted (t : Tokens) (j : JwtService) (s : Store) (now : ℕ) (r : Request) (e : Endpoint)
    (out : Context) : Type 0 where
  pub signed_in : is_public e ≡ false → IsAuthenticated t j s now r out
  pub admin : for_admins e ≡ true → out.user_role ≡ "admin"
  pub writer : for_writers e ≡ true → (out.user_role ≡ "admin") ⊎ (out.user_role ≡ "operator")

module _ (t : Tokens) (j : JwtService) (s : Store) (n : Net) (now : ℕ) (r : Request) where
  abbrev Passed : Guard → Context → Type 0
  Passed g out =
      (signs_in g ≡ true → IsAuthenticated t j s now r out)
      × (admins_only g ≡ true → out.user_role ≡ "admin")
      × (writers_only g ≡ true → (out.user_role ≡ "admin") ⊎ (out.user_role ≡ "operator"))

  guard_verdict-Passed :
      (l : LoginRateLimiter) (ctx : Context) (g : Guard) (out : Context)
      → (guard_verdict t j s n now r l ctx g).0 ≡ next out
      → Passed g out
  unfolding guard_verdict
  guard_verdict-Passed l ctx unguarded out h =
      ((λ f. absurd (cc)), (λ f. absurd (cc)), (λ f. absurd (cc)))
  guard_verdict-Passed l ctx limited out h =
      ((λ f. absurd (cc)), (λ f. absurd (cc)), (λ f. absurd (cc)))
  guard_verdict-Passed l ctx authenticated out h =
      ((λ f. auth-IsAuthenticated t j s now r ctx out h), (λ f. absurd (cc)), (λ f. absurd (cc)))
  guard_verdict-Passed l ctx writing out h =
      let (a, role) = write_mw_sound t j s now r ctx out h in
      ((λ f. a), (λ f. absurd (cc)), (λ f. role))
  guard_verdict-Passed l ctx administering out h =
      let (a, role) = admin_mw_sound t j s now r ctx out h in
      ((λ f. a), (λ f. role), (λ f. inl role))

  same-Admitted :
      (e e' : Endpoint) (g : Guard) (c out : Context)
      → Suffices (route "" g e)
      → Passed g c
      → e ≡ e'
      → c ≡ out
      → Admitted t j s now r e' out
  same-Admitted e e' g c out (p, a, w) (in_, adm, wr) same same_context =
      rw (sym same, sym same_context)
        record { signed_in = λ h. in_ (p h); admin = λ h. adm (a h); writer = λ h. wr (w h) }

  profile-Admitted :
      (e' : Endpoint) (g : Guard) (c out : Context)
      → signs_in g ≡ true
      → Passed g c
      → profile_switch r c ≡ reached e' out
      → Admitted t j s now r e' out
  unfolding profile_switch
  profile-Admitted e' g c out signed (in_, adm, wr) h =
      let same : c ≡ out = ground (arith, h) in
      let a = in_ signed in
      rw (sym same) record {
        signed_in = λ _. a;
        admin = λ f. absurd (ground (arith, h, f));
        writer = λ f. valid_role-operator c.user_role a.valid (ground (arith, h, f));
      }

  arrive-cases : (e : Endpoint) (c : Context) → (e ≡ profile) ⊎ (arrive r e c ≡ reached e c)
  arrive-cases profile c = inl refl
  arrive-cases e c = inr refl

  arrive-Admitted :
      (e : Endpoint) (g : Guard) (c out : Context) (e' : Endpoint)
      → Suffices (route "" g e)
      → Passed g c
      → arrive r e c ≡ reached e' out
      → Admitted t j s now r e' out
  arrive-Admitted e g c out e' (p, a, w) passed h = elim (arrive-cases e c) [
    | inl is_profile ↦
        profile-Admitted e' g c out (p (rw is_profile refl)) passed (rw is_profile at h)
    | inr straight ↦
        same-Admitted e e' g c out (p, a, w) passed (cc (h, straight)) (cc (h, straight))
  ]

  through-reached :
      (e e' : Endpoint) (v : Verdict) (out : Context)
      → through r e v ≡ reached e' out
      → (c : Context) × (v ≡ next c) × (arrive r e c ≡ reached e' out)
  through-reached e e' (reply a) out h = absurd (ground (arith, h))
  through-reached e e' (next c) out h = (c, refl, h)

  pass_route-reached :
      (l : LoginRateLimiter) (c out : Context) (o : Option Route) (e : Endpoint)
      → (pass_route t j s n now r l c o).0 ≡ reached e out
      → (q : Route) × (o ≡ some q)
        × (through r q.endpoint (guard_verdict t j s n now r l c q.guard).0 ≡ reached e out)
  pass_route-reached l c out none e h = absurd (ground (arith, h))
  pass_route-reached l c out (some q) e h = (q, refl, h)

  mux-reached :
      (target : Target) (has_dir : String → Bool) (l : LoginRateLimiter) (c out : Context)
      (e : Endpoint)
      → (mux t j s n now r target has_dir l c).0 ≡ reached e out
      → (q : Route) × (best_route target.segments (routes has_dir) ≡ some q)
        × (through r q.endpoint (guard_verdict t j s n now r l c q.guard).0 ≡ reached e out)
  unfolding mux
  mux-reached target has_dir l c out e h =
      elim (Bool-cases (
        (r.method == "CONNECT" || target.clean)
        && not (wants_slash target.segments (routes has_dir)))) [
          | inl clean ↦
              pass_route-reached l c out (best_route target.segments (routes has_dir)) e
                (rw clean at h)
          | inr other ↦ absurd (ground (arith, other, h))
        ]

  mux-Admitted :
      (target : Target) (has_dir : String → Bool) (l : LoginRateLimiter) (c out : Context)
      (e : Endpoint)
      → (mux t j s n now r target has_dir l c).0 ≡ reached e out
      → Admitted t j s now r e out
  mux-Admitted target has_dir l c out e h =
      let (q, best, at_end) = mux-reached target has_dir l c out e h in
      let (c', passed, arrived) = through-reached q.endpoint e _ out at_end in
      arrive-Admitted q.endpoint q.guard c' out e
        (All-best_route Suffices target.segments (routes has_dir) q
          (All-imp Suffices _ (routes has_dir) (λ x suffices taken. suffices)
            (routes-Suffices has_dir))
          best)
        (guard_verdict-Passed l c q.guard c' passed) arrived

  harmless-arrive :
      (e e' : Endpoint) (c out : Context)
      → is_harmless e ≡ true
      → arrive r e c ≡ reached e' out
      → is_harmless e' ≡ true
  harmless-arrive e e' c out exempt h = elim (arrive-cases e c) [
    | inl is_profile ↦ absurd (cc (exempt, ap is_harmless is_profile))
    | inr straight ↦ let same : e ≡ e' = cc (h, straight) in rw same at exempt
  ]

  mux-is_harmless :
      (target : Target) (has_dir : String → Bool) (l : LoginRateLimiter) (c out : Context)
      (e : Endpoint)
      → r.path ≡ slashed target.segments
      → is_bypassed r ≡ true
      → (mux t j s n now r target has_dir l c).0 ≡ reached e out
      → is_harmless e ≡ true
  mux-is_harmless target has_dir l c out e written skipped h =
      let (q, best, at_end) = mux-reached target has_dir l c out e h in
      let (c', _, arrived) = through-reached q.endpoint e _ out at_end in
      harmless-arrive q.endpoint e c' out
        (is_bypassed-is_harmless has_dir target.segments r q written skipped best) arrived

  module _ (b64 : RawUrlBase64) (h : HmacSha256) (parse : UrlParser) (m : CsrfManager)
      (trusted : List String) (https : Bool) (target : Target) (has_dir : String → Bool)
      (l : LoginRateLimiter) (ctx out : Context) (e : Endpoint) where
    handle-reached :
        (handle t j s n now r b64 h parse m trusted https target has_dir l ctx).0 ≡ reached e out
        → (c : Context) × (csrf_chain b64 h parse m trusted https r ctx ≡ next c)
          × ((mux t j s n now r target has_dir l c).0 ≡ reached e out)
    unfolding handle
    handle-reached got = by_verdict (csrf_chain b64 h parse m trusted https r ctx) got
      where
        by_verdict :
            (v : Verdict)
            → (after_csrf t j s n now r target has_dir l v).0 ≡ reached e out
            → (c : Context) × (v ≡ next c)
              × ((mux t j s n now r target has_dir l c).0 ≡ reached e out)
        by_verdict (reply a) g = absurd (ground (arith, g))
        by_verdict (next c) g = (c, refl, g)

    -- A handler that a request reaches through the server's whole chain is one that the caller is
    -- admitted to: unless it is for anybody, the request carries a token that is recognised now,
    -- the store has its user now, and the context has that user's role in the store; this role is
    -- "admin" for an administrator's handler, and "admin" or "operator" for a writer's.
    pub handle-Admitted :
        (handle t j s n now r b64 h parse m trusted https target has_dir l ctx).0 ≡ reached e out
        → Admitted t j s now r e out
    handle-Admitted got =
        let (c, _, below) = handle-reached got in mux-Admitted target has_dir l c out e below

    -- Where the segments that the mux reads make up the path, a request with an unsafe method and no
    -- skip mark in its context that reaches a handler has an allowed origin, and one of three
    -- holds: the handler is one of the six exempt ones, it is the page of the front end, which
    -- only reads files, or the request carries a signed cookie and that cookie's token in a header.
    pub handle-csrf_chain :
        (handle t j s n now r b64 h parse m trusted https target has_dir l ctx).0 ≡ reached e out
        → r.path ≡ slashed target.segments
        → is_safe_method r.method ≡ false
        → ctx.csrf_skip ≡ false
        → (valid_origin parse r trusted https ≡ true)
          × ((is_exempt e ≡ true) ⊎ (e ≡ app_page) ⊎ CarriesToken b64 h m r)
    handle-csrf_chain got written unsafe unmarked =
        let (c, passed, below) = handle-reached got in
        let (origin, token, _, _) =
          csrf_chain_sound b64 h parse m trusted https r ctx c passed unsafe unmarked in
        (
          origin,
          elim token [
            | inl skipped ↦
                elim (is_harmless-cases e
                  (mux-is_harmless target has_dir l c out e written skipped below)) [
                    | inl exempt ↦ inl exempt
                    | inr page ↦ inr (inl page)
                  ]
            | inr carried ↦ inr (inr carried)
          ],
        )
