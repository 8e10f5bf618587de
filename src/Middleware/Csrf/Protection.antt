-- ===== src/Middleware/Csrf/Protection.antt =====
-- Which requests CSRFProtect lets through.
use unyport.Common.{
  ℕ, ◌≡◌, ◌≢◌, refl, ap, sym, ◌∙◌, String, Bool, true, false, none, some, List, [], ◌==◌, eq_iff,
  arith, length, Bool-cases, Option-cases, ◌⊎◌, inl, inr, any,
}
use unyport.Common.Text.{trim_space, cut}
use unyport.Http.{Request, Context}
use unyport.Middleware.{reply, next}
use unyport.Middleware.Csrf.{
  RawUrlBase64, HmacSha256, CsrfManager, UrlParser, Url, parse_cookie, new_token, request_token,
  validate_request, csrf_cookie_name, csrf_header_name, csrf_bypass, is_bypassed, origin_of,
  is_safe_method, valid_origin, csrf_protect, csrf_chain, csrf_error,
}
use unyport.Middleware.Csrf.Tokens.{parse_cookie-new_token}

-- A request that carries a signed cookie and repeats its token in a header.
pub record CarriesToken (b64 : RawUrlBase64) (h : HmacSha256) (m : CsrfManager) (r : Request)
    : Type 0 where
  pub value : String
  pub token : String
  pub cookie : r.cookie csrf_cookie_name ≡ some value
  pub signed : parse_cookie b64 h m value ≡ some token
  pub header : request_token r ≡ token
  pub nonempty : token ≢ ""

module _ (b64 : RawUrlBase64) (h : HmacSha256) (m : CsrfManager) (r : Request) where
  validate_request_sound : validate_request b64 h m r ≡ "" → CarriesToken b64 h m r
  unfolding validate_request
  validate_request_sound e = elim (Option-cases (r.cookie csrf_cookie_name)) [
    | inl missing ↦ absurd (ground (arith, missing, e, eq_iff "missing_cookie" ""))
    | inr (value, sent) ↦ elim (Option-cases (parse_cookie b64 h m value)) [
      | inl bad ↦
          absurd
            (ground (arith, sent, bad, e, eq_iff "missing_cookie" "", eq_iff "invalid_cookie" ""))
      | inr (token, signed) ↦ record {
        value = value;
        token = token;
        cookie = sent;
        signed = signed;
        header = by_header value token sent signed;
        nonempty = by_nonempty value token sent signed;
      }
    ]
  ]
    where
      by_header :
          (value token : String)
          → r.cookie csrf_cookie_name ≡ some value
          → parse_cookie b64 h m value ≡ some token
          → request_token r ≡ token
      by_header value token sent signed = ground (
        arith,
        sent,
        signed,
        e,
        eq_iff "missing_cookie" "",
        eq_iff "missing_token" "",
        eq_iff "token_mismatch" "",
        eq_iff token (request_token r),
      )

      by_nonempty :
          (value token : String)
          → r.cookie csrf_cookie_name ≡ some value
          → parse_cookie b64 h m value ≡ some token
          → token ≢ ""
      by_nonempty value token sent signed = ground (
        arith,
        sent,
        signed,
        e,
        eq_iff "missing_cookie" "",
        eq_iff "missing_token" "",
        eq_iff "token_mismatch" "",
        eq_iff token (request_token r),
        eq_iff (request_token r) "",
      )

  validate_request_complete : CarriesToken b64 h m r → validate_request b64 h m r ≡ ""
  unfolding validate_request
  validate_request_complete c =
      let filled : (c.value == "") ≡ false = value_nonempty c in
      ground (
        arith,
        c.cookie,
        c.signed,
        c.header,
        filled,
        c.nonempty,
        eq_iff c.token "",
        eq_iff c.token (request_token r),
        eq_iff (request_token r) "",
      )
    where
      empty_refused : parse_cookie b64 h m "" ≡ none
      empty_refused = unfold parse_cookie cut in refl

      value_nonempty : (c : CarriesToken b64 h m r) → (c.value == "") ≡ false
      value_nonempty c = elim (Bool-cases (c.value == "")) [
        | inl e ↦
            let gone : c.value ≡ "" = (eq_iff c.value "").0 e in
            absurd (cc (c.signed, gone, empty_refused))
        | inr e ↦ e
      ]

module _ (b64 : RawUrlBase64) (h : HmacSha256) (parse : UrlParser) (m : CsrfManager)
    (trusted : List String) (https : Bool) (r : Request) (ctx : Context) where
  -- A request with an unsafe method whose context has no skip mark yet passes only if its origin
  -- is allowed and either its path is one of the bypassed ones or it carries a signed cookie and
  -- that cookie's token in a header. The user and the role of the context are unchanged.
  pub csrf_chain_sound :
      (out : Context)
      → csrf_chain b64 h parse m trusted https r ctx ≡ next out
      → is_safe_method r.method ≡ false
      → ctx.csrf_skip ≡ false
      → (valid_origin parse r trusted https ≡ true)
        × ((is_bypassed r ≡ true) ⊎ CarriesToken b64 h m r)
        × (out.user_id ≡ ctx.user_id)
        × (out.user_role ≡ ctx.user_role)
  unfolding csrf_chain csrf_protect csrf_bypass
  csrf_chain_sound out e unsafe unmarked = elim (Bool-cases (is_bypassed r)) [
    | inl skipped ↦
        (ground (arith, skipped), inl skipped, ground (arith, skipped), ground (arith, skipped))
    | inr checked ↦
        let fine : validate_request b64 h m r ≡ "" =
          ground (arith, checked, eq_iff (validate_request b64 h m r) "") in
        (
          ground (arith, checked),
          inr (validate_request_sound b64 h m r fine),
          ground (arith, checked),
          ground (arith, checked),
        )
  ]

  -- Every request with an allowed origin passes if its method is safe, or its path is bypassed,
  -- or it carries the token.
  pub csrf_chain_complete :
      valid_origin parse r trusted https ≡ true
      → (is_safe_method r.method ≡ true) ⊎ (is_bypassed r ≡ true) ⊎ CarriesToken b64 h m r
      → csrf_chain b64 h parse m trusted https r ctx ≡ next (csrf_bypass r ctx)
  unfolding csrf_chain csrf_protect
  csrf_chain_complete origin (inl safe) = ground arith
  csrf_chain_complete origin (inr (inl skipped)) = unfold csrf_bypass in ground arith
  csrf_chain_complete origin (inr (inr c)) =
      ground (arith, validate_request_complete b64 h m r c, eq_iff (validate_request b64 h m r) "")

  -- An unsafe request whose Origin is a URL that is not trusted and is of another host than the
  -- request's own is refused with 403 on every path, the bypassed ones included.
  pub csrf_chain_foreign :
      (u : Url)
      → is_safe_method r.method ≡ false
      → r.header "Origin" ≢ ""
      → parse (r.header "Origin") ≡ some u
      → any (λ o. o == origin_of u) trusted ≡ false
      → u.host ≢ r.host
      → csrf_chain b64 h parse m trusted https r ctx
        ≡ reply (csrf_error "csrf_origin_forbidden" 403)
  unfolding csrf_chain csrf_protect valid_origin
  csrf_chain_foreign u unsafe named parsed foreign other =
      ground (arith, unsafe, parsed, foreign, eq_iff (r.header "Origin") "", eq_iff u.host r.host)

-- A page that has fetched its token passes: with the cookie that newToken has made from 32 random
-- bytes and its token in the header X-CSRF-Token, a request of an allowed origin goes through.
pub csrf_chain-new_token :
    (b64 : RawUrlBase64) (h : HmacSha256) (parse : UrlParser) (m : CsrfManager)
    (trusted : List String) (https : Bool) (r : Request) (ctx : Context) (bytes : List ℕ)
    (token value : String)
    → length bytes ≡ 32
    → new_token b64 h m (some bytes) ≡ some (token, value)
    → r.cookie csrf_cookie_name ≡ some value
    → r.header csrf_header_name ≡ token
    → valid_origin parse r trusted https ≡ true
    → csrf_chain b64 h parse m trusted https r ctx ≡ next (csrf_bypass r ctx)
csrf_chain-new_token b64 h parse m trusted https r ctx bytes token value len made sent header
      origin =
    let (signed, same) = parse_cookie-new_token b64 h m bytes token value len made in
    let trimmed : trim_space (r.header csrf_header_name) ≡ token =
      cc (b64.trim_space-encode bytes, header, same) in
    let filled : token ≢ "" = λ e.
      let gone : bytes ≡ [] = b64.encode_empty bytes (sym same ∙ e) in
      absurd (omega (arith, ap length gone, len)) in
    csrf_chain_complete b64 h parse m trusted https r ctx origin (
      inr (
        inr (record {
          value = value;
          token = token;
          cookie = sent;
          signed = signed;
          header = unfold request_token in ground (arith, trimmed, filled, eq_iff token "");
          nonempty = filled;
        })))
