-- ===== src/Middleware/Secure.antt =====
-- unyport/backend/middleware/secure.go: the headers that every reply carries.
use unyport.Common.{String, Bool, true, false, some, List, [], ◌∷◌, ◌≡◌, if◌then◌else◌}
use Prim.Native.String.{◌++◌}
use unyport.Common.Dict.{Dict, lookup, insert, dict_laws}

-- strings.Join
unfoldable pub join : String → List String → String
join sep [] = ""
join sep (x ∷ []) = x
join sep (x ∷ y ∷ rest) = x ++ (sep ++ join sep (y ∷ rest))

abbrev pub directives : List String
directives =
    "default-src 'self'" ∷ "base-uri 'self'" ∷ "frame-ancestors 'none'" ∷ "object-src 'none'"
    ∷ "img-src 'self' data:" ∷ "connect-src 'self' ws: wss:" ∷ "script-src 'self'"
    ∷ "style-src 'self'" ∷ "style-src-elem 'self'" ∷ "style-src-attr 'none'" ∷ "font-src 'self'"
    ∷ "worker-src 'self'" ∷ "manifest-src 'self'" ∷ "form-action 'self'" ∷ []

-- The headers that Secure sets before the next handler runs, which may set others.
unfoldable pub secure : Bool → Dict String → Dict String
secure https h =
    let h1 = insert "X-Frame-Options" "DENY" h in
    let h2 = insert "X-Content-Type-Options" "nosniff" h1 in
    let h3 = insert "Referrer-Policy" "strict-origin-when-cross-origin" h2 in
    let h4 = insert "Permissions-Policy" "geolocation=(), microphone=(), camera=()" h3 in
    let h5 = insert "Content-Security-Policy" (join "; " directives) h4 in
    if https
    then insert "Strict-Transport-Security" "max-age=63072000; includeSubDomains; preload" h5
    else h5

-- Whatever headers a reply already has, after Secure those against framing and sniffing and the
-- policy of the content have their fixed values; the transport header is set over HTTPS and is
-- left as it was otherwise.
pub lookup-secure :
    (https : Bool) (h : Dict String)
    → (lookup "X-Frame-Options" (secure https h) ≡ some "DENY")
      × (lookup "X-Content-Type-Options" (secure https h) ≡ some "nosniff")
      × (lookup "Content-Security-Policy" (secure https h) ≡ some (join "; " directives))
      × (lookup "Strict-Transport-Security" (secure https h) ≡ (
          if https
          then some "max-age=63072000; includeSubDomains; preload"
          else lookup "Strict-Transport-Security" h))
unfolding secure
lookup-secure true h = (simp dict_laws, simp dict_laws, simp dict_laws, simp dict_laws)
lookup-secure false h = (simp dict_laws, simp dict_laws, simp dict_laws, simp dict_laws)
