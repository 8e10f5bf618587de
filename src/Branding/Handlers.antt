-- ===== src/Branding/Handlers.antt =====
-- BrandingHandler of unyport/backend/auth/handlers.go.
use unyport.Common.{String, not, Option, none, some, List, [], ◌∷◌, ◌==◌, if◌then◌else◌}
use unyport.Http.{
  Request, Response, Body, decode_json, texts, str, bool, json_object, json_ok, json_error,
}
use unyport.Handlers.Sessions.{method_not_allowed}
use unyport.Branding.{
  Branding, effective_logo_src, has_custom_logo, Base64, ColorName, BrandingError, BrandingStore,
  Saving, update, empty_branding,
}

-- GetBranding
unfoldable pub get_branding : Request → BrandingStore → Response
get_branding r s =
    if not (r.method == "GET")
    then method_not_allowed
    else json_object (
        ("logo_src", str (effective_logo_src s.branding))
        ∷ ("has_logo", bool (has_custom_logo s.branding))
        ∷ (
          "colors",
          texts (
              ("dom0", s.branding.colors.dom0)
              ∷ ("domu", s.branding.colors.dom_u)
              ∷ ("container", s.branding.colors.container)
              ∷ ("alpine", s.branding.colors.alpine)
              ∷ []),
        )
        ∷ [])

module _ (error_text : BrandingError → String) (d : Base64) (order : List ColorName) (disk : Saving)
    (r : Request) (s : BrandingStore) where
  abbrev report :
      Option BrandingError × BrandingStore → (BrandingError → Response) → Response × BrandingStore
  report (none, s') failed = (json_ok, s')
  report (some e, s') failed = (failed e, s')

  abbrev update_with : Option Branding → Response × BrandingStore
  update_with none = (json_error "bad request" 400, s)
  update_with (some b) = report (update d order disk b s) (λ e. json_error (error_text e) 400)

  -- UpdateBranding
  unfoldable pub update_branding : Body Branding → Response × BrandingStore
  update_branding body =
      if not (r.method == "PATCH") then (method_not_allowed, s) else update_with (decode_json body)

  -- ResetBranding
  unfoldable pub reset_branding : Response × BrandingStore
  reset_branding =
      if not (r.method == "DELETE")
      then (method_not_allowed, s)
      else report (update d order disk empty_branding s) (λ e. json_error (error_text e) 500)
