-- ===== src/Branding.antt =====
-- unyport/backend/config/branding.go: the logo and the colours of an installation, and their
-- store. The YAML library and the file system are parameters; the mutex is not modelled.
pub mod Laws
pub mod Handlers
use unyport.Common.{
  ℕ, ◌*◌, ◌≡◌, String, Bool, true, false, not, ◌&&◌, ◌||◌, Option, none, some, List, [], ◌∷◌, ◌==◌,
  ltb, leb, nat_eq, if◌then◌else◌,
}
use Prim.Native.String
use Prim.Native.String.{len}
use Prim.Native.Char.{code}
use unyport.Common.Text.{has_prefix, cut, all_codes}

pub record BrandingColors : Type 0 where
  pub dom0 : String
  pub dom_u : String
  pub container : String
  pub alpine : String

pub record Branding : Type 0 where
  pub logo_base64 : String
  pub logo_url : String
  pub colors : BrandingColors

-- Branding{}
abbrev pub empty_branding : Branding
empty_branding = record {
  logo_base64 = "";
  logo_url = "";
  colors = record { dom0 = ""; dom_u = ""; container = ""; alpine = "" };
}

-- EffectiveLogoSrc
unfoldable pub effective_logo_src : Branding → String
effective_logo_src b =
    if not (b.logo_base64 == "")
    then b.logo_base64
    else if not (b.logo_url == "")
    then b.logo_url
    else ""

-- HasCustomLogo
unfoldable pub has_custom_logo : Branding → Bool
has_custom_logo b = not (b.logo_base64 == "") || not (b.logo_url == "")

abbrev pub filled : String → String → String
filled color fallback = if color == "" then fallback else color

-- defaults
unfoldable pub defaults : Branding → Branding
defaults b = record b {
  colors = record {
    dom0 = filled b.colors.dom0 "#3e3aab";
    dom_u = filled b.colors.dom_u "#a0284a";
    container = filled b.colors.container "#b05a1a";
    alpine = filled b.colors.alpine "#28587c";
  };
}

abbrev pub is_hex_digit : ℕ → Bool
is_hex_digit c =
    (leb b'0' c && leb c b'9') || (leb b'a' c && leb c b'f') || (leb b'A' c && leb c b'F')

-- isHexColor
unfoldable pub is_hex_color : String → Bool
is_hex_color String.[] = false
is_hex_color (String.◌∷◌ c rest) =
    nat_eq (code c) b'#'
    && (nat_eq (len rest) 3 || nat_eq (len rest) 6)
    && all_codes is_hex_digit rest

-- The two decoders of encoding/base64 that the check tries: does the text decode?
pub record Base64 : Type 0 where
  pub std : String → Bool
  pub raw_std : String → Bool

abbrev pub max_logo_bytes : ℕ
max_logo_bytes = 2 * 1024 * 1024

-- The fields of the map over which the check of the colours runs.
pub data ColorName : Type 0 where
  dom0 domu container alpine : ColorName

unfoldable pub color_of : BrandingColors → ColorName → String
color_of c dom0 = c.dom0
color_of c domu = c.dom_u
color_of c container = c.container
color_of c alpine = c.alpine

pub data BrandingError : Type 0 where
  logo_too_large logo_not_image logo_malformed logo_not_base64 url_scheme : BrandingError
  bad_color : ColorName → BrandingError
  -- an error of the file system or of the encoder
  save_failed : BrandingError

abbrev payload_error : Base64 → Option (String × String) → Option BrandingError
payload_error d none = some logo_malformed
payload_error d (some (before, payload)) =
    if d.std payload || d.raw_std payload then none else some logo_not_base64

abbrev pub logo_error : Base64 → String → Option BrandingError
logo_error d logo =
    if logo == ""
    then none
    else if ltb max_logo_bytes (len logo)
    then some logo_too_large
    else if not (has_prefix logo "data:image/")
    then some logo_not_image
    else payload_error d (cut b',' logo)

abbrev pub url_error : String → Option BrandingError
url_error url =
    if url == "" || has_prefix url "http://" || has_prefix url "https://"
    then none
    else some url_scheme

-- `range` over the map visits its keys in an order that Go leaves open.
unfoldable pub colors_error : BrandingColors → List ColorName → Option BrandingError
unfolding color_of
colors_error c [] = none
colors_error c (n ∷ order) =
    let rest = colors_error c order in
    if not (color_of c n == "") && not (is_hex_color (color_of c n))
    then some (bad_color n)
    else rest

abbrev pub or_else : Option BrandingError → Option BrandingError → Option BrandingError
or_else (some e) _ = some e
or_else none next = next

-- validateBranding
unfoldable pub validate_branding : Base64 → List ColorName → Branding → Option BrandingError
unfolding colors_error
validate_branding d order b =
    or_else (logo_error d b.logo_base64)
      (or_else (url_error b.logo_url) (colors_error b.colors order))

-- The branding in memory, and the one that was last written into the file as YAML, if one was.
pub record BrandingStore : Type 0 where
  pub branding : Branding
  pub file : Option Branding

-- What the file system does during one Update: the step that fails, if one does.
pub data Saving : Type 0 where
  saved mkdir_failed marshal_failed create_failed write_failed rename_failed : Saving

-- What reading the file gives: no file, an error, a text that does not parse, or its fields.
pub data Reading : Type 0 where
  absent unreadable malformed : Reading
  parsed : Branding → Reading

-- NewBrandingStore and load, on a new store; none is an error, on which the server does not start.
unfoldable pub load : Reading → Option Branding
unfolding defaults
load absent = some (defaults empty_branding)
load unreadable = none
load malformed = none
load (parsed b) = some (defaults b)

abbrev save : Saving → Branding → BrandingStore → Option BrandingError × BrandingStore
save saved b s = (none, record s { file = some b })
save _ b s = (some save_failed, s)

abbrev pub replace :
    Saving → Branding → BrandingStore → Option BrandingError → Option BrandingError × BrandingStore
replace disk b s (some e) = (some e, s)
replace disk b s none = save disk (defaults b) (record s { branding = defaults b })

-- Update
unfoldable pub update :
    Base64
    → List ColorName
    → Saving
    → Branding
    → BrandingStore
    → Option BrandingError × BrandingStore
unfolding validate_branding defaults
update d order disk b s = replace disk b s (validate_branding d order b)
