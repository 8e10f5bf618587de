-- ===== src/Branding/Laws.antt =====
-- What the store of the branding keeps.
use mathlib.Core.List.{Memᴰ}
use unyport.Common.{
  ◌≡◌, ◌≤◌, ◌⊎◌, inl, inr, refl, String, true, false, none, some, List, [], ◌∷◌, ◌==◌, eq_iff,
  arith, Bool-cases, Option-cases,
}
use Prim.Native.String.{len}
use unyport.Common.Text.{has_prefix, cut, all_codes}
use unyport.Branding.{
  BrandingColors, Branding, defaults, filled, is_hex_color, Base64, max_logo_bytes, ColorName, dom0,
  domu, container, alpine, color_of, logo_error, url_error, colors_error, validate_branding,
  BrandingStore, Saving, update, replace, saved, mkdir_failed, marshal_failed, create_failed,
  write_failed, rename_failed,
}

-- A logo that the check accepts: none, or an image of at most 2 MiB as a data URI that decodes.
pub record IsLogo (d : Base64) (logo : String) : Type 0 where
  pub size : len logo ≤ max_logo_bytes
  pub scheme : has_prefix logo "data:image/" ≡ true
  pub before : String
  pub payload : String
  pub parts : cut b',' logo ≡ some (before, payload)
  pub decodes : (d.std payload ≡ true) ⊎ (d.raw_std payload ≡ true)

-- A branding that can be stored: every colour is a hexadecimal one, and the logo and its address
-- are absent or well-formed.
pub record IsValid (d : Base64) (b : Branding) : Type 0 where
  pub logo : (b.logo_base64 ≡ "") ⊎ IsLogo d b.logo_base64
  pub url :
      (b.logo_url ≡ "")
      ⊎ (has_prefix b.logo_url "http://" ≡ true)
      ⊎ (has_prefix b.logo_url "https://" ≡ true)
  pub color : (n : ColorName) → is_hex_color (color_of b.colors n) ≡ true

logo_error_sound :
    (d : Base64) (logo : String) → logo_error d logo ≡ none → (logo ≡ "") ⊎ IsLogo d logo
logo_error_sound d logo h = elim (Bool-cases (logo == "")) [
  | inl empty ↦ inl ((eq_iff logo "").0 empty)
  | inr given ↦ elim (Option-cases (cut b',' logo)) [
    | inl gone ↦ absurd (ground (arith, h, given, gone))
    | inr ((before, payload), parts) ↦ inr record {
      size = ground (arith, h, given, parts);
      scheme = ground (arith, h, given, parts);
      before = before;
      payload = payload;
      parts = parts;
      decodes = ground (arith, h, given, parts);
    }
  ]
]

url_error_sound :
    (url : String)
    → url_error url ≡ none
    → (url ≡ "") ⊎ (has_prefix url "http://" ≡ true) ⊎ (has_prefix url "https://" ≡ true)
url_error_sound url h = ground (arith, eq_iff url "")

-- The order visits every field.
abbrev pub Covers : List ColorName → Type 0
Covers order = (n : ColorName) → Memᴰ n order

colors_error_sound :
    (c : BrandingColors) (order : List ColorName) (n : ColorName)
    → colors_error c order ≡ none
    → Memᴰ n order
    → (color_of c n ≡ "") ⊎ (is_hex_color (color_of c n) ≡ true)
unfolding colors_error
colors_error_sound c [] n h m = elim m [ ]
colors_error_sound c (m ∷ order) n h (Memᴰ.head e) =
    rw e (ground (arith, h, eq_iff (color_of c m) ""))
colors_error_sound c (m ∷ order) n h (Memᴰ.tail later) =
    colors_error_sound c order n (ground (arith, h)) later

colors_error_complete :
    (c : BrandingColors) (order : List ColorName)
    → ((n : ColorName) → is_hex_color (color_of c n) ≡ true)
    → colors_error c order ≡ none
unfolding colors_error
colors_error_complete c [] h = refl
colors_error_complete c (n ∷ order) h = ground (arith, h n, colors_error_complete c order h)

filled_hex :
    (color fallback : String)
    → (color ≡ "") ⊎ (is_hex_color color ≡ true)
    → is_hex_color fallback ≡ true
    → is_hex_color (filled color fallback) ≡ true
filled_hex color fallback (inl empty) h = rw (empty) h
filled_hex color fallback (inr hex) h = elim (Bool-cases (color == "")) [
  | inl empty ↦ rw empty h
  | inr given ↦ rw given hex
]

default_color :
    (b : Branding) (n : ColorName)
    → (color_of b.colors n ≡ "") ⊎ (is_hex_color (color_of b.colors n) ≡ true)
    → is_hex_color (color_of (defaults b).colors n) ≡ true
unfolding defaults color_of is_hex_color all_codes
default_color b dom0 h = filled_hex b.colors.dom0 "#3e3aab" h refl
default_color b domu h = filled_hex b.colors.dom_u "#a0284a" h refl
default_color b container h = filled_hex b.colors.container "#b05a1a" h refl
default_color b alpine h = filled_hex b.colors.alpine "#28587c" h refl

validate_branding_sound :
    (d : Base64) (order : List ColorName) (b : Branding)
    → Covers order
    → validate_branding d order b ≡ none
    → IsValid d (defaults b)
unfolding validate_branding
validate_branding_sound d order b covers h =
    let logo_fine : logo_error d b.logo_base64 ≡ none = ground (arith, h) in
    let url_fine : url_error b.logo_url ≡ none = ground (arith, h, logo_fine) in
    let colors_fine : colors_error b.colors order ≡ none = ground (arith, h, logo_fine, url_fine) in
    record {
      logo = unfold defaults in logo_error_sound d b.logo_base64 logo_fine;
      url = unfold defaults in url_error_sound b.logo_url url_fine;
      color = λ n. default_color b n (colors_error_sound b.colors order n colors_fine (covers n));
    }

-- A well-formed branding in memory stays well-formed under Update, whatever the body, the order
-- in which the colours are checked and the outcome of the save: a colour left out gets its
-- default.
pub update-IsValid :
    (d : Base64) (order : List ColorName) (disk : Saving) (b : Branding) (s : BrandingStore)
    → Covers order
    → IsValid d s.branding
    → IsValid d (update d order disk b s).1.branding
unfolding update
update-IsValid d order disk b s covers h = elim (Option-cases (validate_branding d order b)) [
  | inr (e, bad) ↦ rw bad h
  | inl fine ↦ rw fine (by_disk disk (validate_branding_sound d order b covers fine))
]
  where
    by_disk : (k : Saving) → IsValid d (defaults b) → IsValid d (replace k b s none).1.branding
    by_disk saved v = v
    by_disk _ v = v

-- Update succeeds only on a body that is well-formed once its missing colours are filled in, and
-- then memory and file both hold that branding.
pub update-none :
    (d : Base64) (order : List ColorName) (disk : Saving) (b : Branding) (s : BrandingStore)
    → Covers order
    → (update d order disk b s).0 ≡ none
    → IsValid d (defaults b)
      × ((update d order disk b s).1 ≡ record { branding = defaults b; file = some (defaults b) })
unfolding update
update-none d order disk b s covers h = elim (Option-cases (validate_branding d order b)) [
  | inr (e, bad) ↦ absurd (ground (arith, bad, h))
  | inl fine ↦ rw fine (validate_branding_sound d order b covers fine, by_disk disk (rw fine at h))
]
  where
    by_disk :
        (k : Saving)
        → (replace k b s none).0 ≡ none
        → (replace k b s none).1 ≡ record { branding = defaults b; file = some (defaults b) }
    by_disk saved _ = refl
    by_disk mkdir_failed f = absurd (ground (arith, f))
    by_disk marshal_failed f = absurd (ground (arith, f))
    by_disk create_failed f = absurd (ground (arith, f))
    by_disk write_failed f = absurd (ground (arith, f))
    by_disk rename_failed f = absurd (ground (arith, f))

filled_hex_id :
    (color fallback : String) → is_hex_color color ≡ true → filled color fallback ≡ color
unfolding is_hex_color
filled_hex_id color fallback h = elim (Bool-cases (color == "")) [
  | inl empty ↦
      let e : color ≡ "" = (eq_iff color "").0 empty in
      let f : false ≡ true = rw e at h in absurd (cc f)
  | inr given ↦ rw given refl
]

defaults_valid : (d : Base64) (b : Branding) → IsValid d b → defaults b ≡ b
unfolding defaults color_of
defaults_valid d b v =
    rw
      (
        filled_hex_id b.colors.dom0 "#3e3aab" (v.color dom0),
        filled_hex_id b.colors.dom_u "#a0284a" (v.color domu),
        filled_hex_id b.colors.container "#b05a1a" (v.color container),
        filled_hex_id b.colors.alpine "#28587c" (v.color alpine),
      )
      refl

logo_error_complete :
    (d : Base64) (logo : String) → (logo ≡ "") ⊎ IsLogo d logo → logo_error d logo ≡ none
logo_error_complete d logo (inl empty) = ground (arith, eq_iff logo "")
logo_error_complete d logo (inr v) = ground (arith, v.size, v.scheme, v.parts, v.decodes)

url_error_complete :
    (url : String)
    → (url ≡ "") ⊎ (has_prefix url "http://" ≡ true) ⊎ (has_prefix url "https://" ≡ true)
    → url_error url ≡ none
url_error_complete url h = ground (arith, h, eq_iff url "")

-- Update accepts every well-formed branding: after a save that works, memory and file both hold
-- it, unchanged.
pub update_complete :
    (d : Base64) (order : List ColorName) (b : Branding) (s : BrandingStore)
    → IsValid d b
    → update d order saved b s ≡ (none, record { branding = b; file = some b })
unfolding update validate_branding
update_complete d order b s v =
    rw
      (
        logo_error_complete d b.logo_base64 v.logo,
        url_error_complete b.logo_url v.url,
        colors_error_complete b.colors order v.color,
        defaults_valid d b v,
      )
      refl
