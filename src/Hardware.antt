-- ===== src/Hardware.antt =====
-- The year of the firmware and the names of graphics cards, from unyport/backend/sse/sysinfo.go.
-- Lengths and indices are in bytes. to_lower maps the ASCII letters.
pub mod Laws
use Prim.Native.String.{◌++◌, len}
use Prim.Native.String
use Prim.Native.Char.{code, len_utf8}
use unyport.Common.{
  ℕ, ◌-◌, String, Bool, true, false, not, ◌&&◌, ◌||◌, Option, none, some, List, [], ◌∷◌, ◌==◌, ltb,
  leb, nat_eq, if◌then◌else◌,
}
use unyport.Common.Integers.{ℤ, pos, negsuc}
use unyport.Common.Dict.{Dict, lookup}
use unyport.Common.Text.{split, cut, to_lower, has_prefix, trim_prefix, contains, all_codes}

abbrev in_years : Option ℤ → Bool
in_years (some (pos n)) = leb 1990 n && leb n 2100
in_years _ = false

-- s[:n] in bytes, where a character begins at the byte n
unfoldable pub first : ℕ → String → String
first n Prim.Native.String.[] = ""
first n (Prim.Native.String.◌∷◌ c s) =
    let rest = first (n - len_utf8 c) s in if nat_eq n 0 then "" else Prim.Native.String.◌∷◌ c rest

-- The character that the byte n of a text belongs to, if the text is that long; s[n] is '-' exactly
-- where this character is, since the bytes of a longer one are all above 127.
unfoldable pub byte_at : ℕ → String → Option ℕ
byte_at n Prim.Native.String.[] = none
byte_at n (Prim.Native.String.◌∷◌ c s) =
    let rest = byte_at (n - len_utf8 c) s in if ltb n (len_utf8 c) then some (code c) else rest

abbrev before_space : Option (String × String) → String → String
before_space none s = s
before_space (some (before, rest)) s = if before == "" then s else before

-- What a function gives: a value, or the panic of an index that is out of range.
pub data Outcome {ℓ} (A : Type ℓ) : Type ℓ where
  value : A → Outcome A
  panic : Outcome A

module _ (atoi : String → Option ℤ) where
  unfoldable pub is_year : String → Bool
  is_year s = if not (nat_eq (len s) 4) then false else in_years (atoi s)

  -- The part behind the second slash of three, without what follows a space.
  unfoldable pub year_of_parts : List String → String
  unfolding is_year
  year_of_parts (a ∷ b ∷ last ∷ []) =
      let year = before_space (cut b' ' last) last in if is_year year then year else ""
  year_of_parts _ = ""

  unfoldable pub year_with_dash : Option ℕ → String → Outcome String
  unfolding is_year year_of_parts
  year_with_dash none date = panic
  year_with_dash (some c) date =
      if nat_eq c b'-' && is_year (first 4 date)
      then value (first 4 date)
      else value (year_of_parts (split b'/' date))

  -- extractBIOSYear
  unfoldable pub extract_bios_year : String → Outcome String
  unfolding year_with_dash year_of_parts
  extract_bios_year Prim.Native.String.[] = value ""
  extract_bios_year (Prim.Native.String.◌∷◌ c s) =
      let date : String = Prim.Native.String.◌∷◌ c s in
      if leb 4 (len date)
      then year_with_dash (byte_at 4 date) date
      else value (year_of_parts (split b'/' date))

-- The switch of resolveVendor.
abbrev pub vendor_names : Dict String
vendor_names =
    ("8086", "Intel Corporation")
    ∷ ("1002", "Advanced Micro Devices")
    ∷ ("10de", "NVIDIA Corporation")
    ∷ ("1234", "QEMU Virtual GPU")
    ∷ ("1af4", "VirtIO GPU")
    ∷ ("15ad", "VMware SVGA")
    ∷ ("1414", "Microsoft Hyper-V GPU")
    ∷ []

abbrev or_code : Option String → String → String
or_code (some name) hex_code = name
or_code none hex_code = if not (hex_code == "") then "GPU " ++ hex_code else "Unknown"

-- resolveVendor
unfoldable pub resolve_vendor : String → String
unfolding lookup
resolve_vendor hex_code =
    or_code (lookup (to_lower (trim_prefix hex_code "0x")) vendor_names) hex_code

-- The end of resolveGPUName, behind the cards of Intel, AMD and NVIDIA.
unfoldable pub other_name : String → String → String
other_name vendor device_hex =
    if vendor == "QEMU Virtual GPU" || vendor == "VirtIO GPU"
    then vendor
    else if not (device_hex == "") && not (device_hex == "0x0000")
    then vendor ++ (" [" ++ (device_hex ++ "]"))
    else vendor

unfoldable pub nvidia_name : String → String → String → String
unfolding other_name
nvidia_name vendor device_hex driver =
    if contains vendor "NVIDIA" && driver == "nouveau"
    then "NVIDIA (nouveau)"
    else if contains vendor "NVIDIA" && not (driver == "")
    then "NVIDIA (" ++ (driver ++ ")")
    else other_name vendor device_hex

-- resolveGPUName
unfoldable pub resolve_gpu_name : String → String → String → String
unfolding nvidia_name
resolve_gpu_name vendor device_hex driver =
    if contains vendor "Intel" && driver == "i915"
    then "Intel Graphics (i915)"
    else if contains vendor "Intel" && driver == "xe"
    then "Intel Arc Graphics (xe)"
    else if contains vendor "AMD" && driver == "amdgpu"
    then "AMD Radeon (amdgpu)"
    else if contains vendor "AMD" && driver == "radeon"
    then "AMD Radeon (radeon)"
    else nvidia_name vendor device_hex driver

-- isPCIDisplayClass
unfoldable pub is_pci_display_class : String → Bool
is_pci_display_class class_hex =
    let s = trim_prefix (to_lower class_hex) "0x" in
    if ltb (len class_hex) 4 then false else if ltb (len s) 4 then false else has_prefix s "03"

abbrev is_digit : ℕ → Bool
is_digit c = leb b'0' c && leb c b'9'

-- isCardEntry
unfoldable pub is_card_entry : String → Bool
is_card_entry name =
    let suffix = trim_prefix name "card" in
    if not (has_prefix name "card") then false else not (suffix == "") && all_codes is_digit suffix
