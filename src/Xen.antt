-- ===== src/Xen.antt =====
-- unyport/backend/xenctl: the names and paths that the program passes to the tool `xl`.
pub mod Client
pub mod Handler
pub mod Commands
pub mod Guards
pub mod Options
pub mod Listing
use Prim.Native.String.{len}
use unyport.Common.{
  ℕ, suc, String, Bool, true, false, not, ◌&&◌, ◌||◌, Option, none, some, ◌==◌, ltb, leb, nat_eq,
  if◌then◌else◌,
}
use unyport.Common.Text.{to_lower, has_prefix, has_suffix, any_code, all_codes, first_code}

abbrev is_alphanumeric : ℕ → Bool
is_alphanumeric c =
    (leb b'A' c && leb c b'Z') || (leb b'a' c && leb c b'z') || (leb b'0' c && leb c b'9')

-- The class [A-Za-z0-9_.:-]
abbrev is_name_char : ℕ → Bool
is_name_char c =
    is_alphanumeric c || nat_eq c b'_' || nat_eq c b'.' || nat_eq c b':' || nat_eq c b'-'

-- A text that `^[A-Za-z0-9][A-Za-z0-9_.:-]{0,k}$` matches; the class is ASCII, so the bytes of
-- the text are its characters.
unfoldable pub matches_name : ℕ → String → Bool
matches_name k s = all_codes is_name_char s && is_alphanumeric (first_code s) && leb (len s) (suc k)

-- validateDomain: whether domainNameRE matches.
unfoldable pub valid_domain : String → Bool
unfolding matches_name
valid_domain domain = matches_name 127 domain

-- hostNameRE
unfoldable pub valid_host : String → Bool
unfolding matches_name
valid_host host = matches_name 253 host

-- isControlDomain; strings.EqualFold of a text that has passed validateDomain, so that ASCII
-- letters are the only ones to fold.
unfoldable pub is_control_domain : String → Bool
is_control_domain domain = domain == "0" || to_lower domain == "domain-0"

abbrev is_line_break : ℕ → Bool
is_line_break c = nat_eq c 0 || nat_eq c 13 || nat_eq c 10

-- validConfigPath
unfoldable pub valid_config_path : String → Bool
valid_config_path path =
    if path == "" || any_code is_line_break path
    then false
    else if not (has_prefix path "/etc/xen/") && not (has_prefix path "/media/")
    then false
    else has_suffix path ".cfg"
