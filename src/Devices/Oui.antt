-- ===== src/Devices/Oui.antt =====
-- The vendor of a hardware address, from unyport/backend/sse/device_identity.go and, for
-- normalizeMAC, metrics.go of the same directory.
pub mod Laws
use Prim.Native.String
use Prim.Native.String.{String, len, char_at, ◌++◌}
use Prim.Native.Char.{code}
use unyport.Common.{
  ℕ, ◌+◌, ◌-◌, ◌*◌, ◌/◌, ◌%◌, Char, Bool, true, false, not, ◌&&◌, ◌||◌, Option, none, some, List,
  [], ◌∷◌, ◌==◌, leb, nat_eq, length, any, if◌then◌else◌,
}
use mathlib.Core.List
use unyport.Common.Text.{trim_space, to_lower, split, all_codes}
use unyport.Common.Dict.{Dict, lookup, insert, delete}
use unyport.Devices.Prefixes.{OuiGroup, virtual_ouis, embedded_oui_groups}

pub record NeighborOui : Type 0 where
  pub vendor : String
  pub device_type : String

abbrev pub no_oui : NeighborOui
no_oui = record { vendor = ""; device_type = "" }

-- strings.ReplaceAll(s, "-", ":")
unfoldable colons_for_dashes : String → String
colons_for_dashes String.[] = String.[]
colons_for_dashes (String.◌∷◌ c s) =
    String.◌∷◌ (if nat_eq (code c) b'-' then char_at ":" 0 else c) (colons_for_dashes s)

-- normalizeMAC
unfoldable pub normalize_mac : String → String
unfolding colons_for_dashes
normalize_mac mac = to_lower (colons_for_dashes (trim_space mac))

abbrev is_lower_hex : ℕ → Bool
is_lower_hex c = (leb b'0' c && leb c b'9') || (leb b'a' c && leb c b'f')

abbrev is_group : String → Bool
is_group g = nat_eq (len g) 2 && all_codes is_lower_hex g

abbrev first_three : List String → String
first_three (a ∷ (b ∷ (c ∷ (d ∷ (e ∷ (f ∷ [])))))) =
    if is_group a && is_group b && is_group c && is_group d && is_group e && is_group f
    then a ++ (":" ++ (b ++ (":" ++ c)))
    else ""
first_three _ = ""

-- ouiPrefix
unfoldable pub oui_prefix : String → String
unfolding normalize_mac
oui_prefix mac = first_three (split b':' (normalize_mac mac))

-- The table and the prefixes that two vendors claim, while buildOUITable runs.
pub record Building : Type 0 where
  pub table : Dict NeighborOui
  pub conflicts : List String

abbrev pub known_prefix : OuiGroup → String → Building → Option NeighborOui → Building
known_prefix g p b none = record b {
  table = insert p (record { vendor = g.vendor; device_type = g.device_type }) b.table;
}
known_prefix g p b (some existing) =
    if existing.vendor == g.vendor then b else record b { conflicts = p ∷ b.conflicts }

unfoldable pub add_prefix : OuiGroup → String → Building → Building
add_prefix g prefix b = let p = to_lower prefix in known_prefix g p b (lookup p b.table)

unfoldable pub add_prefixes : OuiGroup → List String → Building → Building
unfolding add_prefix
add_prefixes g [] b = b
add_prefixes g (p ∷ ps) b = add_prefixes g ps (add_prefix g p b)

unfoldable pub add_groups : List OuiGroup → Building → Building
unfolding add_prefixes
add_groups [] b = b
add_groups (g ∷ gs) b = add_groups gs (add_prefixes g g.prefixes b)

unfoldable pub delete_all : List String → Dict NeighborOui → Dict NeighborOui
delete_all [] t = t
delete_all (p ∷ ps) t = delete_all ps (delete p t)

abbrev pub nothing_built : Building
nothing_built = record { table = []; conflicts = [] }

-- buildOUITable
unfoldable pub build_oui_table : List OuiGroup → Dict NeighborOui
unfolding add_groups delete_all
build_oui_table gs = let b = add_groups gs nothing_built in delete_all b.conflicts b.table

-- hexByte
unfoldable pub hex_byte : ℕ → ℕ
hex_byte r =
    if leb b'0' r && leb r b'9'
    then r - b'0'
    else if leb b'a' r && leb r b'f'
    then r - b'a' + 10
    else 0

-- The first byte of a prefix.
abbrev pub first_byte : String → ℕ
first_byte (String.◌∷◌ a (String.◌∷◌ b s)) = (hex_byte (code a) * 16 + hex_byte (code b)) % 256
first_byte _ = 0

-- One of the two lowest bits is set: a multicast or a local address.
abbrev pub is_local : ℕ → Bool
is_local byte = not (nat_eq (byte % 2) 0) || not (nat_eq (byte / 2 % 2) 0)

abbrev pub or_no_oui : Option NeighborOui → NeighborOui
or_no_oui none = no_oui
or_no_oui (some o) = o

abbrev pub by_vendor : Dict NeighborOui → String → Option String → NeighborOui
by_vendor table prefix (some vendor) = record { vendor = vendor; device_type = "server" }
by_vendor table prefix none =
    if is_local (first_byte prefix) then no_oui else or_no_oui (lookup prefix table)

-- lookupOUI, over the table that buildOUITable gives
unfoldable pub lookup_oui : Dict NeighborOui → String → NeighborOui
unfolding oui_prefix hex_byte
lookup_oui table mac =
    let prefix = oui_prefix mac in
    if prefix == "" then no_oui else by_vendor table prefix (lookup prefix virtual_ouis)
