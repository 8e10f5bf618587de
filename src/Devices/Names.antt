-- ===== src/Devices/Names.antt =====
-- The hints about a neighbour in the code of unyport/backend/sse: its name, its services, its
-- interface and the inventory (device_identity.go, metrics.go). The two generated catalogues of
-- icons are parameters.
use Prim.Native.String.{String, len, char_at}
use Prim.Native.Char.{code}
use unyport.Common.{
  ℕ, Bool, false, not, ◌&&◌, ◌||◌, Option, none, some, List, [], ◌∷◌, ◌==◌, leb, nat_eq, any,
  if◌then◌else◌,
}
use unyport.Common.Text.{trim_space, to_lower, cut, has_prefix, contains}
use unyport.Common.Text.Fields.{fields_func, trim_codes}
use unyport.Common.Dict.{Dict, lookup, listed}

-- validExtendedDeviceTypes and validStorageDeviceTypes
pub record Catalogue : Type 0 where
  pub extended : String → Bool
  pub storage : String → Bool

abbrev pub valid_device_types : List String
valid_device_types =
    "desktop" ∷ "laptop" ∷ "server" ∷ "nas" ∷ "storage" ∷ "printer" ∷ "phone" ∷ "tablet" ∷ "router"
    ∷ "switch" ∷ "accesspoint" ∷ "camera" ∷ "tv" ∷ "iot" ∷ "unknown" ∷ []

-- isNetworkDeviceType
unfoldable pub is_network_device_type : Catalogue → String → Bool
is_network_device_type c device_type =
    let t = to_lower (trim_space device_type) in
    not (t == "" || t == "unknown" || t == "storage")
    && (listed t valid_device_types
        || (c.extended t && (not (c.storage t) || t == "nas" || t == "san")))

-- serviceDeviceHints
abbrev service_device_hints : Dict String
service_device_hints =
    ("ipp", "printer")
    ∷ ("ipps", "printer")
    ∷ ("printer", "printer")
    ∷ ("jetdirect", "printer")
    ∷ ("9100", "printer")
    ∷ ("rtsp", "camera")
    ∷ ("onvif", "camera")
    ∷ ("554", "camera")
    ∷ ("smb", "nas")
    ∷ ("afp", "nas")
    ∷ ("nfs", "nas")
    ∷ ("445", "nas")
    ∷ ("airplay", "smart_speaker")
    ∷ ("raop", "smart_speaker")
    ∷ ("sonos", "smart_speaker")
    ∷ ("hue", "smart_bulb")
    ∷ ("zigbee", "smart_bulb")
    ∷ ("mqtt", "iot")
    ∷ ("coap", "iot")
    ∷ ("ssh", "server")
    ∷ ("rdp", "desktop")
    ∷ ("googlecast", "streaming_player")
    ∷ ("chromecast", "streaming_player")
    ∷ []

abbrev or_empty : Option String → String
or_empty none = ""
or_empty (some s) = s

-- serviceDeviceType
unfoldable pub service_device_type : String → String
service_device_type service = or_empty (lookup (to_lower (trim_space service)) service_device_hints)

-- isVirtualInterface
unfoldable pub is_virtual_interface : String → Bool
is_virtual_interface iface =
    let i = to_lower (trim_space iface) in
    has_prefix i "vif" || has_prefix i "tap" || has_prefix i "vnet"

abbrev pub is_entry_end : ℕ → Bool
is_entry_end r = nat_eq r b',' || nat_eq r b';' || nat_eq r b' ' || nat_eq r b'\n' || nat_eq r b'\t'

module _ (c : Catalogue) (ip : String) where
  abbrev pub entry_type : Option (String × String) → String → String
  entry_type none rest = rest
  entry_type (some (address, name)) rest =
      let t = to_lower (trim_space name) in
      if trim_space address == ip && is_network_device_type c t then t else rest

  unfoldable pub first_override : List String → String
  first_override [] = ""
  first_override (e ∷ es) = entry_type (cut b'=' e) (first_override es)

  -- overrideDeviceTypeFor
  unfoldable pub override_device_type_for : String → String
  unfolding first_override
  override_device_type_for inventory = first_override (fields_func is_entry_end inventory)

abbrev is_dot : ℕ → Bool
is_dot c = nat_eq c b'.'

-- strings.NewReplacer("_", "-", " ", "-")
unfoldable pub dashed : String → String
dashed String.[] = String.[]
dashed (String.◌∷◌ c s) =
    String.◌∷◌ (if nat_eq (code c) b'_' || nat_eq (code c) b' ' then char_at "-" 0 else c)
      (dashed s)

abbrev is_part_end : ℕ → Bool
is_part_end r = nat_eq r b'-' || nat_eq r b'.' || nat_eq r b':' || nat_eq r b'/'

-- hostnameContainsToken
unfoldable pub hostname_contains_token : String → String → Bool
hostname_contains_token name token =
    if token == "cam-"
    then has_prefix name token
    else listed token (fields_func is_part_end name) || (contains name token && leb 5 (len token))

abbrev pub hostname_patterns : Dict (List String)
hostname_patterns =
    ("reverse_proxy", "reverse-proxy" ∷ "reverseproxy" ∷ [])
    ∷ ("smart_tv", "hisense" ∷ "bravia" ∷ "webos" ∷ "smarttv" ∷ [])
    ∷ ("tv", "tv" ∷ "television" ∷ [])
    ∷ ("phone", "phone" ∷ "iphone" ∷ "android" ∷ "xiaomi" ∷ "pixel" ∷ "galaxy" ∷ "mobile" ∷ [])
    ∷ ("printer", "printer" ∷ "brother" ∷ "laserjet" ∷ "deskjet" ∷ "officejet" ∷ [])
    ∷ ("nas", "nas" ∷ "synology" ∷ "qnap" ∷ [])
    ∷ ("accesspoint", "access-point" ∷ "accesspoint" ∷ "unifi" ∷ "airport" ∷ [])
    ∷ ("router", "router" ∷ "gateway" ∷ "firewall" ∷ [])
    ∷ ("camera", "camera" ∷ "webcam" ∷ "doorbell" ∷ "cam-" ∷ [])
    ∷ ("laptop", "laptop" ∷ "notebook" ∷ "macbook" ∷ [])
    ∷ ("desktop", "workstation" ∷ "desktop" ∷ "windows-pc" ∷ "computer" ∷ "trinity-install" ∷ [])
    ∷ ("server", "server" ∷ "hypervisor" ∷ "proxmox" ∷ "truenas" ∷ [])
    ∷ []

unfoldable pub first_pattern : String → Dict (List String) → String
first_pattern name [] = "unknown"
first_pattern name ((device_type, words) ∷ rest) =
    let later = first_pattern name rest in
    if any (λ w. hostname_contains_token name w) words then device_type else later

abbrev pub plain_name : String → String
plain_name hostname = dashed (to_lower (trim_codes is_dot (trim_space hostname)))

-- deviceTypeForHostname
unfoldable pub device_type_for_hostname : String → String
unfolding first_pattern
device_type_for_hostname hostname = first_pattern (plain_name hostname) hostname_patterns

-- What package net finds in an address.
pub record Address : Type 0 where
  pub is_v4 : Bool
  pub is_global_unicast : Bool
  pub is_private : Bool
  pub first_byte : ℕ
  pub second_byte : ℕ

abbrev is_public : Option Address → Bool
is_public none = false
is_public (some a) =
    a.is_v4
    && a.is_global_unicast
    && not a.is_private
    && not (nat_eq a.first_byte 100 && leb 64 a.second_byte && leb a.second_byte 127)

-- isPublicNeighborIP
unfoldable pub is_public_neighbor_ip : (String → Option Address) → String → Bool
is_public_neighbor_ip parse_ip value = is_public (parse_ip (trim_space value))
