-- ===== src/Devices/Identity.antt =====
-- computeNeighborIdentity and its cache, from unyport/backend/sse/device_identity.go. Floating
-- point is a parameter; the mutex of the cache is not modelled.
pub mod Laws
pub mod Cache
use Prim.Native.String
use Prim.Native.String.{String}
use unyport.Common.{
  ℕ, Bool, true, false, not, ◌&&◌, ◌||◌, Option, none, some, List, [], ◌∷◌, ◌++◌, ◌==◌, any, length,
  leb, is_some, if◌then◌else◌,
}
use unyport.Common.Text.{trim_space, to_lower}
use unyport.Common.Dict.{Dict, lookup, insert, listed}
use unyport.Devices.Prefixes.{virtual_ouis}
use unyport.Devices.Oui.{NeighborOui, normalize_mac, oui_prefix, lookup_oui}
use unyport.Devices.Names.{
  Catalogue, is_network_device_type, service_device_type, is_virtual_interface,
  override_device_type_for, device_type_for_hostname, Address, is_public_neighbor_ip,
}

-- The numbers of type float64: constants in hundredths, sums, comparison, and
-- math.Round(math.Min(1, x)*100)/100.
pub record Floats (F : Type 0) : Type 0 where
  pub hundredths : ℕ → F
  pub plus : F → F → F
  pub greater : F → F → Bool
  pub rounded : F → F

pub record Signal (F : Type 0) : Type 0 where
  pub source : String
  pub device_type : String
  pub weight : F

pub record Identity (F : Type 0) : Type 0 where
  pub device_type : String
  pub vendor : String
  pub confidence : F
  pub sources : List String
  pub detection : String

-- The arguments of neighborIdentityFor.
pub record Neighbour : Type 0 where
  pub ip : String
  pub mac : String
  pub iface : String
  pub inventory : String
  pub hostname : String
  pub services : List String

module _ {F : Type 0} (fl : Floats F) where
  -- scores[t] after the signals, over what it was before them
  unfoldable pub score : F → String → List (Signal F) → F
  score sum t [] = sum
  score sum t (s ∷ ss) = score (if s.device_type == t then fl.plus sum s.weight else sum) t ss

  abbrev pub total : String → List (Signal F) → F
  total t ss = score (fl.hundredths 0) t ss

  -- The winner over the candidates of the list: a later one wins only if its score is greater.
  unfoldable pub best : List (Signal F) → String → List String → String
  best all winner [] = winner
  best all winner (t ∷ ts) =
      best all (if fl.greater (total t all) (total winner all) then t else winner) ts

module _ {F : Type 0} where
  -- The types of the signals, each once, behind those already seen.
  unfoldable pub order : List String → List (Signal F) → List String
  order seen [] = seen
  order seen (s ∷ ss) =
      order (if listed s.device_type seen then seen else seen ++ (s.device_type ∷ [])) ss

  -- The sources of the signals of a type, each once, behind those already found.
  unfoldable pub add_sources : String → List String → List (Signal F) → List String
  add_sources t found [] = found
  add_sources t found (s ∷ ss) =
      add_sources t
        (if s.device_type == t && not (any (λ x. to_lower x == to_lower s.source) found)
          then found ++ (s.source ∷ [])
          else found)
        ss

module _ {F : Type 0} (fl : Floats F) (c : Catalogue) (parse_ip : String → Option Address)
    (table : Dict NeighborOui) (n : Neighbour) where
  -- The function `add` of computeNeighborIdentity.
  unfoldable pub add_signal : String → String → ℕ → List (Signal F)
  add_signal source t weight =
      if is_network_device_type c t
      then record { source = source; device_type = t; weight = fl.hundredths weight } ∷ []
      else []

  unfoldable pub service_signals : List String → List (Signal F)
  unfolding add_signal
  service_signals [] = []
  service_signals (s ∷ ss) = add_signal "service" (service_device_type s) 35 ++ service_signals ss

  -- The signals, in their order.
  unfoldable pub signals : List (Signal F)
  unfolding add_signal service_signals
  signals =
      add_signal "dhcp" (device_type_for_hostname n.hostname) 65
      ++ ((if is_public_neighbor_ip parse_ip n.ip
            then add_signal "public-ip" "router_wan" 50
            else [])
          ++ ((if is_some (lookup (oui_prefix n.mac) virtual_ouis)
                then add_signal "mac" "server" 60
                else [])
              ++ (add_signal "oui" (lookup_oui table n.mac).device_type 55
                  ++ (service_signals n.services
                      ++ (if is_virtual_interface n.iface
                          then add_signal "interface" "server" 20
                          else [])))))

  -- A name with a role is preferred to the hints of a server.
  abbrev pub prefer_name : String → String → String
  prefer_name name winner =
      if not (name == "unknown") && not (name == "server") && winner == "server"
      then name
      else winner

  -- sources[0] fails on an empty list.
  abbrev pub found_identity : String → F → List String → Option (Identity F)
  found_identity winner confidence [] = none
  found_identity winner confidence (s ∷ ss) = some record {
    device_type = winner;
    vendor = (lookup_oui table n.mac).vendor;
    confidence = confidence;
    sources = s ∷ ss;
    detection = s;
  }

  abbrev pub identified : List (Signal F) → String → Option (Identity F)
  identified all winner =
      found_identity winner (fl.rounded (total fl winner all)) (add_sources winner [] all)

  -- best over order[1:] with order[0] as the first winner
  abbrev pub winner_of : List (Signal F) → List String → String
  winner_of all [] = ""
  winner_of all (t ∷ ts) = best fl all t ts

  abbrev pub by_signals : List (Signal F) → Option (Identity F)
  by_signals [] = some record {
    device_type = "unknown";
    vendor = (lookup_oui table n.mac).vendor;
    confidence = fl.hundredths 0;
    sources = "arp" ∷ [];
    detection = "arp";
  }
  by_signals (s ∷ ss) =
      identified (s ∷ ss)
        (prefer_name (device_type_for_hostname n.hostname) (winner_of (s ∷ ss) (order [] (s ∷ ss))))

  -- computeNeighborIdentity; none is an index out of range
  unfoldable pub compute_neighbor_identity : Option (Identity F)
  compute_neighbor_identity =
      let manual = override_device_type_for c n.ip n.inventory in
      if not (manual == "")
      then some record {
        device_type = manual;
        vendor = (lookup_oui table n.mac).vendor;
        confidence = fl.hundredths 100;
        sources = "manual" ∷ [];
        detection = "manual";
      }
      else by_signals signals

-- strings.Join
unfoldable pub join : String → List String → String
join sep [] = ""
join sep (x ∷ []) = x
join sep (x ∷ (y ∷ ys)) = String.◌++◌ x (String.◌++◌ sep (join sep (y ∷ ys)))

-- The parts of the key.
unfoldable pub key_parts : Neighbour → List String
unfolding join
key_parts n =
    trim_space n.ip
    ∷ normalize_mac n.mac
    ∷ trim_space n.iface
    ∷ n.inventory
    ∷ to_lower (trim_space n.hostname)
    ∷ to_lower (join "," n.services)
    ∷ []

-- The key under which an identity is kept.
unfoldable pub identity_key : Neighbour → String
unfolding join key_parts
identity_key n = join "\u{1f}" (key_parts n)

abbrev pub neighbor_cache_limit : ℕ
neighbor_cache_limit = 4096

module _ {A : Type 0} (compute : Neighbour → A) where
  abbrev pub keep : String → A → Dict A → Dict A
  keep key identity entries =
      insert key identity (if leb neighbor_cache_limit (length entries) then [] else entries)

  abbrev pub cached : Neighbour → Dict A → Option A → A × Dict A
  cached n entries (some identity) = (identity, entries)
  cached n entries none = (compute n, keep (identity_key n) (compute n) entries)

  -- neighborIdentityFor
  unfoldable pub neighbor_identity_for : Neighbour → Dict A → A × Dict A
  unfolding identity_key
  neighbor_identity_for n entries = cached n entries (lookup (identity_key n) entries)
