-- ===== src/Examples/Neighbours.antt =====
-- The theorems on neighbours, on the host and on its security at concrete inputs.
use unyport.Common.{
  ℕ, ◌+◌, ◌≤◌, ◌≡◌, ◌≢◌, refl, ap, arith, sym, ◌∙◌, ◌||◌, ◌⊎◌, String, true, false, Option, none,
  some, List, [], ◌∷◌, ◌==◌, ltb, length, if◌then◌else◌,
}
use unyport.Common.Integers.{pos}
use unyport.Common.Dict.{lookup, insert, delete}
use unyport.Common.Text.{trim_space, to_lower, split, all_codes, first_code}
use unyport.Devices.Prefixes.{embedded_oui_groups, virtual_ouis}
use unyport.Devices.Oui.{
  build_oui_table, lookup_oui, oui_prefix, normalize_mac, is_local, first_byte,
}
use unyport.Devices.Oui.Laws.{agreed, claims_of, build_oui_table_lem, lookup_oui_sound}
use unyport.Devices.Names.{Catalogue, is_network_device_type}
use unyport.Devices.Identity.{
  Floats, Identity, Neighbour, compute_neighbor_identity, join, neighbor_identity_for,
  neighbor_cache_limit,
}
use unyport.Devices.Identity.Laws.{HasNames, compute_neighbor_identity_total}
use unyport.Devices.Identity.Cache.{Computed, IsPlain, AreAlike, neighbor_identity_for_sound}
use unyport.Host.{HostRole, Tools, compose_host_role, no_capabilities, detect_host_capabilities}
use unyport.Host.Laws.{compose_host_role-xen_control}
use unyport.Security.{SecurityCheck, tcp_listeners}
use unyport.Security.Laws.{DistinctPorts, tcp_listeners-DistinctPorts}

build_oui_table_lem_example :
    lookup "74:c2:46" (build_oui_table embedded_oui_groups)
    ≡ agreed (claims_of "74:c2:46" embedded_oui_groups)
build_oui_table_lem_example = build_oui_table_lem "74:c2:46" embedded_oui_groups

pi_vendor :
    (lookup_oui (build_oui_table embedded_oui_groups) "B8-27-EB-00-00-01").vendor
    ≡ "Raspberry Pi Foundation"
unfolding lookup_oui build_oui_table lookup normalize_mac trim_space to_lower split insert delete
    all_codes
pi_vendor = refl

named : (lookup_oui (build_oui_table embedded_oui_groups) "B8-27-EB-00-00-01").vendor ≢ ""
named e = omega (arith, ap first_code (sym pi_vendor ∙ e))

lookup_oui_sound_example :
    (oui_prefix "B8-27-EB-00-00-01" ≢ "")
    × (((vendor : String) × (lookup (oui_prefix "B8-27-EB-00-00-01") virtual_ouis ≡ some vendor)
          × (lookup_oui (build_oui_table embedded_oui_groups) "B8-27-EB-00-00-01"
              ≡ record { vendor = vendor; device_type = "server" }))
        ⊎ ((is_local (first_byte (oui_prefix "B8-27-EB-00-00-01")) ≡ false)
            × (agreed (claims_of (oui_prefix "B8-27-EB-00-00-01") embedded_oui_groups)
                ≡ some (lookup_oui (build_oui_table embedded_oui_groups) "B8-27-EB-00-00-01"))))
lookup_oui_sound_example = lookup_oui_sound embedded_oui_groups "B8-27-EB-00-00-01" named

-- Hundredths, capped at one.
abbrev cents : Floats ℕ
cents = record {
  hundredths = λ n. n;
  plus = λ a b. a + b;
  greater = λ a b. ltb b a;
  rounded = λ a. if ltb 100 a then 100 else a;
}

abbrev icons : Catalogue
icons = record {
  extended = λ t. t == "reverse_proxy" || t == "smart_tv";
  storage = λ t. t == "nas";
}

abbrev neighbour : Neighbour
neighbour = record {
  ip = "10.0.0.7";
  mac = "b8:27:eb:00:00:01";
  iface = "eth0";
  inventory = "";
  hostname = "router";
  services = [];
}

has_names : HasNames icons
unfolding is_network_device_type trim_space to_lower
has_names = (
  refl,
  (refl, (refl, (refl, (refl, (refl, (refl, (refl, (refl, (refl, (refl, (refl, tt))))))))))),
)

compute_neighbor_identity_total_example :
    (i : Identity ℕ) × (compute_neighbor_identity cents icons
        (λ s. none)
        (build_oui_table embedded_oui_groups)
        neighbour
      ≡ some i)
    × ((i.device_type ≡ "unknown") ⊎ (is_network_device_type icons i.device_type ≡ true))
compute_neighbor_identity_total_example =
    compute_neighbor_identity_total cents icons (λ s. none) (build_oui_table embedded_oui_groups)
      neighbour has_names

abbrev name_of : Neighbour → String
name_of n = n.hostname

nothing_cached : Computed name_of []
unfolding lookup
nothing_cached key a h = absurd (ground (arith, h))

neighbour-IsPlain : IsPlain neighbour
unfolding normalize_mac trim_space to_lower all_codes join
neighbour-IsPlain = record {
  ip = refl;
  mac = refl;
  iface = refl;
  inventory = refl;
  hostname = refl;
  services = refl;
}

neighbor_identity_for_sound_example :
    ((m : Neighbour) × AreAlike m neighbour
      × ((neighbor_identity_for name_of neighbour []).0 ≡ name_of m))
    × Computed name_of (neighbor_identity_for name_of neighbour []).1
    × (length (neighbor_identity_for name_of neighbour []).1 ≤ neighbor_cache_limit)
neighbor_identity_for_sound_example =
    neighbor_identity_for_sound name_of neighbour [] neighbour-IsPlain nothing_cached (omega arith)

abbrev first_domain : HostRole
first_domain = record {
  role = "Dom0";
  runtime = "xen";
  label = "Xen";
  verified = true;
  environment = "hypervisor";
  virtualization = "xen";
  virtualization_role = "dom0";
  container_runtime = "none";
  parent_runtime = "xen";
  capabilities = no_capabilities;
  layers = [];
}

abbrev no_tools : Tools
no_tools = record { docker = false; podman = false; qemu = false }

compose_host_role-xen_control_example :
    (◌≡◌ {A = Option HostRole} none none)
    × ((v : HostRole) × (some first_domain ≡ some v)
        × (v.virtualization ≡ "xen")
        × (v.virtualization_role ≡ "dom0"))
unfolding compose_host_role detect_host_capabilities
compose_host_role-xen_control_example =
    compose_host_role-xen_control no_tools none (some first_domain) refl

abbrev check : String → SecurityCheck
check status = record { key = "k"; label = "l"; category = "c"; status = status; detail = "d" }

abbrev lines : List String
lines = "0: 00000000:0016 00000000:0000 0A" ∷ "1: 0100007F:0016 00000000:0000 0A" ∷ []

tcp_listeners-DistinctPorts_example :
    DistinctPorts (tcp_listeners (λ p. some (pos 22)) "tcp4" lines [])
tcp_listeners-DistinctPorts_example = tcp_listeners-DistinctPorts (λ p. some (pos 22)) "tcp4" lines

abbrev checks : List SecurityCheck
checks = check "ok" ∷ check "warn" ∷ check "other" ∷ []
