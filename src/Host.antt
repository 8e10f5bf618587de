-- ===== src/Host.antt =====
-- The role of the host and its main interface, from unyport/backend/sse/metrics.go. What the
-- probes of the system find is a parameter.
pub mod Laws
use Prim.Native.String.{◌++◌}
use unyport.Common.{
  ℕ, String, Bool, true, false, not, ◌&&◌, ◌||◌, Option, none, some, List, [], ◌∷◌, ◌==◌, ltb, any,
  if◌then◌else◌,
}
use unyport.Common.Text.{to_lower, contains}
use unyport.Common.Dict.{Dict, lookup}

pub record HostCapabilities : Type 0 where
  pub xen_control : Bool
  pub docker_control : Bool
  pub podman_control : Bool
  pub qemu_control : Bool

pub record HostLayer : Type 0 where
  pub kind : String
  pub runtime : String
  pub role : String
  pub label : String
  pub verified : Bool

pub record HostRole : Type 0 where
  pub role : String
  pub runtime : String
  pub label : String
  pub verified : Bool
  pub environment : String
  pub virtualization : String
  pub virtualization_role : String
  pub container_runtime : String
  pub parent_runtime : String
  pub capabilities : HostCapabilities
  pub layers : List HostLayer

abbrev pub no_capabilities : HostCapabilities
no_capabilities = record {
  xen_control = false;
  docker_control = false;
  podman_control = false;
  qemu_control = false;
}

-- alpineBaremetalRole
abbrev pub alpine_baremetal_role : HostRole
alpine_baremetal_role = record {
  role = "Alpine";
  runtime = "native";
  label = "Alpine Linux · Baremetal";
  verified = true;
  environment = "host";
  virtualization = "none";
  virtualization_role = "host";
  container_runtime = "none";
  parent_runtime = "native";
  capabilities = no_capabilities;
  layers = [];
}

-- hostLayer
abbrev pub host_layer : HostRole → HostLayer
host_layer r = record {
  kind = r.environment;
  runtime = r.runtime;
  role = r.role;
  label = r.label;
  verified = r.verified;
}

-- Which control tools the probes find.
pub record Tools : Type 0 where
  pub docker : Bool
  pub podman : Bool
  pub qemu : Bool

-- detectHostCapabilities
unfoldable pub detect_host_capabilities : Tools → HostRole → HostCapabilities
detect_host_capabilities t r =
    let outside = not (r.environment == "container") in
    record {
      xen_control = outside && r.virtualization == "xen" && r.virtualization_role == "dom0";
      docker_control = t.docker;
      podman_control = t.podman;
      qemu_control = outside && t.qemu;
    }

abbrev pub base_role : Option HostRole → HostRole
base_role none = record alpine_baremetal_role { layers = host_layer alpine_baremetal_role ∷ [] }
base_role (some v) = record v { layers = host_layer v ∷ [] }

abbrev on_label : HostRole → Option HostRole → String
on_label c none = c.label
on_label c (some v) = c.label ++ (" on " ++ v.label)

abbrev pub container_role : HostRole → Option HostRole → HostRole
container_role c v =
    let base = base_role v in
    record c {
      environment = "container";
      container_runtime = c.runtime;
      parent_runtime = if base.runtime == "" then "native" else base.runtime;
      virtualization = base.virtualization;
      virtualization_role = base.virtualization_role;
      layers = host_layer c ∷ host_layer base ∷ [];
      label = on_label c v;
    }

abbrev pub composed : Option HostRole → Option HostRole → HostRole
composed none v = base_role v
composed (some c) v = container_role c v

-- composeHostRole; none is a probe that found nothing
unfoldable pub compose_host_role : Tools → Option HostRole → Option HostRole → HostRole
unfolding detect_host_capabilities
compose_host_role t container virtualization =
    let role = composed container virtualization in
    record role { capabilities = detect_host_capabilities t role }

pub record DmiMatch : Type 0 where
  pub needle : String
  pub runtime : String
  pub label : String

abbrev dmi : String → String → String → DmiMatch
dmi n r l = record { needle = n; runtime = r; label = l }

abbrev pub dmi_matches : List DmiMatch
dmi_matches =
    dmi "qemu" "qemu-kvm" "QEMU/KVM VM"
    ∷ dmi "kvm" "qemu-kvm" "QEMU/KVM VM"
    ∷ dmi "bochs" "qemu-kvm" "QEMU/KVM VM"
    ∷ dmi "vmware" "vmware" "VMware VM"
    ∷ dmi "virtualbox" "virtualbox" "VirtualBox VM"
    ∷ dmi "microsoft corporation" "hyper-v" "Hyper-V VM"
    ∷ dmi "hyper-v" "hyper-v" "Hyper-V VM"
    ∷ []

unfoldable pub first_match : String → List DmiMatch → Option HostRole
first_match text [] = none
first_match text (m ∷ ms) =
    let rest = first_match text ms in
    if contains text m.needle
    then some record {
      role = "DomU";
      runtime = m.runtime;
      label = m.label;
      verified = true;
      environment = "vm";
      virtualization = m.runtime;
      virtualization_role = "guest";
      container_runtime = "none";
      parent_runtime = m.runtime;
      capabilities = no_capabilities;
      layers = [];
    }
    else rest

-- virtualMachineFromDMI
unfoldable pub virtual_machine_from_dmi : String → Option HostRole
unfolding first_match
virtual_machine_from_dmi text = first_match (to_lower text) dmi_matches

-- containerLabel
unfoldable pub container_label : String → String
container_label runtime =
    if runtime == "docker"
    then "Container · Docker"
    else if runtime == "podman"
    then "Container · Podman"
    else if runtime == "containerd"
    then "Container · containerd"
    else if runtime == "lxc"
    then "Container · LXC"
    else if runtime == "buildah"
    then "Container · Buildah"
    else if runtime == "systemd-nspawn"
    then "Container · systemd-nspawn"
    else if runtime == "" || runtime == "container"
    then "Container"
    else "Container · " ++ runtime

abbrev pub has_ip : Dict String → String → Bool
has_ip ips name = given (lookup name ips)
  where
    given : Option String → Bool
    given none = false
    given (some ip) = not (ip == "")

-- The choice so far, and the bytes that it received. `range` over the map visits its entries in
-- an order that Go leaves open.
unfoldable pub busiest : (String → Bool) → String × ℕ → Dict ℕ → String × ℕ
busiest allowed best [] = best
busiest allowed (selected, best_rx) ((name, rx) ∷ rest) =
    busiest allowed
      (if allowed name && (selected == "" || ltb best_rx rx)
        then (name, rx)
        else (selected, best_rx))
      rest

-- selectMainIface
unfoldable pub select_main_iface : Dict ℕ → Dict String → String
unfolding busiest
select_main_iface rx_by_iface ip_by_iface =
    let with_ip = busiest (has_ip ip_by_iface) ("", 0) rx_by_iface in
    if not (with_ip.0 == "") then with_ip.0 else (busiest (λ name. true) with_ip rx_by_iface).0
