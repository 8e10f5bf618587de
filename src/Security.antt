-- ===== src/Security.antt =====
-- unyport/backend/sse/security.go: the report on the state of the host. The files of the kernel,
-- the list of OpenRC services, the processes and the sort are parameters.
pub mod Laws
use Prim.Native.String.{◌++◌}
use unyport.Common.{
  ℕ, ◌+◌, ◌%◌, String, Bool, true, false, not, ◌&&◌, ◌||◌, Option, none, some, List, [], ◌∷◌, ◌==◌,
  nat_eq, ltb, any, length, if◌then◌else◌,
}
use mathlib.Core.List
use unyport.Common.Integers.{ℤ, pos, negsuc, at_most, same_int}
use unyport.Common.Text.{trim_space, split}
use unyport.Common.Text.Fields.{fields}
use unyport.Common.Dict.{Dict, lookup}

pub record SecurityCheck : Type 0 where
  pub key : String
  pub label : String
  pub category : String
  pub status : String
  pub detail : String

pub record SecuritySummary : Type 0 where
  pub ok : ℕ
  pub warn : ℕ
  pub critical : ℕ
  pub unknown : ℕ

pub record SecurityService : Type 0 where
  pub name : String
  pub state : String
  pub status : String
  pub critical : Bool
  pub runlevels : List String
  pub detail : String

pub record SecurityListener : Type 0 where
  pub proto : String
  pub port : ℤ
  pub status : String
  pub detail : String

-- addSecurityStatus
unfoldable pub add_security_status : SecuritySummary → String → SecuritySummary
add_security_status s status =
    if status == "ok"
    then record s { ok = s.ok + 1 }
    else if status == "warn"
    then record s { warn = s.warn + 1 }
    else if status == "critical"
    then record s { critical = s.critical + 1 }
    else record s { unknown = s.unknown + 1 }

unfoldable pub add_checks : SecuritySummary → List SecurityCheck → SecuritySummary
unfolding add_security_status
add_checks s [] = s
add_checks s (c ∷ cs) = add_checks (add_security_status s c.status) cs

unfoldable pub add_services : SecuritySummary → List SecurityService → SecuritySummary
unfolding add_security_status
add_services s [] = s
add_services s (v ∷ vs) = add_services (if v.critical then add_security_status s v.status else s) vs

-- sysctlCheck; `read` gives a file of the kernel, the empty text where it cannot be read
unfoldable pub sysctl_check :
    (String → String)
    → String
    → String
    → String
    → String
    → (String → String × String)
    → SecurityCheck
sysctl_check read key label category path eval =
    let v = trim_space (read path) in
    if v == ""
    then record {
      key = key;
      label = label;
      category = category;
      status = "unknown";
      detail = "Not exposed by this kernel";
    }
    else record {
      key = key;
      label = label;
      category = category;
      status = (eval v).0;
      detail = (eval v).1;
    }

-- The value of atoi: 0 where strconv.Atoi gives nothing.
abbrev or_zero : Option ℤ → ℤ
or_zero none = pos 0
or_zero (some i) = i

module _ (atoi : String → Option ℤ) where
  abbrev at_least_one : String → Bool
  at_least_one v = not (at_most (or_zero (atoi (trim_space v))) 0)

  -- The checks of the kernel's settings in CollectSecurityStatus.
  unfoldable pub kernel_checks : (String → String) → List SecurityCheck
  unfolding sysctl_check
  kernel_checks read =
      sysctl_check read "aslr" "ASLR" "kernel" "/proc/sys/kernel/randomize_va_space" (λ v.
        if v == "2"
        then ("ok", "Full address space randomization enabled")
        else if v == "1"
        then ("warn", "Partial address space randomization")
        else ("critical", "Address space randomization disabled"))
      ∷ sysctl_check read "kptr_restrict" "Kernel pointer restriction" "kernel"
          "/proc/sys/kernel/kptr_restrict"
          (λ v.
            if at_least_one v
            then ("ok", "Kernel pointers are restricted")
            else ("warn", "Kernel pointers may be exposed to userspace"))
      ∷ sysctl_check read "dmesg_restrict" "Dmesg restriction" "kernel"
          "/proc/sys/kernel/dmesg_restrict"
          (λ v.
            if v == "1"
            then ("ok", "Unprivileged dmesg access is restricted")
            else ("warn", "Unprivileged users may read kernel logs"))
      ∷ sysctl_check read "unpriv_bpf" "Unprivileged BPF" "kernel"
          "/proc/sys/kernel/unprivileged_bpf_disabled"
          (λ v.
            if at_least_one v
            then ("ok", "Unprivileged BPF is disabled")
            else ("warn", "Unprivileged BPF is enabled"))
      ∷ sysctl_check read "ipv4_forward" "IPv4 forwarding" "network" "/proc/sys/net/ipv4/ip_forward"
          (λ v.
            if v == "0"
            then ("ok", "IPv4 forwarding disabled")
            else ("warn", "IPv4 forwarding enabled"))
      ∷ sysctl_check read "ipv6_forward" "IPv6 forwarding" "network"
          "/proc/sys/net/ipv6/conf/all/forwarding"
          (λ v.
            if v == "0"
            then ("ok", "IPv6 forwarding disabled")
            else ("warn", "IPv6 forwarding enabled"))
      ∷ []

abbrev mode_check : String → String → String → (ℕ → String) → Option ℕ → SecurityCheck
mode_check key label category mode_text none = record {
  key = key;
  label = label;
  category = category;
  status = "unknown";
  detail = "File not found from current working directory";
}
mode_check key label category mode_text (some mode) =
    if not (nat_eq (mode % 64) 0)
    then record {
      key = key;
      label = label;
      category = category;
      status = "warn";
      detail = "File is readable or writable by group/other: " ++ mode_text mode;
    }
    else record {
      key = key;
      label = label;
      category = category;
      status = "ok";
      detail = "Restricted permissions: " ++ mode_text mode;
    }

-- fileModeCheck with the mask 0o077, the lowest six bits; `mode` is the permissions of the file
unfoldable pub file_mode_check : (ℕ → String) → String → String → String → Option ℕ → SecurityCheck
file_mode_check mode_text key label category mode = mode_check key label category mode_text mode

-- OpenRCService, as far as the report uses it
pub record OpenRcService : Type 0 where
  pub name : String
  pub state : String
  pub runlevels : List String

unfoldable pub crashed_count : List OpenRcService → ℕ
crashed_count [] = 0
crashed_count (v ∷ vs) =
    let rest = crashed_count vs in if v.state == "crashed" then rest + 1 else rest

-- failedServicesCheck
unfoldable pub failed_services_check : (ℕ → String) → List OpenRcService → SecurityCheck
unfolding crashed_count
failed_services_check itoa services =
    if ltb 0 (crashed_count services)
    then record {
      key = "openrc_failed";
      label = "OpenRC failed services";
      category = "services";
      status = "critical";
      detail = itoa (crashed_count services) ++ " failed service(s)";
    }
    else record {
      key = "openrc_failed";
      label = "OpenRC failed services";
      category = "services";
      status = "ok";
      detail = "No failed services reported by OpenRC";
    }

-- byName: the last service of a name stands
unfoldable pub by_name : String → Option OpenRcService → List OpenRcService → Option OpenRcService
by_name name found [] = found
by_name name found (v ∷ vs) = by_name name (if v.name == name then some v else found) vs

abbrev pub watched_service : String → Bool → Option OpenRcService → SecurityService
watched_service name critical none = record {
  name = name;
  state = "absent";
  status = if critical then "warn" else "unknown";
  critical = critical;
  runlevels = [];
  detail = "OpenRC service not installed";
}
watched_service name critical (some v) = record {
  name = name;
  state = v.state;
  status =
      if v.state == "crashed"
      then "critical"
      else if critical && not (v.state == "started")
      then "warn"
      else "ok";
  critical = critical;
  runlevels = v.runlevels;
  detail = "OpenRC state: " ++ v.state;
}

abbrev pub watched : Dict Bool
watched =
    ("sshd", true)
    ∷ ("dropbear", true)
    ∷ ("nftables", true)
    ∷ ("iptables", true)
    ∷ ("ip6tables", true)
    ∷ ("auditd", true)
    ∷ ("chronyd", false)
    ∷ ("syslog", false)
    ∷ ("rsyslog", false)
    ∷ ("crond", false)
    ∷ ("acpid", false)
    ∷ []

-- collectSecurityServices before the sort by name, which is a parameter of the report
unfoldable pub watched_services : List OpenRcService → Dict Bool → List SecurityService
unfolding by_name
watched_services services [] = []
watched_services services ((name, critical) ∷ rest) =
    watched_service name critical (by_name name none services) ∷ watched_services services rest

abbrev listener : String → ℤ → SecurityListener
listener proto port = record {
  proto = proto;
  port = port;
  status = if at_most port 1024 then "warn" else "ok";
  detail = if at_most port 1024 then "Privileged TCP port exposed" else "Listening TCP port";
}

abbrev pub seen_port : ℤ → List ℤ → Bool
seen_port port seen = any (λ p. same_int port p) seen

module _ (parse_hex : String → Option ℤ) where
  abbrev port_of_address : List String → Option ℤ
  port_of_address (a ∷ (p ∷ [])) = parse_hex p
  port_of_address _ = none

  -- The port of a line of /proc/net/tcp whose socket listens.
  abbrev pub listening_port : List String → Option ℤ
  listening_port (n ∷ (local ∷ (remote ∷ (state ∷ rest)))) =
      if state == "0A" then port_of_address (split b':' local) else none
  listening_port _ = none

  abbrev pub unless_seen :
      String → List ℤ → ℤ → Bool → (List ℤ → List SecurityListener) → List SecurityListener
  unless_seen proto seen port true rest = rest seen
  unless_seen proto seen port false rest = listener proto port ∷ rest (port ∷ seen)

  abbrev pub new_listener :
      String → List ℤ → Option ℤ → (List ℤ → List SecurityListener) → List SecurityListener
  new_listener proto seen none rest = rest seen
  new_listener proto seen (some port) rest = unless_seen proto seen port (seen_port port seen) rest

  -- parseTCPListeners on the lines behind the first
  unfoldable pub tcp_listeners : String → List String → List ℤ → List SecurityListener
  tcp_listeners proto [] seen = []
  tcp_listeners proto (l ∷ ls) seen =
      new_listener proto seen (listening_port (fields l)) (λ s. tcp_listeners proto ls s)

unfoldable pub privileged_count : List SecurityListener → ℕ
privileged_count [] = 0
privileged_count (l ∷ ls) =
    let rest = privileged_count ls in if at_most l.port 1024 then rest + 1 else rest

-- listenerExposureCheck
unfoldable pub listener_exposure_check : (ℕ → String) → List SecurityListener → SecurityCheck
unfolding privileged_count
listener_exposure_check itoa listeners =
    if ltb 0 (privileged_count listeners)
    then record {
      key = "listening_ports";
      label = "Listening TCP ports";
      category = "network";
      status = "warn";
      detail = itoa (privileged_count listeners) ++ " privileged TCP listener(s)";
    }
    else record {
      key = "listening_ports";
      label = "Listening TCP ports";
      category = "network";
      status = "ok";
      detail = itoa (length listeners) ++ " TCP listener(s), none privileged";
    }

abbrev no_summary : SecuritySummary
no_summary = record { ok = 0; warn = 0; critical = 0; unknown = 0 }

-- The summary of CollectSecurityStatus.
unfoldable pub summary_of : List SecurityCheck → List SecurityService → SecuritySummary
unfolding add_checks add_services
summary_of checks services = add_services (add_checks no_summary checks) services
