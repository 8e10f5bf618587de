-- ===== src/Security/Laws.antt =====
-- The report counts every finding once and every port once.
use unyport.Common.{
  ℕ, ◌+◌, ◌≡◌, refl, inl, inr, String, Bool, true, false, Option, none, some, List, [], ◌∷◌, arith,
  any, length, Bool-cases, All, if◌then◌else◌,
}
use unyport.Common.Integers.{ℤ, same_int}
use unyport.Common.Text.Fields.{fields}
use unyport.Security.{
  SecurityCheck, SecuritySummary, SecurityService, SecurityListener, add_security_status,
  add_checks, add_services, summary_of, listening_port, seen_port, new_listener, unless_seen,
  tcp_listeners,
}

abbrev total : SecuritySummary → ℕ
total s = s.ok + s.warn + s.critical + s.unknown

unfoldable pub critical_count : List SecurityService → ℕ
critical_count [] = 0
critical_count (v ∷ vs) = let rest = critical_count vs in if v.critical then rest + 1 else rest

add_security_status-total :
    (s : SecuritySummary) (status : String) → total (add_security_status s status) ≡ total s + 1
unfolding add_security_status
add_security_status-total s status = ground arith

add_checks-total :
    (s : SecuritySummary) (cs : List SecurityCheck) → total (add_checks s cs) ≡ total s + length cs
unfolding add_checks
add_checks-total s [] = omega arith
add_checks-total s (c ∷ cs) = omega (
  arith,
  add_checks-total (add_security_status s c.status) cs,
  add_security_status-total s c.status,
)

add_services-total :
    (s : SecuritySummary) (vs : List SecurityService)
    → total (add_services s vs) ≡ total s + critical_count vs
unfolding add_services critical_count
add_services-total s [] = omega arith
add_services-total s (v ∷ vs) = elim (Bool-cases v.critical) [
  | inl critical ↦ rw critical (
      omega (
        arith,
        add_services-total (add_security_status s v.status) vs,
        add_security_status-total s v.status,
      ))
  | inr other ↦ rw other (add_services-total s vs)
]

-- The summary counts every check and every critical service exactly once.
pub summary_of-total :
    (checks : List SecurityCheck) (services : List SecurityService)
    → (summary_of checks services).ok
        + (summary_of checks services).warn
        + (summary_of checks services).critical
        + (summary_of checks services).unknown
      ≡ length checks + critical_count services
unfolding summary_of
summary_of-total checks services =
    omega (arith, add_services-total (add_checks _ checks) services, add_checks-total _ checks)

-- No two listeners have the same port.
abbrev pub DistinctPorts : List SecurityListener → Type 0
DistinctPorts [] = Unit
DistinctPorts (l ∷ ls) = (any (λ x. same_int x.port l.port) ls ≡ false) × DistinctPorts ls

abbrev NotSeen : List ℤ → SecurityListener → Type 0
NotSeen seen l = seen_port l.port seen ≡ false

apart :
    (port : ℤ) (seen : List ℤ) (ls : List SecurityListener)
    → All (NotSeen (port ∷ seen)) ls
    → (any (λ x. same_int x.port port) ls ≡ false) × All (NotSeen seen) ls
apart port seen [] h = (refl, tt)
apart port seen (l ∷ ls) (here, h) =
    let (fresh, others) = apart port seen ls h in
    (ground (arith, here, fresh), (ground (arith, here), others))

module _ (parse_hex : String → Option ℤ) (proto : String) where
  tcp_listeners-fresh :
      (lines : List String) (seen : List ℤ)
      → DistinctPorts (tcp_listeners parse_hex proto lines seen)
        × All (NotSeen seen) (tcp_listeners parse_hex proto lines seen)
  unfolding tcp_listeners
  tcp_listeners-fresh [] seen = (tt, tt)
  tcp_listeners-fresh (l ∷ ls) seen =
      by_port (λ s. tcp_listeners-fresh ls s) (listening_port parse_hex (fields l))
    where
      by_seen :
          ((s : List ℤ)
            → DistinctPorts (tcp_listeners parse_hex proto ls s)
              × All (NotSeen s) (tcp_listeners parse_hex proto ls s))
          → (port : ℤ) (b : Bool) → seen_port port seen ≡ b
          → DistinctPorts
              (unless_seen parse_hex proto seen port b (λ s. tcp_listeners parse_hex proto ls s))
            × All
                (NotSeen seen)
                (unless_seen parse_hex proto seen port b (λ s. tcp_listeners parse_hex proto ls s))
      by_seen ih port true e = ih seen
      by_seen ih port false e =
          let (distinct, unseen) = ih (port ∷ seen) in
          let (fresh, others) = apart port seen _ unseen in ((fresh, distinct), (e, others))

      by_port :
          ((s : List ℤ)
            → DistinctPorts (tcp_listeners parse_hex proto ls s)
              × All (NotSeen s) (tcp_listeners parse_hex proto ls s))
          → (o : Option ℤ)
          → DistinctPorts
              (new_listener parse_hex proto seen o (λ s. tcp_listeners parse_hex proto ls s))
            × All
                (NotSeen seen)
                (new_listener parse_hex proto seen o (λ s. tcp_listeners parse_hex proto ls s))
      by_port ih none = ih seen
      by_port ih (some port) = by_seen ih port (seen_port port seen) refl

  -- parseTCPListeners reports a port once, however many sockets listen on it.
  pub tcp_listeners-DistinctPorts :
      (lines : List String) → DistinctPorts (tcp_listeners parse_hex proto lines [])
  tcp_listeners-DistinctPorts lines = (tcp_listeners-fresh lines []).0
