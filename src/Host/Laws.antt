-- ===== src/Host/Laws.antt =====
-- What the role of the host grants, and which interface is the main one.
use unyport.Common.{
  ℕ, ◌≤◌, ◌≡◌, ◌≢◌, refl, inl, inr, String, Bool, true, false, ◌&&◌, ◌||◌, Option, none, some, [],
  ◌∷◌, ◌==◌, eq_iff, arith, ltb, Bool-cases, if◌then◌else◌, All,
}
use unyport.Common.Dict.{Dict}
use unyport.Host.{HostRole, Tools, compose_host_role, busiest}

-- The program offers control of Xen only if no container was found and the probe of the
-- virtualisation found the first domain of Xen.
pub compose_host_role-xen_control :
    (t : Tools) (container virtualization : Option HostRole)
    → (compose_host_role t container virtualization).capabilities.xen_control ≡ true
    → (container ≡ none)
      × ((v : HostRole) × (virtualization ≡ some v)
          × (v.virtualization ≡ "xen")
          × (v.virtualization_role ≡ "dom0"))
unfolding compose_host_role
compose_host_role-xen_control t (some c) v h = absurd (ground (arith, h))
compose_host_role-xen_control t none none h = absurd (ground (arith, h))
compose_host_role-xen_control t none (some v) h = (
  refl,
  (
    v,
    refl,
    ground (arith, h, eq_iff v.virtualization "xen"),
    ground (arith, h, eq_iff v.virtualization_role "dom0"),
  ),
)

module _ (allowed : String → Bool) where
  abbrev pub Named : String × ℕ → Type 0
  Named e = e.0 ≢ ""

  abbrev pub NotBusier : ℕ → String × ℕ → Type 0
  NotBusier most e = allowed e.0 ≡ true → e.1 ≤ most

  busiest_keeps :
      (best : String × ℕ) (ifaces : Dict ℕ)
      → All Named ifaces
      → best.0 ≢ ""
      → ((busiest allowed best ifaces).0 ≢ "") × (best.1 ≤ (busiest allowed best ifaces).1)
  unfolding busiest
  busiest_keeps best [] named h = (h, omega arith)
  busiest_keeps (selected, most) ((name, rx) ∷ rest) (here, named) h =
      elim (Bool-cases (allowed name && (selected == "" || ltb most rx))) [
        | inl better ↦
            let (filled, more) = busiest_keeps (name, rx) rest named here in
            rw better (filled, ground (arith, better, more, h, eq_iff selected ""))
        | inr worse ↦ rw worse (busiest_keeps (selected, most) rest named h)
      ]

  busiest_greatest :
      (best : String × ℕ) (ifaces : Dict ℕ)
      → All Named ifaces
      → All (NotBusier (busiest allowed best ifaces).1) ifaces
  unfolding busiest
  busiest_greatest best [] named = tt
  busiest_greatest (selected, most) ((name, rx) ∷ rest) (here, named) =
      let test = allowed name && (selected == "" || ltb most rx) in
      let next : String × ℕ = if test then (name, rx) else (selected, most) in
      (
        (λ a.
            let (filled, more) = at_next test refl a in
            let (_, grown) = busiest_keeps next rest named filled in omega (arith, more, grown)),
        busiest_greatest next rest named,
      )
    where
      at_next :
          (b : Bool)
          → (allowed name && (selected == "" || ltb most rx)) ≡ b
          → allowed name ≡ true
          → ((if◌then◌else◌ {A = String × ℕ} b (name, rx) (selected, most)).0 ≢ "")
            × (rx ≤ (if◌then◌else◌ {A = String × ℕ} b (name, rx) (selected, most)).1)
      at_next true e a = (here, omega arith)
      at_next false e a = (
        (λ empty. absurd (ground (arith, e, a, empty, eq_iff selected ""))),
        ground (arith, e, a),
      )
