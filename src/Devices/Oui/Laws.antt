-- ===== src/Devices/Oui/Laws.antt =====
-- What the table of prefixes holds, and which vendor an address gets.
use unyport.Common.{
  ◌≡◌, ◌≢◌, refl, ap, sym, ◌∙◌, inl, inr, ◌⊎◌, String, Bool, true, false, not, ◌||◌, Option, none,
  some, List, [], ◌∷◌, ◌++◌, ◌==◌, eq_iff, arith, any, Bool-cases, Option-cases, if◌then◌else◌,
}
use unyport.Common.Text.{to_lower}
use unyport.Common.Dict.{Dict, lookup, delete, lookup-insert, lookup-delete}
use unyport.Devices.Prefixes.{OuiGroup, virtual_ouis}
use unyport.Devices.Oui.{
  NeighborOui, oui_prefix, Building, known_prefix, add_prefix, add_prefixes, add_groups, delete_all,
  nothing_built, build_oui_table, first_byte, is_local, by_vendor, lookup_oui,
}

abbrev oui_of : OuiGroup → NeighborOui
oui_of g = record { vendor = g.vendor; device_type = g.device_type }

-- What the groups claim about a prefix, in their order.
unfoldable pub claims_in : String → OuiGroup → List String → List NeighborOui
claims_in p g [] = []
claims_in p g (x ∷ xs) =
    let rest = claims_in p g xs in if to_lower x == p then oui_of g ∷ rest else rest

unfoldable pub claims_of : String → List OuiGroup → List NeighborOui
unfolding claims_in
claims_of p [] = []
claims_of p (g ∷ gs) = claims_in p g g.prefixes ++ claims_of p gs

-- The first claim, if all the others name its vendor.
unfoldable pub agreed : List NeighborOui → Option NeighborOui
agreed [] = none
agreed (o ∷ os) = if any (λ x. not (o.vendor == x.vendor)) os then none else some o

settle : Option NeighborOui → Bool → List NeighborOui → Option NeighborOui
settle first clash [] = if clash then none else first
settle none clash (o ∷ os) = settle (some o) clash os
settle (some e) clash (o ∷ os) = settle (some e) (clash || not (e.vendor == o.vendor)) os

settle-some :
    (e : NeighborOui) (clash : Bool) (os : List NeighborOui)
    → settle (some e) clash os
      ≡ (if clash || any (λ x. not (e.vendor == x.vendor)) os then none else some e)
unfolding settle
settle-some e clash [] = ground arith
settle-some e clash (o ∷ os) =
    ground (arith, settle-some e (clash || not (e.vendor == o.vendor)) os)

settle-agreed : (os : List NeighborOui) → settle none false os ≡ agreed os
unfolding settle agreed
settle-agreed [] = refl
settle-agreed (o ∷ os) = settle-some o false os

abbrev clashes : String → Building → Bool
clashes p b = any (λ x. x == p) b.conflicts

add_prefix-settle :
    (p : String) (g : OuiGroup) (x : String) (b : Building) (rest : List NeighborOui)
    → settle (lookup p (add_prefix g x b).table) (clashes p (add_prefix g x b)) rest
      ≡ settle (lookup p b.table) (clashes p b) (if to_lower x == p then oui_of g ∷ rest else rest)
unfolding add_prefix settle
add_prefix-settle p g x b rest = by_known (lookup (to_lower x) b.table) refl
  where
    by_known :
        (o : Option NeighborOui)
        → lookup (to_lower x) b.table ≡ o
        → settle
            (lookup p (known_prefix g (to_lower x) b o).table)
            (clashes p (known_prefix g (to_lower x) b o))
            rest
          ≡ settle
              (lookup p b.table)
              (clashes p b)
              (if to_lower x == p then oui_of g ∷ rest else rest)
    by_known none known = elim (Bool-cases (to_lower x == p)) [
      | inl same ↦
          let here : lookup p b.table ≡ none = rw ((eq_iff (to_lower x) p).0 same) at known in
          rw (lookup-insert (to_lower x) p (oui_of g) b.table, same, here) refl
      | inr other ↦ rw (lookup-insert (to_lower x) p (oui_of g) b.table, other) refl
    ]
    by_known (some e) known = elim (Bool-cases (to_lower x == p)) [
      | inl same ↦
          let here : lookup p b.table ≡ some e = rw ((eq_iff (to_lower x) p).0 same) at known in
          elim (Bool-cases (e.vendor == g.vendor)) [
            | inl agree ↦
                rw (agree, same, here) (ap (λ c. settle (some e) c rest) (ground (arith, agree)))
            | inr clash ↦
                rw (clash, same, here) (ap (λ c. settle (some e) c rest) (ground (arith, clash)))
          ]
      | inr other ↦ elim (Bool-cases (e.vendor == g.vendor)) [
        | inl agree ↦ rw (agree, other) refl
        | inr clash ↦ rw (clash, other) refl
      ]
    ]

add_prefixes-settle :
    (p : String) (g : OuiGroup) (xs : List String) (b : Building) (rest : List NeighborOui)
    → settle (lookup p (add_prefixes g xs b).table) (clashes p (add_prefixes g xs b)) rest
      ≡ settle (lookup p b.table) (clashes p b) (claims_in p g xs ++ rest)
unfolding add_prefixes claims_in
add_prefixes-settle p g [] b rest = refl
add_prefixes-settle p g (x ∷ xs) b rest =
    add_prefixes-settle p g xs (add_prefix g x b) rest
    ∙ add_prefix-settle p g x b (claims_in p g xs ++ rest)
    ∙ by_test (to_lower x == p)
  where
    by_test :
        (t : Bool)
        → settle
            (lookup p b.table)
            (clashes p b)
            (if t then oui_of g ∷ (claims_in p g xs ++ rest) else claims_in p g xs ++ rest)
          ≡ settle
              (lookup p b.table)
              (clashes p b)
              ((if t then oui_of g ∷ claims_in p g xs else claims_in p g xs) ++ rest)
    by_test true = refl
    by_test false = refl

add_groups-settle :
    (p : String) (gs : List OuiGroup) (b : Building)
    → settle (lookup p (add_groups gs b).table) (clashes p (add_groups gs b)) []
      ≡ settle (lookup p b.table) (clashes p b) (claims_of p gs)
unfolding add_groups claims_of
add_groups-settle p [] b = refl
add_groups-settle p (g ∷ gs) b =
    add_groups-settle p gs (add_prefixes g g.prefixes b)
    ∙ add_prefixes-settle p g g.prefixes b (claims_of p gs)

lookup-delete_all :
    (p : String) (cs : List String) (t : Dict NeighborOui)
    → lookup p (delete_all cs t) ≡ (if any (λ x. x == p) cs then none else lookup p t)
unfolding delete_all
lookup-delete_all p [] t = refl
lookup-delete_all p (c ∷ cs) t =
    ground (arith, lookup-delete_all p cs (delete c t), lookup-delete c p t)

-- The table gives a prefix the first claim of the groups on it if no other claim on it names
-- another vendor, and nothing if one does or there is none.
pub build_oui_table_lem :
    (p : String) (gs : List OuiGroup) → lookup p (build_oui_table gs) ≡ agreed (claims_of p gs)
unfolding build_oui_table lookup settle
build_oui_table_lem p gs =
    let b = add_groups gs nothing_built in
    lookup-delete_all p b.conflicts b.table
    ∙ add_groups-settle p gs nothing_built
    ∙ settle-agreed (claims_of p gs)

-- An address gets a vendor only if it is well-formed, and then either its prefix is that of a
-- hypervisor and the device is a server of it, or the address is neither local nor multicast and
-- the claims of the groups on its prefix agree on what it gets.
pub lookup_oui_sound :
    (gs : List OuiGroup) (mac : String)
    → (lookup_oui (build_oui_table gs) mac).vendor ≢ ""
    → (oui_prefix mac ≢ "")
      × (((vendor : String) × (lookup (oui_prefix mac) virtual_ouis ≡ some vendor)
            × (lookup_oui (build_oui_table gs) mac
                ≡ record { vendor = vendor; device_type = "server" }))
          ⊎ ((is_local (first_byte (oui_prefix mac)) ≡ false)
              × (agreed (claims_of (oui_prefix mac) gs)
                  ≡ some (lookup_oui (build_oui_table gs) mac))))
unfolding lookup_oui
lookup_oui_sound gs mac named = elim (Bool-cases (oui_prefix mac == "")) [
  | inl bad ↦ absurd (named (rw bad refl))
  | inr good ↦ (
    (λ e. ground (arith, e, good, eq_iff (oui_prefix mac) "")),
    rw good (by_virtual (lookup (oui_prefix mac) virtual_ouis) refl (rw good at named)),
  )
]
  where
    by_virtual :
        (v : Option String)
        → lookup (oui_prefix mac) virtual_ouis ≡ v
        → (by_vendor (build_oui_table gs) (oui_prefix mac) v).vendor ≢ ""
        → ((vendor : String) × (v ≡ some vendor)
            × (by_vendor (build_oui_table gs) (oui_prefix mac) v
                ≡ record { vendor = vendor; device_type = "server" }))
          ⊎ ((is_local (first_byte (oui_prefix mac)) ≡ false)
              × (agreed (claims_of (oui_prefix mac) gs)
                  ≡ some (by_vendor (build_oui_table gs) (oui_prefix mac) v)))
    by_virtual (some v) e f = inl (v, refl, refl)
    by_virtual none e f = elim (Bool-cases (is_local (first_byte (oui_prefix mac)))) [
      | inl local ↦ absurd (f (rw local refl))
      | inr global ↦ elim (Option-cases (lookup (oui_prefix mac) (build_oui_table gs))) [
        | inl gone ↦ absurd (f (rw (global, gone) refl))
        | inr (o, found) ↦
            inr (global, rw (global, found) (sym (build_oui_table_lem (oui_prefix mac) gs) ∙ found))
      ]
    ]
