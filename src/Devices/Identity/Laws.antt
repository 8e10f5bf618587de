-- ===== src/Devices/Identity/Laws.antt =====
-- What computeNeighborIdentity finds.
use unyport.Common.{
  ℕ, ◌≡◌, ◌≢◌, refl, ◌∙◌, inl, inr, ◌⊎◌, String, Bool, true, false, ◌&&◌, ◌||◌, Option, none, some,
  List, [], ◌∷◌, ◌++◌, ◌==◌, eq_iff, eq_refl, arith, any, All, All-append, Bool-cases,
  if◌then◌else◌,
}
use unyport.Common.Text.{to_lower, trim_space, cut}
use unyport.Common.Text.Fields.{fields_func}
use unyport.Common.Dict.{Dict, listed}
use unyport.Devices.Oui.{NeighborOui}
use unyport.Devices.Names.{
  Catalogue, is_network_device_type, service_device_type, device_type_for_hostname, Address,
  first_pattern, hostname_patterns, hostname_contains_token, plain_name, override_device_type_for,
  first_override, entry_type, is_entry_end,
}
use unyport.Devices.Identity.{
  Floats, Signal, Identity, Neighbour, total, best, order, add_sources, add_signal, service_signals,
  signals, prefer_name, winner_of, found_identity, by_signals, compute_neighbor_identity,
}

abbrev has_type : {F : Type 0} → String → List (Signal F) → Bool
has_type t ss = any (λ s. s.device_type == t) ss

snoc_filled : (xs : List String) (x : String) → xs ++ (x ∷ []) ≢ []
snoc_filled [] x e = absurd (ground (arith, e))
snoc_filled (y ∷ xs) x e = absurd (ground (arith, e))

any_filled : (p : String → Bool) (xs : List String) → any p xs ≡ true → xs ≢ []
any_filled p [] h e = absurd (ground (arith, h))
any_filled p (x ∷ xs) h e = absurd (ground (arith, e))

-- An append does not lose what is listed.
listed-append :
    (t : String) (xs ys : List String) → listed t (xs ++ ys) ≡ (listed t xs || listed t ys)
listed-append t [] ys = refl
listed-append t (x ∷ xs) ys = ground (arith, listed-append t xs ys)

module _ {F : Type 0} (fl : Floats F) where
  best-listed :
      (all : List (Signal F)) (w : String) (ts : List String)
      → (best fl all w ts ≡ w) ⊎ (listed (best fl all w ts) ts ≡ true)
  unfolding best
  best-listed all w [] = inl refl
  best-listed all w (t ∷ ts) =
      let b = fl.greater (total fl t all) (total fl w all) in
      by_rest (if b then t else w) (best-listed all (if b then t else w) ts) (by_test b)
    where
      by_test : (b : Bool) → ((if b then t else w) ≡ w) ⊎ ((t == (if b then t else w)) ≡ true)
      by_test true = inr (eq_refl t)
      by_test false = inl refl

      by_rest :
          (x : String)
          → (best fl all x ts ≡ x) ⊎ (listed (best fl all x ts) ts ≡ true)
          → (x ≡ w) ⊎ ((t == x) ≡ true)
          → (best fl all x ts ≡ w) ⊎ (listed (best fl all x ts) (t ∷ ts) ≡ true)
      by_rest x (inl same) (inl e) = inl (same ∙ e)
      by_rest x (inl same) (inr e) = inr (rw same (ground (arith, e)))
      by_rest x (inr there) _ = inr (ground (arith, there))

module _ {F : Type 0} where
  order-has_type :
      (t : String) (seen : List String) (ss : List (Signal F))
      → listed t (order seen ss) ≡ true
      → (listed t seen ≡ true) ⊎ (has_type t ss ≡ true)
  unfolding order
  order-has_type t seen [] h = inl h
  order-has_type t seen (s ∷ ss) h = elim (Bool-cases (listed s.device_type seen)) [
    | inl old ↦ elim (order-has_type t seen ss (rw old at h)) [
      | inl e ↦ inl e
      | inr e ↦ inr (ground (arith, e))
    ]
    | inr new ↦ elim (order-has_type t (seen ++ (s.device_type ∷ [])) ss (rw new at h)) [
      | inl e ↦ ground (arith, e, listed-append t seen (s.device_type ∷ []))
      | inr e ↦ inr (ground (arith, e))
    ]
  ]

  order_filled : (seen : List String) (ss : List (Signal F)) → seen ≢ [] → order seen ss ≢ []
  unfolding order
  order_filled seen [] h = h
  order_filled seen (s ∷ ss) h =
      order_filled (if listed s.device_type seen then seen else seen ++ (s.device_type ∷ [])) ss
        (by_test (listed s.device_type seen))
    where
      by_test : (b : Bool) → (if b then seen else seen ++ (s.device_type ∷ [])) ≢ []
      by_test true = h
      by_test false = snoc_filled seen s.device_type

  sources_filled :
      (t : String) (found : List String) (ss : List (Signal F))
      → (found ≢ []) ⊎ (has_type t ss ≡ true)
      → add_sources t found ss ≢ []
  unfolding add_sources
  sources_filled t found [] (inl h) = h
  sources_filled t found [] (inr h) = absurd (ground (arith, h))
  sources_filled t found (s ∷ ss) h = elim (Bool-cases (s.device_type == t)) [
    | inr other ↦ rw other (
        sources_filled t found ss (elim h [
          | inl some_found ↦ inl some_found
          | inr later ↦ inr (ground (arith, other, later))
        ]))
    | inl same ↦ elim (Bool-cases (any (λ x. to_lower x == to_lower s.source) found)) [
      | inl twice ↦ rw (same, twice) (sources_filled t found ss (inl (any_filled _ found twice)))
      | inr new ↦
          rw (same, new)
            (sources_filled t (found ++ (s.source ∷ [])) ss (inl (snoc_filled found s.source)))
    ]
  ]

-- Every hint in a name is a type that the catalogue has.
abbrev pub HasNames : Catalogue → Type 0
HasNames c = All (λ e. is_network_device_type c e.0 ≡ true) hostname_patterns

first_pattern_valid :
    (c : Catalogue) (name : String) (ps : Dict (List String))
    → All (λ e. is_network_device_type c e.0 ≡ true) ps
    → (first_pattern name ps ≡ "unknown")
      ⊎ (is_network_device_type c (first_pattern name ps) ≡ true)
unfolding first_pattern
first_pattern_valid c name [] h = inl refl
first_pattern_valid c name ((t, words) ∷ rest) (here, h) =
    elim (Bool-cases (any (λ w. hostname_contains_token name w) words)) [
      | inl found ↦ rw found (inr here)
      | inr other ↦ rw other (first_pattern_valid c name rest h)
    ]

module _ {F : Type 0} (fl : Floats F) (c : Catalogue) (parse_ip : String → Option Address)
    (table : Dict NeighborOui) (n : Neighbour) where
  abbrev IsNetwork : Signal F → Type 0
  IsNetwork s = is_network_device_type c s.device_type ≡ true

  record AllNetwork (ss : List (Signal F)) : Type 0 where
    pub each : All IsNetwork ss

  AllNetwork-append :
      (xs ys : List (Signal F)) → AllNetwork xs → AllNetwork ys → AllNetwork (xs ++ ys)
  AllNetwork-append xs ys a b = record { each = All-append IsNetwork xs ys a.each b.each }

  AllNetwork-if :
      (b : Bool) (xs : List (Signal F)) → AllNetwork xs → AllNetwork (if b then xs else [])
  AllNetwork-if b xs a = elim b as (λ t. AllNetwork (if t then xs else [])) [
    | true ↦ a
    | false ↦ record { each = tt }
  ]

  AllNetwork-add_signal :
      (source t : String) (w : ℕ) → AllNetwork (add_signal fl c parse_ip table n source t w)
  unfolding add_signal
  AllNetwork-add_signal source t w = elim (Bool-cases (is_network_device_type c t)) [
    | inl valid ↦ rw valid record { each = (valid, tt) }
    | inr bad ↦ rw bad record { each = tt }
  ]

  service_signals-AllNetwork :
      (ss : List String) → AllNetwork (service_signals fl c parse_ip table n ss)
  unfolding service_signals
  service_signals-AllNetwork [] = record { each = tt }
  service_signals-AllNetwork (s ∷ ss) =
      AllNetwork-append _ (service_signals fl c parse_ip table n ss)
        (AllNetwork-add_signal "service" (service_device_type s) 35) (service_signals-AllNetwork ss)

  signals-AllNetwork : AllNetwork (signals fl c parse_ip table n)
  unfolding signals
  signals-AllNetwork =
      search (AllNetwork-append, AllNetwork-if, AllNetwork-add_signal, service_signals-AllNetwork)
        depth 12

  All-has_type :
      (t : String) (ss : List (Signal F))
      → All IsNetwork ss
      → has_type t ss ≡ true
      → is_network_device_type c t ≡ true
  All-has_type t [] h found = absurd (ground (arith, found))
  All-has_type t (s ∷ ss) (here, h) found = elim (Bool-cases (s.device_type == t)) [
    | inl same ↦ let e : s.device_type ≡ t = (eq_iff s.device_type t).0 same in rw e at here
    | inr other ↦ All-has_type t ss h (ground (arith, found, other))
  ]

  named_signal :
      is_network_device_type c (device_type_for_hostname n.hostname) ≡ true
      → has_type (device_type_for_hostname n.hostname) (signals fl c parse_ip table n) ≡ true
  unfolding signals add_signal
  named_signal valid = rw valid (ground (arith, eq_refl (device_type_for_hostname n.hostname)))

  -- What the winner and the preference of the name choose is the type of one of the signals.
  chosen_has_type :
      (all : List (Signal F))
      → HasNames c
      → (is_network_device_type c (device_type_for_hostname n.hostname) ≡ true
          → has_type (device_type_for_hostname n.hostname) all ≡ true)
      → (w : String) → has_type w all ≡ true
      → has_type (prefer_name fl c parse_ip table n (device_type_for_hostname n.hostname) w) all
        ≡ true
  unfolding device_type_for_hostname
  chosen_has_type all names present w found =
      let name = device_type_for_hostname n.hostname in
      elim (first_pattern_valid c (plain_name n.hostname) hostname_patterns names) [
        | inl unknown ↦ ground (arith, found, eq_iff name "unknown", unknown)
        | inr valid ↦ ground (arith, found, present valid)
      ]

  winner_of-has_type :
      (s : Signal F) (ss : List (Signal F))
      → has_type (winner_of fl c parse_ip table n (s ∷ ss) (order [] (s ∷ ss))) (s ∷ ss) ≡ true
  unfolding order
  winner_of-has_type s ss =
      by_order (order [] (s ∷ ss)) (λ t. order-has_type t [] (s ∷ ss)) (first_filled s ss)
    where
      first_filled : (x : Signal F) (xs : List (Signal F)) → order [] (x ∷ xs) ≢ []
      first_filled x xs = order_filled (x.device_type ∷ []) xs (λ e. absurd (ground (arith, e)))

      best_in : (t : String) (ts : List String) → listed (best fl (s ∷ ss) t ts) (t ∷ ts) ≡ true
      best_in t ts = elim (best-listed fl (s ∷ ss) t ts) [
        | inl same ↦ rw same (ground (arith, eq_refl t))
        | inr there ↦ ground (arith, there)
      ]

      by_order :
          (ts : List String)
          → ((t : String)
              → listed t ts ≡ true
              → (listed t [] ≡ true) ⊎ (has_type t (s ∷ ss) ≡ true))
          → ts ≢ []
          → has_type (winner_of fl c parse_ip table n (s ∷ ss) ts) (s ∷ ss) ≡ true
      by_order [] from filled = absurd (filled refl)
      by_order (t ∷ ts) from filled = elim (from (best fl (s ∷ ss) t ts) (best_in t ts)) [
        | inl nowhere ↦ absurd (ground (arith, nowhere))
        | inr found ↦ found
      ]

  first_override_valid :
      (es : List String)
      → (first_override c n.ip es ≡ "")
        ⊎ (is_network_device_type c (first_override c n.ip es) ≡ true)
  unfolding first_override
  first_override_valid [] = inl refl
  first_override_valid (e ∷ es) = by_cut (cut b'=' e) (first_override_valid es)
    where
      by_cut :
          (o : Option (String × String))
          → (first_override c n.ip es ≡ "")
            ⊎ (is_network_device_type c (first_override c n.ip es) ≡ true)
          → (entry_type c n.ip o (first_override c n.ip es) ≡ "")
            ⊎ (is_network_device_type c (entry_type c n.ip o (first_override c n.ip es)) ≡ true)
      by_cut none h = h
      by_cut (some (address, name)) h =
          elim (Bool-cases
            (trim_space address == n.ip && is_network_device_type c (to_lower (trim_space name)))) [
              | inl taken ↦ rw taken (inr (ground (arith, taken)))
              | inr other ↦ rw other h
            ]

  abbrev Known : Option (Identity F) → Type 0
  Known o =
      (i : Identity F) × (o ≡ some i)
      × ((i.device_type ≡ "unknown") ⊎ (is_network_device_type c i.device_type ≡ true))

  found_identity-Known :
      (w : String) (confidence : F) (sources : List String)
      → sources ≢ []
      → is_network_device_type c w ≡ true
      → Known (found_identity fl c parse_ip table n w confidence sources)
  found_identity-Known w confidence [] filled valid = absurd (filled refl)
  found_identity-Known w confidence (s ∷ ss) filled valid = (_, refl, inr valid)

  by_signals-Known :
      HasNames c
      → (all : List (Signal F)) → All IsNetwork all
      → (is_network_device_type c (device_type_for_hostname n.hostname) ≡ true
          → has_type (device_type_for_hostname n.hostname) all ≡ true)
      → Known (by_signals fl c parse_ip table n all)
  by_signals-Known names [] valid present = (_, refl, inl refl)
  by_signals-Known names (s ∷ ss) valid present =
      let w = winner_of fl c parse_ip table n (s ∷ ss) (order [] (s ∷ ss)) in
      let chosen = prefer_name fl c parse_ip table n (device_type_for_hostname n.hostname) w in
      let found = chosen_has_type (s ∷ ss) names present w (winner_of-has_type s ss) in
      found_identity-Known chosen (fl.rounded (total fl chosen (s ∷ ss)))
        (add_sources chosen [] (s ∷ ss)) (sources_filled chosen [] (s ∷ ss) (inr found))
        (All-has_type chosen (s ∷ ss) valid found)

  -- computeNeighborIdentity never reads past the end of a list, and names a type only if there is
  -- an icon for it and it is one of a device on the network, if the catalogues have the types of
  -- the hints in names.
  pub compute_neighbor_identity_total :
      HasNames c
      → (i : Identity F) × (compute_neighbor_identity fl c parse_ip table n ≡ some i)
        × ((i.device_type ≡ "unknown") ⊎ (is_network_device_type c i.device_type ≡ true))
  unfolding compute_neighbor_identity override_device_type_for
  compute_neighbor_identity_total names =
      let entries = fields_func is_entry_end n.inventory in
      elim (Bool-cases (first_override c n.ip entries == "")) [
        | inl none_given ↦ rw none_given (
            by_signals-Known names (signals fl c parse_ip table n) signals-AllNetwork.each
              named_signal)
        | inr given ↦ rw given (
          _,
          refl,
          elim (first_override_valid entries) [
            | inl gone ↦
                absurd (ground (arith, gone, given, eq_iff (first_override c n.ip entries) ""))
            | inr valid ↦ inr valid
          ],
        )
      ]
