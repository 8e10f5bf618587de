-- ===== src/Devices/Identity/Cache.antt =====
-- The cache of neighborIdentityFor: a key stands for the same data of a neighbour.
use unyport.Common.{
  ◌≤◌, ◌≡◌, ap, sym, ◌∙◌, nat_eq, not, All, refl, inl, inr, String, Bool, true, false, Option, none,
  some, [], ◌∷◌, ◌==◌, eq_iff, arith, leb, length, Bool-cases, if◌then◌else◌,
}
use unyport.Common.Dict.{Dict, lookup, delete, insert, lookup-insert}
use Prim.Native.String
use Prim.Native.Char.{Char}
use text.Mathlib.TextLemmas.{nil-append, cons-append}
use mathlib.Core.List.{List}
use unyport.Common.Text.{trim_space, to_lower, all_codes, split}
use unyport.Common.Text.Fields.Laws.{split-at, split-whole}
use unyport.Devices.Oui.{normalize_mac}
use unyport.Devices.Identity.{
  Neighbour, join, key_parts, identity_key, neighbor_cache_limit, keep, cached,
  neighbor_identity_for,
}

length-delete : {A : Type 0} (k : String) (m : Dict A) → length (delete k m) ≤ length m
unfolding delete
length-delete k [] = omega arith
length-delete k ((j, v) ∷ m) = ground (arith, length-delete k m)

lookup_nil : {A : Type 0} (k : String) → lookup {V = A} k [] ≡ none
unfolding lookup
lookup_nil k = refl

-- The character that separates the parts of a key.
abbrev unit : Char
unit = String.char_at "\u{1f}" 0

abbrev pub Plain : String → Type 0
Plain s = all_codes (λ c. not (nat_eq c 0x1f)) s ≡ true

-- No part of a neighbour's data has the separator in it.
pub record IsPlain (n : Neighbour) : Type 0 where
  pub ip : Plain (trim_space n.ip)
  pub mac : Plain (normalize_mac n.mac)
  pub iface : Plain (trim_space n.iface)
  pub inventory : Plain n.inventory
  pub hostname : Plain (to_lower (trim_space n.hostname))
  pub services : Plain (to_lower (join "," n.services))

-- Two neighbours have the same data, up to spaces around them, the case of letters, and the way in
-- which the services are divided by commas.
pub record AreAlike (m n : Neighbour) : Type 0 where
  pub ip : trim_space m.ip ≡ trim_space n.ip
  pub mac : normalize_mac m.mac ≡ normalize_mac n.mac
  pub iface : trim_space m.iface ≡ trim_space n.iface
  pub inventory : m.inventory ≡ n.inventory
  pub hostname : to_lower (trim_space m.hostname) ≡ to_lower (trim_space n.hostname)
  pub services : to_lower (join "," m.services) ≡ to_lower (join "," n.services)

unit-append : (s : String) → String.◌++◌ "\u{1f}" s ≡ String.◌∷◌ unit s
unit-append s = cons-append unit String.[] s ∙ ap (λ t. String.◌∷◌ unit t) (nil-append s)

split-join :
    (x : String) (xs : List String)
    → Plain x
    → All Plain xs
    → split 0x1f (join "\u{1f}" (x ∷ xs)) ≡ x ∷ xs
unfolding join
split-join x [] p h = split-whole 0x1f x p
split-join x (y ∷ ys) p (q, h) =
    rw (unit-append (join "\u{1f}" (y ∷ ys)))
      (split-at 0x1f unit x (join "\u{1f}" (y ∷ ys)) refl p ∙ ap (λ l. x ∷ l) (split-join y ys q h))

split-identity_key : (n : Neighbour) → IsPlain n → split 0x1f (identity_key n) ≡ key_parts n
unfolding identity_key key_parts
split-identity_key n p =
    split-join (trim_space n.ip) _ p.ip
      (p.mac, (p.iface, (p.inventory, (p.hostname, (p.services, tt)))))

parts-AreAlike : (m n : Neighbour) → key_parts m ≡ key_parts n → AreAlike m n
unfolding key_parts
parts-AreAlike m n e = record {
  ip = cc e;
  mac = cc e;
  iface = cc e;
  inventory = cc e;
  hostname = cc e;
  services = cc e;
}

-- Neighbours with one key have the same data.
identity_key-AreAlike :
    (m n : Neighbour) → IsPlain m → IsPlain n → identity_key m ≡ identity_key n → AreAlike m n
identity_key-AreAlike m n p q e =
    parts-AreAlike m n
      (sym (split-identity_key m p) ∙ ap (λ k. split 0x1f k) e ∙ split-identity_key n q)

module _ {A : Type 0} (compute : Neighbour → A) where
  -- Every entry is what some neighbour with its key was given.
  abbrev pub Computed : Dict A → Type 0
  Computed entries =
      (key : String) (a : A)
      → lookup key entries ≡ some a
      → (n : Neighbour) × IsPlain n × (identity_key n ≡ key) × (a ≡ compute n)

  abbrev Fits : Dict A → Type 0
  Fits entries = length entries ≤ neighbor_cache_limit

  keep-Fits :
      (key : String) (a : A) (entries : Dict A) → Fits entries → Fits (keep compute key a entries)
  unfolding insert
  keep-Fits key a entries h = elim (Bool-cases (leb neighbor_cache_limit (length entries))) [
    | inl full ↦ rw full (omega (arith, length-delete {A = A} key []))
    | inr room ↦ rw room (ground (arith, room, length-delete key entries))
  ]

  keep-Computed :
      (n : Neighbour) (entries : Dict A)
      → IsPlain n
      → Computed entries
      → Computed (keep compute (identity_key n) (compute n) entries)
  keep-Computed n entries p h key a found = elim (Bool-cases (identity_key n == key)) [
    | inl same ↦ (
      n,
      p,
      (eq_iff (identity_key n) key).0 same,
      ground (
        arith,
        found,
        same,
        lookup-insert (identity_key n) key (compute n)
            (if leb neighbor_cache_limit (length entries) then [] else entries),
      ),
    )
    | inr other ↦ by_room (leb neighbor_cache_limit (length entries)) (
        ground (
          arith,
          found,
          other,
          lookup-insert (identity_key n) key (compute n)
              (if leb neighbor_cache_limit (length entries) then [] else entries),
        ))
  ]
    where
      by_room :
          (b : Bool)
          → lookup key (if b then [] else entries) ≡ some a
          → (m : Neighbour) × IsPlain m × (identity_key m ≡ key) × (a ≡ compute m)
      by_room true e = absurd (cc (e, lookup_nil {A = A} key))
      by_room false e = h key a e

  -- If every entry of the cache is what a neighbour with its key was given and there are at most
  -- 4096, then both hold after a lookup, and the answer is what is computed for a neighbour with
  -- the same data: address, MAC, interface, inventory, name and services, up to spaces around
  -- them, the case of letters and the division of the services by commas. No part of the data may
  -- have the separator in it.
  pub neighbor_identity_for_sound :
      (n : Neighbour) (entries : Dict A)
      → IsPlain n
      → Computed entries
      → length entries ≤ neighbor_cache_limit
      → ((m : Neighbour) × AreAlike m n × ((neighbor_identity_for compute n entries).0 ≡ compute m))
        × Computed (neighbor_identity_for compute n entries).1
        × (length (neighbor_identity_for compute n entries).1 ≤ neighbor_cache_limit)
  unfolding neighbor_identity_for
  neighbor_identity_for_sound n entries p h fits = by_entry (lookup (identity_key n) entries) refl
    where
      by_entry :
          (o : Option A)
          → lookup (identity_key n) entries ≡ o
          → ((m : Neighbour) × AreAlike m n × ((cached compute n entries o).0 ≡ compute m))
            × Computed (cached compute n entries o).1
            × (length (cached compute n entries o).1 ≤ neighbor_cache_limit)
      by_entry (some a) found =
          let (m, q, same, given) = h (identity_key n) a found in
          ((m, identity_key-AreAlike m n q p same, given), h, fits)
      by_entry none missing = (
        (n, identity_key-AreAlike n n p p refl, refl),
        keep-Computed n entries p h,
        keep-Fits (identity_key n) (compute n) entries fits,
      )
