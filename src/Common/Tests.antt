-- ===== src/Common/Tests.antt =====
-- Tests on numbers, the conditional, case lemmas, and lists measured by native numbers.
use Prim.Native.Nat.{ℕ, zero, suc, ◌<◌, ◌+◌, compare, Ordering}
use mathlib.Core.Path.{◌≡◌, refl}
use mathlib.Core.Logic.{◌⊎◌, inl, inr}
use mathlib.Core.Bool.{Bool, true, false, ◌&&◌, ◌||◌}
use mathlib.Core.Option.{Option, none, some}
use mathlib.Core.List.{List, [], ◌∷◌, ◌++◌}
use native.Mathlib.Omega.{arith}
use Prim.Native.String.{String}
use text.Mathlib.Text.{◌==◌}
use text.Mathlib.TextEquality.{eq_iff}

abbrev pub ltb : ℕ → ℕ → Bool
ltb a b = elim (compare a b) [ Ordering.lt ↦ true | _ ↦ false ]

abbrev pub leb : ℕ → ℕ → Bool
leb a b = elim (compare a b) [ Ordering.gt ↦ false | _ ↦ true ]

abbrev pub nat_eq : ℕ → ℕ → Bool
nat_eq a b = elim (compare a b) [ Ordering.eq ↦ true | _ ↦ false ]

infix 1 if◌then◌else◌
abbrev pub if◌then◌else◌ {ℓ} : {A : Type ℓ} → Bool → A → A → A
if true then x else y = x
if false then x else y = y

pub nat_eq_refl : (n : ℕ) → nat_eq n n ≡ true
nat_eq_refl n = ground arith

-- To split on a computed value and keep the equation.
pub Bool-cases : (b : Bool) → (b ≡ true) ⊎ (b ≡ false)
Bool-cases true = inl refl
Bool-cases false = inr refl

module _ {ℓ} {A : Type ℓ} where
  pub Option-cases : (o : Option A) → (o ≡ none) ⊎ ((a : A) × (o ≡ some a))
  Option-cases none = inl refl
  Option-cases (some a) = inr (a, refl)

  abbrev pub is_some : Option A → Bool
  is_some none = false
  is_some (some a) = true

  abbrev pub length : List A → ℕ
  length [] = 0
  length (x ∷ xs) = suc (length xs)

  abbrev pub any : (A → Bool) → List A → Bool
  any p [] = false
  any p (x ∷ xs) = p x || any p xs

  pub length-append : (xs ys : List A) → length (xs ++ ys) ≡ length xs + length ys
  length-append [] ys = omega arith
  length-append (x ∷ xs) ys = omega (arith, length-append xs ys)

-- A predicate on every item of a list, by recursion.
module _ {ℓ κ} {A : Type ℓ} (P : A → Type κ) where
  abbrev pub All : List A → Type κ
  All [] = Unit
  All (x ∷ xs) = P x × All xs

  pub All-append : (xs ys : List A) → All xs → All ys → All (xs ++ ys)
  All-append [] ys _ k = k
  All-append (x ∷ xs) ys (p, h) k = (p, All-append xs ys h k)

-- Every number less than the second argument passes the test.
unfoldable pub holds_upto : (ℕ → Bool) → ℕ → Bool
holds_upto test zero = true
holds_upto test (suc limit) = holds_upto test limit && test limit

pub holds_upto-at :
    (test : ℕ → Bool) (limit i : ℕ) → i < limit → holds_upto test limit ≡ true → test i ≡ true
unfolding holds_upto
holds_upto-at test zero i small h = absurd (omega arith)
holds_upto-at test (suc limit) i small h = elim (Bool-cases (nat_eq i limit)) [
  | inl last ↦ ground (arith, last)
  | inr earlier ↦ holds_upto-at test limit i (ground arith) (ground arith)
]

-- What holds of every text of a list holds of a text that is in it.
pub All-any :
    (P : String → Type 0) (x : String) (xs : List String)
    → All P xs
    → any (λ p. p == x) xs ≡ true
    → P x
All-any P x [] h found = absurd (ground (arith, found))
All-any P x (p ∷ xs) (here, h) found = elim (Bool-cases (p == x)) [
  | inl same ↦ let e : p ≡ x = (eq_iff p x).0 same in rw e at here
  | inr other ↦ All-any P x xs h (ground (arith, found, other))
]
