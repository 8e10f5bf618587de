-- ===== src/Common/Dict.antt =====
-- A Go map with string keys, as an association list. The order of the entries stands for the
-- order in which `range` visits them, which Go leaves open.
use Prim.Native.String.{String}
use mathlib.Core.Path.{◌≡◌}
use mathlib.Core.Logic.{◌≢◌}
use mathlib.Core.Bool.{Bool, true}
use mathlib.Core.Option.{Option, none, some}
use mathlib.Core.List.{List, [], ◌∷◌, map}
use native.Mathlib.Omega.{arith}
use text.Mathlib.Text.{◌==◌}
use text.Mathlib.TextEquality.{eq_iff}
use text.Mathlib.TextPositions.{eq_refl}
use unyport.Common.Tests.{if◌then◌else◌, is_some, any}

abbrev pub Dict {ℓ} : Type ℓ → Type ℓ
Dict V = List (String × V)

module _ {ℓ} {V : Type ℓ} where
  -- v, ok := m[k]
  unfoldable pub lookup : String → Dict V → Option V
  lookup k [] = none
  lookup k ((j, v) ∷ m) = if j == k then some v else lookup k m

  -- delete(m, k)
  unfoldable pub delete : String → Dict V → Dict V
  delete k [] = []
  delete k ((j, v) ∷ m) = let rest = delete k m in if j == k then rest else (j, v) ∷ rest

  -- m[k] = v
  unfoldable pub insert : String → V → Dict V → Dict V
  unfolding delete
  insert k v m = (k, v) ∷ delete k m

  -- _, ok := m[k]
  unfoldable pub member : String → Dict V → Bool
  unfolding lookup
  member k m = is_some (lookup k m)

  pub lookup-delete :
      (k j : String) (m : Dict V) → lookup j (delete k m) ≡ (if k == j then none else lookup j m)
  unfolding lookup delete
  lookup-delete k j [] = ground arith
  lookup-delete k j ((i, v) ∷ m) =
      ground (arith, lookup-delete k j m, eq_iff i k, eq_iff i j, eq_iff k j)

  pub lookup-insert :
      (k j : String) (v : V) (m : Dict V)
      → lookup j (insert k v m) ≡ (if k == j then some v else lookup j m)
  unfolding lookup insert
  lookup-insert k j v m = ground (arith, lookup-delete k j m, eq_iff k j)

  pub lookup-insert_self : (k : String) (v : V) (m : Dict V) → lookup k (insert k v m) ≡ some v
  lookup-insert_self k v m = simp (lookup-insert, eq_refl)

  pub lookup-delete_self : (k : String) (m : Dict V) → lookup k (delete k m) ≡ none
  lookup-delete_self k m = simp (lookup-delete, eq_refl)

  pub lookup-insert_ne :
      (k j : String) (v : V) (m : Dict V) → k ≢ j → lookup j (insert k v m) ≡ lookup j m
  lookup-insert_ne k j v m h = ground (arith, lookup-insert k j v m, eq_iff k j)

  pub lookup-delete_ne : (k j : String) (m : Dict V) → k ≢ j → lookup j (delete k m) ≡ lookup j m
  lookup-delete_ne k j m h = ground (arith, lookup-delete k j m, eq_iff k j)

-- The keys that `range` visits, and whether a key is among them.
abbrev pub keys {ℓ} : {V : Type ℓ} → Dict V → List String
keys m = map (λ e. e.0) m

abbrev pub listed : String → List String → Bool
listed k ks = any (λ j. j == k) ks

pub listed-keys {ℓ} :
    {V : Type ℓ} (m : Dict V) (k : String) (v : V) → lookup k m ≡ some v → listed k (keys m) ≡ true
unfolding lookup
listed-keys [] k v e = cc
listed-keys ((j, w) ∷ m) k v e = ground (arith, listed-keys m k v)

pub ruleset dict_laws = (lookup-insert, lookup-delete, eq_refl)
