-- ===== src/Common/Text/Laws.antt =====
-- Laws of the text functions.
use Prim.Native.Nat.{ℕ, ◌<◌, ◌-◌}
use Prim.Native.Char.{Char, code}
use Prim.Native.String.{String, [], ◌∷◌, ◌++◌, char_at}
use mathlib.Core.Path.{◌≡◌, refl, ap, ◌∙◌}
use mathlib.Core.Bool.{Bool, true, false, ◌&&◌}
use mathlib.Core.Logic.{inl, inr}
use native.Mathlib.Omega.{arith}
use mathlib.Core.Option.{some}
use text.Mathlib.TextLemmas.{nil-append, cons-append}
use unyport.Common.Tests.{nat_eq_refl, leb, Bool-cases, holds_upto, holds_upto-at}
use unyport.Common.Text.{
  strip_prefix, has_prefix, is_space, keep_char, trim_left, trim_right, trim_space, is_upper,
  lower_char, to_lower, all_codes,
}

abbrev lower_at : ℕ → ℕ
lower_at i = code (char_at "abcdefghijklmnopqrstuvwxyz" i)

lower_at_table : holds_upto (λ i. leb b'a' (lower_at i) && leb (lower_at i) b'z') 26 ≡ true
unfolding holds_upto
lower_at_table = refl

lower_at_range : (i : ℕ) → i < 26 → leb b'a' (lower_at i) && leb (lower_at i) b'z' ≡ true
lower_at_range i h =
    holds_upto-at (λ i. leb b'a' (lower_at i) && leb (lower_at i) b'z') 26 i h lower_at_table

code-lower_char-upper :
    (c : Char)
    → is_upper (code c) ≡ true
    → leb b'a' (code (lower_char c)) && leb (code (lower_char c)) b'z' ≡ true
unfolding lower_char
code-lower_char-upper c h = rw h (lower_at_range (code c - b'A') (ground arith))

lower_char_same : (c : Char) → is_upper (code c) ≡ false → lower_char c ≡ c
unfolding lower_char
lower_char_same c h = rw h refl

lower_char_idem : (c : Char) → lower_char (lower_char c) ≡ lower_char c
lower_char_idem c = elim (Bool-cases (is_upper (code c))) [
  | inl up ↦ lower_char_same (lower_char c) (ground (arith, code-lower_char-upper c up))
  | inr low ↦ ap lower_char (lower_char_same c low)
]

is_space-lower_char : (c : Char) → is_space (code (lower_char c)) ≡ is_space (code c)
unfolding is_space
is_space-lower_char c = elim (Bool-cases (is_upper (code c))) [
  | inl up ↦ ground (arith, code-lower_char-upper c up)
  | inr low ↦ rw (lower_char_same c low)
]

pub to_lower_idem : (s : String) → to_lower (to_lower s) ≡ to_lower s
unfolding to_lower
to_lower_idem [] = refl
to_lower_idem (c ∷ s) = cc (lower_char_idem c, to_lower_idem s)

trim_left-to_lower : (s : String) → trim_left (to_lower s) ≡ to_lower (trim_left s)
unfolding to_lower trim_left
trim_left-to_lower [] = refl
trim_left-to_lower (c ∷ s) = rw (is_space-lower_char c) (elim (Bool-cases (is_space (code c))) [
  | inl h ↦ rw h (trim_left-to_lower s)
  | inr h ↦ rw h refl
])

keep_char-to_lower :
    (c : Char) (s : String) → keep_char (lower_char c) (to_lower s) ≡ to_lower (keep_char c s)
unfolding to_lower keep_char
keep_char-to_lower c [] =
    rw (is_space-lower_char c)
      (elim (Bool-cases (is_space (code c))) [ inl h ↦ rw h refl | inr h ↦ rw h refl ])
keep_char-to_lower c (d ∷ s) = refl

trim_right-to_lower : (s : String) → trim_right (to_lower s) ≡ to_lower (trim_right s)
unfolding to_lower trim_right
trim_right-to_lower [] = refl
trim_right-to_lower (c ∷ s) =
    ap (keep_char (lower_char c)) (trim_right-to_lower s) ∙ keep_char-to_lower c (trim_right s)

-- Trimming and lowering commute.
pub trim_space-to_lower : (s : String) → trim_space (to_lower s) ≡ to_lower (trim_space s)
unfolding trim_space
trim_space-to_lower s = rw trim_left-to_lower (trim_right-to_lower (trim_left s))

trim_right-keep_char :
    (c : Char) (s : String) → trim_right s ≡ s → trim_right (keep_char c s) ≡ keep_char c s
unfolding trim_right
trim_right-keep_char c [] h = elim (Bool-cases (is_space (code c))) [
  | inl e ↦ rw e refl
  | inr e ↦ rw (e, e) refl
]
trim_right-keep_char c (d ∷ s) h = ap (keep_char c) h

trim_right_idem : (s : String) → trim_right (trim_right s) ≡ trim_right s
unfolding trim_right
trim_right_idem [] = refl
trim_right_idem (c ∷ s) = trim_right-keep_char c (trim_right s) (trim_right_idem s)

abbrev starts_space : String → Bool
starts_space [] = false
starts_space (c ∷ s) = is_space (code c)

starts_space-trim_left : (s : String) → starts_space (trim_left s) ≡ false
unfolding trim_left
starts_space-trim_left [] = refl
starts_space-trim_left (c ∷ s) = elim (Bool-cases (is_space (code c))) [
  | inl h ↦ rw h (starts_space-trim_left s)
  | inr h ↦ rw h h
]

starts_space-keep_char :
    (c : Char) (s : String) → is_space (code c) ≡ false → starts_space (keep_char c s) ≡ false
unfolding keep_char
starts_space-keep_char c [] h = rw h h
starts_space-keep_char c (d ∷ s) h = h

starts_space-trim_right :
    (s : String) → starts_space s ≡ false → starts_space (trim_right s) ≡ false
unfolding trim_right
starts_space-trim_right [] h = refl
starts_space-trim_right (c ∷ s) h = starts_space-keep_char c (trim_right s) h

trim_left_same : (s : String) → starts_space s ≡ false → trim_left s ≡ s
unfolding trim_left
trim_left_same [] h = refl
trim_left_same (c ∷ s) h = rw h refl

pub trim_space_idem : (s : String) → trim_space (trim_space s) ≡ trim_space s
unfolding trim_space
trim_space_idem s =
    let clean = starts_space-trim_right (trim_left s) (starts_space-trim_left s) in
    rw (trim_left_same (trim_right (trim_left s)) clean) (trim_right_idem (trim_left s))

trim_left-plain : (s : String) → all_codes (λ c. leb 33 c && leb c 126) s ≡ true → trim_left s ≡ s
unfolding trim_left is_space all_codes
trim_left-plain [] h = refl
trim_left-plain (c ∷ s) h = ground arith

keep_char-plain :
    (c : Char) (s : String) → (leb 33 (code c) && leb (code c) 126) ≡ true → keep_char c s ≡ c ∷ s
unfolding keep_char is_space
keep_char-plain c [] h = ground arith
keep_char-plain c (d ∷ s) h = refl

trim_right-plain : (s : String) → all_codes (λ c. leb 33 c && leb c 126) s ≡ true → trim_right s ≡ s
unfolding trim_right all_codes
trim_right-plain [] h = refl
trim_right-plain (c ∷ s) h =
    ground (arith, trim_right-plain s, keep_char-plain c (trim_right s), keep_char-plain c s)

-- A text of visible ASCII characters has nothing to trim.
pub trim_space-plain :
    (s : String) → all_codes (λ c. leb 33 c && leb c 126) s ≡ true → trim_space s ≡ s
unfolding trim_space
trim_space-plain s h = rw (trim_left-plain s h) (trim_right-plain s h)

pub strip_prefix-append : (p s : String) → strip_prefix (p ++ s) p ≡ some s
unfolding strip_prefix
strip_prefix-append [] s = ap some (nil-append s)
strip_prefix-append (c ∷ p) s =
    rw (cons-append c p s, nat_eq_refl (code c)) (strip_prefix-append p s)

pub has_prefix-append : (p s : String) → has_prefix (p ++ s) p ≡ true
unfolding has_prefix
has_prefix-append p s = rw (strip_prefix-append p s) refl
