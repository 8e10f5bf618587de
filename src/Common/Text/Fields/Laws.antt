-- ===== src/Common/Text/Fields/Laws.antt =====
-- The fields of a text whose words stand behind any number of spaces.
use Prim.Native.Nat.{ℕ, zero, suc}
use Prim.Native.Char.{Char, code}
use Prim.Native.String.{String, [], ◌∷◌, ◌++◌, char_at}
use mathlib.Core.Path.{◌≡◌, refl, ap, ◌∙◌}
use mathlib.Core.Logic.{◌≢◌}
use mathlib.Core.Bool.{Bool, true, false, not, ◌&&◌}
use mathlib.Core.List
use mathlib.Core.List.{List}
use native.Mathlib.Omega.{arith}
use text.Mathlib.TextLemmas.{nil-append, cons-append}
use unyport.Common.Tests.{All, nat_eq}
use unyport.Common.Text.{is_space, all_codes, split}
use unyport.Common.Text.Fields.{parts, filled_parts, fields_func, fields}

abbrev pub blank : Char
blank = char_at " " 0

abbrev pub newline : Char
newline = char_at "\n" 0

-- A word: a text that is not empty and has no space in it.
abbrev pub IsWord : String → Type 0
IsWord w = (w ≢ []) × (all_codes (λ c. not (is_space c)) w ≡ true)

unfoldable pub blanks : ℕ → String → String
blanks zero s = s
blanks (suc k) s = blank ∷ blanks k s

-- A line of words, each behind its number of spaces and before one.
unfoldable pub laid : List (ℕ × String) → String
unfolding blanks
laid List.[] = []
laid (List.◌∷◌ (k, w) cells) = blanks k (w ++ (blank ∷ laid cells))

parts-word :
    (w s : String)
    → all_codes (λ c. not (is_space c)) w ≡ true
    → parts is_space (w ++ (blank ∷ s)) ≡ List.◌∷◌ w (parts is_space s)
unfolding parts all_codes is_space
parts-word [] s h = rw (nil-append (blank ∷ s)) refl
parts-word (c ∷ w) s h = rw (cons-append c w (blank ∷ s)) (ground (arith, h, parts-word w s))

filled_parts-word :
    (w : String) (ps : List String)
    → w ≢ []
    → filled_parts (List.◌∷◌ w ps) ≡ List.◌∷◌ w (filled_parts ps)
unfolding filled_parts
filled_parts-word [] ps h = absurd (h refl)
filled_parts-word (c ∷ w) ps h = refl

fields-blanks : (k : ℕ) (s : String) → fields (blanks k s) ≡ fields s
unfolding fields fields_func parts filled_parts blanks is_space
fields-blanks zero s = refl
fields-blanks (suc k) s = fields-blanks k s

pub fields-laid :
    (cells : List (ℕ × String))
    → All (λ e. IsWord e.1) cells
    → fields (laid cells) ≡ List.map (λ e. e.1) cells
unfolding fields fields_func parts filled_parts laid
fields-laid List.[] h = refl
fields-laid (List.◌∷◌ (k, w) cells) ((filled, plain), h) =
    fields-blanks k (w ++ (blank ∷ laid cells))
    ∙ ap filled_parts (parts-word w (laid cells) plain)
    ∙ filled_parts-word w (parts is_space (laid cells)) filled
    ∙ ap (λ ws. List.◌∷◌ w ws) (fields-laid cells h)

all_codes-append :
    (p : ℕ → Bool) (s t : String) → all_codes p (s ++ t) ≡ all_codes p s && all_codes p t
unfolding all_codes
all_codes-append p [] t = rw (nil-append t) refl
all_codes-append p (c ∷ s) t = rw (cons-append c s t) (ground (arith, all_codes-append p s t))

newline_space : (c : ℕ) → is_space c ≡ false → nat_eq c b'\n' ≡ false
unfolding is_space
newline_space c h = ground (arith, h)

one_line_word :
    (w : String)
    → all_codes (λ c. not (is_space c)) w ≡ true
    → all_codes (λ c. not (nat_eq c b'\n')) w ≡ true
unfolding all_codes
one_line_word [] h = refl
one_line_word (c ∷ w) h = ground (arith, h, newline_space (code c), one_line_word w)

one_line_blanks :
    (k : ℕ) (s : String)
    → all_codes (λ c. not (nat_eq c b'\n')) s ≡ true
    → all_codes (λ c. not (nat_eq c b'\n')) (blanks k s) ≡ true
unfolding all_codes blanks
one_line_blanks zero s h = h
one_line_blanks (suc k) s h = one_line_blanks k s h

-- A line of words has no newline.
pub one_line_laid :
    (cells : List (ℕ × String))
    → All (λ e. IsWord e.1) cells
    → all_codes (λ c. not (nat_eq c b'\n')) (laid cells) ≡ true
unfolding all_codes laid
one_line_laid List.[] h = refl
one_line_laid (List.◌∷◌ (k, w) cells) ((filled, plain), h) =
    one_line_blanks k (w ++ (blank ∷ laid cells)) (
      rw (all_codes-append (λ c. not (nat_eq c b'\n')) w (blank ∷ laid cells))
        (ground (arith, one_line_word w plain, one_line_laid cells h)))

-- Lines, each before a newline.
unfoldable pub joined : List String → String
joined List.[] = []
joined (List.◌∷◌ l ls) = l ++ (newline ∷ joined ls)

-- A text without the separator stands whole before it.
pub split-at :
    (sep : ℕ) (c : Char) (l s : String)
    → nat_eq (code c) sep ≡ true
    → all_codes (λ d. not (nat_eq d sep)) l ≡ true
    → split sep (l ++ (c ∷ s)) ≡ List.◌∷◌ l (split sep s)
unfolding split all_codes
split-at sep c [] s here h = rw (nil-append (c ∷ s), here) refl
split-at sep c (d ∷ l) s here h =
    rw (cons-append d l (c ∷ s)) (ground (arith, h, split-at sep c l s here))

pub split-whole :
    (sep : ℕ) (l : String)
    → all_codes (λ d. not (nat_eq d sep)) l ≡ true
    → split sep l ≡ List.◌∷◌ l List.[]
unfolding split all_codes
split-whole sep [] h = refl
split-whole sep (d ∷ l) h = ground (arith, h, split-whole sep l)

pub split-line :
    (l s : String)
    → all_codes (λ c. not (nat_eq c b'\n')) l ≡ true
    → split b'\n' (l ++ (newline ∷ s)) ≡ List.◌∷◌ l (split b'\n' s)
split-line l s h = split-at b'\n' newline l s refl h

-- Lines without a newline, joined and split again; what stands behind the last newline is empty.
pub split-joined :
    (ls : List String)
    → All (λ l. all_codes (λ c. not (nat_eq c b'\n')) l ≡ true) ls
    → split b'\n' (joined ls) ≡ List.◌++◌ ls (List.◌∷◌ [] List.[])
unfolding joined split
split-joined List.[] h = refl
split-joined (List.◌∷◌ l ls) (here, h) =
    split-line l (joined ls) here ∙ ap (λ ms. List.◌∷◌ l ms) (split-joined ls h)
