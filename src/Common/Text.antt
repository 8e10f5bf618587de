-- ===== src/Common/Text.antt =====
-- What the program uses of Go's `strings` package, over the code points of a text.
-- `to_lower` maps the ASCII letters; a letter outside ASCII is left as it is.
pub mod Laws
pub mod Fields
use Prim.Native.Nat.{ℕ, zero, suc, ◌-◌}
use Prim.Native.Char.{Char, code}
use Prim.Native.String.{String, [], ◌∷◌, char_at}
use mathlib.Core.Bool.{Bool, true, false, ◌&&◌, ◌||◌}
use mathlib.Core.Option
use mathlib.Core.Option.{Option, none, some}
use mathlib.Core.List
use mathlib.Core.List.{List}
use text.Mathlib.Text.{◌==◌}
use unyport.Common.Tests.{leb, nat_eq, if◌then◌else◌, is_some}

-- unicode.IsSpace
unfoldable pub is_space : ℕ → Bool
is_space c =
    (leb 9 c && leb c 13)
    || nat_eq c 32
    || nat_eq c 0x85
    || nat_eq c 0xa0
    || nat_eq c 0x1680
    || (leb 0x2000 c && leb c 0x200a)
    || nat_eq c 0x2028
    || nat_eq c 0x2029
    || nat_eq c 0x202f
    || nat_eq c 0x205f
    || nat_eq c 0x3000

trim_left : String → String
trim_left [] = []
trim_left (c ∷ s) = let rest = trim_left s in if is_space (code c) then rest else c ∷ s

-- A space is dropped only where nothing is left behind it.
keep_char : Char → String → String
keep_char c [] = if is_space (code c) then [] else c ∷ []
keep_char c (d ∷ rest) = c ∷ d ∷ rest

trim_right : String → String
unfolding keep_char
trim_right [] = []
trim_right (c ∷ s) = keep_char c (trim_right s)

unfoldable pub trim_space : String → String
unfolding trim_left trim_right is_space
trim_space s = trim_right (trim_left s)

abbrev is_upper : ℕ → Bool
is_upper c = leb b'A' c && leb c b'Z'

lower_char : Char → Char
lower_char c = if is_upper (code c) then char_at "abcdefghijklmnopqrstuvwxyz" (code c - b'A') else c

unfoldable pub to_lower : String → String
unfolding lower_char
to_lower [] = []
to_lower (c ∷ s) = lower_char c ∷ to_lower s

abbrev is_lower : ℕ → Bool
is_lower c = leb b'a' c && leb c b'z'

upper_char : Char → Char
upper_char c = if is_lower (code c) then char_at "ABCDEFGHIJKLMNOPQRSTUVWXYZ" (code c - b'a') else c

unfoldable pub to_upper : String → String
unfolding upper_char
to_upper [] = []
to_upper (c ∷ s) = upper_char c ∷ to_upper s

-- The rest behind a prefix, if the text has it.
unfoldable pub strip_prefix : String → String → Option String
strip_prefix s [] = some s
strip_prefix [] (d ∷ p) = none
strip_prefix (c ∷ s) (d ∷ p) = if nat_eq (code c) (code d) then strip_prefix s p else none

unfoldable pub has_prefix : String → String → Bool
unfolding strip_prefix
has_prefix s p = is_some (strip_prefix s p)

unfoldable pub trim_prefix : String → String → String
unfolding strip_prefix
trim_prefix s p = Option.get_or (strip_prefix s p) s

-- What stands before a suffix, if the text has it.
unfoldable pub strip_suffix : String → String → Option String
strip_suffix [] p = if [] == p then some [] else none
strip_suffix (c ∷ s) p =
    let rest = strip_suffix s p in if (c ∷ s) == p then some [] else Option.map (λ r. c ∷ r) rest

unfoldable pub has_suffix : String → String → Bool
unfolding strip_suffix
has_suffix s p = is_some (strip_suffix s p)

unfoldable pub trim_suffix : String → String → String
unfolding strip_suffix
trim_suffix s p = Option.get_or (strip_suffix s p) s

abbrev cut_step : Char → Option (String × String) → Option (String × String)
cut_step c none = none
cut_step c (some (a, b)) = some (c ∷ a, b)

-- strings.Cut at the first occurrence of a one-byte separator.
unfoldable pub cut : ℕ → String → Option (String × String)
cut sep [] = none
cut sep (c ∷ s) =
    let rest = cut sep s in if nat_eq (code c) sep then some ([], s) else cut_step c rest

-- strings.Contains
unfoldable pub contains : String → String → Bool
unfolding has_prefix
contains [] p = has_prefix [] p
contains (c ∷ s) p = has_prefix (c ∷ s) p || contains s p

-- Some character of the text satisfies the test (strings.ContainsAny).
unfoldable pub any_code : (ℕ → Bool) → String → Bool
any_code p [] = false
any_code p (c ∷ s) = p (code c) || any_code p s

unfoldable pub all_codes : (ℕ → Bool) → String → Bool
all_codes p [] = true
all_codes p (c ∷ s) = p (code c) && all_codes p s

abbrev push_front : Char → List String → List String
push_front c List.[] = List.◌∷◌ (c ∷ []) List.[]
push_front c (List.◌∷◌ w ws) = List.◌∷◌ (c ∷ w) ws

-- strings.Split at a one-byte separator.
unfoldable pub split : ℕ → String → List String
split sep [] = List.◌∷◌ [] List.[]
split sep (c ∷ s) =
    let rest = split sep s in if nat_eq (code c) sep then List.◌∷◌ [] rest else push_front c rest

-- The code of the first character, 0 in the empty text.
abbrev pub first_code : String → ℕ
first_code [] = 0
first_code (c ∷ s) = code c

drop_slashes : String → String
drop_slashes [] = []
drop_slashes (c ∷ s) = let rest = drop_slashes s in if nat_eq (code c) b'/' then rest else c ∷ s

-- A slash is dropped only where nothing is left behind it.
keep_but_slash : Char → String → String
keep_but_slash c [] = if nat_eq (code c) b'/' then [] else c ∷ []
keep_but_slash c (d ∷ rest) = c ∷ d ∷ rest

drop_last_slashes : String → String
unfolding keep_but_slash
drop_last_slashes [] = []
drop_last_slashes (c ∷ s) = keep_but_slash c (drop_last_slashes s)

-- strings.Trim of slashes
unfoldable pub trim_slashes : String → String
unfolding drop_slashes drop_last_slashes
trim_slashes s = drop_last_slashes (drop_slashes s)
