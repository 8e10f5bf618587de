-- ===== src/Common/Text/Fields.antt =====
-- strings.FieldsFunc, strings.Fields, and strings.Trim of the characters that a test takes.
pub mod Laws
use Prim.Native.Nat.{ℕ}
use Prim.Native.Char.{Char, code}
use Prim.Native.String.{String, [], ◌∷◌}
use mathlib.Core.Bool.{Bool}
use mathlib.Core.List.{List}
use unyport.Common.Tests.{if◌then◌else◌}
use unyport.Common.Text.{is_space}

abbrev push_front : Char → List String → List String
push_front c List.[] = List.◌∷◌ (c ∷ []) List.[]
push_front c (List.◌∷◌ w ws) = List.◌∷◌ (c ∷ w) ws

-- The parts between the characters that the test takes, the empty ones included.
unfoldable parts : (ℕ → Bool) → String → List String
parts sep [] = List.◌∷◌ [] List.[]
parts sep (c ∷ s) =
    let rest = parts sep s in if sep (code c) then List.◌∷◌ [] rest else push_front c rest

abbrev unless_empty : String → List String → List String
unless_empty [] ws = ws
unless_empty (c ∷ w) ws = List.◌∷◌ (c ∷ w) ws

unfoldable filled_parts : List String → List String
filled_parts List.[] = List.[]
filled_parts (List.◌∷◌ w ws) = unless_empty w (filled_parts ws)

-- strings.FieldsFunc
unfoldable pub fields_func : (ℕ → Bool) → String → List String
unfolding parts filled_parts
fields_func sep s = filled_parts (parts sep s)

unfoldable pub fields : String → List String
unfolding fields_func is_space
fields s = fields_func is_space s

unfoldable drop_front : (ℕ → Bool) → String → String
drop_front taken [] = []
drop_front taken (c ∷ s) = let rest = drop_front taken s in if taken (code c) then rest else c ∷ s

abbrev unless_last : (ℕ → Bool) → Char → String → String
unless_last taken c [] = if taken (code c) then [] else c ∷ []
unless_last taken c (d ∷ rest) = c ∷ d ∷ rest

unfoldable drop_back : (ℕ → Bool) → String → String
drop_back taken [] = []
drop_back taken (c ∷ s) = unless_last taken c (drop_back taken s)

unfoldable pub trim_codes : (ℕ → Bool) → String → String
unfolding drop_front drop_back
trim_codes taken s = drop_back taken (drop_front taken s)
