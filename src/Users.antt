-- ===== src/Users.antt =====
-- The users of unyport/backend/auth/users.go: their data, their roles and how they are shown.
-- A `*User` of the store's map is shared with the caller of Find; the handlers only read it, so
-- it is a value here.
pub mod Store
pub mod Roles
use Prim.Native.Char.{Char}
use Prim.Native.String.{len, count, [], ◌∷◌}
use unyport.Crypto.{Bcrypt}
use unyport.Common.{
  ℕ, suc, ◌+◌, String, code, Bool, true, false, not, ◌&&◌, ◌||◌, Option, none, some, List, ◌==◌,
  nat_eq, if◌then◌else◌, any,
}
use mathlib.Core.List
use unyport.Common.Text.{trim_space, to_lower, to_upper, contains, split, cut}

pub record User : Type 0 where
  pub id : String
  pub email : String
  pub password : String
  pub roles : List String
  pub display_name : String
  pub avatar : String
  pub photo_url : String
  pub ssh_key : String
  pub two_fa : Bool
  pub created_at : ℕ

-- ValidRoles
unfoldable pub valid_role : String → Bool
valid_role r = r == "admin" || r == "operator" || r == "viewer"

abbrev pub default_admin_email : String
default_admin_email = "demo@unyport.app"

abbrev pub default_admin_password : String
default_admin_password = "aUniC0rnForUnyPort!"

unfoldable pub normalize_email : String → String
normalize_email email = to_lower (trim_space email)

-- The branch of Role on the first entry of the list.
unfoldable pub role_of : List String → String
unfolding valid_role
role_of List.[] = "viewer"
role_of (List.◌∷◌ r rest) =
    let role = to_lower (trim_space r) in if valid_role role then role else "viewer"

-- (*User).Role
unfoldable pub role : User → String
unfolding role_of
role u = role_of u.roles

-- (*User).HasRole
unfoldable pub has_role : User → String → Bool
has_role u r = any (λ x. x == r) u.roles

-- (*User).IsAdmin
unfoldable pub is_admin : User → Bool
unfolding has_role
is_admin u = has_role u "admin"

-- (*User).IsAtLeastOperator
unfoldable pub is_at_least_operator : User → Bool
unfolding has_role
is_at_least_operator u = has_role u "admin" || has_role u "operator"

abbrev local_part : Option (String × String) → String → String
local_part none email = email
local_part (some (before, after)) email = before

-- (*User).EffectiveDisplayName
unfoldable pub effective_display_name : User → String
effective_display_name u =
    if u.display_name == "" then local_part (cut b'@' u.email) u.email else u.display_name

abbrev first_rune : String → String
first_rune [] = "?"
first_rune (c ∷ s) = to_upper (c ∷ [])

-- (*User).EffectiveAvatar
unfoldable pub effective_avatar : User → String
unfolding effective_display_name
effective_avatar u =
    if u.avatar == "" then first_rune (trim_space (effective_display_name u)) else u.avatar

-- (*User).UsesDefaultCredentials
unfoldable pub uses_default_credentials : Bcrypt → User → Bool
uses_default_credentials b u =
    normalize_email u.email == default_admin_email && b.matches u.password default_admin_password

count_code : ℕ → String → ℕ
count_code c [] = 0
count_code c (d ∷ s) = if nat_eq (code d) c then suc (count_code c s) else count_code c s

-- parts[0] != "" && strings.Contains(parts[1], ".")
abbrev parts_ok : List String → Bool
parts_ok (List.◌∷◌ local (List.◌∷◌ domain rest)) = not (local == "") && contains domain "."
parts_ok _ = false

-- looksLikeEmail
unfoldable pub looks_like_email : String → Bool
unfolding count_code
looks_like_email email =
    if nat_eq (count_code b'@' email) 1 then parts_ok (split b'@' email) else false
