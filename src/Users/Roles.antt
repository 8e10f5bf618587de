-- ===== src/Users/Roles.antt =====
-- Laws of roles and of addresses.
use unyport.Common.{◌≡◌, refl, inl, inr, String, true, List, [], ◌∷◌, Bool-cases}
use unyport.Common.Text.{trim_space, to_lower}
use unyport.Common.Text.Laws.{to_lower_idem, trim_space_idem, trim_space-to_lower}
use unyport.Users.{User, valid_role, normalize_email, role_of, role}

pub normalize_email_idem : (e : String) → normalize_email (normalize_email e) ≡ normalize_email e
unfolding normalize_email
normalize_email_idem e =
    rw (trim_space-to_lower (trim_space e), trim_space_idem e) (to_lower_idem (trim_space e))

-- The handlers lower before they trim: the same address.
pub normalize_email-trim_space : (e : String) → trim_space (to_lower e) ≡ normalize_email e
unfolding normalize_email
normalize_email-trim_space e = trim_space-to_lower e

-- Whatever the stored list of roles holds, the role of a user is one of the three.
pub role_valid : (u : User) → valid_role (role u) ≡ true
unfolding role
role_valid u = by_list u.roles
  where
    by_list : (rs : List String) → valid_role (role_of rs) ≡ true
    by_list [] = refl
    by_list (r ∷ rest) = elim (Bool-cases (valid_role (to_lower (trim_space r)))) [
      | inl h ↦ rw (h) h
      | inr h ↦ rw h refl
    ]
