-- ===== src/Users/Store/Steps.antt =====
-- The methods of the store as one step function, for statements about every method.
use unyport.Crypto.{Bcrypt}
use unyport.Common.{ℕ, String, List, [], ◌∷◌}
use unyport.Users.{User}
use unyport.Users.Store.{
  Result, ok, err, Store, Disk, Profile, add, delete_user, set_role, update_password,
  update_profile,
}

-- A call of a method that writes, with the salt and the disk that it meets.
pub data Call : Type 0 where
  adding : ℕ → Disk → User → Call
  deleting : Disk → String → Call
  setting_role : Disk → String → String → Call
  changing_password : ℕ → Disk → String → String → String → Call
  changing_profile : Disk → String → Profile → Call

-- The result without its value.
abbrev pub forget {ℓ} : {A : Type ℓ} → Result A × Store → Result (Unit {0}) × Store
forget (ok a, s) = (ok tt, s)
forget (err e, s) = (err e, s)

unfoldable pub perform : Bcrypt → Store → Call → Result (Unit {0}) × Store
perform b s (adding salt disk u) = add b salt disk s u
perform b s (deleting disk email) = delete_user disk s email
perform b s (setting_role disk email role) = set_role disk s email role
perform b s (changing_password salt disk email old_pwd new_pwd) =
    update_password b salt disk s email old_pwd new_pwd
perform b s (changing_profile disk email p) = forget (update_profile disk s email p)

-- The store after a sequence of calls, whatever each returned.
unfoldable pub perform_all : Bcrypt → Store → List Call → Store
unfolding perform
perform_all b s [] = s
perform_all b s (c ∷ rest) = perform_all b (perform b s c).1 rest
