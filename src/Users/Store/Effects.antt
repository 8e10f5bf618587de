-- ===== src/Users/Store/Effects.antt =====
-- What the methods of the store do when they succeed, as later calls of Find see it.
use unyport.Crypto.{Bcrypt}
use unyport.Common.{
  ℕ, ◌≤◌, ◌≡◌, refl, inl, inr, String, true, List, [], ◌∷◌, ◌==◌, arith, Option-cases,
  if◌then◌else◌,
}
use Prim.Native.String.{len}
use unyport.Common.Dict.{lookup, lookup-insert, lookup-delete}
use unyport.Common.Text.{trim_space, to_lower}
use unyport.Users.{User, normalize_email}
use unyport.Users.Store.{
  user_not_found, Result, ok, err, Store, Disk, save_locked, saved, find, delete_user, set_role,
  update_password,
}

-- A save changes no user, whether it succeeds or not.
pub lookup-save_locked :
    (disk : Disk) (s : Store) (id : String)
    → lookup id (save_locked disk s).1.users ≡ lookup id s.users
unfolding save_locked
lookup-save_locked saved s id = refl
lookup-save_locked _ s id = refl

abbrev pub with_roles : List String → Result User → Result User
with_roles rs (ok u) = ok (record u { roles = rs })
with_roles rs (err e) = err e

-- When SetRole succeeds, the named user has the one role, trimmed and lowered, and Find returns
-- everybody else as before.
pub find-set_role :
    (disk : Disk) (s s' : Store) (email new_role j : String)
    → set_role disk s email new_role ≡ (ok tt, s')
    → find s' j ≡ (
        if normalize_email email == normalize_email j
        then with_roles (to_lower (trim_space new_role) ∷ []) (find s email)
        else find s j)
unfolding set_role save_locked find
find-set_role saved s s' email new_role j h =
    let key = normalize_email email in
    elim (Option-cases (lookup key s.users)) [
      | inl gone ↦ ground arith
      | inr (u, found) ↦
          let u' : User = record u { roles = to_lower (trim_space new_role) ∷ [] } in
          ground (arith, found, lookup-insert key (normalize_email j) u' s.users)
    ]
find-set_role _ s s' email new_role j h = ground arith

-- When Delete succeeds, Find does not find the named user and returns everybody else as before.
pub find-delete_user :
    (disk : Disk) (s s' : Store) (email j : String)
    → delete_user disk s email ≡ (ok tt, s')
    → find s' j
      ≡ (if normalize_email email == normalize_email j then err user_not_found else find s j)
unfolding delete_user save_locked find
find-delete_user saved s s' email j h =
    ground (arith, lookup-delete (normalize_email email) (normalize_email j) s.users)
find-delete_user _ s s' email j h = ground arith

abbrev pub with_password : String → Result User → Result User
with_password h (ok u) = ok (record u { password = h })
with_password h (err e) = err e

-- What a successful UpdatePassword has checked and done.
pub record IsRehashed (b : Bcrypt) (s s' : Store) (email old_pwd new_pwd : String) : Type 0 where
  pub user : User
  pub hash : String
  pub known : find s email ≡ ok user
  pub long_enough : 8 ≤ len new_pwd
  pub old_matched : b.matches user.password old_pwd ≡ true
  pub new_matches : b.matches hash new_pwd ≡ true
  pub others :
      (j : String)
      → find s' j ≡ (
          if normalize_email email == normalize_email j
          then ok (record user { password = hash })
          else find s j)

-- UpdatePassword succeeds only with the current password and a new one of eight bytes or more;
-- afterwards the new password matches, and nothing else of any user has changed.
pub update_password-IsRehashed :
    (b : Bcrypt) (salt : ℕ) (disk : Disk) (s s' : Store) (email old_pwd new_pwd : String)
    → update_password b salt disk s email old_pwd new_pwd ≡ (ok tt, s')
    → IsRehashed b s s' email old_pwd new_pwd
unfolding update_password save_locked find
update_password-IsRehashed b salt saved s s' email old_pwd new_pwd h =
    let key = normalize_email email in
    elim (Option-cases (lookup key s.users)) [
      | inl gone ↦ absurd (ground (arith, gone))
      | inr (u, found) ↦ elim (Option-cases (b.generate salt new_pwd)) [
        | inl failed ↦ absurd (ground (arith, found, failed))
        | inr (hash, made) ↦ record {
          user = u;
          hash = hash;
          known = ground (arith, found);
          long_enough = ground (arith, found, made);
          old_matched = ground (arith, found, made);
          new_matches = b.matches-generate salt new_pwd hash made;
          others = λ j. ground (
            arith,
            found,
            made,
            lookup-insert key (normalize_email j) (record u { password = hash }) s.users,
          );
        }
      ]
    ]
update_password-IsRehashed b salt _ s s' email old_pwd new_pwd h = absurd (ground arith)
