-- ===== src/Users/Store.antt =====
-- The user store of unyport/backend/auth/users.go. Every method runs under the store's mutex, so
-- a method is one step: it returns its result and the new state, on an error too.
pub mod Load
pub mod Steps
pub mod Wellformed
pub mod Effects
pub mod Profiles
pub mod Additions
pub mod Transactions
use Prim.Native.String.{len, count}
use unyport.Crypto.{Bcrypt}
use unyport.Common.{
  ℕ, ◌*◌, String, Bool, true, false, not, ◌&&◌, ◌||◌, Option, none, some, List, [], ◌∷◌, map, ◌==◌,
  ltb, if◌then◌else◌,
}
use unyport.Common.Dict.{Dict, lookup, insert, delete, member}
use unyport.Common.Text.{trim_space, to_lower, has_prefix}
use unyport.Users.{
  User, valid_role, role, normalize_email, looks_like_email, default_admin_email,
  default_admin_password,
}

pub data Error : Type 0 where
  user_not_found email_required user_already_exists password_too_short hash_failed : Error
  email_invalid email_already_exists avatar_too_long photo_too_large photo_bad_scheme : Error
  wrong_password invalid_role save_failed file_unreadable file_malformed : Error

pub data Result {ℓ} (A : Type ℓ) : Type ℓ where
  ok : A → Result A
  err : Error → Result A

-- `file` is the content of users.json, if the file is there.
pub record Store : Type 0 where
  pub users : Dict User
  pub file : Option (Dict User)

-- What the file system does during one saveLocked: the step that fails, if one does.
pub data Disk : Type 0 where
  saved mkdir_failed create_failed encode_failed rename_failed : Disk

-- saveLocked: the rename is the last step, so a failure leaves the old file.
unfoldable pub save_locked : Disk → Store → Result (Unit {0}) × Store
save_locked saved s = (ok tt, record s { file = some s.users })
save_locked mkdir_failed s = (err save_failed, s)
save_locked create_failed s = (err save_failed, s)
save_locked encode_failed s = (err save_failed, s)
save_locked rename_failed s = (err save_failed, s)

abbrev or_not_found : Option User → Result User
or_not_found none = err user_not_found
or_not_found (some u) = ok u

-- Find
unfoldable pub find : Store → String → Result User
find s email = or_not_found (lookup (normalize_email email) s.users)

-- List
unfoldable pub list : Store → List User
list s = map (λ e. e.1) s.users

abbrev with_users : Store → Dict User → Store
with_users s m = record s { users = m }

abbrev default_roles : User → User
default_roles u = if not (valid_role (role u)) then record u { roles = "viewer" ∷ [] } else u

abbrev store_new : Disk → Store → User → Result (Unit {0}) × Store
store_new disk s u =
    let u' = default_roles u in save_locked disk (with_users s (insert u'.email u' s.users))

abbrev store_hashed : Disk → Store → User → Option String → Result (Unit {0}) × Store
store_hashed disk s u none = (err hash_failed, s)
store_hashed disk s u (some hash) = store_new disk s (record u { password = hash })

abbrev rehash : Disk → Store → String → User → Option String → Result (Unit {0}) × Store
rehash disk s key u none = (err hash_failed, s)
rehash disk s key u (some hash) =
    save_locked disk (with_users s (insert key (record u { password = hash }) s.users))

module _ (b : Bcrypt) where
  abbrev change_password :
      ℕ → Disk → Store → String → String → String → Option User → Result (Unit {0}) × Store
  change_password salt disk s key old_pwd new_pwd none = (err user_not_found, s)
  change_password salt disk s key old_pwd new_pwd (some u) =
      if b.matches u.password old_pwd
      then rehash disk s key u (b.generate salt new_pwd)
      else (err wrong_password, s)

  -- Add
  unfoldable pub add : ℕ → Disk → Store → User → Result (Unit {0}) × Store
  unfolding save_locked
  add salt disk s new =
      let email = normalize_email new.email in
      let u = record new { email = email; id = if new.id == "" then email else new.id } in
      if email == ""
      then (err email_required, s)
      else if member email s.users
      then (err user_already_exists, s)
      else if u.password == ""
      then store_new disk s u
      else if ltb (len u.password) 8
      then (err password_too_short, s)
      else store_hashed disk s u (b.generate salt u.password)

  -- UpdatePassword
  unfoldable pub update_password :
      ℕ → Disk → Store → String → String → String → Result (Unit {0}) × Store
  unfolding save_locked
  update_password salt disk s email old_pwd new_pwd =
      if ltb (len new_pwd) 8
      then (err password_too_short, s)
      else change_password salt disk s (normalize_email email) old_pwd new_pwd
          (lookup (normalize_email email) s.users)

-- Delete
unfoldable pub delete_user : Disk → Store → String → Result (Unit {0}) × Store
unfolding save_locked
delete_user disk s email =
    let key = normalize_email email in
    if member key s.users
    then save_locked disk (with_users s (delete key s.users))
    else (err user_not_found, s)

abbrev pub assign_role : Disk → Store → String → String → Option User → Result (Unit {0}) × Store
assign_role disk s key role none = (err user_not_found, s)
assign_role disk s key role (some u) =
    save_locked disk (with_users s (insert key (record u { roles = role ∷ [] }) s.users))

-- SetRole
unfoldable pub set_role : Disk → Store → String → String → Result (Unit {0}) × Store
unfolding save_locked
set_role disk s email new_role =
    let role = to_lower (trim_space new_role) in
    let key = normalize_email email in
    if valid_role role
    then assign_role disk s key role (lookup key s.users)
    else (err invalid_role, s)

-- The fields of a profile form.
pub record Profile : Type 0 where
  pub email : String
  pub display_name : String
  pub avatar : String
  pub photo_url : String
  pub ssh_key : String

abbrev pub max_photo_bytes : ℕ
max_photo_bytes = 2 * 1024 * 1024

-- The checks that UpdateProfile makes on the picture fields.
unfoldable pub picture_error : Profile → Option Error
picture_error p =
    if ltb 2 (count p.avatar)
    then some avatar_too_long
    else if p.photo_url == ""
    then none
    else if ltb max_photo_bytes (len p.photo_url)
    then some photo_too_large
    else if not (has_prefix p.photo_url "https://") && not (has_prefix p.photo_url "data:image/")
    then some photo_bad_scheme
    else none

abbrev with_save : User × Bool → Result (Unit {0}) × Store → Result (User × Bool) × Store
with_save r (ok _, s) = (ok r, s)
with_save r (err e, s) = (err e, s)

-- The user moves to the key of the new address, if that changed.
abbrev move_user : String → String → User → Dict User → Dict User
move_user key new_key u m =
    if new_key == key then insert key u m else insert new_key u (delete key m)

-- The writes of UpdateProfile once the pictures have been checked; `u` already has the new name.
abbrev apply_profile :
    Disk → Store → String → String → User → Profile → Option Error → Result (User × Bool) × Store
apply_profile disk s key new_key u p (some e) = (err e, with_users s (insert key u s.users))
apply_profile disk s key new_key u p none =
    let moved : User = if new_key == key then u else record u { email = new_key; id = new_key } in
    let u' : User = record moved {
      avatar = p.avatar;
      photo_url = p.photo_url;
      ssh_key = p.ssh_key;
    } in
    with_save (u', not (new_key == key))
      (save_locked disk (with_users s (move_user key new_key u' s.users)))

abbrev update_found :
    Disk → Store → String → String → Profile → Option User → Result (User × Bool) × Store
update_found disk s key new_key p none = (err user_not_found, s)
update_found disk s key new_key p (some u) =
    if not (new_key == key) && member new_key s.users
    then (err email_already_exists, s)
    -- the name is written to the shared user before the pictures are checked
    else apply_profile disk s key new_key (record u { display_name = p.display_name }) p
        (picture_error p)

-- UpdateProfile
unfoldable pub update_profile : Disk → Store → String → Profile → Result (User × Bool) × Store
unfolding save_locked
update_profile disk s email p =
    let key = normalize_email email in
    let given = normalize_email p.email in
    let new_key = if given == "" then key else given in
    if looks_like_email new_key
    then update_found disk s key new_key p (lookup key s.users)
    else (err email_invalid, s)
