-- ===== src/Users/Store/Transactions.antt =====
-- What a call of a method leaves of the store and of users.json when it fails.
use unyport.Crypto.{Bcrypt}
use unyport.Common.{
  ℕ, ◌≡◌, refl, String, Bool, true, false, Option, none, some, arith, if◌then◌else◌,
}
use unyport.Common.Dict.{Dict}
use unyport.Users.{User}
use unyport.Users.Store.{
  Error, save_failed, avatar_too_long, photo_too_large, photo_bad_scheme, Result, ok, err, Store,
  Disk, save_locked, saved, Profile, add, delete_user, set_role, assign_role, store_hashed, rehash,
  change_password, update_password, with_save, picture_error, apply_profile, update_found,
  update_profile, with_users, hash_failed, user_not_found,
}
use unyport.Users.Store.Steps.{
  forget, Call, adding, deleting, setting_role, changing_password, changing_profile, perform,
}

-- The errors that are found after the first write.
abbrev pub is_late : Error → Bool
is_late save_failed = true
is_late avatar_too_long = true
is_late photo_too_large = true
is_late photo_bad_scheme = true
is_late _ = false

pub record IsTransaction {A : Type 0} (s : Store) (r : Result A × Store) : Type 0 where
  -- an early error leaves the users as they were
  pub early : (e : Error) → r.0 ≡ err e → is_late e ≡ false → r.1 ≡ s
  -- no error touches the file
  pub file_kept : (e : Error) → r.0 ≡ err e → r.1.file ≡ s.file
  -- a success has written all users to the file
  pub durable : (a : A) → r.0 ≡ ok a → r.1.file ≡ some r.1.users

module _ (s : Store) where
  IsTransaction-if :
      {A : Type 0} (b : Bool) (x y : Result A × Store)
      → (b ≡ true → IsTransaction s x)
      → (b ≡ false → IsTransaction s y)
      → IsTransaction s (if b then x else y)
  IsTransaction-if true x y kx ky = kx refl
  IsTransaction-if false x y kx ky = ky refl

  IsTransaction-same : {A : Type 0} (e : Error) → IsTransaction {A = A} s (err e, s)
  IsTransaction-same e = record {
    early = λ _ _ _. refl;
    file_kept = λ _ _. refl;
    durable = λ a h. cc;
  }

  IsTransaction-save :
      (disk : Disk) (m : Dict User) → IsTransaction s (save_locked disk (with_users s m))
  unfolding save_locked
  IsTransaction-save saved m = record {
    early = λ e h _. cc;
    file_kept = λ e h. cc;
    durable = λ a h. refl;
  }
  IsTransaction-save _ m = record {
    early = λ e h late. ground arith;
    file_kept = λ e h. refl;
    durable = λ a h. cc;
  }

  IsTransaction-store_hashed :
      (disk : Disk) (u : User) (o : Option String) → IsTransaction s (store_hashed disk s u o)
  IsTransaction-store_hashed disk u none = IsTransaction-same hash_failed
  IsTransaction-store_hashed disk u (some hash) = IsTransaction-save disk _

  IsTransaction-assign_role :
      (disk : Disk) (key role : String) (o : Option User)
      → IsTransaction s (assign_role disk s key role o)
  IsTransaction-assign_role disk key role none = IsTransaction-same user_not_found
  IsTransaction-assign_role disk key role (some u) = IsTransaction-save disk _

  IsTransaction-rehash :
      (disk : Disk) (key : String) (u : User) (o : Option String)
      → IsTransaction s (rehash disk s key u o)
  IsTransaction-rehash disk key u none = IsTransaction-same hash_failed
  IsTransaction-rehash disk key u (some hash) = IsTransaction-save disk _

  IsTransaction-change_password :
      (b : Bcrypt) (salt : ℕ) (disk : Disk) (key old_pwd new_pwd : String) (o : Option User)
      → IsTransaction s (change_password b salt disk s key old_pwd new_pwd o)
  IsTransaction-change_password b salt disk key old_pwd new_pwd none =
      IsTransaction-same user_not_found
  IsTransaction-change_password b salt disk key old_pwd new_pwd (some u) =
      search (IsTransaction-if, IsTransaction-same, IsTransaction-rehash)

  IsTransaction-with_save :
      (r : User × Bool) (m : Result (Unit {0}) × Store)
      → IsTransaction s m
      → IsTransaction s (with_save r m)
  IsTransaction-with_save r (ok a, t) k = record {
    early = λ e h _. cc;
    file_kept = λ e h. cc;
    durable = λ a h. k.durable tt refl;
  }
  IsTransaction-with_save r (err e, t) k = record {
    early = λ e' h late. k.early e' (cc) late;
    file_kept = λ e' h. k.file_kept e refl;
    durable = λ a h. cc;
  }

picture_error-is_late : (p : Profile) (e : Error) → picture_error p ≡ some e → is_late e ≡ true
unfolding picture_error
picture_error-is_late p e h = ground arith

IsTransaction-apply_profile :
    (s : Store) (disk : Disk) (key new_key : String) (u : User) (p : Profile) (o : Option Error)
    → ((e : Error) → o ≡ some e → is_late e ≡ true)
    → IsTransaction s (apply_profile disk s key new_key u p o)
IsTransaction-apply_profile s disk key new_key u p (some e) late = record {
  early = λ e' h early. ground (arith, late e refl);
  file_kept = λ e' h. refl;
  durable = λ a h. cc;
}
IsTransaction-apply_profile s disk key new_key u p none late =
    IsTransaction-with_save s _ _ (IsTransaction-save s disk _)

IsTransaction-update_found :
    (s : Store) (disk : Disk) (key new_key : String) (p : Profile) (o : Option User)
    → IsTransaction s (update_found disk s key new_key p o)
IsTransaction-update_found s disk key new_key p none = IsTransaction-same s user_not_found
IsTransaction-update_found s disk key new_key p (some u) =
    let named =
      IsTransaction-apply_profile s disk key new_key (record u { display_name = p.display_name }) p
        (picture_error p) (picture_error-is_late p) in
    search (IsTransaction-if, IsTransaction-same, named)

IsTransaction-update_profile :
    (s : Store) (disk : Disk) (email : String) (p : Profile)
    → IsTransaction s (update_profile disk s email p)
unfolding update_profile
IsTransaction-update_profile s disk email p =
    search (IsTransaction-if, IsTransaction-same, IsTransaction-update_found)

IsTransaction-forget :
    {A : Type 0} (s : Store) (r : Result A × Store) → IsTransaction s r → IsTransaction s (forget r)
IsTransaction-forget s (ok a, t) k = record {
  early = λ e h _. cc;
  file_kept = λ e h. cc;
  durable = λ _ h. k.durable a refl;
}
IsTransaction-forget s (err e, t) k = record {
  early = λ e' h late. k.early e' (cc) late;
  file_kept = λ e' h. k.file_kept e refl;
  durable = λ _ h. cc;
}

ruleset transaction_rules = (
  IsTransaction-if, IsTransaction-same, IsTransaction-save, IsTransaction-store_hashed,
  IsTransaction-assign_role, IsTransaction-change_password,
)

-- Every call of a method: if it succeeds, users.json holds all the users of the store; if it
-- fails, users.json is as it was, and so is the store, unless the error is a failed save or a
-- refused picture of a profile.
pub perform-IsTransaction : (b : Bcrypt) (s : Store) (c : Call) → IsTransaction s (perform b s c)
unfolding perform add delete_user set_role update_password
perform-IsTransaction b s (adding salt disk u) = search transaction_rules depth 8
perform-IsTransaction b s (deleting disk email) = search transaction_rules
perform-IsTransaction b s (setting_role disk email role) = search transaction_rules
perform-IsTransaction b s (changing_password salt disk email old_pwd new_pwd) =
    search transaction_rules
perform-IsTransaction b s (changing_profile disk email p) =
    IsTransaction-forget s _ (IsTransaction-update_profile s disk email p)
