-- ===== src/Users/Store/Profiles.antt =====
-- UpdateProfile of unyport/backend/auth/users.go, as later calls of Find see it.
use unyport.Common.{
  ◌≡◌, inl, inr, String, Bool, true, none, some, ◌==◌, eq_iff, eq_refl, arith, Bool-cases,
  Option-cases, if◌then◌else◌,
}
use unyport.Common.Dict.{
  lookup, delete, member, lookup-insert, lookup-insert_self, lookup-delete_self,
}
use unyport.Users.{User, normalize_email, looks_like_email}
use unyport.Users.Store.Wellformed.{IsWellformed}
use unyport.Users.Store.{
  update_found, Error, user_not_found, ok, err, Store, Disk, save_locked, saved, Profile, find,
  picture_error, update_profile,
}

-- Where the user is known, the old address looks like one and the form gives no new one: a
-- profile whose pictures are refused is reported as an error, and its name is stored all the
-- same, so that the next Find returns it.
pub update_profile_leak :
    (disk : Disk) (s : Store) (email : String) (p : Profile) (u : User) (e : Error)
    → find s email ≡ ok u
    → looks_like_email (normalize_email email) ≡ true
    → normalize_email p.email ≡ ""
    → picture_error p ≡ some e
    → ((update_profile disk s email p).0 ≡ err e)
      × (find (update_profile disk s email p).1 email
          ≡ ok (record u { display_name = p.display_name }))
unfolding update_profile find
update_profile_leak disk s email p u e known shaped same refused =
    elim (Option-cases (lookup (normalize_email email) s.users)) [
      | inl gone ↦ absurd (ground (arith, gone))
      | inr (v, found) ↦ ground (
        arith,
        found,
        eq_refl (normalize_email email),
        eq_iff (normalize_email p.email) "",
        lookup-insert_self (normalize_email email) (record v { display_name = p.display_name })
            s.users,
      )
    ]

-- What a successful UpdateProfile returns is what Find returns; the password, the roles and the
-- date of creation are the old ones, and after a change of address the old one is unknown.
pub record IsUpdated (s s' : Store) (email : String) (u' : User) (changed : Bool) : Type 0 where
  pub before : User
  pub known : find s email ≡ ok before
  pub password : u'.password ≡ before.password
  pub roles : u'.roles ≡ before.roles
  pub created_at : u'.created_at ≡ before.created_at
  pub shaped : looks_like_email u'.email ≡ true
  pub stored : lookup u'.email s'.users ≡ some u'
  pub moved :
      changed ≡ true → (lookup u'.email s.users ≡ none) × (find s' email ≡ err user_not_found)

-- The last part of UpdateProfile, from a user that is stored under its own key.
update_found-IsUpdated :
    (disk : Disk) (s s' : Store) (email new_key : String) (p : Profile) (u u' : User)
    (changed : Bool)
    → lookup (normalize_email email) s.users ≡ some u
    → u.email ≡ normalize_email email
    → looks_like_email new_key ≡ true
    → update_found disk s (normalize_email email) new_key p (some u) ≡ (ok (u', changed), s')
    → IsUpdated s s' email u' changed
unfolding find save_locked member
update_found-IsUpdated saved s s' email new_key p u u' changed found own shaped h =
    let key = normalize_email email in
    elim (Option-cases (picture_error p)) [
      | inr (e, refused) ↦ absurd (ground (arith, refused))
      | inl fine ↦ elim (Bool-cases (new_key == key)) [
        | inl same ↦ record {
          before = u;
          known = ground (arith, found);
          password = ground (arith, fine, same);
          roles = ground (arith, fine, same);
          created_at = ground (arith, fine, same);
          shaped = ground (arith, fine, same, eq_iff new_key key);
          stored = ground (arith, fine, same, lookup-insert key key u' s.users, eq_refl key);
          moved = λ c. absurd (ground (arith, fine, same, c));
        }
        | inr other ↦ record {
          before = u;
          known = ground (arith, found);
          password = ground (arith, fine, other);
          roles = ground (arith, fine, other);
          created_at = ground (arith, fine, other);
          shaped = ground (arith, fine, other);
          stored = ground (arith, fine, other, lookup-insert_self new_key u' (delete key s.users));
          moved = λ c. (
            ground (arith, fine, other),
            ground (
              arith,
              fine,
              other,
              lookup-insert new_key key u' (delete key s.users),
              lookup-delete_self key s.users,
              eq_iff new_key key,
            ),
          );
        }
      ]
    ]
update_found-IsUpdated _ s s' email new_key p u u' changed found own shaped h =
    absurd (ground arith)

-- When UpdateProfile succeeds on a well-formed store, the user was known, keeps the password, the
-- roles and the date, has an address that looks like one, and is stored under it; if the address
-- changed, the new one was free and the old one finds nobody.
pub update_profile-IsUpdated :
    (disk : Disk) (s s' : Store) (email : String) (p : Profile) (u' : User) (changed : Bool)
    → IsWellformed s.users
    → update_profile disk s email p ≡ (ok (u', changed), s')
    → IsUpdated s s' email u' changed
unfolding update_profile
update_profile-IsUpdated disk s s' email p u' changed wf h =
    let key = normalize_email email in
    let given = normalize_email p.email in
    let new_key : String = if given == "" then key else given in
    elim (Bool-cases (looks_like_email new_key)) [
      | inr odd ↦ absurd (ground (arith, odd))
      | inl shaped ↦ elim (Option-cases (lookup key s.users)) [
        | inl gone ↦ absurd (ground (arith, shaped, gone))
        | inr (u, found) ↦
            update_found-IsUpdated disk s s' email new_key p u u' changed found
              (wf.stored key u found).own_key shaped (rw (shaped, found) at h)
      ]
    ]
